-- ===== src/Renderer/Failing.antt =====
-- A playlist of which no clip can be played: the error policy tries each once, and stops.
use mafw.Common.{
  ℕ, zero, suc, ◌+◌, ◌-◌, ◌≤◌, ◌<◌, false, ◌≡◌, refl, ◌∙◌, ap, subst, sym, ◌⊎◌, inl, inr, Option,
  some, List, [], ◌∷◌, arith, u32, int_limit, if_false,
}
use mafw.Iterator.Types.{Error, Iterator, Moved}
use mafw.Iterator.Operations.{mafw_playlist_iterator_move_to_next}
use mafw.Renderer.Types.{stopped, GError, Renderer, Host, call}
use mafw.Renderer.States.{policy_is_stop}
use mafw.Renderer.Policy.{
  is_out_of_memory, emit_error, mafw_gst_renderer_stop, retry, play_next, policy_in,
  run_error_policy, manage_error,
}
use mafw.Renderer.Machine.{Command, worker_error, perform, run}
use mafw.Renderer.Trying.{Trying, get_size_lem, next-KeepsSize, retry-Next}

-- The same error again and again.
unfoldable pub errors : GError → ℕ → List Command
errors e zero = []
errors e (suc k) = worker_error e ∷ errors e k

module _ {S : Type 0} (h : Host S) (n : ℕ) (small : n < int_limit) where
  next_clip : Moved S → Renderer S → Renderer S
  next_clip m r = record r {
    iterator = m.iterator;
    playlist = some m.playlist;
    play_failed_count = u32 (r.play_failed_count + 1);
  }

  next_clip-Trying :
      (c : ℕ) (r : Renderer S) (s : S)
      → Trying n c r
      → c < n
      → Trying n (c + 1) (next_clip (mafw_playlist_iterator_move_to_next h.ops r.iterator s) r)
  unfolding next_clip
  next_clip-Trying c r s t lt =
      let keeps = next-KeepsSize h n small r.iterator s in
      record {
        mode = t.mode;
        policy = t.policy;
        list = (mafw_playlist_iterator_move_to_next h.ops r.iterator s).playlist;
        has_list = refl;
        attached = keeps.0 ∙ t.attached;
        size = keeps.1 ∙ t.size;
        count = omega (arith, t.count);
      }

  play_next_lem :
      (c : ℕ) (e : GError) (r : Renderer S) (s : S)
      → Trying n c r
      → let m = mafw_playlist_iterator_move_to_next h.ops r.iterator s in
        play_next h e r (some s) ≡ (retry h m.result n (next_clip m r), some e)
  unfolding play_next next_clip
  play_next_lem c e r s t =
      let m = mafw_playlist_iterator_move_to_next h.ops r.iterator s in
      let keeps = next-KeepsSize h n small r.iterator s in
      ap
        (λ (sized : Iterator × ℕ × Option Error). (
          retry h m.result sized.1 (record r {
            iterator = sized.0;
            playlist = some m.playlist;
            play_failed_count = u32 (r.play_failed_count + 1);
          }),
          some e,
        ))
        (get_size_lem h n small m.iterator m.playlist (keeps.0 ∙ t.attached) (keeps.1 ∙ t.size))

  run_error_policy_lem :
      (c : ℕ) (e : GError) (r : Renderer S)
      → is_out_of_memory e ≡ false
      → (t : Trying n c r) → run_error_policy h e r ≡ play_next h e r (some t.list)
  unfolding run_error_policy policy_in
  run_error_policy_lem c e r o t =
      if_false (is_out_of_memory e) (mafw_gst_renderer_stop h r, some e)
        (policy_in h r.playback_mode e r) o
      ∙ ap (λ k. policy_in h k e r) t.mode
      ∙ if_false (policy_is_stop r.error_policy) (mafw_gst_renderer_stop h r, some e)
          (play_next h e r r.playlist) t.policy
      ∙ ap (play_next h e r) t.has_list

  -- One error: the renderer stops, or tries the next clip if one is left.
  manage_error-Next :
      (c : ℕ) (e : GError) (r : Renderer S)
      → is_out_of_memory e ≡ false
      → Trying n c r
      → c < n
      → ((manage_error h e r).current_state ≡ stopped)
        ⊎ ((c + 1 < n) × Trying n (c + 1) (manage_error h e r))
  unfolding manage_error emit_error call
  manage_error-Next c e r o t lt =
      let m = mafw_playlist_iterator_move_to_next h.ops r.iterator t.list in
      let q = retry h m.result n (next_clip m r) in
      let P =
        λ (k : Renderer S). (k.current_state ≡ stopped) ⊎ ((c + 1 < n) × Trying n (c + 1) k) in
      subst P (sym (ap emit_error (run_error_policy_lem c e r o t ∙ play_next_lem c e r t.list t)))
        (elim (retry-Next h n small (c + 1) m.result (next_clip m r)
          (next_clip-Trying c r t.list t lt)) [
            | inl k ↦ inl k
            | inr (less, k) ↦ inr (
              less,
              record {
                mode = k.mode;
                policy = k.policy;
                list = k.list;
                has_list = k.has_list;
                attached = k.attached;
                size = k.size;
                count = k.count;
              },
            )
          ])

  -- A number of errors at most `most`, after which the renderer is stopped.
  abbrev pub StopsWithin : GError → ℕ → Renderer S → Type 0
  StopsWithin e most r =
      (k : ℕ) × (k ≤ most)
      × ((fuel : ℕ)
          → (q : Renderer S) × (run h fuel (errors e k) r ≡ some q) × (q.current_state ≡ stopped))

  stops :
      (left c : ℕ) (e : GError) (r : Renderer S)
      → is_out_of_memory e ≡ false
      → Trying n c r
      → c + suc left ≡ n
      → StopsWithin e (suc left) r
  unfolding errors run perform
  stops zero c e r o t eq = elim (manage_error-Next c e r o t (omega arith)) [
    | inl k ↦ (1, omega arith, λ fuel. (manage_error h e r, refl, k))
    | inr (less, k) ↦ absurd (omega arith)
  ]
  stops (suc left) c e r o t eq = elim (manage_error-Next c e r o t (omega arith)) [
    | inl k ↦ (1, omega arith, λ fuel. (manage_error h e r, refl, k))
    | inr (less, k) ↦
        let (j, few, f) = stops left (c + 1) e (manage_error h e r) o k (omega arith) in
        (suc j, omega arith, f)
  ]

  -- If the policy is to go on, the error does not have the code of out of memory, and `c` of the `n` clips of the
  -- playlist that is played (n below 2^31, known to the iterator) failed in a row, then after at
  -- most n - c errors more the renderer is stopped.
  pub errors_stop :
      (c : ℕ) (e : GError) (r : Renderer S)
      → is_out_of_memory e ≡ false
      → Trying n c r
      → c < n
      → StopsWithin e (n - c) r
  errors_stop c e r o t lt =
      subst (λ k. StopsWithin e k r) (omega arith) (stops (n - c - 1) c e r o t (omega arith))
