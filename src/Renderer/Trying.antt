-- ===== src/Renderer/Trying.antt =====
-- What the error policy's steps do while a playlist is tried.
use mafw.Common.{
  ℕ, ◌<◌, true, false, ◌≡◌, refl, ◌∙◌, ap, subst, sym, ◌⊎◌, inl, inr, Option, none, some, arith,
  leb, int_limit, if_elim,
}
use mafw.Aplaylist.Types.{Text}
use mafw.Aplaylist.Play.{Clip}
use mafw.Iterator.Types.{
  Error, Iterator, Moved, MovementResult, move_ok, move_limit, move_invalid, move_error,
}
use mafw.Iterator.Operations.{
  set_data, step_to, move_to_next_in_direction, mafw_playlist_iterator_move_to_next,
  mafw_playlist_iterator_get_size,
}
use mafw.Renderer.Types.{
  PlayState, stopped, playing, paused, transitioning, PlaybackMode, mode_playlist, mode_standalone,
  Renderer, Host, call, worker_stop,
}
use mafw.Renderer.Media.{
  set_state, set_media_playlist, playlist_media, signal_media_changed, get_metadata,
}
use mafw.Renderer.Playback.{
  to_playlist_mode, play_media, do_play, do_stop, cancel_update, state_stop, state_play, rewind,
}
use mafw.Renderer.States.{policy_is_stop}
use mafw.Renderer.Policy.{mafw_gst_renderer_stop, retry_from, retry}

-- The playlist has `n` clips, and `c` of them were tried.
pub record Trying {S : Type 0} (n c : ℕ) (r : Renderer S) : Type 0 where
  pub mode : r.playback_mode ≡ mode_playlist
  pub policy : policy_is_stop r.error_policy ≡ false
  pub list : S
  pub has_list : r.playlist ≡ some list
  pub attached : r.iterator.has_playlist ≡ true
  pub size : r.iterator.size ≡ n
  pub count : r.play_failed_count ≡ c

-- A stop reaches the stopped state.
pub state_stop_state :
    {S : Type 0} (h : Host S) (r : Renderer S)
    → (state_stop h r.current_state r).current_state ≡ stopped
unfolding state_stop do_stop to_playlist_mode set_media_playlist signal_media_changed set_state
    cancel_update call
state_stop_state {S = S} h r = go r.current_state refl
  where
    back :
        (mode : PlaybackMode) (q : Renderer S)
        → q.current_state ≡ stopped
        → (to_playlist_mode h q mode).current_state ≡ stopped
    back mode_playlist q e = e
    back mode_standalone q e = e

    go : (self : PlayState) → r.current_state ≡ self → (state_stop h self r).current_state ≡ stopped
    go stopped e = e
    go playing e =
        back r.playback_mode (set_state h stopped (cancel_update h (call worker_stop r))) refl
    go transitioning e =
        back r.playback_mode (set_state h stopped (cancel_update h (call worker_stop r))) refl
    go paused e =
        back r.playback_mode
          (set_state h stopped
            (cancel_update h (call worker_stop (record r { stay_paused = false }))))
          refl

module _ {S : Type 0} (h : Host S) (n : ℕ) (small : n < int_limit) where
  -- A known size is not asked for.
  pub get_size_lem :
      (it : Iterator) (s : S)
      → it.has_playlist ≡ true
      → it.size ≡ n
      → mafw_playlist_iterator_get_size h.ops it s ≡ (it, n, none)
  unfolding mafw_playlist_iterator_get_size
  get_size_lem it s a e = ground (arith, a)

  -- The iterator keeps the playlist and the size.
  abbrev pub KeepsSize : Iterator → Moved S → Type 0
  KeepsSize it m = (m.iterator.has_playlist ≡ it.has_playlist) × (m.iterator.size ≡ it.size)

  step_to-KeepsSize :
      (it : Iterator) (a : S × Option Clip × Option Error) → KeepsSize it (step_to h.ops it a)
  unfolding step_to set_data
  step_to-KeepsSize it (s, clip, some e) = (refl, refl)
  step_to-KeepsSize it (s, some c, none) = (refl, refl)
  step_to-KeepsSize it (s, none, none) = (refl, refl)

  pub next-KeepsSize :
      (it : Iterator) (s : S) → KeepsSize it (mafw_playlist_iterator_move_to_next h.ops it s)
  unfolding mafw_playlist_iterator_move_to_next move_to_next_in_direction
  next-KeepsSize it s =
      if_elim (λ (m : Moved S). KeepsSize it m) it.has_playlist
        (λ _. step_to-KeepsSize it (h.ops.get_next s it.current_index)) λ _. (refl, refl)

  -- Stopped, or one clip more was tried.
  abbrev Next : ℕ → Renderer S → Type 0
  Next c r = (r.current_state ≡ stopped) ⊎ Trying n c r

  media-Next :
      (c : ℕ) (r : Renderer S) (media : Option Text)
      → Trying n c r
      → Next c (play_media h (call worker_stop r) media).0
  unfolding play_media set_state get_metadata call
  media-Next c r none t = inl refl
  media-Next c r (some oid) t = inr (record {
    mode = t.mode;
    policy = t.policy;
    list = t.list;
    has_list = t.has_list;
    attached = t.attached;
    size = t.size;
    count = t.count;
  })

  do_play-Next : (c : ℕ) (r : Renderer S) → Trying n c r → Next c (do_play h r).0
  unfolding do_play to_playlist_mode
  do_play-Next c r t =
      let answer : PlaybackMode → Renderer S = λ k.
        let q = to_playlist_mode h (call worker_stop r) k in (play_media h q q.media.object_id).0 in
      subst (λ k. Next c (answer k)) (sym t.mode)
        (media-Next c r (call worker_stop r).media.object_id t)

  set_media-Trying : (c : ℕ) (r : Renderer S) → Trying n c r → Trying n c (set_media_playlist h r)
  unfolding set_media_playlist signal_media_changed call
  set_media-Trying c r t =
      let same : (playlist_media h r.iterator r.playlist).0 ≡ r.iterator =
        ap (λ p. (playlist_media h r.iterator p).0) t.has_list
        ∙ ap (λ a. a.0) (get_size_lem r.iterator t.list t.attached t.size) in
      record {
        mode = t.mode;
        policy = t.policy;
        list = t.list;
        has_list = t.has_list;
        attached = ap (λ i. i.has_playlist) same ∙ t.attached;
        size = ap (λ i. i.size) same ∙ t.size;
        count = t.count;
      }

  retry_from-Next :
      (c : ℕ) (result : MovementResult) (r : Renderer S)
      → Trying n c r
      → Next c (retry_from h result r)
  unfolding retry_from mafw_gst_renderer_stop state_play
  retry_from-Next c move_ok r t = do_play-Next c (set_media_playlist h r) (set_media-Trying c r t)
  retry_from-Next c move_limit r t = inl (
      state_stop_state h
        (record (set_media_playlist h (rewind h r r.playlist)) { play_failed_count = 0 }))
  retry_from-Next c move_invalid r t = inl (
      state_stop_state h
        (record (set_media_playlist h (rewind h r r.playlist)) { play_failed_count = 0 }))
  retry_from-Next c move_error r t = inl (
      state_stop_state h
        (record (set_media_playlist h (rewind h r r.playlist)) { play_failed_count = 0 }))

  -- At the last clip that is left the renderer stops.
  pub retry-Next :
      (c : ℕ) (result : MovementResult) (r : Renderer S)
      → Trying n c r
      → (retry h result n r).current_state ≡ stopped ⊎ ((c < n) × Trying n c (retry h result n r))
  unfolding retry set_media_playlist signal_media_changed call
  retry-Next c result r t =
      if_elim (λ (q : Renderer S). (q.current_state ≡ stopped) ⊎ ((c < n) × Trying n c q))
        (leb n r.play_failed_count) (λ _. inl (state_stop_state h r))
        λ more. elim (retry_from-Next c result r t) [
          | inl e ↦ inl e
          | inr k ↦ inr (ground (arith, t.count), k)
        ]
