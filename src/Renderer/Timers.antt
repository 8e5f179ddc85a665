-- ===== src/Renderer/Timers.antt =====
-- The timers of the play count, when the clip is played again before one runs off.
use mafw.Common.{
  text_eq, text_eq_refl, eq→==, inl, inr, ◌⊎◌, if_false, ℕ, suc, Bool, true, false, ◌&&◌, ◌||◌, not,
  ◌≡◌, refl, ◌∙◌, ap, subst, sym, Option, some, List, [], ◌∷◌, ◌==◌, if_true, if◌then◌else◌,
}
use mafw.Aplaylist.Types.{Text}
use mafw.Iterator.Types.{is_negative}
use mafw.Renderer.Types.{
  stopped, mode_playlist, Effect, timeout_add, source_remove, worker_stop, idle_error,
  source_get_metadata, g_error, extension_error, extension_not_available, Renderer, Host, call,
}
use mafw.Renderer.Media.{set_state, get_metadata}
use mafw.Renderer.Playback.{
  to_playlist_mode, play_media, do_play, cancel_update, do_stop, state_play, state_stop,
}
use mafw.Renderer.States.{start_timer, state_notify_play}
use mafw.Renderer.Policy.{
  Metadata, seekability_of, duration_of, play_uris, is_object, starts, worker_plays,
  transitioning_notify_metadata, state_notify_metadata, mafw_gst_renderer_stop,
}
use mafw.Renderer.Machine.{Command, play, stop, metadata, notify_play, perform, run}

-- Whether a timer was set up and not removed again, by what was called.
unfoldable pub runs : ℕ → List Effect → Bool
runs id [] = false
runs id (timeout_add k ∷ l) = (k == id) || runs id l
runs id (source_remove k ∷ l) = not (k == id) && runs id l
runs id (e ∷ l) = runs id l

module _ (k : ℕ) (l : List Effect) where
  runs_uris : (uri : Text) (others : List Text) → runs k (play_uris uri others ∷ l) ≡ runs k l
  unfolding runs play_uris
  runs_uris uri [] = refl
  runs_uris uri (u ∷ us) = refl

  runs_asked :
      (b : Bool) (oid : Text)
      → runs k (
          (if b
            then source_get_metadata oid
            else idle_error (g_error extension_error extension_not_available))
          ∷ l)
        ≡ runs k l
  unfolding runs
  runs_asked true oid = refl
  runs_asked false oid = refl

  -- A timer that is removed does not run, another one only if it ran.
  runs_removed : (id : ℕ) → (k ≡ id) ⊎ (runs k l ≡ false) → runs k (source_remove id ∷ l) ≡ false
  unfolding runs
  runs_removed id (inl same) = ap (λ b. not b && runs k l) (eq→== id k (sym same))
  runs_removed id (inr e) = ap (λ b. not (id == k) && b) e ∙ and_false (not (id == k))
    where
      and_false : (b : Bool) → (b && false) ≡ false
      and_false true = refl
      and_false false = refl

  -- One that is set up and removed again.
  runs_closed : (id : ℕ) → runs k l ≡ false → (not (id == k) && ((id == k) || runs k l)) ≡ false
  runs_closed id e = ap (λ b. not (id == k) && ((id == k) || b)) e ∙ closed (id == k)
    where
      closed : (b : Bool) → (not b && (b || false)) ≡ false
      closed true = refl
      closed false = refl

-- What `cancel_update` takes for the id of a timer.
abbrev pub is_timer : ℕ → Bool
is_timer id = not (id == 0 || is_negative id)

not-false : (b : Bool) → not b ≡ true → b ≡ false
not-false true h = cc h
not-false false h = refl

-- The clip is played again, found, starts, and all is stopped.
abbrev pub restart : Text → Metadata → List Command
restart oid m = play ∷ metadata oid m ∷ notify_play ∷ stop ∷ []

-- The renderer is stopped, knows of no timer, and the timer `k` does not run.
abbrev pub NoTimer : {S : Type 0} → ℕ → Option (Renderer S) → Type 0
NoTimer {S} k a =
    (q : Renderer S) × (a ≡ some q)
    × (q.current_state ≡ stopped)
    × (q.update_playcount_id ≡ 0)
    × (runs k q.log ≡ false)

module _ {S : Type 0} (h : Host S) (fuel : ℕ) (oid : Text) (m : Metadata) (r : Renderer S)
    (plays : (log : List Effect) → h.play_starts log ≡ true)
    (timers : (log : List Effect) → is_timer (h.timer_id log) ≡ true) where
  -- The renderer in playlist mode at the clip.
  at_clip : Renderer S
  at_clip = record r {
    playback_mode = mode_playlist;
    media = record r.media { object_id = some oid };
  }

  asked : Renderer S
  asked = (do_play h at_clip).0

  found : Renderer S
  found = worker_plays h m.first_uri m.other_uris (record asked {
    media = record asked.media {
      uri = some m.first_uri;
      seekability = seekability_of m.is_seekable;
      duration = duration_of m.source_duration;
    };
  })

  starts_all : (others : List Text) (log : List Effect) → starts h others log ≡ true
  unfolding starts
  starts_all [] log = plays log
  starts_all (other ∷ others) log = refl

  found_lem :
      run h (suc fuel) (restart oid m) at_clip ≡ run h (suc fuel) (notify_play ∷ stop ∷ []) found
  unfolding run perform at_clip asked found do_play to_playlist_mode play_media state_play set_state
      get_metadata call state_notify_metadata transitioning_notify_metadata is_object
  found_lem =
      ap (run h (suc fuel) (notify_play ∷ stop ∷ []))
        (if_true (text_eq oid oid) found asked (text_eq_refl oid))

  asked_runs : (k : ℕ) → runs k asked.log ≡ runs k r.log
  unfolding runs at_clip asked do_play to_playlist_mode play_media state_play set_state get_metadata
      call
  asked_runs k = runs_asked k (worker_stop ∷ r.log) (h.has_source oid) oid

  -- `_start_play` removes the timer that runs.
  found_runs :
      (k : ℕ)
      → is_timer r.update_playcount_id ≡ true
      → (k ≡ r.update_playcount_id) ⊎ (runs k r.log ≡ false)
      → runs k found.log ≡ false
  unfolding found worker_plays cancel_update call at_clip asked do_play to_playlist_mode play_media
      state_play set_state get_metadata
  found_runs k timer only =
      let id = r.update_playcount_id in
      let played = play_uris m.first_uri m.other_uris ∷ asked.log in
      let before : (k ≡ id) ⊎ (runs k played ≡ false) = elim only [
        | inl same ↦ inl same
        | inr e ↦ inr (runs_uris k asked.log m.first_uri m.other_uris ∙ asked_runs k ∙ e)
      ] in
      ap (runs k) (
        if_true (starts h m.other_uris played)
          (if id == 0 || is_negative id then played else source_remove id ∷ played) played
          (starts_all m.other_uris played)
        ∙ if_false (id == 0 || is_negative id) played (source_remove id ∷ played)
            (not-false _ timer))
      ∙ runs_removed k played id before

  stopped_lem :
      (k : ℕ)
      → runs k found.log ≡ false
      → NoTimer k (run h (suc fuel) (notify_play ∷ stop ∷ []) found)
  unfolding run perform runs at_clip asked found worker_plays do_play to_playlist_mode play_media
      state_play set_state get_metadata call state_notify_play start_timer mafw_gst_renderer_stop
      state_stop do_stop cancel_update
  stopped_lem k e =
      let id = h.timer_id found.log in
      let none_runs = not-false (id == 0 || is_negative id) (timers found.log) in
      (
        _,
        refl,
        refl,
        if_false (id == 0 || is_negative id) id 0 none_runs,
        ap (runs k) (if_false (id == 0 || is_negative id) _ _ none_runs)
            ∙ runs_closed k found.log id e,
      )

-- If the renderer is in playlist mode at a clip, `update_playcount_id` is a timer, the worker starts what
-- it is to play and GLib gives timers ids that the renderer takes for some, then a play, its metadata,
-- the notification that it plays and a stop leave the renderer stopped, with no timer in
-- `update_playcount_id`, and neither that of before nor one that did not run runs.
pub timer_removed :
    {S : Type 0} (h : Host S) (fuel : ℕ) (oid : Text) (m : Metadata) (r : Renderer S)
    → ((log : List Effect) → h.play_starts log ≡ true)
    → ((log : List Effect) → is_timer (h.timer_id log) ≡ true)
    → r.playback_mode ≡ mode_playlist
    → r.media.object_id ≡ some oid
    → is_timer r.update_playcount_id ≡ true
    → (k : ℕ) → (k ≡ r.update_playcount_id) ⊎ (runs k r.log ≡ false)
    → NoTimer k (run h (suc fuel) (restart oid m) r)
unfolding at_clip
timer_removed h fuel oid m r plays timers p o timer k only =
    let same : at_clip h fuel oid m r plays timers ≡ r =
      ap (λ k. record r { playback_mode = k; media = record r.media { object_id = some oid } })
        (sym p)
      ∙ ap (λ k. record r { media = record r.media { object_id = k } }) (sym o) in
    subst (λ q. NoTimer k (run h (suc fuel) (restart oid m) q)) same
      (subst (NoTimer k) (sym (found_lem h fuel oid m r plays timers)) (
        stopped_lem h fuel oid m r plays timers k
          (found_runs h fuel oid m r plays timers k timer only)))
