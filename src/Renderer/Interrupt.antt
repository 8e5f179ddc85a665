-- ===== src/Renderer/Interrupt.antt =====
-- An object that is played on its own interrupts a playlist, and gives way to it at its end.
use mafw.Common.{
  text_eq, text_eq_refl, ℕ, suc, Bool, true, false, ◌≡◌, refl, ap, subst, sym, Option, some, List,
  [], ◌∷◌, if_true, if◌then◌else◌,
}
use mafw.Aplaylist.Types.{Text}
use mafw.Renderer.Types.{
  PlayState, stopped, playing, paused, transitioning, mode_playlist, mode_standalone, Renderer,
  Host, call, worker_stop,
}
use mafw.Renderer.Media.{
  set_state, set_media_playlist, set_object, get_metadata, playlist_media, signal_media_changed,
  clear_media,
}
use mafw.Renderer.Playback.{to_playlist_mode, play_media, do_play, do_play_object, state_play}
use mafw.Renderer.States.{
  mode_eq, resume_if_switched, state_play_object, start_timer, state_notify_play, finish_update,
  end_stopped, eos_in, state_notify_eos,
}
use mafw.Renderer.Policy.{
  Metadata, seekability_of, duration_of, emit_error, is_object, worker_plays,
  transitioning_notify_metadata, state_notify_metadata,
}
use mafw.Renderer.Machine.{
  Command, play_object, metadata, notify_play, notify_eos, signalled, perform, run,
}

-- The object is asked for, found, played and over.
abbrev pub interlude : Text → Metadata → List Command
interlude oid m = play_object oid ∷ metadata oid m ∷ notify_play ∷ notify_eos ∷ []

-- What is left after it.
abbrev pub Back : {S : Type 0} → PlayState → Text → Option (Renderer S) → Type 0
Back {S} state clip r =
    (q : Renderer S) × (r ≡ some q)
    × (q.current_state ≡ state)
    × (q.playback_mode ≡ mode_playlist)
    × (q.media.object_id ≡ some clip)

module _ {S : Type 0} (h : Host S) (fuel : ℕ) (oid clip : Text) (m : Metadata) where
  begun : Bool → Renderer S → Renderer S
  begun resume r = record (do_play_object h oid r).0 { resume_playlist = resume }

  -- The object has been found and plays.
  found : Renderer S → Renderer S
  found r = worker_plays h m.first_uri m.other_uris (record r {
    media = record r.media {
      uri = some m.first_uri;
      seekability = seekability_of m.is_seekable;
      duration = duration_of m.source_duration;
    };
  })

  -- It is over, and the renderer is back in playlist mode.
  over : Bool → Renderer S → Renderer S
  over resume r =
      to_playlist_mode h
        (end_stopped h
          (finish_update h (state_notify_play h transitioning (found (begun resume r)))))
        mode_standalone

  is_found :
      (resume : Bool) (r : Renderer S)
      → run h (suc fuel) (metadata oid m ∷ notify_play ∷ notify_eos ∷ []) (begun resume r)
        ≡ run h (suc fuel) (notify_play ∷ notify_eos ∷ []) (found (begun resume r))
  unfolding run perform begun found do_play_object set_object signal_media_changed set_state
      get_metadata call state_notify_metadata transitioning_notify_metadata is_object
  is_found resume r =
      ap (run h (suc fuel) (notify_play ∷ notify_eos ∷ []))
        (if_true (text_eq oid oid) (found (begun resume r)) (begun resume r) (text_eq_refl oid))

  ended :
      (resume : Bool) (r : Renderer S)
      → (playlist_media h r.iterator r.playlist).1 ≡ some clip
      → Back
          (if resume then transitioning else stopped)
          clip
          (run h (suc fuel) (notify_play ∷ notify_eos ∷ []) (found (begun resume r)))
  unfolding run perform signalled emit_error worker_plays begun found over do_play_object set_object
      signal_media_changed set_state get_metadata call state_notify_play start_timer
      state_notify_eos finish_update eos_in end_stopped to_playlist_mode set_media_playlist
      state_play do_play play_media clear_media
  ended false r e = (over false r, refl, refl, refl, e)
  ended true r e = (
    emit_error (play_media h (call worker_stop (over true r)) (some clip)),
    ap (λ o. some (emit_error (play_media h (call worker_stop (over true r)) o))) e,
    refl,
    refl,
    e,
  )

  again :
      (resume : Bool) (r : Renderer S)
      → (playlist_media h r.iterator r.playlist).1 ≡ some clip
      → Back
          (if resume then transitioning else stopped)
          clip
          (run h (suc fuel) (metadata oid m ∷ notify_play ∷ notify_eos ∷ []) (begun resume r))
  again resume r e =
      subst (Back (if resume then transitioning else stopped) clip) (sym (is_found resume r))
        (ended resume r e)

  -- Whether the playlist goes on after the object.
  abbrev pub goes_on : PlayState → Bool
  goes_on stopped = false
  goes_on playing = true
  goes_on paused = true
  goes_on transitioning = true

  in_state :
      (self : PlayState) (r : Renderer S)
      → r.playback_mode ≡ mode_playlist
      → (playlist_media h r.iterator r.playlist).1 ≡ some clip
      → Back (if goes_on self then transitioning else stopped) clip (
          run h
            (suc fuel)
            (metadata oid m ∷ notify_play ∷ notify_eos ∷ [])
            (state_play_object h self oid r).0)
  unfolding state_play_object resume_if_switched begun do_play_object set_object
      signal_media_changed set_state get_metadata call mode_eq
  in_state self r p e = go self
    where
      rest : Renderer S → Option (Renderer S)
      rest = run h (suc fuel) (metadata oid m ∷ notify_play ∷ notify_eos ∷ [])

      switch :
          (resume : Bool) (q : Renderer S)
          → q.playback_mode ≡ mode_playlist
          → begun resume q ≡ (resume_if_switched resume q.playback_mode (do_play_object h oid q)).0
      switch resume q p = ap (λ k. (resume_if_switched resume k (do_play_object h oid q)).0) (sym p)

      go :
          (s : PlayState)
          → Back
              (if goes_on s then transitioning else stopped)
              clip
              (rest (state_play_object h s oid r).0)
      go stopped = subst (λ q. Back stopped clip (rest q)) (switch false r p) (again false r e)
      go playing = subst (λ q. Back transitioning clip (rest q)) (switch true r p) (again true r e)
      go transitioning =
          subst (λ q. Back transitioning clip (rest q)) (switch true r p) (again true r e)
      go paused =
          let q = record r { stay_paused = false } in
          subst (λ k. Back transitioning clip (rest k)) (switch true q p) (again true q e)

  -- If the renderer is in playlist mode and the playlist has a current clip, then after an object
  -- has been played on its own to its end the renderer is in playlist mode at that clip again: on
  -- the way to play it, or stopped if it was stopped before.
  pub interlude-Back :
      (r : Renderer S)
      → r.playback_mode ≡ mode_playlist
      → (playlist_media h r.iterator r.playlist).1 ≡ some clip
      → Back
          (if goes_on r.current_state then transitioning else stopped)
          clip
          (run h (suc fuel) (interlude oid m) r)
  unfolding run perform
  interlude-Back r p e = in_state r.current_state r p e
