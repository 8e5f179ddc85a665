-- ===== src/Renderer/Clients.antt =====
-- The calls of clients keep the renderer settled.
use mafw.Common.{ℕ, Bool, true, false, ◌≡◌, refl, Option, none, if_elim}
use mafw.Aplaylist.Types.{Text}
use mafw.Renderer.Types.{
  PlayState, stopped, playing, paused, transitioning, PlaybackMode, move_index, move_prev,
  move_next, Movement, movement_ok, movement_no_playlist, movement_playlist_limit, movement_error,
  GError, index_out_of_bounds, Renderer, Host, Answer, call,
}
use mafw.Renderer.Media.{set_media_playlist, mafw_gst_renderer_move}
use mafw.Renderer.Playback.{do_play_object, rewind, wind}
use mafw.Renderer.States.{
  not_allowed, mode_eq, resume_if_switched, state_play_object, state_pause, state_resume,
  stopped_move, state_next, state_previous, state_goto_index,
}
use mafw.Renderer.Settled.{IsSettled, Keeps-IsSettled, set_media_playlist-Keeps, move-Keeps}
use mafw.Renderer.Playing.{
  do_play_object-IsSettled, rewind-Keeps, wind-Keeps, do_next-IsSettled, do_prev-IsSettled,
  do_goto_index-IsSettled,
}

module _ {S : Type 0} where
  -- A record update that does not touch the seeks, the state and the mode.
  pub same :
      {r q : Renderer S}
      → q.seek_pending ≡ r.seek_pending
      → q.seeking_to ≡ r.seeking_to
      → q.current_state ≡ r.current_state
      → q.playback_mode ≡ r.playback_mode
      → IsSettled r
      → IsSettled q
  same a b c d s =
      Keeps-IsSettled (record { pending_eq = a; target_eq = b; state_eq = c; mode_eq = d }) s

module _ {S : Type 0} (h : Host S) where
  pub play_object-IsSettled :
      (self : PlayState) (oid : Text) (r : Renderer S)
      → IsSettled r
      → IsSettled (state_play_object h self oid r).0
  unfolding state_play_object resume_if_switched
  play_object-IsSettled self oid r s = go self
    where
      switched :
          (resume : Bool) (m : PlaybackMode) (a : Answer S)
          → IsSettled a.0
          → IsSettled (resume_if_switched resume m a).0
      switched resume m a t =
          if_elim (λ (b : Answer S). IsSettled b.0) (mode_eq a.0.playback_mode m) (λ _. t)
            λ _. same refl refl refl refl t

      go : (p : PlayState) → IsSettled (state_play_object h p oid r).0
      go stopped =
          switched false r.playback_mode (do_play_object h oid r)
            (do_play_object-IsSettled h oid r s.calm)
      go transitioning =
          switched true r.playback_mode (do_play_object h oid r)
            (do_play_object-IsSettled h oid r s.calm)
      go playing =
          switched true r.playback_mode (do_play_object h oid r)
            (do_play_object-IsSettled h oid r s.calm)
      go paused = switched true r.playback_mode _ (
          do_play_object-IsSettled h oid (record r { stay_paused = false })
            (record { pending = s.calm.pending; target = s.calm.target }))

  pub resume-IsSettled :
      (self : PlayState) (r : Renderer S) → IsSettled r → IsSettled (state_resume h self r).0
  unfolding state_resume call
  resume-IsSettled stopped r s = s
  resume-IsSettled playing r s = s
  resume-IsSettled paused r s = same refl refl refl refl s
  resume-IsSettled transitioning r s =
      if_elim (λ (a : Answer S). IsSettled a.0) r.stay_paused (λ _. same refl refl refl refl s)
        λ _. s

  pub pause-IsSettled :
      (self : PlayState) (r : Renderer S) → IsSettled r → IsSettled (state_pause h self r).0
  unfolding state_pause call
  pause-IsSettled stopped r s = s
  pause-IsSettled playing r s = same refl refl refl refl s
  pause-IsSettled paused r s = s
  pause-IsSettled transitioning r s = same refl refl refl refl s

  stopped_move-IsSettled :
      (on_limit : Renderer S → Answer S) (a : Renderer S × Movement × Option GError)
      → ((q : Renderer S) → IsSettled q → IsSettled (on_limit q).0)
      → IsSettled a.0
      → IsSettled (stopped_move h on_limit a).0
  unfolding stopped_move
  stopped_move-IsSettled on_limit (r, movement_ok, e) f s = s
  stopped_move-IsSettled on_limit (r, movement_error, e) f s = s
  stopped_move-IsSettled on_limit (r, movement_no_playlist, e) f s = s
  stopped_move-IsSettled on_limit (r, movement_playlist_limit, e) f s = f r s

  pub next-IsSettled :
      (self : PlayState) (r : Renderer S) → IsSettled r → IsSettled (state_next h self r).0
  unfolding state_next
  next-IsSettled stopped r s =
      stopped_move-IsSettled (λ q. (set_media_playlist h (rewind h q q.playlist), none))
        (mafw_gst_renderer_move h move_next r)
        (λ q t.
          Keeps-IsSettled (set_media_playlist-Keeps h (rewind h q q.playlist))
            (Keeps-IsSettled (rewind-Keeps h q q.playlist) t))
        (Keeps-IsSettled (move-Keeps h move_next r) s)
  next-IsSettled transitioning r s = do_next-IsSettled h transitioning r s
  next-IsSettled playing r s = do_next-IsSettled h playing r s
  next-IsSettled paused r s =
      do_next-IsSettled h paused (record r { stay_paused = true }) (same refl refl refl refl s)

  pub previous-IsSettled :
      (self : PlayState) (r : Renderer S) → IsSettled r → IsSettled (state_previous h self r).0
  unfolding state_previous
  previous-IsSettled stopped r s =
      stopped_move-IsSettled (λ q. (set_media_playlist h (wind h q q.playlist), none))
        (mafw_gst_renderer_move h move_prev r)
        (λ q t.
          Keeps-IsSettled (set_media_playlist-Keeps h (wind h q q.playlist))
            (Keeps-IsSettled (wind-Keeps h q q.playlist) t))
        (Keeps-IsSettled (move-Keeps h move_prev r) s)
  previous-IsSettled transitioning r s = do_prev-IsSettled h transitioning r s
  previous-IsSettled playing r s = do_prev-IsSettled h playing r s
  previous-IsSettled paused r s =
      do_prev-IsSettled h paused (record r { stay_paused = true }) (same refl refl refl refl s)

  pub goto_index-IsSettled :
      (self : PlayState) (index : ℕ) (r : Renderer S)
      → IsSettled r
      → IsSettled (state_goto_index h self index r).0
  unfolding state_goto_index
  goto_index-IsSettled stopped index r s =
      stopped_move-IsSettled (λ q. not_allowed index_out_of_bounds q)
        (mafw_gst_renderer_move h (move_index index) r) (λ q t. t)
        (Keeps-IsSettled (move-Keeps h (move_index index) r) s)
  goto_index-IsSettled transitioning index r s = do_goto_index-IsSettled h transitioning index r s
  goto_index-IsSettled playing index r s = do_goto_index-IsSettled h playing index r s
  goto_index-IsSettled paused index r s =
      do_goto_index-IsSettled h paused index (record r { stay_paused = true })
        (same refl refl refl refl s)
