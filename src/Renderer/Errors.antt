-- ===== src/Renderer/Errors.antt =====
-- The error policy, the changes of the playlist and the memory cards keep the renderer settled.
use mafw.Common.{
  ℕ, ◌+◌, Bool, true, ◌&&◌, ◌≡◌, refl, Option, none, some, if◌then◌else◌, if_elim, leb, u32,
}
use mafw.Aplaylist.Types.{Text}
use mafw.Iterator.Types.{
  MovementResult, move_ok, move_limit, move_invalid, move_error, Signal, no_signal, changed, failed,
}
use mafw.Iterator.Operations.{mafw_playlist_iterator_move_to_next, mafw_playlist_iterator_get_size}
use mafw.Renderer.Types.{
  PlayState, stopped, playing, paused, transitioning, PlaybackMode, mode_playlist, mode_standalone,
  GError, Renderer, Host, Answer, call,
}
use mafw.Renderer.Media.{set_media_playlist}
use mafw.Renderer.Playback.{to_playlist_mode, do_play, state_stop, rewind}
use mafw.Renderer.States.{mode_eq, state_contents_changed, policy_is_stop}
use mafw.Renderer.Policy.{
  is_out_of_memory, mafw_gst_renderer_stop, retry_from, retry, play_next, policy_in,
  run_error_policy, manage_error, changed_in, playlist_changed, state_pre_unmount,
}
use mafw.Renderer.Settled.{
  IsCalm, IsSettled, Keeps-IsCalm, Keeps-IsSettled, set_media_playlist-Keeps,
}
use mafw.Renderer.Playing.{
  InPlaylist-IsSettled, to_playlist_mode-InPlaylist, do_play-InPlaylist, state_stop-IsSettled,
  state_play-IsSettled, rewind-Keeps,
}
use mafw.Renderer.Clients.{same}
use mafw.Renderer.Notified.{emit_error-IsSettled, end_stopped-InPlaylist}

module _ {S : Type 0} (h : Host S) where
  pub stop-IsSettled : (r : Renderer S) → IsSettled r → IsSettled (mafw_gst_renderer_stop h r)
  unfolding mafw_gst_renderer_stop
  stop-IsSettled r s =
      state_stop-IsSettled h r.current_state (record r { play_failed_count = 0 })
        (same refl refl refl refl s)

  retry-IsSettled :
      (result : MovementResult) (size : ℕ) (r : Renderer S)
      → IsSettled r
      → IsSettled (retry h result size r)
  unfolding retry retry_from
  retry-IsSettled result size r s =
      if_elim IsSettled (leb size r.play_failed_count)
        (λ _.
          Keeps-IsSettled
            (set_media_playlist-Keeps h
              (record (state_stop h r.current_state r) { play_failed_count = 0 }))
            (same refl refl refl refl (state_stop-IsSettled h r.current_state r s)))
        λ _. from result
    where
      reset : IsSettled (set_media_playlist h (rewind h r r.playlist))
      reset =
          Keeps-IsSettled (set_media_playlist-Keeps h (rewind h r r.playlist))
            (Keeps-IsSettled (rewind-Keeps h r r.playlist) s)

      from : (m : MovementResult) → IsSettled (retry_from h m r)
      from move_ok =
          state_play-IsSettled h (set_media_playlist h r).current_state (set_media_playlist h r)
            (Keeps-IsCalm (set_media_playlist-Keeps h r) s.calm)
      from move_limit = stop-IsSettled (set_media_playlist h (rewind h r r.playlist)) reset
      from move_invalid = stop-IsSettled (set_media_playlist h (rewind h r r.playlist)) reset
      from move_error = stop-IsSettled (set_media_playlist h (rewind h r r.playlist)) reset

  pub error_policy-IsSettled :
      (e : GError) (r : Renderer S) → IsSettled r → IsSettled (run_error_policy h e r).0
  unfolding run_error_policy policy_in play_next
  error_policy-IsSettled e r s =
      if_elim (λ (a : Answer S). IsSettled a.0) (is_out_of_memory e) (λ _. stop-IsSettled r s)
        λ _. in_mode r.playback_mode refl
    where
      try_next : (playlist : Option S) → IsSettled (play_next h e r playlist).0
      try_next none = s
      try_next (some p) =
          let m = mafw_playlist_iterator_move_to_next h.ops r.iterator p in
          let sized = mafw_playlist_iterator_get_size h.ops m.iterator m.playlist in
          retry-IsSettled m.result sized.1
            (record r {
              iterator = sized.0;
              playlist = some m.playlist;
              play_failed_count = u32 (r.play_failed_count + 1);
            })
            (same refl refl refl refl s)

      in_mode : (mode : PlaybackMode) → r.playback_mode ≡ mode → IsSettled (policy_in h mode e r).0
      in_mode mode_playlist p =
          if_elim (λ (a : Answer S). IsSettled a.0) (policy_is_stop r.error_policy)
            (λ _. stop-IsSettled r s) λ _. try_next r.playlist
      in_mode mode_standalone p =
          let q = to_playlist_mode h r mode_standalone in
          let t = to_playlist_mode-InPlaylist h r mode_standalone p s.calm in
          if_elim IsSettled q.resume_playlist (λ _. state_play-IsSettled h q.current_state q t.calm)
            λ _. InPlaylist-IsSettled (end_stopped-InPlaylist h q t)

  pub manage_error-IsSettled :
      (e : GError) (r : Renderer S) → IsSettled r → IsSettled (manage_error h e r)
  unfolding manage_error
  manage_error-IsSettled e r s =
      emit_error-IsSettled h (run_error_policy h e r) (error_policy-IsSettled e r s)

  contents-IsSettled :
      (self : PlayState) (clip_changed : Bool) (r : Renderer S)
      → IsSettled r
      → IsSettled (state_contents_changed h self clip_changed r).0
  unfolding state_contents_changed
  contents-IsSettled self clip_changed r s = at self
    where
      test : Bool
      test = clip_changed && mode_eq r.playback_mode mode_playlist

      start : (q : Renderer S) → IsCalm q → IsSettled (if test then do_play h q else (r, none)).0
      start q c =
          if_elim (λ (a : Answer S). IsSettled a.0) test
            (λ _. InPlaylist-IsSettled (do_play-InPlaylist h q c)) λ _. s

      at : (p : PlayState) → IsSettled (state_contents_changed h p clip_changed r).0
      at stopped = s
      at transitioning = start r s.calm
      at playing = start r s.calm
      at paused =
          start (record r { stay_paused = true })
            (record { pending = s.calm.pending; target = s.calm.target })

  pub changed-IsSettled :
      (sent : Signal) (r : Renderer S) (playlist : Option S)
      → IsSettled r
      → IsSettled (playlist_changed h sent r playlist)
  unfolding playlist_changed changed_in call
  changed-IsSettled sent r none s = s
  changed-IsSettled no_signal r (some p) s = s
  changed-IsSettled (failed e) r (some p) s = same refl refl refl refl s
  changed-IsSettled (changed clip_changed) r (some p) s =
      let test = clip_changed && mode_eq r.playback_mode mode_playlist in
      let q = if test then set_media_playlist h r else r in
      emit_error-IsSettled h (state_contents_changed h r.current_state clip_changed q) (
        contents-IsSettled r.current_state clip_changed q
          (if_elim IsSettled test (λ _. Keeps-IsSettled (set_media_playlist-Keeps h r) s) λ _. s))

  pub unmount-IsSettled :
      (self : PlayState) (under : Bool) (r : Renderer S) (uri : Option Text)
      → IsSettled r
      → IsSettled (state_pre_unmount h self under r uri)
  unfolding state_pre_unmount
  unmount-IsSettled stopped under r uri s = s
  unmount-IsSettled transitioning under r uri s = s
  unmount-IsSettled playing under r none s = s
  unmount-IsSettled paused under r none s = s
  unmount-IsSettled playing under r (some uri) s =
      if_elim IsSettled under (λ _. stop-IsSettled r s) λ _. s
  unmount-IsSettled paused under r (some uri) s =
      if_elim IsSettled under (λ _. stop-IsSettled r s) λ _. s
