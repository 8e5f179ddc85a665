-- ===== src/Renderer/Stops.antt =====
-- What `mafw_gst_renderer_stop` reaches.
use mafw.Common.{true, false, ◌≡◌, refl, ◌∙◌, ap, sym}
use mafw.Renderer.Types.{
  PlayState, stopped, playing, paused, transitioning, PlaybackMode, mode_playlist, mode_standalone,
  Renderer, Host,
}
use mafw.Renderer.Playback.{state_stop}
use mafw.Renderer.States.{mode_eq}
use mafw.Renderer.Policy.{mafw_gst_renderer_stop}
use mafw.Renderer.Settled.{can_stand, IsSettled}
use mafw.Renderer.Playing.{do_stop-InPlaylist}
use mafw.Renderer.Clients.{same}
use mafw.Renderer.Errors.{stop-IsSettled}
use mafw.Renderer.Trying.{state_stop_state}

mode_eq_lem : (m : PlaybackMode) → mode_eq m mode_playlist ≡ true → m ≡ mode_playlist
unfolding mode_eq
mode_eq_lem mode_playlist e = refl
mode_eq_lem mode_standalone e = absurd (cc e)

module _ {S : Type 0} (h : Host S) where
  stop_mode :
      (self : PlayState) (r : Renderer S)
      → r.current_state ≡ self
      → IsSettled r
      → (state_stop h self r).playback_mode ≡ mode_playlist
  unfolding state_stop
  stop_mode stopped r e s =
      mode_eq_lem r.playback_mode (ap (λ k. can_stand k r.playback_mode) (sym e) ∙ s.stands)
  stop_mode playing r e s = (do_stop-InPlaylist h r s.calm).mode
  stop_mode transitioning r e s = (do_stop-InPlaylist h r s.calm).mode
  stop_mode paused r e s =
      (do_stop-InPlaylist h (record r { stay_paused = false })
        (record { pending = s.calm.pending; target = s.calm.target })).mode

  -- From each state a settled renderer is brought to the stopped state in playlist mode, and is
  -- settled there.
  pub mafw_gst_renderer_stop_lem :
      (r : Renderer S)
      → IsSettled r
      → let q = mafw_gst_renderer_stop h r in
        (q.current_state ≡ stopped) × (q.playback_mode ≡ mode_playlist) × IsSettled q
  unfolding mafw_gst_renderer_stop
  mafw_gst_renderer_stop_lem r s =
      let t = stop-IsSettled h r s in
      let q = record r { play_failed_count = 0 } in
      (state_stop_state h q, stop_mode r.current_state q refl (same refl refl refl refl s), t)
