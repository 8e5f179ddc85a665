-- ===== src/Renderer/Playback.antt =====
-- The helpers of mafw-gst-renderer-state.c, `do_play` to `do_notify_buffer_status`.
--
-- The `GError **` of these is never null when they are called, but where `state_stop` is called
-- with NULL, and that one sets no error.
use mafw.Common.{ℕ, Bool, true, false, ◌∷◌, Option, none, some, ◌==◌, if◌then◌else◌, ◌||◌}
use mafw.Aplaylist.Types.{Text}
use mafw.Iterator.Types.{is_negative}
use mafw.Iterator.Operations.{mafw_playlist_iterator_reset, mafw_playlist_iterator_move_to_last}
use mafw.Renderer.Types.{
  PlayState, stopped, playing, paused, transitioning, PlaybackMode, mode_playlist, mode_standalone,
  move_index, move_prev, move_next, Movement, movement_ok, movement_no_playlist,
  movement_playlist_limit, movement_error, GError, g_error, renderer_error, extension_error,
  no_media, index_out_of_bounds, cannot_get_position, worker_stop, buffering_info, source_remove,
  Renderer, Host, Answer, call,
}
use mafw.Renderer.Media.{
  set_state, set_media_playlist, set_object, get_metadata, mafw_gst_renderer_move,
}

module _ {S : Type 0} (h : Host S) where
  -- The switch from standalone to playlist mode, with the media of the playlist.
  unfoldable pub to_playlist_mode : Renderer S → PlaybackMode → Renderer S
  to_playlist_mode r mode_playlist = r
  to_playlist_mode r mode_standalone =
      set_media_playlist h (record r { playback_mode = mode_playlist })

  unfoldable pub play_media : Renderer S → Option Text → Answer S
  play_media r (some object_id) = (set_state h transitioning (get_metadata h object_id r), none)
  play_media r none = (set_state h stopped r, some (g_error renderer_error no_media))

  unfoldable pub do_play : Renderer S → Answer S
  unfolding to_playlist_mode play_media call
  do_play r =
      let r' = call worker_stop r in
      let r'' = to_playlist_mode r' r'.playback_mode in play_media r'' r''.media.object_id

  -- `mafw_gst_renderer_play_object` does not let a null object id through.
  unfoldable pub do_play_object : Text → Renderer S → Answer S
  unfolding call
  do_play_object object_id r =
      let r' =
        set_object h object_id (record (call worker_stop r) { playback_mode = mode_standalone }) in
      (set_state h transitioning (get_metadata h object_id r'), none)

  -- The timer of the play count, if it runs (`update_playcount_id > 0`).
  unfoldable pub cancel_update : Renderer S → Renderer S
  cancel_update r =
      let id = r.update_playcount_id in
      let none_runs = id == 0 || is_negative id in
      record r {
        update_playcount_id = if none_runs then id else 0;
        log = if none_runs then r.log else source_remove id ∷ r.log;
      }

  unfoldable pub do_stop : Renderer S → Renderer S
  unfolding cancel_update to_playlist_mode call
  do_stop r =
      let r' = set_state h stopped (cancel_update (call worker_stop r)) in
      to_playlist_mode r' r'.playback_mode

  -- `stop` of the class of each state.
  unfoldable pub state_stop : PlayState → Renderer S → Renderer S
  unfolding do_stop
  state_stop stopped r = r
  state_stop transitioning r = do_stop r
  state_stop playing r = do_stop r
  state_stop paused r = do_stop (record r { stay_paused = false })

  -- `play` of the class of each state.
  unfoldable pub state_play : PlayState → Renderer S → Answer S
  unfolding do_play
  state_play self r = do_play r

  -- After a move that was issued in `mode`.
  unfoldable pub play_or_stop : PlayState → PlaybackMode → Bool → Renderer S → Answer S
  unfolding state_play state_stop
  play_or_stop self mode_playlist resume r = state_play self r
  play_or_stop self mode_standalone true r = state_play self r
  play_or_stop self mode_standalone false r = (state_stop self r, none)

  -- The switch over the result of the move, where `on_limit` is what the operation does at the
  -- end of the playlist.
  unfoldable pub after_move :
      (Renderer S → Answer S)
      → PlayState
      → PlaybackMode
      → Renderer S × Movement × Option GError
      → Answer S
  unfolding play_or_stop state_stop
  after_move on_limit self mode (r, movement_ok, e) = play_or_stop self mode r.resume_playlist r
  after_move on_limit self mode (r, movement_no_playlist, e) =
      (state_stop self r, some (g_error renderer_error no_media))
  after_move on_limit self mode (r, movement_playlist_limit, e) = on_limit r
  after_move on_limit self mode (r, movement_error, e) = (r, e)

  -- `mafw_playlist_iterator_reset` and `mafw_playlist_iterator_move_to_last` on the renderer's
  -- iterator, their error left out.
  unfoldable pub rewind : Renderer S → Option S → Renderer S
  rewind r none = r
  rewind r (some s) =
      let moved = mafw_playlist_iterator_reset h.ops r.iterator s in
      record r { iterator = moved.0; playlist = some moved.1 }

  unfoldable pub wind : Renderer S → Option S → Renderer S
  wind r none = r
  wind r (some s) =
      let moved = mafw_playlist_iterator_move_to_last h.ops r.iterator s in
      record r { iterator = moved.0; playlist = some moved.1 }

  unfoldable pub do_next : PlayState → Renderer S → Answer S
  unfolding after_move to_playlist_mode rewind
  do_next self r =
      after_move (λ q. state_play self (set_media_playlist h (rewind q q.playlist))) self
        r.playback_mode (mafw_gst_renderer_move h move_next (to_playlist_mode r r.playback_mode))

  unfoldable pub do_prev : PlayState → Renderer S → Answer S
  unfolding after_move to_playlist_mode wind
  do_prev self r =
      after_move (λ q. state_play self (set_media_playlist h (wind q q.playlist))) self
        r.playback_mode (mafw_gst_renderer_move h move_prev (to_playlist_mode r r.playback_mode))

  unfoldable pub do_goto_index : PlayState → ℕ → Renderer S → Answer S
  unfolding after_move to_playlist_mode
  do_goto_index self index r =
      after_move (λ q. (state_stop self q, some (g_error renderer_error index_out_of_bounds))) self
        r.playback_mode
        (mafw_gst_renderer_move h (move_index index) (to_playlist_mode r r.playback_mode))

  -- The seconds and the error; the domain is that of the extensions.
  unfoldable pub do_get_position : Renderer S → ℕ × Option GError
  do_get_position r =
      let seconds = h.get_position r.log in
      if is_negative seconds
      then (0, some (g_error extension_error cannot_get_position))
      else (seconds, none)

  unfoldable pub do_notify_buffer_status : ℕ → Renderer S → Renderer S
  unfolding call
  do_notify_buffer_status percent r = call (buffering_info percent) r
