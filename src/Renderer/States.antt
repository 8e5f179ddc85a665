-- ===== src/Renderer/States.antt =====
-- The handlers of the four states, by mafw-gst-renderer-state-stopped.c, -transitioning.c, -playing.c
-- and -paused.c, and where a class has none the default of mafw-gst-renderer-state.c.
use mafw.Common.{ℕ, Bool, true, false, ◌&&◌, ◌||◌, Option, none, some, ◌∷◌, ◌==◌, if◌then◌else◌}
use mafw.Aplaylist.Types.{Text}
use mafw.Iterator.Types.{is_negative}
use mafw.Renderer.Types.{
  PlayState, stopped, playing, paused, transitioning, PlaybackMode, mode_playlist, mode_standalone,
  move_index, move_prev, move_next, Movement, movement_ok, movement_no_playlist,
  movement_playlist_limit, movement_error, ErrorPolicy, policy_continue, policy_stop, SeekMode,
  Code, GError, g_error, renderer_error, no_media, index_out_of_bounds, cannot_play, cannot_pause,
  cannot_get_position, stream_disconnected, worker_stop, worker_pause, worker_resume, update_stats,
  error_signal, timeout_add, source_remove, Renderer, Host, Answer, call,
}
use mafw.Renderer.Media.{set_state, set_media_playlist, mafw_gst_renderer_move}
use mafw.Renderer.Playback.{
  to_playlist_mode, do_play, do_play_object, state_play, rewind, wind, do_next, do_prev,
  do_goto_index, do_get_position, do_notify_buffer_status,
}
use mafw.Renderer.Seek.{do_set_position}

-- "Operation not allowed".
abbrev pub not_allowed : {S : Type 0} → Code → Renderer S → Answer S
not_allowed code r = (r, some (g_error renderer_error code))

unfoldable pub mode_eq : PlaybackMode → PlaybackMode → Bool
mode_eq mode_playlist mode_playlist = true
mode_eq mode_standalone mode_standalone = true
mode_eq mode_playlist mode_standalone = false
mode_eq mode_standalone mode_playlist = false

-- If the mode changed in `play_object`, whether the playlist is to be resumed at its end.
unfoldable pub resume_if_switched : {S : Type 0} → Bool → PlaybackMode → Answer S → Answer S
unfolding mode_eq
resume_if_switched resume prev_mode (r, e) =
    if mode_eq r.playback_mode prev_mode then (r, e) else (record r { resume_playlist = resume }, e)

unfoldable pub policy_is_stop : ErrorPolicy → Bool
policy_is_stop policy_stop = true
policy_is_stop policy_continue = false

module _ {S : Type 0} (h : Host S) where
  unfoldable pub state_play_object : PlayState → Text → Renderer S → Answer S
  unfolding resume_if_switched
  state_play_object stopped oid r =
      resume_if_switched false r.playback_mode (do_play_object h oid r)
  state_play_object transitioning oid r =
      resume_if_switched true r.playback_mode (do_play_object h oid r)
  state_play_object playing oid r = resume_if_switched true r.playback_mode (do_play_object h oid r)
  state_play_object paused oid r =
      resume_if_switched true r.playback_mode
        (do_play_object h oid (record r { stay_paused = false }))

  unfoldable pub state_pause : PlayState → Renderer S → Answer S
  unfolding call
  state_pause stopped r = not_allowed cannot_pause r
  state_pause transitioning r = (record r { stay_paused = true }, none)
  state_pause playing r = (call worker_pause r, none)
  state_pause paused r = not_allowed cannot_pause r

  unfoldable pub state_resume : PlayState → Renderer S → Answer S
  unfolding call
  state_resume stopped r = not_allowed cannot_play r
  state_resume transitioning r =
      if r.stay_paused then (record r { stay_paused = false }, none) else not_allowed cannot_play r
  state_resume playing r = not_allowed cannot_play r
  state_resume paused r = (call worker_resume (record r { stay_paused = false }), none)

  unfoldable pub state_set_position : ℕ → PlayState → SeekMode → ℕ → Renderer S → Option (Answer S)
  state_set_position fuel stopped mode seconds r = some (not_allowed cannot_play r)
  state_set_position fuel transitioning mode seconds r = some (not_allowed cannot_play r)
  state_set_position fuel playing mode seconds r = do_set_position h fuel mode seconds r
  state_set_position fuel paused mode seconds r =
      do_set_position h fuel mode seconds (record r { stay_paused = true })

  unfoldable pub state_get_position : PlayState → Renderer S → ℕ × Option GError
  state_get_position stopped r = (0, some (g_error renderer_error cannot_get_position))
  state_get_position transitioning r = (0, none)
  state_get_position playing r = do_get_position h r
  state_get_position paused r = do_get_position h r

  -- In the stopped state the clip changes and the renderer stays stopped.
  unfoldable pub stopped_move :
      (Renderer S → Answer S) → Renderer S × Movement × Option GError → Answer S
  stopped_move on_limit (r, movement_ok, e) = (r, e)
  stopped_move on_limit (r, movement_error, e) = (r, e)
  stopped_move on_limit (r, movement_no_playlist, e) = not_allowed no_media r
  stopped_move on_limit (r, movement_playlist_limit, e) = on_limit r

  unfoldable pub state_next : PlayState → Renderer S → Answer S
  unfolding stopped_move
  state_next stopped r =
      stopped_move (λ q. (set_media_playlist h (rewind h q q.playlist), none))
        (mafw_gst_renderer_move h move_next r)
  state_next transitioning r = do_next h transitioning r
  state_next playing r = do_next h playing r
  state_next paused r = do_next h paused (record r { stay_paused = true })

  unfoldable pub state_previous : PlayState → Renderer S → Answer S
  unfolding stopped_move
  state_previous stopped r =
      stopped_move (λ q. (set_media_playlist h (wind h q q.playlist), none))
        (mafw_gst_renderer_move h move_prev r)
  state_previous transitioning r = do_prev h transitioning r
  state_previous playing r = do_prev h playing r
  state_previous paused r = do_prev h paused (record r { stay_paused = true })

  unfoldable pub state_goto_index : PlayState → ℕ → Renderer S → Answer S
  unfolding stopped_move
  state_goto_index stopped index r =
      stopped_move (λ q. not_allowed index_out_of_bounds q)
        (mafw_gst_renderer_move h (move_index index) r)
  state_goto_index transitioning index r = do_goto_index h transitioning index r
  state_goto_index playing index r = do_goto_index h playing index r
  state_goto_index paused index r = do_goto_index h paused index (record r { stay_paused = true })

  -- The id of the new timer replaces that of the old one.
  unfoldable pub start_timer : Renderer S → Option Text → Renderer S
  unfolding call
  start_timer r none = r
  start_timer r (some object_id) =
      let id = h.timer_id r.log in record (call (timeout_add id) r) { update_playcount_id = id }

  unfoldable pub state_notify_play : PlayState → Renderer S → Renderer S
  unfolding start_timer
  state_notify_play stopped r = r
  state_notify_play transitioning r = set_state h playing (start_timer r r.media.object_id)
  state_notify_play playing r = r
  state_notify_play paused r = set_state h playing r

  unfoldable pub state_notify_pause : PlayState → Renderer S → Renderer S
  state_notify_pause stopped r = r
  state_notify_pause transitioning r = set_state h paused (record r { stay_paused = false })
  state_notify_pause playing r = set_state h paused r
  state_notify_pause paused r = r

  unfoldable pub state_notify_buffer_status : PlayState → ℕ → Renderer S → Renderer S
  state_notify_buffer_status stopped percent r = r
  state_notify_buffer_status transitioning percent r = do_notify_buffer_status h percent r
  state_notify_buffer_status playing percent r = do_notify_buffer_status h percent r
  state_notify_buffer_status paused percent r = do_notify_buffer_status h percent r

  unfoldable pub state_contents_changed : PlayState → Bool → Renderer S → Answer S
  unfolding mode_eq
  state_contents_changed stopped clip_changed r = (r, none)
  state_contents_changed transitioning clip_changed r =
      if clip_changed && mode_eq r.playback_mode mode_playlist then do_play h r else (r, none)
  state_contents_changed playing clip_changed r =
      if clip_changed && mode_eq r.playback_mode mode_playlist then do_play h r else (r, none)
  state_contents_changed paused clip_changed r =
      if clip_changed && mode_eq r.playback_mode mode_playlist
      then do_play h (record r { stay_paused = true })
      else (r, none)

  -- The statistics are brought up to date now, not when the timer runs off.
  unfoldable pub finish_update : Renderer S → Renderer S
  finish_update r =
      let id = r.update_playcount_id in
      let none_runs = id == 0 || is_negative id in
      record r {
        update_playcount_id = if none_runs then id else 0;
        log = if none_runs then r.log else update_stats ∷ source_remove id ∷ r.log;
      }

  unfoldable pub end_stopped : Renderer S → Renderer S
  unfolding call
  end_stopped r = set_state h stopped (call worker_stop r)

  unfoldable pub eos_move : Renderer S × Movement × Option GError → Answer S
  unfolding end_stopped
  eos_move (r, movement_ok, e) = state_play h playing r
  eos_move (r, movement_playlist_limit, e) = (end_stopped r, e)
  eos_move (r, movement_no_playlist, e) = (end_stopped r, e)
  eos_move (r, movement_error, e) = (r, e)

  unfoldable pub eos_in : PlaybackMode → Renderer S → Answer S
  unfolding eos_move policy_is_stop call
  eos_in mode_standalone r =
      let r' = to_playlist_mode h (end_stopped r) mode_standalone in
      if r'.resume_playlist then state_play h playing r' else (r', none)
  eos_in mode_playlist r =
      if h.endless_stream r.log && policy_is_stop r.error_policy
      then (call (error_signal (g_error renderer_error stream_disconnected)) (end_stopped r), none)
      else eos_move (mafw_gst_renderer_move h move_next r)

  unfoldable pub state_notify_eos : PlayState → Renderer S → Answer S
  unfolding finish_update eos_in
  state_notify_eos stopped r = (r, none)
  state_notify_eos transitioning r = (r, none)
  state_notify_eos paused r = (r, none)
  state_notify_eos playing r = let r' = finish_update r in eos_in r'.playback_mode r'
