-- ===== src/Renderer/Machine.antt =====
-- Everything that can happen to the renderer, one call at a time.
use mafw.Common.{List, ◌∷◌, [], ℕ, Bool, false, Option, none, some}
use mafw.Aplaylist.Types.{Text}
use mafw.Iterator.Types.{Signal, minus_one, mafw_playlist_iterator_new}
use mafw.Renderer.Types.{
  stopped, mode_playlist, SeekMode, seek_type_none, GError, g_error, renderer_error,
  uri_not_available, seekability_unknown, update_stats, policy_continue, Renderer, Host, Answer,
  call,
}
use mafw.Renderer.States.{
  state_play_object, state_pause, state_resume, state_set_position, state_notify_play,
  state_notify_pause, state_notify_buffer_status, state_notify_eos,
}
use mafw.Renderer.Policy.{
  Metadata, emit_error, state_notify_metadata, mafw_gst_renderer_play, mafw_gst_renderer_stop,
  mafw_gst_renderer_next, mafw_gst_renderer_previous, mafw_gst_renderer_goto_index, manage_error,
  playlist_changed, state_pre_unmount,
}

unfoldable pub mafw_gst_renderer_init : {S : Type 0} → Renderer S
mafw_gst_renderer_init = record {
  media = record {
    object_id = none;
    uri = none;
    title = none;
    artist = none;
    album = none;
    duration = 0;
    position = 0;
    seekability = seekability_unknown;
  };
  current_state = stopped;
  playlist = none;
  iterator = mafw_playlist_iterator_new;
  seek_pending = false;
  seek_type_pending = seek_type_none;
  seeking_to = minus_one;
  update_playcount_id = 0;
  play_failed_count = 0;
  playback_mode = mode_playlist;
  resume_playlist = false;
  error_policy = policy_continue;
  stay_paused = false;
  log = [];
}

-- The calls of clients, then those of the sources, the worker, the playlist's iterator, GLib's
-- timer and the monitor of the memory cards.
pub data Command : Type 0 where
  play stop pause resume next previous : Command
  play_object : Text → Command
  goto_index : ℕ → Command
  set_position : SeekMode → ℕ → Command
  metadata : Text → Metadata → Command
  no_metadata notify_play notify_pause notify_eos timeout : Command
  buffer_status : ℕ → Command
  worker_error : GError → Command
  iterator_changed : Signal → Command
  pre_unmount : Bool → Command

-- A call of the worker that has an error is answered by the signal "error".
unfoldable pub signalled : {S : Type 0} → Answer S → Answer S
unfolding emit_error
signalled a = (emit_error a, none)

unfoldable pub perform : {S : Type 0} → Host S → ℕ → Command → Renderer S → Option (Answer S)
unfolding signalled call
perform h fuel play r = some (mafw_gst_renderer_play h r)
perform h fuel stop r = some (mafw_gst_renderer_stop h r, none)
perform h fuel pause r = some (state_pause h r.current_state r)
perform h fuel resume r = some (state_resume h r.current_state r)
perform h fuel next r = some (mafw_gst_renderer_next h r)
perform h fuel previous r = some (mafw_gst_renderer_previous h r)
perform h fuel (play_object oid) r = some (state_play_object h r.current_state oid r)
perform h fuel (goto_index index) r = some (mafw_gst_renderer_goto_index h index r)
perform h fuel (set_position mode seconds) r =
    state_set_position h fuel r.current_state mode seconds r
perform h fuel (metadata oid m) r = some (state_notify_metadata h r.current_state oid m r, none)
perform h fuel no_metadata r =
    some (manage_error h (g_error renderer_error uri_not_available) r, none)
perform h fuel notify_play r = some (state_notify_play h r.current_state r, none)
perform h fuel notify_pause r = some (state_notify_pause h r.current_state r, none)
perform h fuel notify_eos r = some (signalled (state_notify_eos h r.current_state r))
perform h fuel timeout r = some (record (call update_stats r) { update_playcount_id = 0 }, none)
perform h fuel (buffer_status percent) r =
    some (state_notify_buffer_status h r.current_state percent r, none)
perform h fuel (worker_error e) r = some (manage_error h e r, none)
perform h fuel (iterator_changed signal) r = some (playlist_changed h signal r r.playlist, none)
perform h fuel (pre_unmount under) r =
    some (state_pre_unmount h r.current_state under r r.media.uri, none)

-- One call after another, as long as they return.
unfoldable pub run : {S : Type 0} → Host S → ℕ → List Command → Renderer S → Option (Renderer S)
run h fuel [] r = some r
run h fuel (c ∷ cs) r = elim (perform h fuel c r) [ none ↦ none | some a ↦ run h fuel cs a.0 ]
