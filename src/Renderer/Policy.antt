-- ===== src/Renderer/Policy.antt =====
-- The calls of mafw-gst-renderer.c that clients, the worker, the sources and the playlist make: they
-- go to the class of the current state. `_run_error_policy` decides what an error stops.
use mafw.Common.{
  text_eq, ℕ, ◌+◌, Bool, true, false, ◌&&◌, Option, none, some, List, [], ◌∷◌, if◌then◌else◌, ◌==◌,
  leb, u32,
}
use mafw.Aplaylist.Types.{Text}
use mafw.Iterator.Types.{
  minus_one, MovementResult, move_ok, move_limit, move_invalid, move_error, Signal, no_signal,
  changed, failed,
}
use mafw.Iterator.Operations.{mafw_playlist_iterator_move_to_next, mafw_playlist_iterator_get_size}
use mafw.Renderer.Types.{
  PlayState, stopped, playing, paused, transitioning, PlaybackMode, mode_playlist, mode_standalone,
  Seekability, seekability_unknown, no_seekable, seekable, Code, cannot_play, cannot_stop,
  cannot_pause, cannot_get_position, no_media, index_out_of_bounds, failed_code, invalid_params,
  stream_disconnected, extension_not_available, uri_not_available, network_down, invalid_uri,
  media_not_found, corrupted_file, cannot_set_position, type_not_available, unsupported_type,
  unsupported_fps, codec_not_found, drm, out_of_memory, Effect, GError, g_error, raised,
  worker_play, worker_play_alternatives, error_signal, Renderer, Host, Answer, call,
}
use mafw.Renderer.Media.{set_media_playlist}
use mafw.Renderer.Playback.{to_playlist_mode, cancel_update, state_play, state_stop, rewind}
use mafw.Renderer.States.{
  state_next, state_previous, state_goto_index, state_contents_changed, mode_eq, policy_is_stop,
  end_stopped,
}

-- The numbers of `MafwExtensionError` and `MafwRendererError`.
unfoldable pub code_number : Code → ℕ
code_number extension_not_available = 0
code_number network_down = 2
code_number invalid_params = 9
code_number out_of_memory = 10
code_number failed_code = 11
code_number no_media = 0
code_number uri_not_available = 1
code_number invalid_uri = 2
code_number media_not_found = 3
code_number stream_disconnected = 4
code_number type_not_available = 5
code_number unsupported_type = 8
code_number unsupported_fps = 10
code_number drm = 11
code_number corrupted_file = 13
code_number codec_not_found = 15
code_number index_out_of_bounds = 19
code_number cannot_play = 20
code_number cannot_stop = 21
code_number cannot_pause = 22
code_number cannot_set_position = 23
code_number cannot_get_position = 24

unfoldable pub code_of : GError → ℕ
unfolding code_number
code_of (g_error domain code) = code_number code
code_of (raised code) = code

-- Only the codes are compared, not the domains.
unfoldable pub is_out_of_memory : GError → Bool
unfolding code_of
is_out_of_memory e = code_of e == code_number out_of_memory

-- What a source answered: the URIs (one at least), whether it can be sought, the duration.
pub record Metadata : Type 0 where
  pub first_uri : Text
  pub other_uris : List Text
  pub is_seekable : Option Bool
  pub source_duration : Option ℕ

unfoldable pub seekability_of : Option Bool → Seekability
seekability_of none = seekability_unknown
seekability_of (some true) = seekable
seekability_of (some false) = no_seekable

unfoldable pub duration_of : Option ℕ → ℕ
duration_of none = minus_one
duration_of (some duration) = duration

-- If the GError is set, the signal "error".
unfoldable pub emit_error : {S : Type 0} → Answer S → Renderer S
unfolding call
emit_error (r, none) = r
emit_error (r, some e) = call (error_signal e) r

unfoldable pub play_uris : Text → List Text → Effect
play_uris uri [] = worker_play uri
play_uris uri (other ∷ others) = worker_play_alternatives (uri ∷ other ∷ others)

unfoldable pub is_object : Text → Option Text → Bool
unfolding text_eq
is_object object_id none = false
is_object object_id (some current) = text_eq object_id current

module _ {S : Type 0} (h : Host S) where
  -- Whether the worker gets to `_start_play`: always, if it has alternatives.
  unfoldable pub starts : List Text → List Effect → Bool
  starts [] log = h.play_starts log
  starts (other ∷ others) log = true

  -- `mafw_gst_renderer_worker_play` or its variant with alternatives: `_start_play` removes the timer of
  -- the play count.
  unfoldable pub worker_plays : Text → List Text → Renderer S → Renderer S
  unfolding play_uris starts cancel_update call
  worker_plays uri others r =
      let r' = call (play_uris uri others) r in
      let started = starts others r'.log in
      record r' {
        update_playcount_id =
            if started then (cancel_update h r').update_playcount_id else r'.update_playcount_id;
        log = if started then (cancel_update h r').log else r'.log;
      }

  -- If the metadata are those of the object that is to be played, it is played.
  unfoldable pub transitioning_notify_metadata : Text → Metadata → Renderer S → Renderer S
  unfolding worker_plays seekability_of duration_of is_object
  transitioning_notify_metadata object_id m r =
      if is_object object_id r.media.object_id
      then worker_plays m.first_uri m.other_uris (record r {
        media = record r.media {
          uri = some m.first_uri;
          seekability = seekability_of m.is_seekable;
          duration = duration_of m.source_duration;
        };
      })
      else r

  unfoldable pub state_notify_metadata : PlayState → Text → Metadata → Renderer S → Renderer S
  unfolding transitioning_notify_metadata
  state_notify_metadata stopped object_id m r = r
  state_notify_metadata transitioning object_id m r = transitioning_notify_metadata object_id m r
  state_notify_metadata playing object_id m r = r
  state_notify_metadata paused object_id m r = r

  abbrev pub mafw_gst_renderer_play : Renderer S → Answer S
  mafw_gst_renderer_play r = state_play h r.current_state r

  unfoldable pub mafw_gst_renderer_stop : Renderer S → Renderer S
  mafw_gst_renderer_stop r = state_stop h r.current_state (record r { play_failed_count = 0 })

  -- The clip after the failed one, if the step to it went well.
  unfoldable pub retry_from : MovementResult → Renderer S → Renderer S
  unfolding mafw_gst_renderer_stop
  retry_from move_ok r = (mafw_gst_renderer_play (set_media_playlist h r)).0
  retry_from move_limit r = mafw_gst_renderer_stop (set_media_playlist h (rewind h r r.playlist))
  retry_from move_invalid r = mafw_gst_renderer_stop (set_media_playlist h (rewind h r r.playlist))
  retry_from move_error r = mafw_gst_renderer_stop (set_media_playlist h (rewind h r r.playlist))

  -- After the step to the next clip: `size` is the length of the playlist.
  unfoldable pub retry : MovementResult → ℕ → Renderer S → Renderer S
  unfolding retry_from
  retry result size r =
      if leb size r.play_failed_count
      then set_media_playlist h (record (state_stop h r.current_state r) { play_failed_count = 0 })
      else retry_from result r

  unfoldable pub play_next : GError → Renderer S → Option S → Answer S
  unfolding retry
  play_next e r none = (r, none)
  play_next e r (some s) =
      let m = mafw_playlist_iterator_move_to_next h.ops r.iterator s in
      let sized = mafw_playlist_iterator_get_size h.ops m.iterator m.playlist in
      (
        retry m.result sized.1 (record r {
          iterator = sized.0;
          playlist = some m.playlist;
          play_failed_count = u32 (r.play_failed_count + 1);
        }),
        some e,
      )

  unfoldable pub policy_in : PlaybackMode → GError → Renderer S → Answer S
  unfolding play_next mafw_gst_renderer_stop
  policy_in mode_playlist e r =
      if policy_is_stop r.error_policy
      then (mafw_gst_renderer_stop r, some e)
      else play_next e r r.playlist
  policy_in mode_standalone e r =
      let r' = to_playlist_mode h r mode_standalone in
      (if r'.resume_playlist then (mafw_gst_renderer_play r').0 else end_stopped h r', some e)

  unfoldable pub run_error_policy : GError → Renderer S → Answer S
  unfolding policy_in is_out_of_memory mafw_gst_renderer_stop
  run_error_policy e r =
      if is_out_of_memory e
      then (mafw_gst_renderer_stop r, some e)
      else policy_in r.playback_mode e r

  -- `e` is the error in the terms of the renderer.
  unfoldable pub manage_error : GError → Renderer S → Renderer S
  unfolding run_error_policy emit_error
  manage_error e r = emit_error (run_error_policy e r)

  unfoldable pub mafw_gst_renderer_next : Renderer S → Answer S
  mafw_gst_renderer_next r = state_next h r.current_state (record r { play_failed_count = 0 })

  unfoldable pub mafw_gst_renderer_previous : Renderer S → Answer S
  mafw_gst_renderer_previous r =
      state_previous h r.current_state (record r { play_failed_count = 0 })

  unfoldable pub mafw_gst_renderer_goto_index : ℕ → Renderer S → Answer S
  mafw_gst_renderer_goto_index index r =
      state_goto_index h r.current_state index (record r { play_failed_count = 0 })

  -- The error of a signal of the iterator goes on, a changed clip is set where a playlist is played.
  unfoldable pub changed_in : Signal → Renderer S → Renderer S
  unfolding emit_error call mode_eq
  changed_in no_signal r = r
  changed_in (failed e) r = call (error_signal (raised e)) r
  changed_in (changed clip_changed) r = emit_error (
      state_contents_changed h r.current_state clip_changed (
        if clip_changed && mode_eq r.playback_mode mode_playlist
        then set_media_playlist h r
        else r))

  unfoldable pub playlist_changed : Signal → Renderer S → Option S → Renderer S
  unfolding changed_in
  playlist_changed sent r none = r
  playlist_changed sent r (some s) = changed_in sent r

  -- `under` says that the URI that is played lies under the mount point.
  unfoldable pub state_pre_unmount : PlayState → Bool → Renderer S → Option Text → Renderer S
  unfolding mafw_gst_renderer_stop
  state_pre_unmount stopped under r uri = r
  state_pre_unmount transitioning under r uri = r
  state_pre_unmount playing under r none = r
  state_pre_unmount paused under r none = r
  state_pre_unmount playing under r (some uri) = if under then mafw_gst_renderer_stop r else r
  state_pre_unmount paused under r (some uri) = if under then mafw_gst_renderer_stop r else r
