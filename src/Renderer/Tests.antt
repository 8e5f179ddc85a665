-- ===== src/Renderer/Tests.antt =====
-- The renderer's theorems at a playlist of four clips that is played.
use mafw.Common.{◌≡◌, refl, true, false, none, some, [], ◌∷◌, arith}
use mafw.Iterator.Types.{minus_one}
use mafw.Iterator.Tests.{ListPls, list_ops, clips}
use mafw.Renderer.Types.{
  stopped, playing, transitioning, mode_playlist, seek_absolute, seek_type_none, seek_type_set,
  seekability_unknown, policy_continue, g_error, renderer_error, uri_not_available, worker_seek,
  Renderer, Host,
}
use mafw.Renderer.Seek.{do_set_position}
use mafw.Renderer.Media.{playlist_media}
use mafw.Iterator.Operations.{
  mafw_playlist_iterator_get_size, mafw_playlist_iterator_get_current_objectid,
}
use mafw.Renderer.States.{policy_is_stop}
use mafw.Common.{inl, ok}
use mafw.Iterator.Types.{Iterator}
use mafw.Renderer.Types.{Answer, unsupported_fps}
use mafw.Renderer.WorkerErrors.{Network, mafw_error, new_error}
use mafw.Renderer.Policy.{is_out_of_memory, Metadata, mafw_gst_renderer_stop}
use mafw.Renderer.Machine.{run}
use mafw.Renderer.Settled.{IsSettled}
use mafw.Renderer.Seeks.{do_set_position_lem}
use mafw.Renderer.Interrupt.{interlude, Back, interlude-Back}
use mafw.Renderer.Trying.{Trying}
use mafw.Renderer.Failing.{StopsWithin, errors_stop}
use mafw.Renderer.Timers.{restart, NoTimer, timer_removed}
use mafw.Renderer.Types.{timeout_add}
use mafw.Iterator.Types.{mafw_playlist_iterator_new}
use mafw.Iterator.Operations.{mafw_playlist_iterator_initialize}
use mafw.Renderer.Assign.{mafw_gst_renderer_assign_playlist}
use mafw.Renderer.Assigned.{Assigned, assign_lem}
use mafw.Renderer.Stops.{mafw_gst_renderer_stop_lem}

abbrev host : Host ListPls
host = record {
  ops = list_ops;
  has_source = λ oid. true;
  get_seekable = λ log. true;
  get_position = λ log. 0;
  endless_stream = λ log. false;
  seek_error = λ log. none;
  play_starts = λ log. true;
  timer_id = λ log. 7;
  playlist_id = λ s. s.0;
}

abbrev playing_now : Renderer ListPls
playing_now = record {
  media = record {
    object_id = some (2 ∷ []);
    uri = none;
    title = none;
    artist = none;
    album = none;
    duration = 0;
    position = 0;
    seekability = seekability_unknown;
  };
  current_state = playing;
  playlist = some (4, clips);
  iterator = record {
    has_playlist = true;
    current_index = 2;
    current_objectid = some (2 ∷ []);
    size = 4;
  };
  seek_pending = false;
  seek_type_pending = seek_type_none;
  seeking_to = minus_one;
  update_playcount_id = 0;
  play_failed_count = 1;
  playback_mode = mode_playlist;
  resume_playlist = false;
  error_policy = policy_continue;
  stay_paused = false;
  log = [];
}

playing_now-IsSettled : IsSettled playing_now
playing_now-IsSettled = record { calm = record { pending = refl; target = refl }; stands = refl }

do_set_position_lem_example :
    do_set_position host 1 seek_absolute 5 playing_now
    ≡ some (record playing_now { log = worker_seek seek_type_set 5 ∷ [] }, none)
do_set_position_lem_example =
    do_set_position_lem host 0 seek_absolute 5 playing_now (playing_now-IsSettled).calm refl

abbrev found_metadata : Metadata
found_metadata = record {
  first_uri = 8 ∷ [];
  other_uris = [];
  is_seekable = some true;
  source_duration = none;
}

interlude-Back_example :
    Back transitioning (2 ∷ []) (run host 1 (interlude (5 ∷ []) found_metadata) playing_now)
unfolding playlist_media mafw_playlist_iterator_get_size mafw_playlist_iterator_get_current_objectid
interlude-Back_example =
    interlude-Back host 0 (5 ∷ []) (2 ∷ []) found_metadata playing_now refl refl

playing_now-Trying : Trying 4 1 playing_now
unfolding policy_is_stop
playing_now-Trying = record {
  mode = refl;
  policy = refl;
  list = (4, clips);
  has_list = refl;
  attached = refl;
  size = refl;
  count = refl;
}

errors_stop_example :
    StopsWithin host 4 (omega arith) (g_error renderer_error uri_not_available) 3 playing_now
unfolding is_out_of_memory
errors_stop_example =
    errors_stop host 4 (omega arith) 1 (g_error renderer_error uri_not_available) playing_now refl
      playing_now-Trying (omega arith)

mafw_gst_renderer_stop_lem_example :
    let q = mafw_gst_renderer_stop host playing_now in
    (q.current_state ≡ stopped) × (q.playback_mode ≡ mode_playlist) × IsSettled q
mafw_gst_renderer_stop_lem_example =
    mafw_gst_renderer_stop_lem host playing_now playing_now-IsSettled

-- The timer 3 runs.
abbrev timed : Renderer ListPls
timed = record playing_now { update_playcount_id = 3; log = timeout_add 3 ∷ [] }

timer_removed_example : NoTimer 3 (run host 1 (restart (2 ∷ []) found_metadata) timed)
timer_removed_example =
    timer_removed host 0 (2 ∷ []) found_metadata timed (λ log. refl) (λ log. refl) refl refl refl 3
      (inl refl)

-- A playlist of one clip takes the place of the four.
abbrev at_first : Iterator
at_first = record {
  has_playlist = true;
  current_index = 0;
  current_objectid = some (clips 0);
  size = 1;
}

assign_lem_example :
    (a : Answer ListPls) × (mafw_gst_renderer_assign_playlist host (some (1, clips)) playing_now
      ≡ ok a)
    × Assigned host playing_now (1, clips) at_first a
unfolding mafw_playlist_iterator_initialize mafw_playlist_iterator_new
assign_lem_example =
    assign_lem host playing_now (1, clips) at_first (1, clips) playing_now-IsSettled refl

abbrev online : Network
online = record { have_conic = true; connected = true; is_stream = true }

-- The daemon does not answer.
abbrev mute : Host ListPls
mute = record host { ops = record list_ops { get_starting_index = λ s. (s, none, some 5) } }

-- The two codes have one number.
fps_stops : is_out_of_memory (new_error online (mafw_error unsupported_fps)) ≡ true
unfolding is_out_of_memory new_error
fps_stops = refl
