-- ===== src/Renderer/Media.antt =====
-- The helpers of mafw-gst-renderer.c that the states use.
use mafw.Common.{ℕ, Bool, false, Option, none, some, ◌==◌, if◌then◌else◌, ◌||◌}
use mafw.Aplaylist.Types.{Text}
use mafw.Iterator.Types.{
  Moved, MovementResult, move_ok, move_limit, move_invalid, move_error, minus_one, is_negative,
  Iterator,
}
use mafw.Iterator.Operations.{
  mafw_playlist_iterator_get_size, mafw_playlist_iterator_get_current_objectid,
  mafw_playlist_iterator_get_current_index, mafw_playlist_iterator_move_to_index,
  mafw_playlist_iterator_move_to_prev, mafw_playlist_iterator_move_to_next,
}
use mafw.Renderer.Types.{
  PlayState, stopped, playing, paused, transitioning, PlaybackMode, mode_playlist, mode_standalone,
  MovementType, move_index, move_prev, move_next, Movement, movement_ok, movement_no_playlist,
  movement_playlist_limit, movement_error, Media, GError, g_error, raised, extension_error,
  extension_not_available, source_get_metadata, idle_error, state_changed, transport_actions,
  media_changed, Renderer, Host, call,
}

abbrev pub raised_by : Option ℕ → Option GError
raised_by none = none
raised_by (some e) = some (raised e)

-- "seek", or nothing.
unfoldable pub get_property_value : PlayState → Bool → Bool
get_property_value stopped seekable = false
get_property_value transitioning seekable = false
get_property_value playing seekable = seekable
get_property_value paused seekable = seekable

unfoldable pub clear_media : Media → Media
clear_media m = record m {
  object_id = none;
  uri = none;
  title = none;
  artist = none;
  album = none;
  duration = 0;
  position = 0;
}

module _ {S : Type 0} (h : Host S) where
  unfoldable pub set_state : PlayState → Renderer S → Renderer S
  unfolding call get_property_value
  set_state state r =
      let r' = call (state_changed state) (record r { current_state = state }) in
      call (transport_actions (get_property_value state (h.get_seekable r'.log))) r'

  unfoldable pub media_index : PlaybackMode → Option S → Iterator → ℕ
  media_index mode_standalone playlist it = minus_one
  media_index mode_playlist none it = minus_one
  media_index mode_playlist (some s) it = mafw_playlist_iterator_get_current_index it

  unfoldable pub signal_media_changed : Renderer S → Renderer S
  unfolding call media_index
  signal_media_changed r =
      call (media_changed (media_index r.playback_mode r.playlist r.iterator) r.media.object_id) r

  -- The iterator asks for the size if it does not know it; a size above 0 is neither 0 nor negative.
  unfoldable pub playlist_media : Iterator → Option S → Iterator × Option Text
  playlist_media it none = (it, none)
  playlist_media it (some s) =
      let sized = mafw_playlist_iterator_get_size h.ops it s in
      (
        sized.0,
        if sized.1 == 0 || is_negative sized.1
            then none
            else mafw_playlist_iterator_get_current_objectid sized.0,
      )

  unfoldable pub set_media_playlist : Renderer S → Renderer S
  unfolding playlist_media signal_media_changed clear_media
  set_media_playlist r =
      let found = playlist_media r.iterator r.playlist in
      signal_media_changed (record r {
        media = record (clear_media r.media) { object_id = found.1 };
        iterator = found.0;
      })

  unfoldable pub set_object : Text → Renderer S → Renderer S
  unfolding signal_media_changed clear_media
  set_object object_id r =
      signal_media_changed
        (record r { media = record (clear_media r.media) { object_id = some object_id } })

  -- An error comes later, from the main loop; the `GError` is never set.
  unfoldable pub get_metadata : Text → Renderer S → Renderer S
  unfolding call
  get_metadata object_id r =
      call
        (if h.has_source object_id
          then source_get_metadata object_id
          else idle_error (g_error extension_error extension_not_available))
        r

  unfoldable pub movement : MovementResult → Movement
  movement move_ok = movement_ok
  movement move_invalid = movement_error
  movement move_error = movement_error
  movement move_limit = movement_playlist_limit

  unfoldable pub iterator_move : MovementType → Iterator → S → Moved S
  iterator_move (move_index index) it s = mafw_playlist_iterator_move_to_index h.ops it s index
  iterator_move move_prev it s = mafw_playlist_iterator_move_to_prev h.ops it s
  iterator_move move_next it s = mafw_playlist_iterator_move_to_next h.ops it s

  unfoldable pub settle : MovementResult → Renderer S → Renderer S
  unfolding set_media_playlist
  settle move_ok r = set_media_playlist r
  settle move_invalid r = r
  settle move_error r = r
  settle move_limit r = r

  unfoldable pub move_from :
      MovementType → Renderer S → Option S → Renderer S × Movement × Option GError
  unfolding iterator_move movement settle
  move_from type r none = (r, movement_no_playlist, none)
  move_from type r (some s) =
      let m = iterator_move type r.iterator s in
      (
        settle m.result (record r { playlist = some m.playlist; iterator = m.iterator }),
        movement m.result,
        raised_by m.error,
      )

  unfoldable pub mafw_gst_renderer_move :
      MovementType → Renderer S → Renderer S × Movement × Option GError
  unfolding move_from
  mafw_gst_renderer_move type r = move_from type r r.playlist
