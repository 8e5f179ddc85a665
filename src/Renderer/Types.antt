-- ===== src/Renderer/Types.antt =====
-- The renderer of mafw-gst-renderer.h, what it asks of others and what it does to them.
use mafw.Common.{ℕ, Bool, Option, List, ◌∷◌}
use mafw.Aplaylist.Types.{Text}
use mafw.Iterator.Types.{Error, PlaylistOps, Iterator}

pub data PlayState : Type 0 where
  stopped playing paused transitioning : PlayState

pub data PlaybackMode : Type 0 where
  mode_playlist mode_standalone : PlaybackMode

pub data MovementType : Type 0 where
  move_index : ℕ → MovementType
  move_prev move_next : MovementType

-- `MafwGstRendererMovementResult`.
pub data Movement : Type 0 where
  movement_ok movement_no_playlist movement_playlist_limit movement_error : Movement

-- Other numbers than those of `SeekAbsolute` and `SeekRelative` reach the code too.
pub data SeekMode : Type 0 where
  seek_absolute seek_relative seek_unknown : SeekMode

pub data SeekType : Type 0 where
  seek_type_none seek_type_cur seek_type_set seek_type_end : SeekType

pub data ErrorPolicy : Type 0 where
  policy_continue policy_stop : ErrorPolicy

pub data Seekability : Type 0 where
  seekability_unknown no_seekable seekable : Seekability

pub data Domain : Type 0 where
  renderer_error extension_error : Domain

pub data Code : Type 0 where
  cannot_play cannot_stop cannot_pause cannot_get_position no_media index_out_of_bounds failed_code
        invalid_params stream_disconnected extension_not_available out_of_memory uri_not_available
        network_down invalid_uri media_not_found corrupted_file cannot_set_position
        type_not_available unsupported_type unsupported_fps codec_not_found drm :
      Code

-- The domain and the code of a `GError`; `raised` is one that a call of the playlist, the worker
-- or a source gave, by the number of its code.
pub data GError : Type 0 where
  g_error : Domain → Code → GError
  raised : Error → GError

pub record Media : Type 0 where
  pub object_id : Option Text
  pub uri : Option Text
  pub title : Option Text
  pub artist : Option Text
  pub album : Option Text
  pub duration : ℕ
  pub position : ℕ
  pub seekability : Seekability

-- The calls that leave the renderer, with their arguments.
pub data Effect : Type 0 where
  worker_stop worker_pause worker_resume update_stats : Effect
  worker_play : Text → Effect
  worker_play_alternatives : List Text → Effect
  worker_seek : SeekType → ℕ → Effect
  source_get_metadata : Text → Effect
  idle_error : GError → Effect
  state_changed : PlayState → Effect
  transport_actions : Bool → Effect
  media_changed : ℕ → Option Text → Effect
  buffering_info : ℕ → Effect
  error_signal : GError → Effect
  timeout_add : ℕ → Effect
  source_remove : ℕ → Effect
  increment_use_count decrement_use_count unref_playlist : ℕ → Effect
  unref_iterator : Effect
  playlist_changed_signal : Bool → Effect

-- `playlist` is `none` for the null pointer; `iterator` is null then too, and not looked at.
-- `stay_paused` is the worker's field. `log` holds what was called, the latest first.
pub record Renderer (S : Type 0) : Type 0 where
  pub media : Media
  pub current_state : PlayState
  pub playlist : Option S
  pub iterator : Iterator
  pub seek_pending : Bool
  pub seek_type_pending : SeekType
  pub seeking_to : ℕ
  pub update_playcount_id : ℕ
  pub play_failed_count : ℕ
  pub playback_mode : PlaybackMode
  pub resume_playlist : Bool
  pub error_policy : ErrorPolicy
  pub stay_paused : Bool
  pub log : List Effect

-- What others answer, as a function of all that was called before: the playlist, the registry
-- (`has_source`), the worker (`get_seekable`, `get_position`, the error of a seek, and whether it
-- plays a stream without length, not seekable and without video; `play_starts` is FALSE if the URI that it
-- is to play is that of a media playlist that it cannot parse), and GLib with its timer ids.
-- `playlist_id` is the id by which the daemon knows a playlist.
pub record Host (S : Type 0) : Type 0 where
  pub ops : PlaylistOps S
  pub has_source : Text → Bool
  pub get_seekable : List Effect → Bool
  pub get_position : List Effect → ℕ
  pub endless_stream : List Effect → Bool
  pub seek_error : List Effect → Option Error
  pub play_starts : List Effect → Bool
  pub timer_id : List Effect → ℕ
  pub playlist_id : S → ℕ

-- A call of the renderer, with the `GError` that it sets.
abbrev pub Answer : Type 0 → Type 0
Answer S = Renderer S × Option GError

unfoldable pub call : {S : Type 0} → Effect → Renderer S → Renderer S
call e r = record r { log = e ∷ r.log }
