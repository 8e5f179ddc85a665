-- ===== src/Iterator/Types.antt =====
-- The iterator of mafw-playlist-iterator.c, and what it asks of a playlist.
use mafw.Common.{ℕ, ◌+◌, Bool, false, Option, none, leb, ltb, u32, int_limit}
use mafw.Aplaylist.Types.{Text}
use mafw.Aplaylist.Play.{Clip}

-- A `GError` stands as the number of its code.
abbrev pub Error : Type 0
Error = ℕ

-- The calls of the `MafwPlaylist` interface. Each gives the `GError` that it sets beside its
-- result; `none` for a clip is the answer FALSE, which leaves `index` and `objectid` as they were.
pub record PlaylistOps (S : Type 0) : Type 0 where
  pub get_size : S → ℕ × Option Error
  pub get_item : S → ℕ → Option Text × Option Error
  pub get_next : S → ℕ → S × Option Clip × Option Error
  pub get_prev : S → ℕ → S × Option Clip × Option Error
  pub get_starting_index : S → S × Option Clip × Option Error
  pub get_last_index : S → S × Option Clip × Option Error

-- A `gint` is a bit pattern below 2^32; from 2^31 on it is negative.
abbrev pub minus_one : ℕ
minus_one = 4294967295

abbrev pub is_negative : ℕ → Bool
is_negative x = leb int_limit x

abbrev pub less_int : ℕ → ℕ → Bool
less_int x y = ltb (u32 (x + int_limit)) (u32 (y + int_limit))

-- `has_playlist` says that the pointer `playlist` is not null.
pub record Iterator : Type 0 where
  pub has_playlist : Bool
  pub current_index : ℕ
  pub current_objectid : Option Text
  pub size : ℕ

pub data MovementResult : Type 0 where
  move_ok move_limit move_invalid move_error : MovementResult

-- The iterator, the playlist, the result and the `GError` after a call.
pub record Moved (S : Type 0) : Type 0 where
  pub iterator : Iterator
  pub playlist : S
  pub result : MovementResult
  pub error : Option Error

-- The signal "playlist-changed", if it is emitted.
pub data Signal : Type 0 where
  no_signal : Signal
  changed : Bool → Signal
  failed : Error → Signal

unfoldable pub mafw_playlist_iterator_new : Iterator
mafw_playlist_iterator_new = record {
  has_playlist = false;
  current_index = minus_one;
  current_objectid = none;
  size = minus_one;
}
