-- ===== src/Iterator/Operations.antt =====
-- The operations of the iterator.
use mafw.Common.{ℕ, Bool, true, false, ◌||◌, Option, none, some, ◌==◌, if◌then◌else◌, not}
use mafw.Aplaylist.Types.{Text}
use mafw.Aplaylist.Play.{Clip}
use mafw.Iterator.Types.{
  Error, PlaylistOps, minus_one, is_negative, less_int, Iterator, move_ok, move_limit, move_invalid,
  move_error, Moved,
}

-- Called where the playlist is not null, as the function asserts.
unfoldable pub set_data : Iterator → ℕ → Option Text → Iterator
set_data it index objectid = record it { current_index = index; current_objectid = objectid }

-- The index and the object id that go out, or the values before the call, -1 and NULL.
unfoldable pub clip_or : Option Clip → ℕ × Option Text
clip_or none = (minus_one, none)
clip_or (some (index, oid)) = (index, some oid)

unfoldable pub mafw_playlist_iterator_invalidate : Iterator → Iterator
mafw_playlist_iterator_invalidate it =
    if it.has_playlist
    then record {
      has_playlist = false;
      current_index = minus_one;
      current_objectid = none;
      size = minus_one;
    }
    else it

unfoldable pub mafw_playlist_iterator_is_valid : Iterator → Bool
mafw_playlist_iterator_is_valid it = it.has_playlist

unfoldable pub mafw_playlist_iterator_get_current_objectid : Iterator → Option Text
mafw_playlist_iterator_get_current_objectid it =
    if it.has_playlist then it.current_objectid else none

unfoldable pub mafw_playlist_iterator_get_current_index : Iterator → ℕ
mafw_playlist_iterator_get_current_index it = if it.has_playlist then it.current_index else 0

module _ {S : Type 0} (ops : PlaylistOps S) where
  -- `set_data` unless an error was set.
  unfoldable pub take_clip : Iterator → S × Option Clip × Option Error → Iterator × S × Option Error
  unfolding clip_or set_data
  take_clip it (s, clip, some e) = (it, s, some e)
  take_clip it (s, clip, none) = (set_data it (clip_or clip).0 (clip_or clip).1, s, none)

  unfoldable pub start :
      Iterator → (S × Option Clip × Option Error) → ℕ × Option Error → Iterator × S × Option Error
  unfolding clip_or
  start it (s, clip, some e) size = (record it { size = minus_one }, s, some e)
  start it (s, clip, none) (size, some e) = (record it { size = minus_one }, s, some e)
  start it (s, clip, none) (size, none) = (
    record {
      has_playlist = true;
      current_index = (clip_or clip).0;
      current_objectid = (clip_or clip).1;
      size = size;
    },
    s,
    none,
  )

  -- The guards of GLib return early from an iterator that has a playlist already.
  unfoldable pub mafw_playlist_iterator_initialize : Iterator → S → Iterator × S × Option Error
  unfolding start
  mafw_playlist_iterator_initialize it s =
      let answer = ops.get_starting_index s in
      if it.has_playlist then (it, s, none) else start it answer (ops.get_size answer.0)

  unfoldable pub mafw_playlist_iterator_reset : Iterator → S → Iterator × S × Option Error
  unfolding take_clip
  mafw_playlist_iterator_reset it s =
      if it.has_playlist then take_clip it (ops.get_starting_index s) else (it, s, none)

  unfoldable pub mafw_playlist_iterator_move_to_last : Iterator → S → Iterator × S × Option Error
  unfolding take_clip
  mafw_playlist_iterator_move_to_last it s =
      if it.has_playlist then take_clip it (ops.get_last_index s) else (it, s, none)

  -- The size is asked for only while it is not known.
  unfoldable pub mafw_playlist_iterator_get_size : Iterator → S → Iterator × ℕ × Option Error
  mafw_playlist_iterator_get_size it s =
      let answer = ops.get_size s in
      if not it.has_playlist
      then (it, minus_one, none)
      else if it.size == minus_one
      then (record it { size = answer.0 }, answer.0, answer.1)
      else (it, it.size, none)

  unfoldable pub step_to : Iterator → S × Option Clip × Option Error → Moved S
  unfolding set_data
  step_to it (s, clip, some e) = record {
    iterator = it;
    playlist = s;
    result = move_error;
    error = some e;
  }
  step_to it (s, some (index, oid), none) = record {
    iterator = set_data it index (some oid);
    playlist = s;
    result = move_ok;
    error = none;
  }
  step_to it (s, none, none) = record {
    iterator = it;
    playlist = s;
    result = move_limit;
    error = none;
  }

  abbrev pub invalid_move : Iterator → S → Moved S
  invalid_move it s = record { iterator = it; playlist = s; result = move_invalid; error = none }

  unfoldable pub move_to_next_in_direction :
      (S → ℕ → S × Option Clip × Option Error) → Iterator → S → Moved S
  unfolding step_to
  move_to_next_in_direction get_next_in_direction it s =
      if it.has_playlist
      then step_to it (get_next_in_direction s it.current_index)
      else invalid_move it s

  unfoldable pub mafw_playlist_iterator_move_to_next : Iterator → S → Moved S
  unfolding move_to_next_in_direction
  mafw_playlist_iterator_move_to_next = move_to_next_in_direction ops.get_next

  unfoldable pub mafw_playlist_iterator_move_to_prev : Iterator → S → Moved S
  unfolding move_to_next_in_direction
  mafw_playlist_iterator_move_to_prev = move_to_next_in_direction ops.get_prev

  -- What `get_item` answered at `index`.
  unfoldable pub take_item : Iterator → S → ℕ → Option Text × Option Error → Moved S
  unfolding set_data
  take_item it s index (objectid, some e) = record {
    iterator = it;
    playlist = s;
    result = move_error;
    error = some e;
  }
  take_item it s index (objectid, none) = record {
    iterator = set_data it index objectid;
    playlist = s;
    result = move_ok;
    error = none;
  }

  unfoldable pub move_within : S → ℕ → Iterator × ℕ × Option Error → Moved S
  unfolding take_item
  move_within s index (it, playlist_size, some e) = record {
    iterator = it;
    playlist = s;
    result = move_error;
    error = some e;
  }
  move_within s index (it, playlist_size, none) =
      if is_negative index || not (less_int index playlist_size)
      then record { iterator = it; playlist = s; result = move_limit; error = none }
      else take_item it s index (ops.get_item s index)

  unfoldable pub mafw_playlist_iterator_move_to_index : Iterator → S → ℕ → Moved S
  unfolding move_within
  mafw_playlist_iterator_move_to_index it s index =
      if it.has_playlist
      then move_within s index (mafw_playlist_iterator_get_size it s)
      else invalid_move it s

  -- Called where the playlist is not null.
  unfoldable pub mafw_playlist_iterator_update : Iterator → S → Moved S
  unfolding take_item
  mafw_playlist_iterator_update it s =
      take_item it s it.current_index (ops.get_item s it.current_index)
