-- ===== src/Iterator/Handlers.antt =====
-- The handlers of the playlist's signals "contents-changed" and "item-moved".
use mafw.Common.{
  ℕ, ◌+◌, Bool, true, false, ◌&&◌, not, Option, none, some, ltb, leb, ◌==◌, if◌then◌else◌, u32,
  sub_u32,
}
use mafw.Iterator.Types.{
  Error, PlaylistOps, minus_one, is_negative, Iterator, Moved, Signal, no_signal, changed, failed,
}
use mafw.Iterator.Operations.{
  set_data, mafw_playlist_iterator_reset, mafw_playlist_iterator_get_size,
  mafw_playlist_iterator_move_to_next, mafw_playlist_iterator_move_to_prev,
  mafw_playlist_iterator_move_to_index, mafw_playlist_iterator_update,
}

module _ {S : Type 0} (ops : PlaylistOps S) where
  -- The end of the handler: the signal, with the error if there is one.
  unfoldable pub emit : Bool → Iterator × S × Option Error → Iterator × S × Signal
  emit clip_changed (it, s, none) = (it, s, changed clip_changed)
  emit clip_changed (it, s, some e) = (it, s, failed e)

  abbrev pub moved : Moved S → Iterator × S × Option Error
  moved m = (m.iterator, m.playlist, m.error)

  -- "The current index has been removed": `size` counts what is left.
  unfoldable pub replace_current : S → ℕ → Iterator × ℕ × Option Error → Iterator × S × Signal
  unfolding emit set_data
  replace_current s play_index (it, pls_size, some e) = emit false (it, s, some e)
  replace_current s play_index (it, pls_size, none) = emit true (
      if pls_size == 0
      then (set_data it minus_one none, s, none)
      else if leb pls_size play_index
      then moved (mafw_playlist_iterator_move_to_index ops it s (sub_u32 pls_size 1))
      else moved (mafw_playlist_iterator_update ops it s))

  unfoldable pub items_removed : Iterator → S → ℕ → ℕ → Iterator × S × Signal
  unfolding replace_current emit
  items_removed it s from nremove =
      let play_index = it.current_index in
      let shrunk = record it { size = sub_u32 it.size nremove } in
      let shifted = sub_u32 play_index nremove in
      let play_index' = if is_negative shifted then 0 else shifted in
      if leb from play_index && ltb play_index (u32 (from + nremove))
      then replace_current s play_index (mafw_playlist_iterator_get_size ops shrunk s)
      else if ltb from play_index
      then emit false (moved (mafw_playlist_iterator_move_to_index ops shrunk s play_index'))
      else emit false (shrunk, s, none)

  unfoldable pub items_inserted : Iterator → S → ℕ → ℕ → Iterator × S × Signal
  unfolding emit
  items_inserted it s from nreplace =
      let play_index = it.current_index in
      if play_index == minus_one
      then emit true (mafw_playlist_iterator_reset ops it s)
      else if leb from play_index
      then emit false
          (moved (mafw_playlist_iterator_move_to_index ops it s (u32 (play_index + nreplace))))
      else emit false (it, s, none)

  unfoldable pub contents_changed_handler : Iterator → S → ℕ → ℕ → ℕ → Iterator × S × Signal
  unfolding items_removed items_inserted
  contents_changed_handler it s from nremove nreplace =
      let grown = record it { size = u32 (it.size + nreplace) } in
      if it.has_playlist
      then (if ltb 0 nremove
          then items_removed grown s from nremove
          else items_inserted grown s from nreplace)
      else (it, s, no_signal)

  -- The `GError` is only logged.
  unfoldable pub item_moved_handler : Iterator → S → ℕ → ℕ → Iterator × S
  item_moved_handler it s from to =
      let play_index = it.current_index in
      let to_index = mafw_playlist_iterator_move_to_index ops it s to in
      let to_prev = mafw_playlist_iterator_move_to_prev ops it s in
      let to_next = mafw_playlist_iterator_move_to_next ops it s in
      if not it.has_playlist
      then (it, s)
      else if play_index == from
      then (to_index.iterator, to_index.playlist)
      else if ltb from play_index && leb play_index to
      then (to_prev.iterator, to_prev.playlist)
      else if leb to play_index && ltb play_index from
      then (to_next.iterator, to_next.playlist)
      else (it, s)
