-- ===== src/Renderer/Assign.antt =====
-- `mafw_gst_renderer_assign_playlist`, and the handler of contents that change.
use mafw.Common.{
  ℕ, Bool, true, false, Option, none, some, ◌==◌, if◌then◌else◌, Outcome, ok, bad_access,
}
use mafw.Iterator.Types.{Error, Iterator, mafw_playlist_iterator_new}
use mafw.Iterator.Operations.{mafw_playlist_iterator_initialize}
use mafw.Renderer.Types.{
  raised, increment_use_count, decrement_use_count, unref_playlist, unref_iterator,
  playlist_changed_signal, Renderer, Host, Answer, call,
}
use mafw.Renderer.Media.{set_media_playlist}
use mafw.Renderer.Policy.{mafw_gst_renderer_stop}

-- New clips may be playable ones.
unfoldable pub playlist_contents_changed : {S : Type 0} → ℕ → Renderer S → Renderer S
playlist_contents_changed nreplace r = record r {
  play_failed_count = if nreplace == 0 then r.play_failed_count else 0;
}

unfoldable pub has_some {ℓ} : {A : Type ℓ} → Option A → Bool
has_some none = false
has_some (some a) = true

module _ {S : Type 0} (h : Host S) where
  -- The use count of the old playlist goes down, and the references of it and of its iterator are
  -- dropped. The one of the iterator is the only one there is, so that the iterator is freed, which the
  -- Bool says; the pointer to it stays.
  unfoldable pub release_playlist : Option S → Renderer S → Renderer S × Bool
  unfolding call
  release_playlist none r = (r, false)
  release_playlist (some s) r = (
    call (unref_playlist (h.playlist_id s))
        (call unref_iterator (call (decrement_use_count (h.playlist_id s)) r)),
    true,
  )

  -- Only without an error is the new playlist taken, with its new iterator.
  unfoldable pub take_playlist : Iterator × S × Option Error → Renderer S × Bool → Answer S × Bool
  unfolding call
  take_playlist (it, s, none) (r, freed) = (
    (
      call (increment_use_count (h.playlist_id s)) (record r { playlist = some s; iterator = it }),
      none,
    ),
    false,
  )
  take_playlist (it, s, some e) (r, freed) = ((r, some (raised e)), freed)

  unfoldable pub assign_new : Option S → Renderer S × Bool → Answer S × Bool
  unfolding take_playlist
  assign_new none (r, freed) = ((record r { playlist = none }, none), false)
  assign_new (some s) q =
      take_playlist (mafw_playlist_iterator_initialize h.ops mafw_playlist_iterator_new s) q

  -- The new media are those of the playlist that the renderer then has: to find them,
  -- `mafw_gst_renderer_set_media_playlist` reads its iterator.
  unfoldable pub finish_assign : Answer S × Bool → Outcome (Answer S)
  unfolding call has_some
  finish_assign ((r, e), freed) =
      let told = call (playlist_changed_signal (has_some r.playlist)) r in
      if freed then bad_access else ok (mafw_gst_renderer_stop h (set_media_playlist h told), e)

  -- The call returns TRUE also where it sets an error.
  unfoldable pub mafw_gst_renderer_assign_playlist : Option S → Renderer S → Outcome (Answer S)
  unfolding release_playlist assign_new finish_assign
  mafw_gst_renderer_assign_playlist playlist r =
      finish_assign (assign_new playlist (release_playlist r.playlist r))
