-- ===== src/Iterator/Tests.antt =====
-- Runs of the iterator over a playlist whose items are known.
use mafw.Common.{
  ◌==◌, ℕ, ◌+◌, ◌-◌, ◌≡◌, refl, ap, true, false, none, some, [], ◌∷◌, arith, ltb, if◌then◌else◌,
  inr,
}
use mafw.Aplaylist.Types.{Text}
use mafw.Aplaylist.Types.{Pls}
use mafw.Aplaylist.Valid.{IsValid}
use mafw.Aplaylist.Edit.{pls_move}
use mafw.Aplaylist.Tests.{three, lowest}
use mafw.Iterator.Moved.{pls_ops, Follows, item_moved-Follows, item_moved_shuffled}
use mafw.Iterator.Types.{PlaylistOps, Iterator, changed}
use mafw.Iterator.Handlers.{contents_changed_handler, item_moved_handler}
use mafw.Iterator.Contents.{
  Serves, Synced, Tracks, inserted_Tracks, removed_Tracks, removed_current,
}

-- A playlist is its length and its items.
abbrev pub ListPls : Type 0
ListPls = ℕ × (ℕ → Text)

abbrev pub list_ops : PlaylistOps ListPls
list_ops = record {
  get_size = λ s. (s.0, none);
  get_item = λ s i. (some (s.1 i), none);
  get_next = λ s i. (s, some (i + 1, s.1 (i + 1)), none);
  get_prev = λ s i. (s, some (i - 1, s.1 (i - 1)), none);
  get_starting_index = λ s. (s, some (0, s.1 0), none);
  get_last_index = λ s. (s, some (s.0 - 1, s.1 (s.0 - 1)), none);
}

abbrev pub clips : ℕ → Text
clips j = j ∷ []

abbrev at_two : Iterator
at_two = record {
  has_playlist = true;
  current_index = 2;
  current_objectid = some (2 ∷ []);
  size = 4;
}

at_two-Synced : Synced list_ops at_two clips 4
at_two-Synced = record { attached = refl; size_eq = refl; in_range = omega arith; object = refl }

list-Serves : (len : ℕ) (items : ℕ → Text) → Serves list_ops (len, items) items len
list-Serves len items = record { size_answer = refl; item_answer = λ i h. refl }

-- Two clips come in at 1.
abbrev with_two : ℕ → Text
with_two j = if ltb j 1 then clips j else if ltb j 3 then 9 ∷ [] else clips (j - 2)

inserted_Tracks_example :
    Tracks list_ops at_two
      (6, with_two)
      with_two
      6
      (contents_changed_handler list_ops at_two (6, with_two) 1 0 2)
inserted_Tracks_example =
    inserted_Tracks list_ops at_two (6, with_two) clips with_two 4 1 2 at_two-Synced
      (list-Serves 6 with_two) (omega arith) (λ j h. ground arith) (λ j a b. ground arith)

-- The clip at 0 goes.
abbrev without_first : ℕ → Text
without_first j = clips (j + 1)

removed_Tracks_example :
    Tracks list_ops at_two
      (3, without_first)
      without_first
      3
      (contents_changed_handler list_ops at_two (3, without_first) 0 1 0)
removed_Tracks_example =
    removed_Tracks list_ops at_two (3, without_first) clips without_first 4 0 1 at_two-Synced
      (list-Serves 3 without_first) (omega arith) (omega arith) (omega arith) (inr (omega arith))
      (λ j h. absurd (omega arith)) (λ j a b. ap clips (omega arith))

-- The clips from 1 on go.
removed_current_example :
    let r = contents_changed_handler list_ops at_two (1, clips) 1 3 0 in
    Synced list_ops r.0 clips 1
    × (r.0.current_index ≡ 0)
    × (r.1 ≡ (1, clips))
    × (r.2 ≡ changed true)
removed_current_example =
    removed_current list_ops at_two (1, clips) clips clips 4 1 3 at_two-Synced (list-Serves 1 clips)
      (omega arith) (omega arith) (omega arith) (omega arith) (omega arith)

-- The daemon's playlist of three clips, in the order of the list.
abbrev plain : Pls
plain = record (three 0) { shuffled = false }

plain-IsValid : IsValid plain
plain-IsValid = record {
  room = omega arith;
  small = omega arith;
  pool = λ e. absurd (cc e);
  order = λ e. absurd (cc e);
}

abbrev at_one : Iterator
at_one = record {
  has_playlist = true;
  current_index = 1;
  current_objectid = some (98 ∷ []);
  size = 3;
}

-- The first clip goes behind the last one.
item_moved-Follows_example :
    let q = (pls_move 7 plain 0 2).0 in
    Follows at_one q (item_moved_handler (pls_ops lowest) at_one q 0 2).0
item_moved-Follows_example =
    item_moved-Follows lowest 7 plain at_one 0 2 plain-IsValid refl (omega arith) (omega arith)
      (omega arith) refl refl (omega arith) refl

-- The clips are played in the order 0, 2, 1.
abbrev reordered : Pls
reordered = record (three 3) {
  pidx = λ i. if i == 0 then 0 else 3 - i;
  iidx = λ i. if i == 0 then 0 else 3 - i;
}

-- The clip at 1 is now at 0, and the iterator goes to 2.
item_moved_shuffled_example :
    let q = (pls_move 7 reordered 0 1).0 in
    (item_moved_handler (pls_ops lowest) at_one q 0 1).0.current_index ≡ 2
item_moved_shuffled_example =
    item_moved_shuffled lowest 7 reordered at_one 0 1 refl (omega arith) (omega arith) (omega arith)
      refl (omega arith) (omega arith)
