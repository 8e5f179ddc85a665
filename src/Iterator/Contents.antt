-- ===== src/Iterator/Contents.antt =====
-- After a change of the contents the iterator stands at the clip where it stood, or at a valid one.
use mafw.Common.{
  ℕ, ◌+◌, ◌-◌, ◌≤◌, ◌<◌, ◌≡◌, refl, ◌∙◌, sym, ap, true, false, ◌&&◌, Option, none, some, inl, inr,
  ◌⊎◌, arith, ltb, leb, ◌==◌, if◌then◌else◌, u32, sub_u32, int_limit, if_true, if_false, if_elim,
  lt-cases, ne→==, lt→ltb, ge→ltb, le→leb, lt→leb_ne,
}
use mafw.Aplaylist.Types.{Text}
use mafw.Iterator.Types.{
  Error, PlaylistOps, minus_one, is_negative, Iterator, move_ok, Signal, changed,
}
use mafw.Iterator.Operations.{
  take_item, mafw_playlist_iterator_get_size, mafw_playlist_iterator_move_to_index,
  mafw_playlist_iterator_update,
}
use mafw.Iterator.Handlers.{emit, replace_current, contents_changed_handler, moved}

module _ {S : Type 0} (ops : PlaylistOps S) where
  -- The playlist answers with the first `len` entries of `items`, without an error.
  pub record Serves (s : S) (items : ℕ → Text) (len : ℕ) : Type 0 where
    pub size_answer : ops.get_size s ≡ (len, none)
    pub item_answer : (i : ℕ) → i < len → ops.get_item s i ≡ (some (items i), none)

  -- The iterator stands at a clip of such a playlist and knows its object id.
  pub record Synced (it : Iterator) (items : ℕ → Text) (len : ℕ) : Type 0 where
    pub attached : it.has_playlist ≡ true
    pub size_eq : it.size ≡ len
    pub in_range : it.current_index < len
    pub object : it.current_objectid ≡ some (items it.current_index)

  -- A move to an index inside.
  pub move_to_index_lem :
      (it : Iterator) (s : S) (items : ℕ → Text) (len index : ℕ)
      → Serves s items len
      → it.has_playlist ≡ true
      → it.size ≡ len
      → len < int_limit
      → index < len
      → mafw_playlist_iterator_move_to_index ops it s index ≡ record {
        iterator = record it { current_index = index; current_objectid = some (items index) };
        playlist = s;
        result = move_ok;
        error = none;
      }
  unfolding mafw_playlist_iterator_move_to_index mafw_playlist_iterator_get_size
  move_to_index_lem it s items len index v a e small lt = ground (arith, v.item_answer index lt)

  -- The clip at `index` of the old contents stands at `index'` of the new ones.
  abbrev pub Tracks : Iterator → S → (ℕ → Text) → ℕ → Iterator × S × Signal → Type 0
  Tracks it s items len r =
      Synced r.0 items len
      × (r.0.current_objectid ≡ it.current_objectid)
      × (r.1 ≡ s)
      × (r.2 ≡ changed false)

  moved_Tracks :
      (it it' : Iterator) (s : S) (old items : ℕ → Text) (len index : ℕ)
      {r : Iterator × S × Option Error}
      → it.current_objectid ≡ some (old it.current_index)
      → items index ≡ old it.current_index
      → it'.has_playlist ≡ true
      → it'.size ≡ len
      → index < len
      → r ≡ (record it' { current_index = index; current_objectid = some (items index) }, s, none)
      → Tracks it s items len (emit ops false r)
  unfolding emit
  moved_Tracks it it' s old items len index object same a b lt e = rw e (
    record { attached = a; size_eq = b; in_range = lt; object = refl },
    ap some same ∙ sym object,
    refl,
    refl,
  )

  stay_Tracks :
      (it it' : Iterator) (s : S) (old items : ℕ → Text) (len : ℕ)
      → it'.current_objectid ≡ some (old it'.current_index)
      → items it'.current_index ≡ old it'.current_index
      → it'.has_playlist ≡ true
      → it'.size ≡ len
      → it'.current_index < len
      → it'.current_objectid ≡ it.current_objectid
      → Tracks it s items len (emit ops false (it', s, none))
  unfolding emit
  stay_Tracks it it' s old items len object same a b lt keep = (
    record { attached = a; size_eq = b; in_range = lt; object = object ∙ ap some (sym same) },
    keep,
    refl,
    refl,
  )

  -- If the iterator knows the clip that it stands at, and `n` items come in at `from`, the handler
  -- leaves it at the same clip, under its new index, with the new size and without any change of the
  -- clip to report.
  pub inserted_Tracks :
      (it : Iterator) (s : S) (old items : ℕ → Text) (len from n : ℕ)
      → Synced it old len
      → Serves s items (len + n)
      → len + n < int_limit
      → ((j : ℕ) → j < from → items j ≡ old j)
      → ((j : ℕ) → from ≤ j → j < len → items (j + n) ≡ old j)
      → Tracks it s items (len + n) (contents_changed_handler ops it s from 0 n)
  unfolding contents_changed_handler
  inserted_Tracks it s old items len from n y v small before behind =
      let index = it.current_index in
      let grown = record it { size = u32 (it.size + n) } in
      let size : u32 (it.size + n) ≡ len + n = omega (arith, y.size_eq) in
      let inside = y.in_range in
      let P = Tracks it s items (len + n) in
      if_elim P it.has_playlist
        (λ a.
          if_elim P (index == minus_one) (λ e. absurd (ground arith))
            λ _.
              if_elim P (leb from index)
                (λ h.
                  let to : u32 (index + n) ≡ index + n = omega arith in
                  let e =
                    move_to_index_lem grown s items (len + n) (u32 (index + n)) v a size small
                      (omega arith) in
                  moved_Tracks it grown s old items (len + n) (u32 (index + n)) y.object
                    (ap items to ∙ behind index (ground arith) inside) a size (omega arith)
                    (ap (moved ops) e))
                λ h.
                  stay_Tracks it grown s old items (len + n) y.object (before index (ground arith))
                    a size (omega arith) refl)
        λ no_playlist. absurd (ground (arith, y.attached))

  -- If `n` items go from `from` on, and the clip where the iterator stands is not one of them, the
  -- handler leaves it at the same clip, under its new index, with the new size and without any
  -- change of the clip to report.
  pub removed_Tracks :
      (it : Iterator) (s : S) (old items : ℕ → Text) (len from n : ℕ)
      → Synced it old len
      → Serves s items (len - n)
      → len < int_limit
      → 0 < n
      → from + n ≤ len
      → (it.current_index < from) ⊎ (from + n ≤ it.current_index)
      → ((j : ℕ) → j < from → items j ≡ old j)
      → ((j : ℕ) → from + n ≤ j → j < len → items (j - n) ≡ old j)
      → Tracks it s items (len - n) (contents_changed_handler ops it s from n 0)
  unfolding contents_changed_handler
  removed_Tracks it s old items len from n y v small pos fits outside before behind =
      let index = it.current_index in
      let shrunk = record it { size = sub_u32 (u32 (it.size + 0)) n } in
      let size : sub_u32 (u32 (it.size + 0)) n ≡ len - n = omega (arith, y.size_eq) in
      let inside = y.in_range in
      let P = Tracks it s items (len - n) in
      if_elim P it.has_playlist
        (λ a.
          if_elim P (ltb 0 n)
            (λ _.
              if_elim P (leb from index && ltb index (u32 (from + n)))
                (λ hit. absurd (ground arith))
                λ _.
                  if_elim P (ltb from index)
                    (λ h.
                      let to : (if is_negative (sub_u32 index n) then 0 else sub_u32 index n)
                          ≡ index - n =
                        ground arith in
                      let e =
                        move_to_index_lem shrunk s items (len - n) _ v a size (omega arith)
                          (omega (arith, to)) in
                      moved_Tracks it shrunk s old items (len - n) _ y.object
                        (ap items to ∙ behind index (ground arith) inside) a size
                        (omega (arith, to)) (ap (moved ops) e))
                    λ h.
                      stay_Tracks it shrunk s old items (len - n) y.object
                        (before index (ground arith)) a size (ground arith) refl)
            λ none_removed. absurd (ground arith))
        λ no_playlist. absurd (ground (arith, y.attached))

  -- The clip where the iterator stands is among those that go.
  module _ (it : Iterator) (s : S) (old items : ℕ → Text) (len from n : ℕ) (y : Synced it old len)
      (v : Serves s items (len - n)) (small : len < int_limit) (some_left : n < len)
      (fits : from + n ≤ len) (low : from ≤ it.current_index)
      (high : it.current_index < from + n) where
    shrunk : Iterator
    shrunk = record it { size = len - n }

    current_gone :
        contents_changed_handler ops it s from n 0
        ≡ replace_current ops s it.current_index (shrunk, len - n, none)
    unfolding contents_changed_handler mafw_playlist_iterator_get_size shrunk
    current_gone =
        let size : sub_u32 (u32 (it.size + 0)) n ≡ len - n = omega (arith, y.size_eq) in
        let known : mafw_playlist_iterator_get_size ops shrunk s ≡ (shrunk, len - n, none) =
          ground (arith, y.attached) in
        if_true _ _ _ y.attached
        ∙ if_true _ _ _ (lt→ltb 0 n (omega arith))
        ∙ if_true (leb from it.current_index && ltb it.current_index (u32 (from + n))) _ _
            (ground (arith, y.in_range))
        ∙ ap
            (λ k.
              replace_current ops s it.current_index
                (mafw_playlist_iterator_get_size ops (record it { size = k }) s))
            size
        ∙ ap (replace_current ops s it.current_index) known

    at_clip : ℕ → Iterator
    at_clip index = record it {
      current_index = index;
      current_objectid = some (items index);
      size = len - n;
    }

    kept_index :
        it.current_index < len - n
        → contents_changed_handler ops it s from n 0 ≡ (at_clip it.current_index, s, changed true)
    unfolding replace_current mafw_playlist_iterator_update shrunk at_clip
    kept_index b =
        current_gone
        ∙ ap (emit ops true) (
            if_false _ _ _ (ne→== (len - n) 0 (omega arith))
            ∙ if_false _ _ _ (lt→leb_ne it.current_index (len - n) b)
            ∙ ap (λ r. moved ops (take_item ops shrunk s it.current_index r))
                (v.item_answer it.current_index b))

    last_index :
        len - n ≤ it.current_index
        → contents_changed_handler ops it s from n 0 ≡ (at_clip (len - n - 1), s, changed true)
    unfolding replace_current shrunk at_clip
    last_index b =
        let last : sub_u32 (len - n) 1 ≡ len - n - 1 = omega arith in
        current_gone
        ∙ ap (emit ops true) (
            if_false _ _ _ (ne→== (len - n) 0 (omega arith))
            ∙ if_true _ _ _ (le→leb (len - n) it.current_index b)
            ∙ ap (λ k. moved ops (mafw_playlist_iterator_move_to_index ops shrunk s k)) last
            ∙ ap (moved ops) (
                move_to_index_lem shrunk s items (len - n) (len - n - 1) v y.attached refl
                  (omega arith) (omega arith)))

  -- If the clip where the iterator stands is among the `n` items that go, and others stay, the
  -- handler leaves it at the clip that now stands under the old index, or at the last one if the
  -- playlist ends before, and reports that the clip has changed.
  pub removed_current :
      (it : Iterator) (s : S) (old items : ℕ → Text) (len from n : ℕ)
      → Synced it old len
      → Serves s items (len - n)
      → len < int_limit
      → n < len
      → from + n ≤ len
      → from ≤ it.current_index
      → it.current_index < from + n
      → let r = contents_changed_handler ops it s from n 0 in
        Synced r.0 items (len - n)
        × (r.0.current_index
            ≡ (if ltb it.current_index (len - n) then it.current_index else len - n - 1))
        × (r.1 ≡ s)
        × (r.2 ≡ changed true)
  unfolding emit at_clip
  removed_current it s old items len from n y v small some_left fits low high =
      elim (lt-cases it.current_index (len - n)) [
        | inl b ↦ rw (kept_index it s old items len from n y v small some_left fits low high b) (
          record { attached = y.attached; size_eq = refl; in_range = b; object = refl },
          sym (if_true _ _ _ (lt→ltb it.current_index (len - n) b)),
          refl,
          refl,
        )
        | inr b ↦ rw (last_index it s old items len from n y v small some_left fits low high b) (
          record { attached = y.attached; size_eq = refl; in_range = omega arith; object = refl },
          sym (if_false _ _ _ (ge→ltb it.current_index (len - n) b)),
          refl,
          refl,
        )
      ]
