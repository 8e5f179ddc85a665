-- ===== src/Iterator/Moved.antt =====
-- An item of the daemon's playlist is moved: `pls_move`, then the iterator's handler of the signal.
use mafw.Common.{
  ℕ, ◌+◌, ◌-◌, ◌≤◌, ◌<◌, ◌≡◌, ◌≢◌, refl, ◌∙◌, sym, ap, subst, Bool, true, false, ◌&&◌, ◌||◌, not,
  Option, none, some, arith, inl, inr, ◌⊎◌, lt-cases, ltb, leb, ◌==◌, int_limit, if_true, if_false,
  if_elim, ne→==, lt→ltb, lt→leb_ne,
}
use mafw.Aplaylist.Types.{Text, Pls, i_am_dirty}
use mafw.Aplaylist.Edit.{move_item, pls_move}
use mafw.Aplaylist.Play.{
  Random, Clip, clip_at, shuffle_current, prev_drawn, pls_get_item, pls_get_starting, pls_get_last,
  next_in_order, pls_get_next, prev_in_order, pls_get_prev,
}
use mafw.Aplaylist.Valid.{IsValid}
use mafw.Iterator.Types.{PlaylistOps, Iterator, Moved}
use mafw.Iterator.Operations.{
  set_data, step_to, move_to_next_in_direction, mafw_playlist_iterator_move_to_next,
  mafw_playlist_iterator_move_to_prev, mafw_playlist_iterator_move_to_index,
}
use mafw.Iterator.Handlers.{item_moved_handler}
use mafw.Iterator.Contents.{Serves, move_to_index_lem}

-- The daemon's functions, when no call over D-Bus fails.
unfoldable pub pls_ops : Random → PlaylistOps Pls
pls_ops rand = record {
  get_size = λ p. (p.len, none);
  get_item = λ p i. (pls_get_item p i, none);
  get_next = λ p i. ((pls_get_next rand p i).0, (pls_get_next rand p i).1, none);
  get_prev = λ p i. ((pls_get_prev rand p i).0, (pls_get_prev rand p i).1, none);
  get_starting_index = λ p. ((pls_get_starting rand p).0, (pls_get_starting rand p).1, none);
  get_last_index = λ p. ((pls_get_last rand p).0, (pls_get_last rand p).1, none);
}

module _ (rand : Random) (p : Pls) where
  pls-Serves : Serves (pls_ops rand) p p.vidx p.len
  unfolding pls_ops pls_get_item
  pls-Serves = record {
    size_answer = refl;
    item_answer = λ i lt.
        ap (λ (o : Option Text). (o, none))
          (if_false (leb p.len i) none (some (p.vidx i)) (lt→leb_ne i p.len lt));
  }

  -- The iterator after it went to `index`.
  abbrev at_index : Iterator → ℕ → Iterator
  at_index it index = record it { current_index = index; current_objectid = some (p.vidx index) }

  prev_lem :
      (it : Iterator)
      → p.shuffled ≡ false
      → it.has_playlist ≡ true
      → 0 < it.current_index
      → it.current_index < p.len
      → (mafw_playlist_iterator_move_to_prev (pls_ops rand) it p).iterator
        ≡ at_index it (it.current_index - 1)
  unfolding mafw_playlist_iterator_move_to_prev move_to_next_in_direction pls_ops pls_get_prev
      prev_in_order clip_at step_to set_data
  prev_lem it s a pos lt = ground (arith, s, a)

  next_lem :
      (it : Iterator)
      → p.shuffled ≡ false
      → it.has_playlist ≡ true
      → it.current_index + 1 < p.len
      → (mafw_playlist_iterator_move_to_next (pls_ops rand) it p).iterator
        ≡ at_index it (it.current_index + 1)
  unfolding mafw_playlist_iterator_move_to_next move_to_next_in_direction pls_ops pls_get_next
      next_in_order clip_at step_to set_data
  next_lem it s a lt = ground (arith, s, a)

-- The iterator stands at the clip where `it` stood, in the playlist `q`.
pub record Follows (it : Iterator) (q : Pls) (r : Iterator) : Type 0 where
  pub in_range : r.current_index < q.len
  pub object : r.current_objectid ≡ some (q.vidx r.current_index)
  pub same_clip : r.current_objectid ≡ it.current_objectid

at_index-Follows :
    (it : Iterator) (q : Pls) (clip : Text) (index : ℕ) (r : Iterator)
    → it.current_objectid ≡ some clip
    → index < q.len
    → q.vidx index ≡ clip
    → r ≡ record it { current_index = index; current_objectid = some (q.vidx index) }
    → Follows it q r
at_index-Follows it q clip index r o lt e eq =
    subst (Follows it q) (sym eq)
      (record { in_range = lt; object = refl; same_clip = ap some e ∙ sym o })

-- An item that is not between the two places stays.
stay_lem :
    (vidx : ℕ → Text) (from to index : ℕ)
    → index ≢ from
    → (index < from) ⊎ (to < index)
    → (index < to) ⊎ (from < index)
    → move_item vidx from to index ≡ vidx index
unfolding move_item
stay_lem vidx from to index a b c = elim (lt-cases from to) [
  | inl up ↦ ground arith
  | inr down ↦ ground arith
]

module _ (rand : Random) (timer : ℕ) (p : Pls) (it : Iterator) (from to : ℕ) where
  abbrev after : Pls
  after = record p { vidx = move_item p.vidx from to; dirty = true; dirty_timer = timer }

  handled :
      p.len < int_limit
      → p.shuffled ≡ false
      → from < p.len
      → to < p.len
      → from ≢ to
      → it.has_playlist ≡ true
      → it.size ≡ p.len
      → it.current_index < p.len
      → it.current_objectid ≡ some (p.vidx it.current_index)
      → Follows it after (item_moved_handler (pls_ops rand) it after from to).0
  unfolding item_moved_handler move_item
  handled small s a b ne has size lt o =
      let idx = it.current_index in
      let P = λ (r : Iterator × Pls). Follows it after r.0 in
      if_elim P (not it.has_playlist) (λ no. absurd (ground (arith, has)))
        λ _.
          if_elim P (idx == from)
            (λ e.
              at_index-Follows it after (p.vidx idx) to
                (mafw_playlist_iterator_move_to_index (pls_ops rand) it after to).iterator o b
                (ground arith)
                (ap (λ m. m.iterator)
                  (move_to_index_lem (pls_ops rand) it after after.vidx p.len to
                    (pls-Serves rand after) has size small b)))
            λ other.
              if_elim P (ltb from idx && leb idx to)
                (λ e.
                  at_index-Follows it after (p.vidx idx) (idx - 1)
                    (mafw_playlist_iterator_move_to_prev (pls_ops rand) it after).iterator o
                    (ground arith) (ground arith) (prev_lem rand after it s has (ground arith) lt))
                λ not_up.
                  if_elim P (leb to idx && ltb idx from)
                    (λ e.
                      at_index-Follows it after (p.vidx idx) (idx + 1)
                        (mafw_playlist_iterator_move_to_next (pls_ops rand) it after).iterator o
                        (ground arith) (ground arith) (next_lem rand after it s has (ground arith)))
                    λ not_down. record {
                      in_range = lt;
                      object =
                          o
                          ∙ ap some (
                              sym (
                                stay_lem p.vidx from to idx (ground (arith, other))
                                  (ground (arith, other, not_up))
                                  (ground (arith, other, not_down))));
                      same_clip = refl;
                    }

-- If an item of a valid playlist that is not shuffled is moved, the handler leaves an iterator that
-- knows its clip and the size at the same clip, wherever that stands now.
pub item_moved-Follows :
    (rand : Random) (timer : ℕ) (p : Pls) (it : Iterator) (from to : ℕ)
    → IsValid p
    → p.shuffled ≡ false
    → from < p.len
    → to < p.len
    → from ≢ to
    → it.has_playlist ≡ true
    → it.size ≡ p.len
    → it.current_index < p.len
    → it.current_objectid ≡ some (p.vidx it.current_index)
    → let q = (pls_move timer p from to).0 in
      Follows it q (item_moved_handler (pls_ops rand) it q from to).0
unfolding pls_move i_am_dirty
item_moved-Follows rand timer p it from to v s a b ne has size lt o =
    let moved : (pls_move timer p from to).0 ≡ after rand timer p it from to =
      ap (λ (r : Pls × Bool). r.0)
        (if_false (from == to) (p, true) _ (ne→== from to ne)
          ∙ if_false (leb p.len from || leb p.len to) (p, false) _ (ground arith)) in
    subst (λ q. Follows it q (item_moved_handler (pls_ops rand) it q from to).0) (sym moved)
      (handled rand timer p it from to v.small s a b ne has size lt o)

-- The clip before a drawn one in the order.
get_prev_lem :
    (rand : Random) (p : Pls) (index : ℕ)
    → p.shuffled ≡ true
    → index < p.len
    → 0 < p.iidx index
    → p.iidx index < p.poolst
    → pls_get_prev rand p index ≡ (p, some (clip_at p (p.pidx (p.iidx index - 1))))
unfolding pls_get_prev prev_drawn shuffle_current
get_prev_lem rand p index s lt pos drawn =
    if_false (leb p.len index) (p, none) _ (lt→leb_ne index p.len lt)
    ∙ if_true p.shuffled _ _ s
    ∙ ap (λ k. prev_drawn rand k index)
        (if_false (leb p.poolst (p.iidx index)) _ p (lt→leb_ne (p.iidx index) p.poolst drawn))
    ∙ if_true (ltb 0 (p.iidx index)) (p, some (clip_at p (p.pidx (p.iidx index - 1)))) _
        (lt→ltb 0 (p.iidx index) pos)

prev_shuffled_lem :
    (rand : Random) (p : Pls) (it : Iterator)
    → p.shuffled ≡ true
    → it.has_playlist ≡ true
    → it.current_index < p.len
    → 0 < p.iidx it.current_index
    → p.iidx it.current_index < p.poolst
    → (mafw_playlist_iterator_move_to_prev (pls_ops rand) it p).iterator.current_index
      ≡ p.pidx (p.iidx it.current_index - 1)
unfolding mafw_playlist_iterator_move_to_prev move_to_next_in_direction pls_ops clip_at step_to
    set_data
prev_shuffled_lem rand p it s has lt pos drawn =
    ap (λ (m : Moved Pls). m.iterator.current_index) (if_true it.has_playlist _ _ has)
    ∙ ap
        (λ (a : Pls × Option Clip).
          (step_to (pls_ops rand) it (a.0, a.1, none)).iterator.current_index)
        (get_prev_lem rand p it.current_index s lt pos drawn)

-- In a shuffled playlist the handler follows the playing order where it should follow the list: if
-- an item before the iterator's clip is moved behind it, and the clip is drawn and not the first in
-- the order, the iterator goes to the clip before it in the order.
pub item_moved_shuffled :
    (rand : Random) (timer : ℕ) (p : Pls) (it : Iterator) (from to : ℕ)
    → p.shuffled ≡ true
    → from < it.current_index
    → it.current_index ≤ to
    → to < p.len
    → it.has_playlist ≡ true
    → 0 < p.iidx it.current_index
    → p.iidx it.current_index < p.poolst
    → let q = (pls_move timer p from to).0 in
      (item_moved_handler (pls_ops rand) it q from to).0.current_index
      ≡ p.pidx (p.iidx it.current_index - 1)
unfolding pls_move i_am_dirty item_moved_handler
item_moved_shuffled rand timer p it from to s a b c has pos drawn =
    let idx = it.current_index in
    let q = after rand timer p it from to in
    let moved : (pls_move timer p from to).0 ≡ q =
      ap (λ (r : Pls × Bool). r.0)
        (if_false (from == to) (p, true) _ (ne→== from to (omega arith))
          ∙ if_false (leb p.len from || leb p.len to) (p, false) _ (ground arith)) in
    let lands : (item_moved_handler (pls_ops rand) it q from to).0.current_index
        ≡ p.pidx (p.iidx idx - 1) =
      ap (λ (r : Iterator × Pls). r.0.current_index)
        (if_false (not it.has_playlist) (it, q) _ (ap not has)
          ∙ if_false (idx == from) _ _ (ne→== idx from (omega arith))
          ∙ if_true (ltb from idx && leb idx to) _ _ (ground arith))
      ∙ prev_shuffled_lem rand q it s has (omega arith) pos drawn in
    subst
      (λ k.
        (item_moved_handler (pls_ops rand) it k from to).0.current_index ≡ p.pidx (p.iidx idx - 1))
      (sym moved) lands
