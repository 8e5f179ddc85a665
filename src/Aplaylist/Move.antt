-- ===== src/Aplaylist/Move.antt =====
-- `pls_move`: object ids change places, the playing order stays with the places.
use mafw.Common.{
  ℕ, suc, ◌+◌, ◌-◌, ◌≤◌, ◌<◌, ◌≡◌, ◌≢◌, refl, ◌∙◌, sym, ap, ap₂, ◌⊎◌, true, [], ◌∷◌, ◌++◌, arith,
  leb, ◌==◌, ◌||◌, ne→==, if_false, memmove, slice, slice-ext, slice-add, take-slice, drop-slice,
}
use mafw.Aplaylist.Types.{Text, Pls, i_am_dirty}
use mafw.Aplaylist.Edit.{move_item, pls_move}
use mafw.Aplaylist.Valid.{IsValid, items, insert_at, remove_at}
use mafw.Aplaylist.Remove.Removes.{remove_items}

module _ (a : ℕ → Text) (from to len : ℕ) (from_lt : from < len) (to_lt : to < len)
    (ne : from ≢ to) where
  -- The array without `from`.
  without : ℕ → Text
  without = memmove a from (from + 1) (len - from - 1)

  moved : ℕ → Text
  moved = move_item a from to

  moved_at : moved to ≡ a from
  unfolding moved move_item
  moved_at = ground arith

  moved_below : (k : ℕ) → k < to → moved k ≡ without k
  unfolding moved move_item without
  moved_below k h = ground arith

  moved_above : (k : ℕ) → k < len - 1 - to → moved (suc to + k) ≡ without (to + k)
  unfolding moved move_item without
  moved_above k h = ground arith

  move_item_lem :
      slice (move_item a from to) 0 len
      ≡ insert_at to (a from ∷ []) (remove_at from (slice a 0 len))
  unfolding slice without moved
  move_item_lem =
      let rest = len - 1 - to in
      let split : slice moved 0 len
          ≡ slice without 0 to ++ ((a from ∷ []) ++ slice without to rest) =
        ap (slice moved 0) (omega arith)
        ∙ slice-add moved 0 to (suc rest)
        ∙ ap₂ (◌++◌)
            (slice-ext moved without 0 0 to
              λ k h. ap moved (omega arith) ∙ moved_below k h ∙ ap without (omega arith))
            (ap₂ (◌∷◌) (ap moved (omega arith) ∙ moved_at) (
              slice-ext moved without (suc (0 + to)) to rest
                λ k h. ap moved (omega arith) ∙ moved_above k h)) in
      split
      ∙ ap₂ (λ x y. x ++ ((a from ∷ []) ++ y))
          (sym (take-slice without 0 to (len - 1) (omega arith)))
          (ap (λ k. slice without k rest) (omega arith)
            ∙ sym (drop-slice without 0 to (len - 1) (omega arith)))
      ∙ ap (insert_at to (a from ∷ [])) (remove_items a from len from_lt)

-- `pls_move` within a valid playlist returns TRUE and puts the object id at `from` to the place
-- `to`, those between moving by one. It is valid again; which places are drawn and in which order
-- the places are played does not change.
pub pls_move_lem :
    (timer : ℕ) (p : Pls) (from to : ℕ)
    → IsValid p
    → from < p.len
    → to < p.len
    → from ≢ to
    → (q : Pls) × (pls_move timer p from to ≡ (q, true))
      × IsValid q
      × (items q ≡ insert_at to (p.vidx from ∷ []) (remove_at from (items p)))
      × (q.pidx ≡ p.pidx)
      × (q.poolst ≡ p.poolst)
      × (q.dirty ≡ true)
unfolding pls_move i_am_dirty
pls_move_lem timer p from to v a b ne = (
  i_am_dirty timer (record p { vidx = move_item p.vidx from to }),
  if_false _ _ _ (ne→== from to ne) ∙ if_false (leb p.len from || leb p.len to) _ _ (ground arith),
  record { room = v.room; small = v.small; pool = v.pool; order = v.order },
  move_item_lem p.vidx from to p.len a b ne,
  refl,
  refl,
  refl,
)

-- `pls_move` to the same place returns TRUE, also for a place outside; else it returns FALSE if one
-- of the places is outside. Both leave the playlist as it is.
pub pls_move_unchanged :
    (timer : ℕ) (p : Pls) (from to : ℕ)
    → (from ≡ to) ⊎ ((p.len ≤ from) ⊎ (p.len ≤ to))
    → pls_move timer p from to ≡ (p, from == to)
unfolding pls_move
pls_move_unchanged timer p from to h = ground arith
