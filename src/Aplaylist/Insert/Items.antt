-- ===== src/Aplaylist/Insert/Items.antt =====
-- What `pls_inserts` does to `vidx`.
use mafw.Common.{
  ℕ, suc, ◌+◌, ◌-◌, ◌^◌, ◌≤◌, ◌<◌, ◌≡◌, refl, ◌∙◌, sym, ap, ap₂, List, [], ◌∷◌, ◌++◌, arith, update,
  memmove, memmove_in, memmove_below, length, slice, slice-ext, slice-add, drop, take-slice,
  drop-slice, u32, int_limit,
}
use mafw.Aplaylist.Types.{Text}
use mafw.Aplaylist.Edit.{write_items}
use mafw.Aplaylist.Valid.{insert_at}

write_items_below :
    (a : ℕ → Text) (at : ℕ) (oids : List Text) (j : ℕ)
    → at + length oids < 2 ^ 32
    → j < at
    → write_items a at oids j ≡ a j
unfolding write_items
write_items_below a at [] j small lt = refl
write_items_below a at (x ∷ xs) j small lt =
    write_items_below (update a (u32 at) x) (suc at) xs j (omega arith) (omega arith) ∙ ground arith

write_items_above :
    (a : ℕ → Text) (at : ℕ) (oids : List Text) (j : ℕ)
    → at + length oids < 2 ^ 32
    → at + length oids ≤ j
    → write_items a at oids j ≡ a j
unfolding write_items
write_items_above a at [] j small le = refl
write_items_above a at (x ∷ xs) j small le =
    write_items_above (update a (u32 at) x) (suc at) xs j (omega arith) (omega arith) ∙ ground arith

slice-write_items :
    (a : ℕ → Text) (at : ℕ) (oids : List Text)
    → at + length oids < 2 ^ 32
    → slice (write_items a at oids) at (length oids) ≡ oids
unfolding write_items slice
slice-write_items a at [] small = refl
slice-write_items a at (x ∷ xs) small =
    ap₂ (◌∷◌)
      (write_items_below (update a (u32 at) x) (suc at) xs at (omega arith) (omega arith)
        ∙ ground arith)
      (slice-write_items (update a (u32 at) x) (suc at) xs (omega arith))

module _ (a : ℕ → Text) (idx len : ℕ) (oids : List Text) (idx_le : idx ≤ len)
    (small : len + length oids < int_limit) where
  gap : ℕ → Text
  gap = memmove a (u32 (idx + length oids)) idx (len - idx)

  inserted : ℕ → Text
  inserted = write_items gap idx oids

  gap_below : (j : ℕ) → j < idx → gap j ≡ a j
  unfolding gap
  gap_below j h = memmove_below a _ idx (len - idx) j (omega arith)

  gap_above : (k : ℕ) → k < len - idx → gap (idx + length oids + k) ≡ a (idx + k)
  unfolding gap
  gap_above k h =
      let wrap : u32 (idx + length oids) ≡ idx + length oids = omega arith in
      ap (gap) (ap (λ m. m + k) (sym wrap)) ∙ memmove_in a _ idx (len - idx) k h

  inserted_below : slice inserted 0 idx ≡ slice a 0 idx
  unfolding inserted
  inserted_below = slice-ext (write_items gap idx oids) a 0 0 idx λ k h.
      write_items_below gap idx oids (0 + k) (omega arith) (omega arith)
      ∙ gap_below (0 + k) (omega arith)

  inserted_above : slice inserted (idx + length oids) (len - idx) ≡ slice a idx (len - idx)
  unfolding inserted
  inserted_above = slice-ext (write_items gap idx oids) a (idx + length oids) idx (len - idx) λ k h.
      write_items_above gap idx oids (idx + length oids + k) (omega arith) (omega arith)
      ∙ gap_above k h

  -- The new items stand at `idx`, those behind it move up.
  pub insert_items_lem :
      slice
        (write_items (memmove a (u32 (idx + length oids)) idx (len - idx)) idx oids)
        0
        (len + length oids)
      ≡ insert_at idx oids (slice a 0 len)
  unfolding inserted gap
  insert_items_lem =
      let n = length oids in
      let behind : slice inserted (0 + idx) (n + (len - idx)) ≡ oids ++ drop idx (slice a 0 len) =
        ap (λ k. slice inserted k (n + (len - idx))) (omega arith)
        ∙ slice-add inserted idx n (len - idx)
        ∙ ap₂ (◌++◌) (slice-write_items gap idx oids (omega arith)) (
            inserted_above
            ∙ ap (λ k. slice a k (len - idx)) (omega arith)
            ∙ sym (drop-slice a 0 idx len idx_le)) in
      ap (slice inserted 0) (omega arith)
      ∙ slice-add inserted 0 idx (n + (len - idx))
      ∙ ap₂ (◌++◌) (inserted_below ∙ sym (take-slice a 0 idx len idx_le)) behind
