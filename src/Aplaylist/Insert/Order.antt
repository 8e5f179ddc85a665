-- ===== src/Aplaylist/Insert/Order.antt =====
-- What `pls_inserts` does to `pidx` and `iidx`, and that they stay inverse permutations.
use mafw.Common.{
  ℕ, suc, ◌+◌, ◌-◌, ◌≤◌, ◌<◌, ◌≡◌, refl, ◌∙◌, sym, ap, inl, inr, arith, ltb, leb, if◌then◌else◌,
  int_limit, u32, for, for_inv, lt-cases, if_true, if_false, le→leb, lt→leb_ne,
}
use mafw.Aplaylist.Edit.{Refs, shift_ref, new_ref, insert_refs}
use mafw.Aplaylist.Valid.{IsInverse, pidx_inj}

module _ (idx n len : ℕ) (p q : ℕ → ℕ) (o : IsInverse len p q) (idx_le : idx ≤ len)
    (small : len + n < int_limit) where
  -- The index of a clip after the insertion.
  shift : ℕ → ℕ
  shift x = if leb idx x then x + n else x

  record Shifted (j : ℕ) (r : Refs) : Type 0 where
    done : (i : ℕ) → i < j → r.0 i ≡ shift (p i)
    to_do : (i : ℕ) → j ≤ i → i < len → r.0 i ≡ p i
    low : (x : ℕ) → x < idx → r.1 x ≡ q x
    high : (i : ℕ) → i < j → idx ≤ p i → r.1 (p i + n) ≡ i

  shift_step : (j : ℕ) (r : Refs) → j < len → Shifted j r → Shifted (suc j) (shift_ref idx n j r)
  unfolding shift_ref shift
  shift_step j r lt h =
      let wrap : u32 (p j + n) ≡ p j + n = omega (arith, o.pidx_lt j lt) in
      let at = h.to_do j (omega arith) lt in
      record {
        done = λ i a. ground (arith, h.done i, at, wrap);
        to_do = λ i a b. ground (arith, h.to_do i (omega arith) b, at);
        low = λ x a. ground (arith, h.low x a, at, wrap);
        high = λ i a b. ground (arith, h.high i, at, wrap, pidx_inj len p q o i j (omega arith) lt);
      }

  record Inserted (k : ℕ) (r : Refs) : Type 0 where
    old : (i : ℕ) → i < len → r.0 i ≡ shift (p i)
    new : (i : ℕ) → i < k → r.0 (len + i) ≡ idx + i
    low : (x : ℕ) → x < idx → r.1 x ≡ q x
    mid : (i : ℕ) → i < k → r.1 (idx + i) ≡ len + i
    high : (i : ℕ) → i < len → idx ≤ p i → r.1 (p i + n) ≡ i

  insert_step : (k : ℕ) (r : Refs) → k < n → Inserted k r → Inserted (suc k) (new_ref idx len k r)
  unfolding new_ref
  insert_step k r lt h =
      let wrap : u32 (len + k) ≡ len + k = omega arith in
      let wrap' : u32 (idx + k) ≡ idx + k = omega arith in
      record {
        old = λ i a. ground (arith, h.old i a, wrap);
        new = λ i a. ground (arith, h.new i, wrap, wrap');
        low = λ x a. ground (arith, h.low x a, wrap');
        mid = λ i a. ground (arith, h.mid i, wrap, wrap');
        high = λ i a b. ground (arith, h.high i a b, wrap');
      }

  insert_refs-Inserted : Inserted n (insert_refs idx n len (p, q))
  unfolding insert_refs
  insert_refs-Inserted =
      for_inv (new_ref idx len) Inserted 0 n n _ (omega arith) (λ k r _ lt h. insert_step k r lt h)
        (let s : Shifted len (for (shift_ref idx n) 0 len (p, q)) =
            for_inv (shift_ref idx n) Shifted 0 len len (p, q) (omega arith)
              (λ j r _ lt h. shift_step j r lt h)
              (record {
                done = λ i a. absurd (omega arith);
                to_do = λ i a b. refl;
                low = λ x a. refl;
                high = λ i a b. absurd (omega arith);
              }) in
          record {
            old = s.done;
            new = λ i a. absurd (omega arith);
            low = s.low;
            mid = λ i a. absurd (omega arith);
            high = s.high;
          })

  -- The entries of the new arrays by their place.
  module _ (r : Refs) (h : Inserted n r) where
    new_at : (i : ℕ) → len ≤ i → i < len + n → r.0 i ≡ idx + (i - len)
    new_at i a b =
        let e : len + (i - len) ≡ i = omega arith in ap r.0 (sym e) ∙ h.new (i - len) (omega arith)

    mid_at : (x : ℕ) → idx ≤ x → x < idx + n → r.1 x ≡ len + (x - idx)
    mid_at x a b =
        let e : idx + (x - idx) ≡ x = omega arith in ap r.1 (sym e) ∙ h.mid (x - idx) (omega arith)

    high_at : (x : ℕ) → idx + n ≤ x → x < len + n → r.1 x ≡ q (x - n)
    high_at x a b =
        let back = o.pidx_iidx (x - n) (omega arith) in
        let e : p (q (x - n)) + n ≡ x = omega arith in
        ap r.1 (sym e) ∙ h.high (q (x - n)) (o.iidx_lt (x - n) (omega arith)) (omega arith)

    old_low : (i : ℕ) → i < len → p i < idx → r.0 i ≡ p i
    unfolding shift
    old_low i a b = h.old i a ∙ if_false _ _ _ (lt→leb_ne (p i) idx b)

    old_high : (i : ℕ) → i < len → idx ≤ p i → r.0 i ≡ p i + n
    unfolding shift
    old_high i a b = h.old i a ∙ if_true _ _ _ (le→leb idx (p i) b)

    pidx_lt : (i : ℕ) → i < len + n → r.0 i < len + n
    pidx_lt i a = elim (lt-cases i len) [
      | inl b ↦ grind (arith, o.pidx_lt i b, old_low i b, old_high i b)
      | inr b ↦ omega (arith, new_at i b a)
    ]

    iidx_lt : (x : ℕ) → x < len + n → r.1 x < len + n
    iidx_lt x a = elim (lt-cases x idx) [
      | inl b ↦ omega (arith, h.low x b, o.iidx_lt x (omega arith))
      | inr b ↦ elim (lt-cases x (idx + n)) [
        | inl c ↦ omega (arith, mid_at x b c)
        | inr c ↦ omega (arith, high_at x c a, o.iidx_lt (x - n) (omega arith))
      ]
    ]

    iidx_pidx : (i : ℕ) → i < len + n → r.1 (r.0 i) ≡ i
    iidx_pidx i a = elim (lt-cases i len) [
      | inl b ↦ elim (lt-cases (p i) idx) [
        | inl c ↦ ap r.1 (old_low i b c) ∙ h.low (p i) c ∙ o.iidx_pidx i b
        | inr c ↦ ap r.1 (old_high i b c) ∙ h.high i b c
      ]
      | inr b ↦ ap r.1 (new_at i b a) ∙ h.mid (i - len) (omega arith) ∙ omega arith
    ]

    pidx_iidx : (x : ℕ) → x < len + n → r.0 (r.1 x) ≡ x
    pidx_iidx x a = elim (lt-cases x idx) [
      | inl b ↦
          let back = o.pidx_iidx x (omega arith) in
          ap r.0 (h.low x b) ∙ old_low (q x) (o.iidx_lt x (omega arith)) (omega arith) ∙ back
      | inr b ↦ elim (lt-cases x (idx + n)) [
        | inl c ↦ ap r.0 (mid_at x b c) ∙ h.new (x - idx) (omega arith) ∙ omega arith
        | inr c ↦
            let back = o.pidx_iidx (x - n) (omega arith) in
            ap r.0 (high_at x c a)
            ∙ old_high (q (x - n)) (o.iidx_lt (x - n) (omega arith)) (omega arith)
            ∙ omega arith
      ]
    ]

  pub insert_refs-IsInverse :
      IsInverse (len + n) (insert_refs idx n len (p, q)).0 (insert_refs idx n len (p, q)).1
  insert_refs-IsInverse = record {
    pidx_lt = pidx_lt _ insert_refs-Inserted;
    iidx_lt = iidx_lt _ insert_refs-Inserted;
    iidx_pidx = iidx_pidx _ insert_refs-Inserted;
    pidx_iidx = pidx_iidx _ insert_refs-Inserted;
  }

  -- The clips that were there keep their place in the order, and the new ones come behind them.
  pub insert_refs_order :
      (i : ℕ)
      → i < len + n
      → (insert_refs idx n len (p, q)).0 i
        ≡ (if ltb i len then if ltb (p i) idx then p i else p i + n else idx + (i - len))
  insert_refs_order i a =
      let r = insert_refs-Inserted in
      let here = (insert_refs idx n len (p, q)).0 i in
      elim (lt-cases i len) [
        | inl b ↦ elim (lt-cases (p i) idx) [
          | inl c ↦ ground (arith, old_low _ r i b c)
          | inr c ↦ ground (arith, old_high _ r i b c)
        ]
        | inr b ↦ ground (arith, new_at _ r i b a)
      ]
