-- ===== src/Aplaylist/Scan.antt =====
-- `sscanf` reads back the numbers that `fprintf` writes, and `fgetsnl` the lines.
use native.Mathlib.Nat.{pow-suc}
use mathlib.Core.List.{append_assoc}
use mafw.Common.{
  ℕ, zero, suc, ◌+◌, ◌*◌, ◌/◌, ◌%◌, ◌^◌, ◌≤◌, ◌<◌, ◌≡◌, refl, ◌∙◌, sym, ap, inl, inr, Bool, true,
  false, not, some, [], ◌∷◌, ◌++◌, arith, ltb, ◌==◌, u32, length, length-append, Bool-cases,
  lt-cases, if_true, if_false, if_elim, lt→ltb, ge→ltb, all, all_head, all-append,
}
use mafw.Aplaylist.Types.{Text}
use mafw.Aplaylist.Stdio.{
  decimal, print_u, is_digit, is_space, skip_space, digits, stored, unsigned, signed, scan_int,
}

is_digit_lem : (d : ℕ) → d < 10 → is_digit (b'0' + d) ≡ true
unfolding is_digit
is_digit_lem d h = ground arith

digits_step :
    (acc d : ℕ) (rest : Text) → d < 10 → digits acc ((b'0' + d) ∷ rest) ≡ digits (acc * 10 + d) rest
unfolding digits
digits_step acc d rest h =
    if_true _ _ _ (is_digit_lem d h) ∙ ap (λ k. digits (acc * 10 + k) rest) (omega arith)

digits-decimal :
    (fuel n : ℕ) (rest : Text) → n < 10 ^ fuel → digits 0 (decimal fuel n ++ rest) ≡ digits n rest
unfolding decimal
digits-decimal zero n rest h = ap (λ k. digits k rest) (omega arith)
digits-decimal (suc fuel) n rest h = elim (lt-cases n 10) [
  | inl small ↦
      ap (λ k. digits 0 (k ++ rest)) (if_true _ _ _ (lt→ltb n 10 small))
      ∙ digits_step 0 n rest small
      ∙ ap (λ k. digits k rest) {y = n} (omega arith)
  | inr more ↦
      let tail = (b'0' + n % 10) ∷ [] in
      ap (λ k. digits 0 (k ++ rest)) (if_false _ _ _ (ge→ltb n 10 more))
      ∙ ap (digits 0) (append_assoc (decimal fuel (n / 10)) tail rest)
      ∙ digits-decimal fuel (n / 10) ((b'0' + n % 10) ∷ rest) (omega (arith, pow-suc 10 fuel))
      ∙ digits_step (n / 10) (n % 10) rest (omega arith)
      ∙ ap (λ k. digits k rest) (omega arith)
]

-- Digits only.
pub decimal_digits : (fuel n : ℕ) → all is_digit (decimal fuel n) ≡ true
unfolding decimal all
decimal_digits zero n = refl
decimal_digits (suc fuel) n = elim (lt-cases n 10) [
  | inl small ↦
      ap (all is_digit) (if_true _ _ _ (lt→ltb n 10 small)) ∙ if_true _ _ _ (is_digit_lem n small)
  | inr more ↦
      ap (all is_digit) (if_false _ _ _ (ge→ltb n 10 more))
      ∙ all-append is_digit (decimal fuel (n / 10)) ((b'0' + n % 10) ∷ [])
          (decimal_digits fuel (n / 10)) (if_true _ _ _ (is_digit_lem (n % 10) (omega arith)))
]

pub length-decimal : (fuel n : ℕ) → length (decimal fuel n) ≤ fuel
unfolding decimal
length-decimal zero n = omega arith
length-decimal (suc fuel) n =
    if_elim (λ (t : Text). length t ≤ suc fuel) (ltb n 10) (λ _. omega arith)
      λ _. omega (
        arith,
        length-append (decimal fuel (n / 10)) ((b'0' + n % 10) ∷ []),
        length-decimal fuel (n / 10),
      )

pub decimal_some : (fuel n : ℕ) → 1 ≤ length (decimal (suc fuel) n)
unfolding decimal
decimal_some fuel n =
    if_elim (λ (t : Text). 1 ≤ length t) (ltb n 10) (λ _. omega arith)
      λ _. omega (arith, length-append (decimal fuel (n / 10)) ((b'0' + n % 10) ∷ []))

-- What follows a number ends it.
unfoldable pub ends_number : Text → Bool
unfolding is_digit
ends_number [] = true
ends_number (c ∷ cs) = not (is_digit c)

digits_end : (n : ℕ) (rest : Text) → ends_number rest ≡ true → digits n rest ≡ (n, rest)
unfolding digits ends_number
digits_end n [] h = refl
digits_end n (c ∷ cs) h = elim (Bool-cases (is_digit c)) [
  | inl e ↦ cc (sym (ap not e) ∙ h)
  | inr e ↦ if_false _ _ _ e
]

digit_no_sign :
    (c : ℕ)
    → is_digit c ≡ true
    → ((c == b'-') ≡ false) × ((c == b'+') ≡ false) × (is_space c ≡ false)
unfolding is_digit is_space
digit_no_sign c h = ground arith

scan_digits :
    (c : ℕ) (cs : Text)
    → is_digit c ≡ true
    → scan_int (c ∷ cs) ≡ some (u32 (digits 0 (c ∷ cs)).0, (digits 0 (c ∷ cs)).1)
unfolding scan_int skip_space signed unsigned stored
scan_digits c cs h =
    let (minus, plus, space) = digit_no_sign c h in
    ap signed (if_false _ _ _ space) ∙ if_false _ _ _ minus ∙ if_false _ _ _ plus ∙ if_true _ _ _ h

-- A number that was written is read back.
pub scan_int-print_u :
    (n : ℕ) (rest : Text)
    → n < 2 ^ 32
    → ends_number rest ≡ true
    → scan_int (print_u n ++ rest) ≡ some (n, rest)
unfolding print_u
scan_int-print_u n rest h e = on_text (decimal 10 n) refl
  where
    on_text : (t : Text) → decimal 10 n ≡ t → scan_int (t ++ rest) ≡ some (n, rest)
    on_text [] q = absurd (omega (arith, decimal_some 9 n, ap length q))
    on_text (c ∷ cs) q =
        let head = all_head is_digit c cs (sym (ap (all is_digit) q) ∙ decimal_digits 10 n) in
        let value =
          ap (λ t. digits 0 (t ++ rest)) (sym q)
          ∙ digits-decimal 10 n rest (omega arith)
          ∙ digits_end n rest e in
        scan_digits c (cs ++ rest) head
        ∙ ap (λ (r : ℕ × Text). some (u32 r.0, r.1)) value
        ∙ ap (λ k. some (k, rest)) (omega arith)
