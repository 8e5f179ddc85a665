-- ===== src/Filter/Quoting.antt =====
-- Quoting and unquoting undo each other, and stay in the memory that was allocated.
use mafw.Common.{
  ℕ, zero, suc, ◌/◌, ◌%◌, ◌≤◌, ◌≡◌, refl, ◌∙◌, sym, ap, subst, inl, inr, ◌⊎◌, true, false, none,
  some, [], ◌∷◌, ◌++◌, arith, ◌==◌, length, length-append, Bool-cases, if_true, if_false, if_elim,
}
use mathlib.Core.List.{append_assoc}
use mafw.Aplaylist.Types.{Text}
use mafw.Common.{ok, bad_access}
use mafw.Filter.Quote.{
  is_special, hexchars, quote_char, quoted_size, mafw_filter_quote, unquote_hex, unquote_escape,
  mafw_filter_unquote_char, put_front, unquoted_size, unquote_loop, mafw_filter_unquote,
}

pub special_cases :
    (c : ℕ) → is_special c ≡ true → (c ≡ b'*') ⊎ (c ≡ b'(') ⊎ (c ≡ b')') ⊎ (c ≡ b'\\')
unfolding is_special
special_cases c h = ground arith

-- The two digits of a quoted byte give it back.
unquote_hex-hexchars :
    (c : ℕ) → is_special c ≡ true → unquote_hex (hexchars (c / 16)) (hexchars (c % 16)) ≡ some c
unfolding unquote_hex hexchars
unquote_hex-hexchars c h =
    let P = λ (k : ℕ). unquote_hex (hexchars (k / 16)) (hexchars (k % 16)) ≡ some k in
    elim (special_cases c h) [
      | inl e ↦ subst P (sym e) refl
      | inr (inl e) ↦ subst P (sym e) refl
      | inr (inr (inl e)) ↦ subst P (sym e) refl
      | inr (inr (inr e)) ↦ subst P (sym e) refl
    ]

pub plain_byte : (c : ℕ) → is_special c ≡ false → (c == b'\\') ≡ false
unfolding is_special
plain_byte c h = ground arith

-- One round takes a quoted byte off the front of any text.
unquote_loop-quote_char :
    (c : ℕ) (rest : Text) (fuel : ℕ)
    → unquote_loop (suc fuel) (quote_char c ++ rest) ≡ put_front c (unquote_loop fuel rest)
unfolding unquote_loop quote_char mafw_filter_unquote_char unquote_escape
unquote_loop-quote_char c rest fuel = elim (Bool-cases (is_special c)) [
  | inl h ↦ rw (if_true _ _ _ h) (rw (unquote_hex-hexchars c h, unquote_loop))
  | inr h ↦ rw (if_false _ _ _ h) (rw (plain_byte c h, unquote_loop))
]

-- The size, with the bytes still to be skipped.
unquoted_size-quote_char :
    (c : ℕ) (rest : Text) (n : ℕ)
    → unquoted_size 0 rest ≡ some n
    → unquoted_size 0 (quote_char c ++ rest) ≡ some (suc n)
unfolding unquoted_size quote_char
unquoted_size-quote_char c rest n e = elim (Bool-cases (is_special c)) [
  | inl h ↦ rw (if_true _ _ _ h) (rw e)
  | inr h ↦ rw (if_false _ _ _ h) (rw (plain_byte c h, unquoted_size) (rw e))
]

-- The count of `mafw_filter_quote` is the length of what it writes.
pub quoted_size_lem : (s : Text) → quoted_size s ≡ length (mafw_filter_quote s)
unfolding quoted_size mafw_filter_quote quote_char
quoted_size_lem [] = refl
quoted_size_lem (c ∷ cs) = elim (Bool-cases (is_special c)) [
  | inl h ↦ rw (if_true _ _ _ h, if_true _ _ _ h) (omega (arith, quoted_size_lem cs))
  | inr h ↦ rw (if_false _ _ _ h, if_false _ _ _ h) (omega (arith, quoted_size_lem cs))
]

unquoted_size-quote : (s : Text) → unquoted_size 0 (mafw_filter_quote s) ≡ some (length s)
unfolding unquoted_size mafw_filter_quote
unquoted_size-quote [] = refl
unquoted_size-quote (c ∷ cs) =
    unquoted_size-quote_char c (mafw_filter_quote cs) (length cs) (unquoted_size-quote cs)

length-quote_char : (c : ℕ) → 1 ≤ length (quote_char c)
unfolding quote_char
length-quote_char c =
    if_elim (λ (t : Text). 1 ≤ length t) (is_special c) (λ _. omega arith) λ _. omega arith

unquote_loop-quote :
    (s : Text) (fuel : ℕ)
    → length (mafw_filter_quote s) ≤ fuel
    → unquote_loop fuel (mafw_filter_quote s) ≡ ok s
unfolding unquote_loop mafw_filter_quote
unquote_loop-quote [] fuel h = refl
unquote_loop-quote (c ∷ cs) zero h =
    absurd (omega (arith, length-quote_char c, length-append (quote_char c) (mafw_filter_quote cs)))
unquote_loop-quote (c ∷ cs) (suc fuel) h =
    unquote_loop-quote_char c (mafw_filter_quote cs) fuel
    ∙ ap (put_front c) (
        unquote_loop-quote cs fuel
          (omega (arith, length-quote_char c, length-append (quote_char c) (mafw_filter_quote cs))))

-- Unquoting what was quoted gives the string back, whatever bytes it holds.
pub unquote-quote : (s : Text) → mafw_filter_unquote (mafw_filter_quote s) ≡ ok s
unfolding mafw_filter_unquote
unquote-quote s =
    rw (unquoted_size-quote s, mafw_filter_unquote)
      (unquote_loop-quote s (length (mafw_filter_quote s)) (omega arith))

-- The count goes on behind a quoted text.
unquoted_size-quote_none :
    (s rest : Text)
    → unquoted_size 0 rest ≡ none
    → unquoted_size 0 (mafw_filter_quote s ++ rest) ≡ none
unfolding unquoted_size mafw_filter_quote quote_char
unquoted_size-quote_none [] rest e = e
unquoted_size-quote_none (c ∷ cs) rest e =
    ap (unquoted_size 0) (append_assoc (quote_char c) (mafw_filter_quote cs) rest)
    ∙ elim (Bool-cases (is_special c)) [
      | inl h ↦ rw (if_true _ _ _ h) (rw (unquoted_size-quote_none cs rest e, unquoted_size) refl)
      | inr h ↦ rw (if_false _ _ _ h) (
          rw (plain_byte c h, unquoted_size)
            (rw (unquoted_size-quote_none cs rest e, unquoted_size) refl))
    ]

-- A quotation that is cut off at the end of the string is read past that end.
pub unquote_short :
    (s x : Text)
    → length x ≤ 1
    → mafw_filter_unquote (mafw_filter_quote s ++ b'\\' ∷ x) ≡ bad_access
unfolding mafw_filter_unquote unquoted_size
unquote_short s x h =
    rw (unquoted_size-quote_none s (b'\\' ∷ x) (cut x h), mafw_filter_unquote) refl
  where
    cut : (x : Text) → length x ≤ 1 → unquoted_size 0 (b'\\' ∷ x) ≡ none
    cut [] h = refl
    cut (d ∷ []) h = refl
    cut (d ∷ e ∷ rest) h = absurd (omega arith)
