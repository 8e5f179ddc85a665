-- ===== src/Filter/Bounds.antt =====
-- What `mafw_filter_unquote` reads and writes.
use mafw.Common.{
  ℕ, zero, suc, ◌≤◌, ◌≡◌, ◌≢◌, refl, ◌∙◌, sym, ap, inl, inr, true, false, Option, none, some, [],
  ◌∷◌, arith, ◌==◌, length, Bool-cases,
}
use mafw.Aplaylist.Types.{Text}
use mafw.Common.{Outcome, ok, null, bad_access, out_of_fuel}
use mafw.Filter.Quote.{
  unquote_hex, unquote_escape, put_front, unquoted_size, unquote_loop, mafw_filter_unquote,
}

put_front_ok :
    (b : ℕ) (o : Outcome Text) {t : Text}
    → put_front b o ≡ ok t
    → (u : Text) × (o ≡ ok u) × (t ≡ b ∷ u)
put_front_ok b (ok u) e = (u, refl, cc e)
put_front_ok b null e = cc e
put_front_ok b bad_access e = cc e
put_front_ok b out_of_fuel e = cc e

put_front_fuel : (b : ℕ) (o : Outcome Text) → put_front b o ≡ out_of_fuel → o ≡ out_of_fuel
put_front_fuel b (ok u) e = cc e
put_front_fuel b null e = cc e
put_front_fuel b bad_access e = cc e
put_front_fuel b out_of_fuel e = refl

loop_plain :
    (c : ℕ) (cs : Text) (fuel : ℕ)
    → (c == b'\\') ≡ false
    → unquote_loop (suc fuel) (c ∷ cs) ≡ put_front c (unquote_loop fuel cs)
unfolding unquote_loop
loop_plain c cs fuel h = rw (h, unquote_loop)

-- The bytes of an escape.
abbrev escaped : Option ℕ → ℕ → Text → Outcome Text
escaped none fuel rest = null
escaped (some b) fuel rest = put_front b (unquote_loop fuel rest)

loop_escape :
    (c high low : ℕ) (rest : Text) (fuel : ℕ)
    → (c == b'\\') ≡ true
    → unquote_loop (suc fuel) (c ∷ high ∷ low ∷ rest) ≡ escaped (unquote_hex high low) fuel rest
unfolding unquote_loop unquote_escape
loop_escape c high low rest fuel h = rw (h, unquote_loop) (cases (unquote_hex high low))
  where
    cases :
        (o : Option ℕ)
        → ◌≡◌ {A = Outcome Text}
            (elim (elim o as (λ _. Option (ℕ × Text)) [ none ↦ none | some b ↦ some (b, rest) ])
              as (λ _. Outcome Text) [
                | none ↦ null
                | some (b, r) ↦ put_front b (unquote_loop fuel r)
              ])
            (escaped o fuel rest)
    cases none = refl
    cases (some b) = refl

loop_short :
    (c : ℕ) (cs : Text) (fuel : ℕ)
    → (c == b'\\') ≡ true
    → unquote_escape cs ≡ none
    → unquote_loop (suc fuel) (c ∷ cs) ≡ null
unfolding unquote_loop
loop_short c cs fuel h e = rw (h, unquote_loop) (rw (e))

size_plain :
    (c : ℕ) (cs : Text) (n : ℕ)
    → (c == b'\\') ≡ false
    → unquoted_size 0 cs ≡ some n
    → unquoted_size 0 (c ∷ cs) ≡ some (suc n)
unfolding unquoted_size
size_plain c cs n h e = rw (h, unquoted_size) (rw e)

size_escape :
    (c high low : ℕ) (rest : Text) (n : ℕ)
    → (c == b'\\') ≡ true
    → unquoted_size 0 rest ≡ some n
    → unquoted_size 0 (c ∷ high ∷ low ∷ rest) ≡ some (suc n)
unfolding unquoted_size
size_escape c high low rest n h e = rw (h, unquoted_size) (rw e)

loop_fits :
    (fuel : ℕ) (s t : Text) → unquote_loop fuel s ≡ ok t → unquoted_size 0 s ≡ some (length t)
unfolding unquote_loop unquoted_size
loop_fits zero [] t e = ap (λ n. some n) (ap (elim_length) e)
  where
    elim_length : Outcome Text → ℕ
    elim_length (ok u) = length u
    elim_length other = 0
loop_fits zero (c ∷ cs) t e = cc e
loop_fits (suc fuel) [] t e = ap (λ n. some n) (ap (elim_length) e)
  where
    elim_length : Outcome Text → ℕ
    elim_length (ok u) = length u
    elim_length other = 0
loop_fits (suc fuel) (c ∷ []) t e = elim (Bool-cases (c == b'\\')) [
  | inl h ↦ cc (sym (loop_short c [] fuel h refl) ∙ e)
  | inr h ↦
      let (u, p, q) = put_front_ok c (unquote_loop fuel []) (sym (loop_plain c [] fuel h) ∙ e) in
      size_plain c [] (length u) h (loop_fits fuel [] u p) ∙ ap (λ k. some (length k)) (sym q)
]
loop_fits (suc fuel) (c ∷ high ∷ []) t e = elim (Bool-cases (c == b'\\')) [
  | inl h ↦ cc (sym (loop_short c (high ∷ []) fuel h refl) ∙ e)
  | inr h ↦
      let (u, p, q) =
        put_front_ok c (unquote_loop fuel (high ∷ []))
          (sym (loop_plain c (high ∷ []) fuel h) ∙ e) in
      size_plain c (high ∷ []) (length u) h (loop_fits fuel (high ∷ []) u p)
      ∙ ap (λ k. some (length k)) (sym q)
]
loop_fits (suc fuel) (c ∷ high ∷ low ∷ rest) t e = elim (Bool-cases (c == b'\\')) [
  | inl h ↦
      after_escape (λ u. loop_fits fuel rest u) h (unquote_hex high low)
        (sym (loop_escape c high low rest fuel h) ∙ e)
  | inr h ↦
      let cs = high ∷ low ∷ rest in
      let (u, p, q) = put_front_ok c (unquote_loop fuel cs) (sym (loop_plain c cs fuel h) ∙ e) in
      size_plain c cs (length u) h (loop_fits fuel cs u p) ∙ ap (λ k. some (length k)) (sym q)
]
  where
    after_escape :
        ((u : Text) → unquote_loop fuel rest ≡ ok u → unquoted_size 0 rest ≡ some (length u))
        → (c == b'\\') ≡ true
        → (o : Option ℕ) → escaped o fuel rest ≡ ok t
        → unquoted_size 0 (c ∷ high ∷ low ∷ rest) ≡ some (length t)
    after_escape ih h none e = cc e
    after_escape ih h (some b) e =
        let (u, p, q) = put_front_ok b (unquote_loop fuel rest) e in
        size_escape c high low rest (length u) h (ih u p) ∙ ap (λ k. some (length k)) (sym q)

pub unquote_fits : (s t : Text) → mafw_filter_unquote s ≡ ok t → unquoted_size 0 s ≡ some (length t)
unfolding mafw_filter_unquote
unquote_fits s t e = on_size (unquoted_size 0 s) refl e
  where
    on_size :
        (o : Option ℕ)
        → unquoted_size 0 s ≡ o
        → elim o as (λ _. Outcome Text) [ none ↦ bad_access | some n ↦ unquote_loop (length s) s ]
          ≡ ok t
        → unquoted_size 0 s ≡ some (length t)
    on_size none h e = cc e
    on_size (some n) h e = loop_fits (length s) s t e

-- Enough rounds for all bytes.
loop_fuel : (fuel : ℕ) (s : Text) → length s ≤ fuel → unquote_loop fuel s ≢ out_of_fuel
unfolding unquote_loop
loop_fuel zero [] h e = cc e
loop_fuel zero (c ∷ cs) h e = omega arith
loop_fuel (suc fuel) [] h e = cc e
loop_fuel (suc fuel) (c ∷ []) h e = elim (Bool-cases (c == b'\\')) [
  | inl k ↦ cc (sym (loop_short c [] fuel k refl) ∙ e)
  | inr k ↦
      loop_fuel fuel [] (omega arith)
        (put_front_fuel c (unquote_loop fuel []) (sym (loop_plain c [] fuel k) ∙ e))
]
loop_fuel (suc fuel) (c ∷ high ∷ []) h e = elim (Bool-cases (c == b'\\')) [
  | inl k ↦ cc (sym (loop_short c (high ∷ []) fuel k refl) ∙ e)
  | inr k ↦
      loop_fuel fuel (high ∷ []) (omega arith) (
        put_front_fuel c (unquote_loop fuel (high ∷ []))
          (sym (loop_plain c (high ∷ []) fuel k) ∙ e))
]
loop_fuel (suc fuel) (c ∷ high ∷ low ∷ rest) h e = elim (Bool-cases (c == b'\\')) [
  | inl k ↦
      after_escape (loop_fuel fuel rest (omega arith)) (unquote_hex high low)
        (sym (loop_escape c high low rest fuel k) ∙ e)
  | inr k ↦
      let cs = high ∷ low ∷ rest in
      loop_fuel fuel cs (omega arith)
        (put_front_fuel c (unquote_loop fuel cs) (sym (loop_plain c cs fuel k) ∙ e))
]
  where
    after_escape :
        unquote_loop fuel rest ≢ out_of_fuel → (o : Option ℕ) → escaped o fuel rest ≢ out_of_fuel
    after_escape ih none e = cc e
    after_escape ih (some b) e = ih (put_front_fuel b (unquote_loop fuel rest) e)

pub unquote-Returns : (s : Text) → mafw_filter_unquote s ≢ out_of_fuel
unfolding mafw_filter_unquote
unquote-Returns s e = on_size (unquoted_size 0 s) e
  where
    on_size :
        (o : Option ℕ)
        → elim o as (λ _. Outcome Text) [ none ↦ bad_access | some n ↦ unquote_loop (length s) s ]
          ≢ out_of_fuel
    on_size none e = cc e
    on_size (some n) e = loop_fuel (length s) s (omega arith) e
