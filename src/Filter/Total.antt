-- ===== src/Filter/Total.antt =====
-- `parse_sexp` ends: each call leaves less to read.
use mafw.Common.{
  Shrinks, Shrinks-le, Shrinks-bind, Shrinks-after, Shrinks-if, ℕ, zero, suc, ◌+◌, ◌*◌, ◌≤◌, ◌<◌,
  ◌≡◌, ◌≢◌, refl, ap, Bool, Option, none, some, [], ◌∷◌, arith, ◌==◌, length, if_elim,
}
use mafw.Aplaylist.Types.{Text}
use mafw.Common.{Outcome, ok, null, bad_access, out_of_fuel, ◌>>=◌}
use mafw.Filter.Quote.{mafw_filter_unquote}
use mafw.Filter.Bounds.{unquote-Returns}
use mafw.Filter.Types.{
  ComplexType, SimpleType, Filter, complex, Parts, no_parts, part, char_to_simple, char_to_complex,
}
use mafw.Filter.Parse.{
  is_attr, span, not_close, is_not, unquoted, parse_end, parse_value, parse_operator, parse_simple,
  parse_more, parse_inner, parse_open, parse_sexp, parse_parts, whole, mafw_filter_parse,
}

unquoted_fuel : (o : Outcome Text) → o ≢ out_of_fuel → unquoted o ≢ out_of_fuel
unfolding unquoted
unquoted_fuel (ok t) h e = cc e
unquoted_fuel null h e = cc e
unquoted_fuel bad_access h e = cc e
unquoted_fuel out_of_fuel h e = h refl

span_le : (test : ℕ → Bool) (s : Text) → length (span test s).1 ≤ length s
unfolding span
span_le test [] = omega arith
span_le test (c ∷ cs) =
    if_elim (λ (p : Text × Text). length p.1 ≤ suc (length cs)) (test c)
      (λ _. omega (arith, span_le test cs)) λ _. omega arith

parse_end-Shrinks :
    (t : SimpleType) (attr value s : Text) (n : ℕ)
    → length s ≤ n
    → Shrinks (parse_end t attr value s) n
unfolding parse_end
parse_end-Shrinks t attr value [] n h = omega arith
parse_end-Shrinks t attr value (c ∷ rest) n h =
    Shrinks-after _ _ n (unquoted_fuel (mafw_filter_unquote attr) (unquote-Returns attr)) λ k.
      Shrinks-after _ _ n (unquoted_fuel (mafw_filter_unquote value) (unquote-Returns value))
        λ v. omega arith

parse_value-Shrinks :
    (attr s : Text) (t : Option SimpleType) (n : ℕ)
    → length s ≤ n
    → Shrinks (parse_value attr s t) n
unfolding parse_value
parse_value-Shrinks attr s none n h = omega arith
parse_value-Shrinks attr s (some t) n h =
    parse_end-Shrinks t attr (span not_close s).0 (span not_close s).1 n
      (omega (arith, span_le not_close s))

parse_operator-Shrinks : (attr s : Text) (n : ℕ) → length s ≤ n → Shrinks (parse_operator attr s) n
unfolding parse_operator
parse_operator-Shrinks attr [] n h = omega arith
parse_operator-Shrinks [] (c ∷ cs) n h = omega arith
parse_operator-Shrinks (a ∷ more) (c ∷ cs) n h =
    parse_value-Shrinks (a ∷ more) cs (char_to_simple c) n (omega arith)

parse_simple-Shrinks : (s : Text) → Shrinks (parse_simple s) (length s)
unfolding parse_simple
parse_simple-Shrinks s =
    parse_operator-Shrinks (span is_attr s).0 (span is_attr s).1 (length s) (span_le is_attr s)

parse_more-Shrinks :
    (type : ComplexType) (p : Filter) (more : Text → Outcome (Parts × Text)) (s : Text) (n : ℕ)
    → length s < n
    → Shrinks (more s) n
    → Shrinks (parse_more type p more s) n
unfolding parse_more
parse_more-Shrinks type p more [] n h k = omega arith
parse_more-Shrinks type p more (c ∷ rest) n h k =
    Shrinks-if (c == b')') (ok (part p no_parts, rest)) _ n (omega arith) (
      Shrinks-if (is_not type) null _ n (omega arith)
        (Shrinks-bind (more (c ∷ rest)) _ n n k λ a r b. b))

parse_inner-Shrinks :
    (parts : ComplexType → Text → Outcome (Parts × Text)) (s : Text)
    → ((type : ComplexType) (c : ℕ) (r : Text) → s ≡ c ∷ r → Shrinks (parts type r) (length s))
    → Shrinks (parse_inner parts s) (length s)
unfolding parse_inner
parse_inner-Shrinks parts [] k = parse_simple-Shrinks []
parse_inner-Shrinks parts (c ∷ rest) k =
    elim (char_to_complex c)
      as (λ o.
        Shrinks
          (elim o as (λ _. Outcome (Filter × Text)) [
            | none ↦ parse_simple (c ∷ rest)
            | some type ↦ do (ps, rest') ← parts type rest; ok (complex type ps, rest')
          ])
          (suc (length rest))) [
            | none ↦ parse_simple-Shrinks (c ∷ rest)
            | some type ↦
                Shrinks-bind (parts type rest) _ (suc (length rest)) (suc (length rest))
                  (k type c rest refl) λ a r b. b
          ]

-- The fuel counts the calls of `parse_sexp` and the rounds of its loop.
mutual
  unfolding parse_sexp parse_open

  parse_sexp-Shrinks :
      (fuel : ℕ) (s : Text) → length s < fuel → Shrinks (parse_sexp fuel s) (length s)
  parse_sexp-Shrinks zero s h = omega arith
  parse_sexp-Shrinks (suc fuel) [] h = omega arith
  parse_sexp-Shrinks (suc fuel) (c ∷ rest) h =
      Shrinks-if (c == b'(') (parse_inner (λ type t. parse_parts fuel type t) rest) null
        (suc (length rest))
        (Shrinks-le (parse_inner (λ type t. parse_parts fuel type t) rest) (length rest)
          (suc (length rest)) (omega arith)
          (parse_inner-Shrinks (λ type t. parse_parts fuel type t) rest
            λ type d r e.
              let size = ap length e in
              Shrinks-le (parse_parts fuel type r) (length r) (length rest) (omega arith)
                (parse_parts-Shrinks fuel type r (omega arith))))
        (omega arith)

  parse_parts-Shrinks :
      (fuel : ℕ) (type : ComplexType) (s : Text)
      → length s + 1 < fuel
      → Shrinks (parse_parts fuel type s) (length s)
  parse_parts-Shrinks zero type s h = omega arith
  parse_parts-Shrinks (suc fuel) type s h =
      Shrinks-bind (parse_sexp fuel s) _ (length s) (length s)
        (parse_sexp-Shrinks fuel s (omega arith))
        λ p rest less.
          parse_more-Shrinks type p (λ t. parse_parts fuel type t) rest (length s) less
            (Shrinks-le (parse_parts fuel type rest) (length rest) (length s) (omega arith)
              (parse_parts-Shrinks fuel type rest (omega arith)))

whole_fuel : (r : Filter × Text) → whole r ≢ out_of_fuel
unfolding whole
whole_fuel (f, []) e = cc e
whole_fuel (f, c ∷ rest) e = cc e

bind_fuel : (o : Outcome (Filter × Text)) (n : ℕ) → Shrinks o n → (o >>= whole) ≢ out_of_fuel
bind_fuel (ok r) n h e = whole_fuel r e
bind_fuel null n h e = cc e
bind_fuel bad_access n h e = cc e
bind_fuel out_of_fuel n h e = omega arith

-- The parser comes to an end on every string.
pub parse-Returns : (s : Text) → mafw_filter_parse s ≢ out_of_fuel
unfolding mafw_filter_parse
parse-Returns s =
    bind_fuel (parse_sexp (2 * length s + 1) s) (length s)
      (parse_sexp-Shrinks (2 * length s + 1) s (omega arith))
