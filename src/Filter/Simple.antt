-- ===== src/Filter/Simple.antt =====
-- What `parse_simple` makes of the text of a simple filter.
use mafw.Common.{
  all, all_head, all_tail, all-append, ℕ, ◌/◌, ◌%◌, ◌≡◌, refl, ◌∙◌, sym, ap, subst, inl, inr, Bool,
  true, false, Option, none, some, [], ◌∷◌, ◌++◌, arith, if◌then◌else◌, Bool-cases, if_true,
  if_false,
}
use mafw.Aplaylist.Types.{Text}
use mafw.Common.{ok, ◌>>=◌}
use mafw.Filter.Quote.{is_special, hexchars, quote_char, mafw_filter_quote, mafw_filter_unquote}
use mafw.Filter.Quoting.{special_cases, unquote-quote}
use mafw.Filter.Types.{
  SimpleType, mafw_f_exists, mafw_f_eq, mafw_f_lt, mafw_f_gt, mafw_f_approx, simple, char_to_simple,
  simple_to_char, char_to_complex,
}
use mafw.Filter.Parse.{
  is_attr, span, not_close, unquoted, parse_end, parse_value, parse_operator, parse_simple,
}

span_stop :
    (test : ℕ → Bool) (s : Text) (c : ℕ) (rest : Text)
    → all test s ≡ true
    → test c ≡ false
    → span test (s ++ c ∷ rest) ≡ (s, c ∷ rest)
unfolding span
span_stop test [] c rest h e = if_false _ _ _ e
span_stop test (b ∷ s) c rest h e =
    if_true _ _ _ (all_head test b s h)
    ∙ ap (λ (p : Text × Text). (b ∷ p.0, p.1)) (span_stop test s c rest (all_tail test b s h) e)

attr_plain : (c : ℕ) → is_attr c ≡ true → is_special c ≡ false
unfolding is_attr is_special
attr_plain c h = ground arith

pub attr_simple : (c : ℕ) → is_attr c ≡ true → char_to_complex c ≡ none
unfolding is_attr char_to_complex
attr_simple c h = ground arith

-- A name needs no quotes.
pub quote_names : (s : Text) → all is_attr s ≡ true → mafw_filter_quote s ≡ s
unfolding mafw_filter_quote quote_char
quote_names [] h = refl
quote_names (c ∷ cs) h =
    rw (if_false _ _ _ (attr_plain c (all_head is_attr c cs h)))
      (ap (◌∷◌ c) (quote_names cs (all_tail is_attr c cs h)))

plain_open : (c : ℕ) → is_special c ≡ false → all not_close (c ∷ []) ≡ true
unfolding is_special all not_close
plain_open c h = ground arith

unquote_names : (s : Text) → all is_attr s ≡ true → mafw_filter_unquote s ≡ ok s
unquote_names s h = ap mafw_filter_unquote (sym (quote_names s h)) ∙ unquote-quote s

quote_char_open : (c : ℕ) → all not_close (quote_char c) ≡ true
unfolding quote_char hexchars all not_close
quote_char_open c = elim (Bool-cases (is_special c)) [
  | inl h ↦
      let P = λ (k : ℕ).
        all not_close
          (if is_special k then b'\\' ∷ hexchars (k / 16) ∷ hexchars (k % 16) ∷ [] else k ∷ [])
        ≡ true in
      elim (special_cases c h) [
        | inl e ↦ subst P (sym e) refl
        | inr (inl e) ↦ subst P (sym e) refl
        | inr (inr (inl e)) ↦ subst P (sym e) refl
        | inr (inr (inr e)) ↦ subst P (sym e) refl
      ]
  | inr h ↦ rw (if_false _ _ _ h) (plain_open c h)
]

-- A quoted value has no ')'.
quote_open : (s : Text) → all not_close (mafw_filter_quote s) ≡ true
unfolding mafw_filter_quote all
quote_open [] = refl
quote_open (c ∷ cs) =
    all-append not_close (quote_char c) (mafw_filter_quote cs) (quote_char_open c) (quote_open cs)

char_to_simple-simple_to_char : (t : SimpleType) → char_to_simple (simple_to_char t) ≡ some t
unfolding char_to_simple simple_to_char
char_to_simple-simple_to_char mafw_f_exists = refl
char_to_simple-simple_to_char mafw_f_eq = refl
char_to_simple-simple_to_char mafw_f_lt = refl
char_to_simple-simple_to_char mafw_f_gt = refl
char_to_simple-simple_to_char mafw_f_approx = refl

operator_stops : (t : SimpleType) → is_attr (simple_to_char t) ≡ false
unfolding is_attr simple_to_char
operator_stops mafw_f_exists = refl
operator_stops mafw_f_eq = refl
operator_stops mafw_f_lt = refl
operator_stops mafw_f_gt = refl
operator_stops mafw_f_approx = refl

-- The name, the operator, the text of the value up to the first ')', and no byte more.
pub parse_simple_lem :
    (t : SimpleType) (c : ℕ) (cs text : Text) (v : Option Text) (rest : Text)
    → all is_attr (c ∷ cs) ≡ true
    → all not_close text ≡ true
    → unquoted (mafw_filter_unquote text) ≡ ok v
    → parse_simple ((c ∷ cs) ++ simple_to_char t ∷ (text ++ b')' ∷ rest))
      ≡ ok (simple t (some (c ∷ cs)) v, rest)
unfolding parse_simple parse_operator parse_value parse_end unquoted
parse_simple_lem t c cs text v rest h open_text e =
    let tail = text ++ b')' ∷ rest in
    ap (λ (p : Text × Text). parse_operator p.0 p.1)
      (span_stop is_attr (c ∷ cs) (simple_to_char t) tail h (operator_stops t))
    ∙ ap (parse_value (c ∷ cs) tail) (char_to_simple-simple_to_char t)
    ∙ ap (λ (p : Text × Text). parse_end t (c ∷ cs) p.0 p.1)
        (span_stop not_close text b')' rest open_text refl)
    ∙ ap
        (λ k.
          unquoted k >>= λ a. unquoted (mafw_filter_unquote text) >>= λ b. ok (simple t a b, rest))
        (unquote_names (c ∷ cs) h)
    ∙ ap (λ k. k >>= λ b. ok (simple t (some (c ∷ cs)) b, rest)) e

pub parse_simple-quote :
    (t : SimpleType) (c : ℕ) (cs value rest : Text)
    → all is_attr (c ∷ cs) ≡ true
    → parse_simple ((c ∷ cs) ++ simple_to_char t ∷ (mafw_filter_quote value ++ b')' ∷ rest))
      ≡ ok (simple t (some (c ∷ cs)) (some value), rest)
unfolding unquoted
parse_simple-quote t c cs value rest h =
    parse_simple_lem t c cs (mafw_filter_quote value) (some value) rest h (quote_open value)
      (ap unquoted (unquote-quote value))
