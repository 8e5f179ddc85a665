-- ===== src/Filter/RoundTrip.antt =====
-- The parser reads what `mafw_filter_to_string` writes.
use mafw.Common.{
  bind_ok, ok_inj, ℕ, zero, suc, ◌+◌, ◌*◌, ◌≤◌, ◌≡◌, refl, ◌∙◌, sym, ap, subst, inl, inr, Bool,
  true, false, ◌&&◌, Option, none, some, [], ◌∷◌, ◌++◌, arith, length, length-append, Bool-cases,
  if_true, if_false,
}
use mathlib.Core.List.{append_assoc, append-nil}
use mafw.Aplaylist.Types.{Text}
use mafw.Common.{Outcome, ok, null, ◌>>=◌}
use mafw.Filter.Quote.{mafw_filter_quote, mafw_filter_unquote}
use mafw.Filter.Types.{
  ComplexType, mafw_f_and, mafw_f_or, mafw_f_not, SimpleType, Filter, simple, complex, invalid,
  Parts, no_parts, part, simple_to_char, char_to_complex, complex_to_char,
}
use mafw.Filter.Parse.{
  is_attr, not_close, unquoted, is_not, parse_more, parse_inner, parse_open, parse_sexp,
  parse_parts, whole, mafw_filter_parse,
}
use mafw.Filter.Print.{
  quoted_value, value_fits, simple_to_string, to_string, parts_to_string, rest_to_string,
}
use mafw.Common.{all, all_head}
use mafw.Filter.Simple.{attr_simple, quote_names, parse_simple_lem, parse_simple-quote}

-- The keys that the parser reads: letters, digits, '-' and '_'.
unfoldable mutual
  pub plain_keys : Filter → Bool
  plain_keys invalid = true
  plain_keys (simple type none value) = true
  plain_keys (simple type (some key) value) = all is_attr key
  plain_keys (complex type ps) = plain_parts ps

  pub plain_parts : Parts → Bool
  plain_parts no_parts = true
  plain_parts (part f ps) = plain_keys f && plain_parts ps

-- The parser gives a missing value as the empty string.
unfoldable mutual
  pub normal : Filter → Filter
  normal invalid = invalid
  normal (simple type key none) = simple type key (some [])
  normal (simple type key (some v)) = simple type key (some v)
  normal (complex type ps) = complex type (normal_parts ps)

  pub normal_parts : Parts → Parts
  normal_parts no_parts = no_parts
  normal_parts (part f ps) = part (normal f) (normal_parts ps)

and_left : (a b : Bool) → (a && b) ≡ true → a ≡ true
and_left true b h = refl
and_left false b h = cc h

and_right : (a b : Bool) → (a && b) ≡ true → b ≡ true
and_right true b h = h
and_right false b h = cc h

-- What the parser makes of an aggregate follows from what it makes of the parts.
sexp_step :
    (type : ComplexType) (u rest : Text) (ps : Parts) (fuel : ℕ)
    → parse_parts fuel type u ≡ ok (ps, rest)
    → parse_sexp (suc fuel) (b'(' ∷ complex_to_char type ∷ u) ≡ ok (complex type ps, rest)
unfolding parse_sexp parse_open parse_inner char_to_complex complex_to_char
sexp_step mafw_f_and u rest ps fuel h = rw h
sexp_step mafw_f_or u rest ps fuel h = rw h
sexp_step mafw_f_not u rest ps fuel h = rw h

sexp_complex :
    (type : ComplexType) (u rest : Text) (ps : Parts) (fuel : ℕ)
    → parse_parts fuel type (u ++ b')' ∷ rest) ≡ ok (ps, rest)
    → parse_sexp (suc fuel) ((b'(' ∷ complex_to_char type ∷ (u ++ b')' ∷ [])) ++ rest)
      ≡ ok (complex type ps, rest)
sexp_complex type u rest ps fuel h =
    ap (λ k. parse_sexp (suc fuel) (b'(' ∷ complex_to_char type ∷ k))
      (append_assoc u (b')' ∷ []) rest)
    ∙ sexp_step type (u ++ b')' ∷ rest) rest ps fuel h

quoted_value_lem :
    (v : Option Text)
    → (w : Text) × (quoted_value v ≡ mafw_filter_quote w)
      × ((t : SimpleType) (k : Option Text) → normal (simple t k v) ≡ simple t k (some w))
unfolding quoted_value mafw_filter_quote normal
quoted_value_lem none = ([], refl, λ t k. refl)
quoted_value_lem (some v) = (v, refl, λ t k. refl)

-- The text of a simple filter, before anything.
simple_text :
    (t : SimpleType) (c : ℕ) (cs w rest : Text)
    → all is_attr (c ∷ cs) ≡ true
    → (b'(' ∷ (mafw_filter_quote (c ∷ cs) ++ simple_to_char t ∷ (mafw_filter_quote w ++ b')' ∷ [])))
        ++ rest
      ≡ b'(' ∷ ((c ∷ cs) ++ simple_to_char t ∷ (mafw_filter_quote w ++ b')' ∷ rest))
simple_text t c cs w rest h =
    ap (λ k. (b'(' ∷ (k ++ simple_to_char t ∷ (mafw_filter_quote w ++ b')' ∷ []))) ++ rest)
      (quote_names (c ∷ cs) h)
    ∙ ap (◌∷◌ b'(')
        (append_assoc (c ∷ cs) (simple_to_char t ∷ (mafw_filter_quote w ++ b')' ∷ [])) rest)
    ∙ ap (λ k. b'(' ∷ ((c ∷ cs) ++ simple_to_char t ∷ k))
        (append_assoc (mafw_filter_quote w) (b')' ∷ []) rest)

sexp_text :
    (t : SimpleType) (c : ℕ) (cs w rest : Text) (fuel : ℕ)
    → all is_attr (c ∷ cs) ≡ true
    → parse_sexp
        (suc fuel)
        (b'(' ∷ ((c ∷ cs) ++ simple_to_char t ∷ (mafw_filter_quote w ++ b')' ∷ rest)))
      ≡ ok (simple t (some (c ∷ cs)) (some w), rest)
unfolding parse_sexp parse_open parse_inner
sexp_text t c cs w rest fuel h =
    rw (attr_simple c (all_head is_attr c cs h), parse_inner) (parse_simple-quote t c cs w rest h)

simple_ok :
    (t : SimpleType) (c : ℕ) (cs : Text) (v : Option Text) (s : Text)
    → simple_to_string t (some (c ∷ cs)) v ≡ ok s
    → s ≡ b'(' ∷ (mafw_filter_quote (c ∷ cs) ++ simple_to_char t ∷ (quoted_value v ++ b')' ∷ []))
unfolding simple_to_string
simple_ok t c cs v s e = elim (Bool-cases (value_fits t v)) [
  | inl h ↦ sym (ok_inj (sym (if_true _ _ _ h) ∙ e))
  | inr h ↦ cc (sym (if_false _ _ _ h) ∙ e)
]

sexp_simple :
    (t : SimpleType) (key v : Option Text) (s rest : Text) (fuel : ℕ)
    → plain_keys (simple t key v) ≡ true
    → simple_to_string t key v ≡ ok s
    → parse_sexp (suc fuel) (s ++ rest) ≡ ok (normal (simple t key v), rest)
unfolding simple_to_string plain_keys
sexp_simple t none v s rest fuel h e = cc e
sexp_simple t (some []) v s rest fuel h e = cc e
sexp_simple t (some (c ∷ cs)) v s rest fuel h e =
    let (w, q, n) = quoted_value_lem v in
    let text =
      simple_ok t c cs v s e
      ∙ ap (λ k. b'(' ∷ (mafw_filter_quote (c ∷ cs) ++ simple_to_char t ∷ (k ++ b')' ∷ []))) q in
    ap (λ k. parse_sexp (suc fuel) (k ++ rest)) text
    ∙ ap (parse_sexp (suc fuel)) (simple_text t c cs w rest h)
    ∙ sexp_text t c cs w rest fuel h
    ∙ ap (λ f. ok (f, rest)) (sym (n t (some (c ∷ cs))))

-- The first byte of a printed filter.
to_string_open : (f : Filter) (s : Text) → to_string f ≡ ok s → (u : Text) × (s ≡ b'(' ∷ u)
unfolding to_string simple_to_string
to_string_open invalid s e = cc e
to_string_open (simple t none v) s e = cc e
to_string_open (simple t (some []) v) s e = cc e
to_string_open (simple t (some (c ∷ cs)) v) s e = (_, simple_ok t c cs v s e)
to_string_open (complex type ps) s e =
    let (u, p, q) =
      bind_ok (parts_to_string type ps) (λ u. ok (b'(' ∷ complex_to_char type ∷ u ++ b')' ∷ []))
        e in
    (_, sym (ok_inj q))

rest_again :
    (type : ComplexType) (f : Filter) (ps : Parts) (s : Text)
    → rest_to_string type (part f ps) ≡ ok s
    → (is_not type ≡ false) × (parts_to_string type (part f ps) ≡ ok s)
unfolding to_string is_not
rest_again mafw_f_and f ps s e = (refl, e)
rest_again mafw_f_or f ps s e = (refl, e)
rest_again mafw_f_not f ps s e = cc e

-- The list of the parts ends before `tail`, and `rest` is still to be read.
abbrev pub Ends : ComplexType → Text → Text → Type 0
Ends type tail rest =
    (p : Filter) (more : Text → Outcome (Parts × Text))
    → parse_more type p more tail ≡ ok (part p no_parts, rest)

pub Ends-close : (type : ComplexType) (rest : Text) → Ends type (b')' ∷ rest) rest
unfolding parse_more
Ends-close type rest p more = refl

pub Ends-nil : (type : ComplexType) → Ends type [] []
unfolding parse_more
Ends-nil type p more = refl

parts_last :
    (type : ComplexType) (p : Filter) (s tail rest : Text) (fuel : ℕ)
    → Ends type tail rest
    → parse_sexp fuel (s ++ tail) ≡ ok (p, tail)
    → parse_parts (suc fuel) type (s ++ tail) ≡ ok (part p no_parts, rest)
unfolding parse_sexp
parts_last type p s tail rest fuel ends h = rw h (ends p λ t. parse_parts fuel type t)

parts_more :
    (type : ComplexType) (p : Filter) (ps : Parts) (s t tail v rest : Text) (fuel : ℕ)
    → is_not type ≡ false
    → t ++ tail ≡ b'(' ∷ v
    → parse_sexp fuel (s ++ (t ++ tail)) ≡ ok (p, t ++ tail)
    → parse_parts fuel type (t ++ tail) ≡ ok (ps, rest)
    → parse_parts (suc fuel) type (s ++ (t ++ tail)) ≡ ok (part p ps, rest)
unfolding parse_sexp parse_more
parts_more type p ps s t tail v rest fuel n o h k =
    let h' = subst (λ x. parse_sexp fuel (s ++ x) ≡ ok (p, x)) o h in
    let k' = subst (λ x. parse_parts fuel type x ≡ ok (ps, rest)) o k in
    subst (λ x. parse_parts (suc fuel) type (s ++ x) ≡ ok (part p ps, rest)) (sym o)
      (rw h' (rw n (rw k')))

parts_open :
    (type : ComplexType) (f : Filter) (ps : Parts) (s : Text)
    → parts_to_string type (part f ps) ≡ ok s
    → (u : Text) × (s ≡ b'(' ∷ u)
unfolding to_string
parts_open type f ps s e =
    let (u, p, q) = bind_ok (to_string f) (λ u. rest_to_string type ps >>= λ t. ok (u ++ t)) e in
    let (t, p', q') = bind_ok (rest_to_string type ps) (λ t. ok (u ++ t)) q in
    let (w, o) = to_string_open f u p in (w ++ t, sym (ok_inj q') ∙ ap (λ k. k ++ t) o)

mutual
  unfolding to_string plain_keys normal

  sexp_reads :
      (f : Filter) (s rest : Text) (fuel : ℕ)
      → plain_keys f ≡ true
      → to_string f ≡ ok s
      → length s ≤ suc fuel
      → parse_sexp (suc fuel) (s ++ rest) ≡ ok (normal f, rest)
  sexp_reads invalid s rest fuel h e b = cc e
  sexp_reads (simple t key v) s rest fuel h e b = sexp_simple t key v s rest fuel h e
  sexp_reads (complex type ps) s rest fuel h e b =
      let (u, p, q) =
        bind_ok (parts_to_string type ps) (λ u. ok (b'(' ∷ complex_to_char type ∷ u ++ b')' ∷ []))
          e in
      let text = sym (ok_inj q) in
      let size = ap length text ∙ ap (λ n. suc (suc n)) (length-append u (b')' ∷ [])) in
      ap (λ k. parse_sexp (suc fuel) (k ++ rest)) text
      ∙ sexp_complex type u rest (normal_parts ps) fuel
          (parts_read type ps u (b')' ∷ rest) rest fuel (Ends-close type rest) h p (omega arith))

  parts_read :
      (type : ComplexType) (ps : Parts) (s tail rest : Text) (fuel : ℕ)
      → Ends type tail rest
      → plain_parts ps ≡ true
      → parts_to_string type ps ≡ ok s
      → length s + 2 ≤ fuel
      → parse_parts fuel type (s ++ tail) ≡ ok (normal_parts ps, rest)
  parts_read type no_parts s tail rest fuel ends h e b = cc e
  parts_read type (part f no_parts) s tail rest zero ends h e b = absurd (omega arith)
  parts_read type (part f no_parts) s tail rest (suc zero) ends h e b = absurd (omega arith)
  parts_read type (part f no_parts) s tail rest (suc (suc fuel)) ends h e b =
      let (u, p, q) = bind_ok (to_string f) (λ u. ok (u ++ [])) e in
      let text = sym (ok_inj q) ∙ append-nil u in
      let size = ap length text in
      ap (λ k. parse_parts (suc (suc fuel)) type (k ++ tail)) text
      ∙ parts_last type (normal f) u tail rest (suc fuel) ends
          (sexp_reads f u tail fuel (and_left (plain_keys f) true h) p (omega arith))
  parts_read type (part f (part g ps)) s tail rest zero ends h e b = absurd (omega arith)
  parts_read type (part f (part g ps)) s tail rest (suc zero) ends h e b = absurd (omega arith)
  parts_read type (part f (part g ps)) s tail rest (suc (suc fuel)) ends h e b =
      let (u, p, q) =
        bind_ok (to_string f) (λ u. rest_to_string type (part g ps) >>= λ t. ok (u ++ t)) e in
      let (t, p', q') = bind_ok (rest_to_string type (part g ps)) (λ t. ok (u ++ t)) q in
      let (n, again) = rest_again type g ps t p' in
      let (v, open_g) = parts_open type g ps t again in
      let (w, open_f) = to_string_open f u p in
      let text = sym (ok_inj q') in
      let size = ap length text ∙ length-append u t in
      let first = ap length open_f in
      let after = ap (λ k. k ++ tail) open_g in
      let read_f =
        sexp_reads f u (t ++ tail) fuel (and_left (plain_keys f) (plain_parts (part g ps)) h) p
          (omega arith) in
      let read_ps =
        parts_read type (part g ps) t tail rest (suc fuel) ends
          (and_right (plain_keys f) (plain_parts (part g ps)) h) again (omega arith) in
      ap (λ k. parse_parts (suc (suc fuel)) type (k ++ tail)) text
      ∙ ap (parse_parts (suc (suc fuel)) type) (append_assoc u t tail)
      ∙ parts_more type (normal f) (normal_parts (part g ps)) u t tail (v ++ tail) rest (suc fuel) n
          after read_f read_ps

-- The text of a filter parses to that filter, with a missing value read as the empty string.
pub parse-to_string :
    (f : Filter) (s : Text)
    → plain_keys f ≡ true
    → to_string f ≡ ok s
    → mafw_filter_parse s ≡ ok (normal f)
unfolding mafw_filter_parse whole
parse-to_string f s h e =
    let read = sexp_reads f s [] (2 * length s) h e (omega arith) in
    ap (λ k. parse_sexp k s >>= whole) (omega arith)
    ∙ ap (λ k. parse_sexp (suc (2 * length s)) k >>= whole) (sym (append-nil s))
    ∙ ap (λ r. r >>= whole) read

-- An aggregate whose last ')' is missing is read as if it were there.
pub parse_unclosed :
    (type : ComplexType) (ps : Parts) (u : Text)
    → plain_parts ps ≡ true
    → parts_to_string type ps ≡ ok u
    → mafw_filter_parse (b'(' ∷ complex_to_char type ∷ u) ≡ ok (complex type (normal_parts ps))
unfolding mafw_filter_parse whole
parse_unclosed type ps u h e =
    let fuel = 2 * length u + 4 in
    let read = parts_read type ps u [] [] fuel (Ends-nil type) h e (omega arith) in
    let text =
      subst (λ k. parse_parts fuel type k ≡ ok (normal_parts ps, [])) (append-nil u) read in
    ap (λ k. parse_sexp k (b'(' ∷ complex_to_char type ∷ u) >>= whole) (omega arith)
    ∙ ap (λ r. r >>= whole) (sexp_step type u [] (normal_parts ps) fuel text)

-- A value that is quoted badly does not make the parser refuse the text: the filter has no value.
pub parse_bad_value :
    (t : SimpleType) (c : ℕ) (cs text : Text)
    → all is_attr (c ∷ cs) ≡ true
    → all not_close text ≡ true
    → mafw_filter_unquote text ≡ null
    → mafw_filter_parse (b'(' ∷ ((c ∷ cs) ++ simple_to_char t ∷ (text ++ b')' ∷ [])))
      ≡ ok (simple t (some (c ∷ cs)) none)
unfolding mafw_filter_parse whole parse_sexp parse_open parse_inner unquoted
parse_bad_value t c cs text h open_text e =
    let s = b'(' ∷ ((c ∷ cs) ++ simple_to_char t ∷ (text ++ b')' ∷ [])) in
    let step : parse_sexp (suc (2 * length s)) s ≡ ok (simple t (some (c ∷ cs)) none, []) =
      rw (attr_simple c (all_head is_attr c cs h), parse_inner)
        (parse_simple_lem t c cs text none [] h open_text (ap unquoted e)) in
    ap (λ k. parse_sexp k s >>= whole) {y = suc (2 * length s)} (omega arith)
    ∙ ap (λ r. r >>= whole) step
