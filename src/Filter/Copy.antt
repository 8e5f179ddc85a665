-- ===== src/Filter/Copy.antt =====
-- `mafw_filter_copy` on the filters that have a text.
use mafw.Common.{
  ◌≡◌, refl, ◌∙◌, sym, ap, inl, inr, false, Option, none, some, [], ◌∷◌, ◌++◌, Bool-cases, if_true,
  if_false,
}
use mafw.Aplaylist.Types.{Text}
use mafw.Common.{ok, ◌>>=◌}
use mafw.Filter.Types.{
  ComplexType, mafw_f_and, mafw_f_or, mafw_f_not, SimpleType, Filter, simple, complex, invalid,
  Parts, no_parts, part, complex_to_char,
}
use mafw.Filter.Print.{
  value_fits, simple_to_string, to_string, parts_to_string, rest_to_string, copy_simple,
  refused_size, mafw_filter_copy, copy_parts,
}
use mafw.Common.{bind_ok}

copy_simple_lem :
    (t : SimpleType) (key v : Option Text) (s : Text)
    → simple_to_string t key v ≡ ok s
    → copy_simple t key v ≡ ok (simple t key v)
unfolding simple_to_string copy_simple
copy_simple_lem t none v s e = cc e
copy_simple_lem t (some []) v s e = cc e
copy_simple_lem t (some (c ∷ cs)) v s e = elim (Bool-cases (value_fits t v)) [
  | inl h ↦ if_true _ _ _ h
  | inr h ↦ cc (sym (if_false _ _ _ h) ∙ e)
]

not_refused :
    (type : ComplexType) (f : Filter) (ps : Parts) (t : Text)
    → rest_to_string type ps ≡ ok t
    → refused_size type (part f ps) ≡ false
unfolding to_string refused_size
not_refused mafw_f_and f ps t e = refl
not_refused mafw_f_or f ps t e = refl
not_refused mafw_f_not f no_parts t e = refl
not_refused mafw_f_not f (part g ps) t e = cc e

complex_copied :
    (type : ComplexType) (ps : Parts)
    → refused_size type ps ≡ false
    → copy_parts ps ≡ ok ps
    → mafw_filter_copy (complex type ps) ≡ ok (complex type ps)
unfolding mafw_filter_copy
complex_copied type ps h e = if_false _ _ _ h ∙ ap (λ o. o >>= λ qs. ok (complex type qs)) e

parts_end :
    (f : Filter) (ps : Parts)
    → mafw_filter_copy f ≡ ok f
    → copy_parts ps ≡ ok ps
    → copy_parts (part f ps) ≡ ok (part f ps)
unfolding mafw_filter_copy
parts_end f ps h k = rw h (rw k)

mutual
  unfolding to_string mafw_filter_copy

  filter_copied : (f : Filter) (s : Text) → to_string f ≡ ok s → mafw_filter_copy f ≡ ok f
  filter_copied invalid s e = cc e
  filter_copied (simple t key v) s e = copy_simple_lem t key v s e
  filter_copied (complex type ps) s e =
      let (u, p, q) =
        bind_ok (parts_to_string type ps) (λ u. ok (b'(' ∷ complex_to_char type ∷ u ++ b')' ∷ []))
          e in
      parts_copied type ps u p

  parts_copied :
      (type : ComplexType) (ps : Parts) (s : Text)
      → parts_to_string type ps ≡ ok s
      → mafw_filter_copy (complex type ps) ≡ ok (complex type ps)
  parts_copied type no_parts s e = cc e
  parts_copied type (part f ps) s e =
      let (u, p, q) = bind_ok (to_string f) (λ u. rest_to_string type ps >>= λ t. ok (u ++ t)) e in
      let (t, p', q') = bind_ok (rest_to_string type ps) (λ t. ok (u ++ t)) q in
      complex_copied type (part f ps) (not_refused type f ps t p')
        (parts_end f ps (filter_copied f u p) (rest_copied type ps t p'))

  rest_copied :
      (type : ComplexType) (ps : Parts) (s : Text)
      → rest_to_string type ps ≡ ok s
      → copy_parts ps ≡ ok ps
  rest_copied type no_parts s e = refl
  rest_copied mafw_f_not (part f ps) s e = cc e
  rest_copied mafw_f_and (part f ps) s e =
      let (u, p, q) =
        bind_ok (to_string f) (λ u. rest_to_string mafw_f_and ps >>= λ t. ok (u ++ t)) e in
      let (t, p', q') = bind_ok (rest_to_string mafw_f_and ps) (λ t. ok (u ++ t)) q in
      parts_end f ps (filter_copied f u p) (rest_copied mafw_f_and ps t p')
  rest_copied mafw_f_or (part f ps) s e =
      let (u, p, q) =
        bind_ok (to_string f) (λ u. rest_to_string mafw_f_or ps >>= λ t. ok (u ++ t)) e in
      let (t, p', q') = bind_ok (rest_to_string mafw_f_or ps) (λ t. ok (u ++ t)) q in
      parts_end f ps (filter_copied f u p) (rest_copied mafw_f_or ps t p')

-- A filter that has a text is copied as it is.
pub copy_lem : (f : Filter) (s : Text) → to_string f ≡ ok s → mafw_filter_copy f ≡ ok f
copy_lem = filter_copied
