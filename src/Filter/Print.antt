-- ===== src/Filter/Print.antt =====
-- `mafw_filter_to_string`, `mafw_filter_copy` and `mafw_filter_add_children_n`.
use mafw.Common.{Bool, true, false, Option, none, some, [], ◌∷◌, ◌++◌, if◌then◌else◌}
use mafw.Aplaylist.Types.{Text}
use mafw.Common.{Outcome, ok, null, bad_access, ◌>>=◌}
use mafw.Filter.Quote.{mafw_filter_quote}
use mafw.Filter.Types.{
  ComplexType, mafw_f_and, mafw_f_or, mafw_f_not, SimpleType, mafw_f_exists, mafw_f_eq, mafw_f_lt,
  mafw_f_gt, mafw_f_approx, Filter, simple, complex, invalid, Parts, no_parts, part, simple_to_char,
  complex_to_char,
}

-- NULL or "".
unfoldable pub is_empty : Option Text → Bool
is_empty none = true
is_empty (some []) = true
is_empty (some (c ∷ cs)) = false

unfoldable pub quoted_value : Option Text → Text
quoted_value none = []
quoted_value (some v) = mafw_filter_quote v

-- The test that the value of `mafw_f_exists` is empty.
unfoldable pub value_fits : SimpleType → Option Text → Bool
unfolding is_empty
value_fits mafw_f_exists value = is_empty value
value_fits mafw_f_eq value = true
value_fits mafw_f_lt value = true
value_fits mafw_f_gt value = true
value_fits mafw_f_approx value = true

unfoldable pub simple_to_string : SimpleType → Option Text → Option Text → Outcome Text
unfolding value_fits quoted_value simple_to_char
simple_to_string type none value = null
simple_to_string type (some []) value = null
simple_to_string type (some (c ∷ cs)) value =
    if value_fits type value
    then ok (
        b'('
        ∷ (mafw_filter_quote (c ∷ cs) ++ simple_to_char type ∷ (quoted_value value ++ b')' ∷ [])))
    else null

-- `filter_to_string_rec`. The first round of the loop reads `parts[0]` through, also where it is NULL.
unfoldable mutual
  pub to_string : Filter → Outcome Text
  to_string invalid = null
  to_string (simple type key value) = simple_to_string type key value
  to_string (complex type parts) = do
    s ← parts_to_string type parts
    ok (b'(' ∷ complex_to_char type ∷ s ++ b')' ∷ [])

  pub parts_to_string : ComplexType → Parts → Outcome Text
  parts_to_string type no_parts = bad_access
  parts_to_string type (part f ps) = do s ← to_string f; t ← rest_to_string type ps; ok (s ++ t)

  pub rest_to_string : ComplexType → Parts → Outcome Text
  rest_to_string type no_parts = ok []
  rest_to_string mafw_f_not (part f ps) = null
  rest_to_string mafw_f_and (part f ps) = do
    s ← to_string f
    t ← rest_to_string mafw_f_and ps
    ok (s ++ t)
  rest_to_string mafw_f_or (part f ps) = do
    s ← to_string f
    t ← rest_to_string mafw_f_or ps
    ok (s ++ t)

unfoldable pub copy_simple : SimpleType → Option Text → Option Text → Outcome Filter
unfolding value_fits
copy_simple type none value = null
copy_simple type (some []) value = null
copy_simple type (some (c ∷ cs)) value =
    if value_fits type value then ok (simple type (some (c ∷ cs)) value) else null

-- The size that `mafw_filter_copy` refuses.
unfoldable pub refused_size : ComplexType → Parts → Bool
refused_size type no_parts = true
refused_size mafw_f_not (part f no_parts) = false
refused_size mafw_f_not (part f (part g ps)) = true
refused_size mafw_f_and (part f ps) = false
refused_size mafw_f_or (part f ps) = false

unfoldable mutual
  pub mafw_filter_copy : Filter → Outcome Filter
  mafw_filter_copy invalid = null
  mafw_filter_copy (simple type key value) = copy_simple type key value
  mafw_filter_copy (complex type parts) =
      let copied = copy_parts parts in
      if refused_size type parts then null else do ps ← copied; ok (complex type ps)

  pub copy_parts : Parts → Outcome Parts
  copy_parts no_parts = ok no_parts
  copy_parts (part f ps) = do g ← mafw_filter_copy f; qs ← copy_parts ps; ok (part g qs)

unfoldable pub append_parts : Parts → Parts → Parts
append_parts no_parts qs = qs
append_parts (part f ps) qs = part f (append_parts ps qs)

-- Only an AND or an OR takes more children.
unfoldable pub mafw_filter_add_children_n : Filter → Parts → Filter
unfolding append_parts
mafw_filter_add_children_n (complex mafw_f_and ps) children =
    complex mafw_f_and (append_parts ps children)
mafw_filter_add_children_n (complex mafw_f_or ps) children =
    complex mafw_f_or (append_parts ps children)
mafw_filter_add_children_n (complex mafw_f_not ps) children = complex mafw_f_not ps
mafw_filter_add_children_n (simple type key value) children = simple type key value
mafw_filter_add_children_n invalid children = invalid
