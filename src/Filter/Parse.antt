-- ===== src/Filter/Parse.antt =====
-- `mafw_filter_parse`, by recursive descent.
use mafw.Common.{
  ℕ, zero, suc, ◌+◌, ◌*◌, Bool, true, false, not, ◌&&◌, ◌||◌, Option, none, some, [], ◌∷◌, leb,
  ◌==◌, if◌then◌else◌, length,
}
use mafw.Aplaylist.Types.{Text}
use mafw.Common.{Outcome, ok, null, bad_access, out_of_fuel, ◌>>=◌}
use mafw.Filter.Quote.{mafw_filter_unquote}
use mafw.Filter.Types.{
  ComplexType, mafw_f_and, mafw_f_or, mafw_f_not, SimpleType, Filter, simple, complex, Parts,
  no_parts, part, char_to_simple, char_to_complex,
}

-- `isalnum` as in the C locale, '-' or '_'.
unfoldable pub is_attr : ℕ → Bool
is_attr c =
    (leb b'0' c && leb c b'9')
    || (leb b'A' c && leb c b'Z')
    || (leb b'a' c && leb c b'z')
    || c == b'-'
    || c == b'_'

-- The bytes up to the first that fails the test, and the rest.
unfoldable pub span : (ℕ → Bool) → Text → Text × Text
span test [] = ([], [])
span test (c ∷ cs) = if test c then (c ∷ (span test cs).0, (span test cs).1) else ([], c ∷ cs)

unfoldable pub not_close : ℕ → Bool
not_close c = not (c == b')')

-- A string that is quoted badly becomes the null pointer.
unfoldable pub unquoted : Outcome Text → Outcome (Option Text)
unquoted (ok t) = ok (some t)
unquoted null = ok none
unquoted bad_access = bad_access
unquoted out_of_fuel = out_of_fuel

-- The attribute, the operator and the value are there, and what follows the value.
unfoldable pub parse_end : SimpleType → Text → Text → Text → Outcome (Filter × Text)
unfolding unquoted
parse_end type attr value [] = null
parse_end type attr value (close ∷ rest) = do
  k ← unquoted (mafw_filter_unquote attr)
  v ← unquoted (mafw_filter_unquote value)
  ok (simple type k v, rest)

unfoldable pub parse_value : Text → Text → Option SimpleType → Outcome (Filter × Text)
unfolding parse_end not_close span
parse_value attr filt none = null
parse_value attr filt (some type) =
    parse_end type attr (span not_close filt).0 (span not_close filt).1

unfoldable pub parse_operator : Text → Text → Outcome (Filter × Text)
unfolding parse_value char_to_simple
parse_operator attr [] = null
parse_operator [] (c ∷ cs) = null
parse_operator (a ∷ more) (c ∷ cs) = parse_value (a ∷ more) cs (char_to_simple c)

unfoldable pub parse_simple : Text → Outcome (Filter × Text)
unfolding parse_operator is_attr span
parse_simple filt = parse_operator (span is_attr filt).0 (span is_attr filt).1

unfoldable pub is_not : ComplexType → Bool
is_not mafw_f_not = true
is_not mafw_f_and = false
is_not mafw_f_or = false

-- After a part: the end of the string or a ')' ends the list; `more` reads the parts that follow.
unfoldable pub parse_more :
    ComplexType → Filter → (Text → Outcome (Parts × Text)) → Text → Outcome (Parts × Text)
unfolding is_not
parse_more type p more [] = ok (part p no_parts, [])
parse_more type p more (c ∷ rest) =
    if c == b')'
    then ok (part p no_parts, rest)
    else if is_not type
    then null
    else do (ps, rest') ← more (c ∷ rest); ok (part p ps, rest')

-- After the '('; `parts` reads the parts of an aggregate.
unfoldable pub parse_inner :
    (ComplexType → Text → Outcome (Parts × Text)) → Text → Outcome (Filter × Text)
unfolding parse_simple char_to_complex
parse_inner parts [] = parse_simple []
parse_inner parts (c ∷ rest) = elim (char_to_complex c) [
  | none ↦ parse_simple (c ∷ rest)
  | some type ↦ do (ps, rest') ← parts type rest; ok (complex type ps, rest')
]

unfoldable pub parse_open :
    (ComplexType → Text → Outcome (Parts × Text)) → Text → Outcome (Filter × Text)
unfolding parse_inner
parse_open parts [] = null
parse_open parts (c ∷ rest) = if c == b'(' then parse_inner parts rest else null

-- `parse_parts` is the loop of `parse_sexp`.
unfoldable mutual
  pub parse_sexp : ℕ → Text → Outcome (Filter × Text)
  parse_sexp zero filt = out_of_fuel
  parse_sexp (suc fuel) filt = parse_open (λ type s. parse_parts fuel type s) filt

  pub parse_parts : ℕ → ComplexType → Text → Outcome (Parts × Text)
  parse_parts zero type filt = out_of_fuel
  parse_parts (suc fuel) type filt = do
    (p, rest) ← parse_sexp fuel filt
    parse_more type p (λ s. parse_parts fuel type s) rest

-- The whole string is to be read.
unfoldable pub whole : Filter × Text → Outcome Filter
whole (f, []) = ok f
whole (f, c ∷ rest) = null

unfoldable pub mafw_filter_parse : Text → Outcome Filter
unfolding whole
mafw_filter_parse filter = parse_sexp (2 * length filter + 1) filter >>= whole
