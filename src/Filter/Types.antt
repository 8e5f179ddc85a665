-- ===== src/Filter/Types.antt =====
-- `MafwFilter` of mafw-filter.h.
use mafw.Common.{Option, ℕ, some, none, ◌==◌, if◌then◌else◌}
use mafw.Aplaylist.Types.{Text}

-- The types of `MafwFilterType` on both sides of MAFW_F_COMPLEX.
pub data ComplexType : Type 0 where
  mafw_f_and mafw_f_or mafw_f_not : ComplexType

pub data SimpleType : Type 0 where
  mafw_f_exists mafw_f_eq mafw_f_lt mafw_f_gt mafw_f_approx : SimpleType

-- `parts` up to the NULL at its end; `invalid` is a filter of any other type.
mutual
  pub data Filter : Type 0 where
    simple : SimpleType → (key value : Option Text) → Filter
    complex : ComplexType → Parts → Filter
    invalid : Filter

  pub data Parts : Type 0 where
    no_parts : Parts
    part : Filter → Parts → Parts

unfoldable pub char_to_simple : ℕ → Option SimpleType
char_to_simple c =
    if c == b'='
    then some mafw_f_eq
    else if c == b'<'
    then some mafw_f_lt
    else if c == b'>'
    then some mafw_f_gt
    else if c == b'~'
    then some mafw_f_approx
    else if c == b'?'
    then some mafw_f_exists
    else none

unfoldable pub char_to_complex : ℕ → Option ComplexType
char_to_complex c =
    if c == b'&'
    then some mafw_f_and
    else if c == b'|'
    then some mafw_f_or
    else if c == b'!'
    then some mafw_f_not
    else none

-- `type_to_char`, for the types on each side.
unfoldable pub simple_to_char : SimpleType → ℕ
simple_to_char mafw_f_eq = b'='
simple_to_char mafw_f_lt = b'<'
simple_to_char mafw_f_gt = b'>'
simple_to_char mafw_f_approx = b'~'
simple_to_char mafw_f_exists = b'?'

unfoldable pub complex_to_char : ComplexType → ℕ
complex_to_char mafw_f_and = b'&'
complex_to_char mafw_f_or = b'|'
complex_to_char mafw_f_not = b'!'
