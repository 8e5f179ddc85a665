-- ===== src/Metadata/Thaw.antt =====
-- Deserialization. The stream is what stands in the array from `*index` on; `null` is an assertion that
-- fails, `bad_access` a read past the end of the array.
use mafw.Common.{
  ℕ, zero, suc, ◌+◌, ◌*◌, Option, none, some, List, [], ◌∷◌, ◌==◌, if◌then◌else◌, length, Outcome,
  ok, null, bad_access, out_of_fuel, ◌>>=◌,
}
use mafw.Aplaylist.Types.{Text}
use mafw.Metadata.Types.{
  Kind, g_boolean, g_int, g_uint, g_long, g_ulong, g_int64, g_uint64, g_float, g_double, g_string,
  GValue, number, string, Platform, Table, hash_table_insert,
}
use mafw.Metadata.Freeze.{sizeof_kind}

unfoldable pub memcpy : ℕ → Text → Outcome (ℕ × Text)
memcpy zero s = ok (0, s)
memcpy (suc size) [] = bad_access
memcpy (suc size) (b ∷ s) = do (val, rest) ← memcpy size s; ok (b + 256 * val, rest)

-- Only that the stream is not at its end is asserted.
unfoldable pub bary2x : ℕ → Text → Outcome (ℕ × Text)
unfolding memcpy
bary2x size [] = null
bary2x size (b ∷ s) = memcpy size (b ∷ s)

-- Up to the NUL, which is read as well.
unfoldable pub c_str : Text → Outcome (Text × Text)
c_str [] = bad_access
c_str (c ∷ s) =
    let more = c_str s in if c == 0 then ok ([], s) else do (str, rest) ← more; ok (c ∷ str, rest)

-- `none` is the null pointer, at the end of the stream.
unfoldable pub bary2str : Text → Outcome (Option Text × Text)
unfolding c_str
bary2str [] = ok (none, [])
bary2str (c ∷ s) = do (str, rest) ← c_str (c ∷ s); ok (some str, rest)

-- The `case` of the type.
unfoldable pub find_kind : Platform → ℕ → List Kind → Option Kind
find_kind m type [] = none
find_kind m type (k ∷ ks) =
    let rest = find_kind m type ks in if m.gtype k == type then some k else rest

abbrev pub kinds : List Kind
kinds =
    g_boolean ∷ g_int ∷ g_uint ∷ g_long ∷ g_ulong ∷ g_int64 ∷ g_uint64 ∷ g_float ∷ g_double
    ∷ g_string ∷ []

-- `g_value_set_boolean` stores TRUE or FALSE.
abbrev pub set_number : Kind → ℕ → GValue
set_number g_boolean val = number g_boolean (if val == 0 then 0 else 1)
set_number k val = number k val

unfoldable pub read_number : Platform → Kind → Text → Outcome (GValue × Text)
unfolding bary2x sizeof_kind
read_number m k s = do (val, rest) ← bary2x (sizeof_kind m k) s; ok (set_number k val, rest)

unfoldable pub read_value : Platform → Option Kind → Text → Outcome (GValue × Text)
unfolding read_number bary2str
read_value m none s = null
read_value m (some g_string) s = do (str, rest) ← bary2str s; ok (string str, rest)
read_value m (some k) s = read_number m k s

unfoldable pub bary2gval : Platform → Text → Outcome (GValue × Text)
unfolding bary2x find_kind read_value
bary2gval m s = do (type, rest) ← bary2x 4 s; read_value m (find_kind m type kinds) rest

unfoldable pub read_values : Platform → ℕ → Text → Outcome (List GValue × Text)
unfolding bary2gval
read_values m zero s = ok ([], s)
read_values m (suc nvalues) s = do
  (value, s) ← bary2gval m s
  (values, s) ← read_values m nvalues s
  ok (value ∷ values, s)

unfoldable pub mafw_metadata_val_thaw_bary : Platform → Text → Outcome (List GValue × Text)
unfolding bary2x read_values
mafw_metadata_val_thaw_bary m s = do
  (nvalues, s) ← bary2x 4 s
  if nvalues == 0 then null else read_values m nvalues s

-- `md` is NULL until there is a key.
abbrev pub table_of : Option Table → Table
table_of none = []
table_of (some md) = md

-- The loop; each round takes a byte at least.
unfoldable pub thaw_loop : Platform → ℕ → Option Table → Text → Outcome (Option Table)
unfolding c_str mafw_metadata_val_thaw_bary hash_table_insert
thaw_loop m fuel md [] = ok md
thaw_loop m zero md (c ∷ s) = out_of_fuel
thaw_loop m (suc fuel) md (c ∷ s) = do
  (key, s) ← c_str (c ∷ s)
  (val, s) ← mafw_metadata_val_thaw_bary m s
  thaw_loop m fuel (some (hash_table_insert (table_of md) key val)) s

unfoldable pub mafw_metadata_thaw_bary : Platform → Text → Outcome (Option Table)
unfolding thaw_loop
mafw_metadata_thaw_bary m bary = thaw_loop m (length bary) none bary
