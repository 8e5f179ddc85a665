-- ===== src/Metadata/Freeze.antt =====
-- Serialization. Each function gives the bytes that it appends to the array; `null` is an assertion
-- that fails.
use mafw.Common.{
  ℕ, zero, suc, ◌/◌, ◌%◌, Option, none, some, List, [], ◌∷◌, ◌++◌, u32, length, Outcome, ok, null,
  bad_access, ◌>>=◌,
}
use mafw.Aplaylist.Types.{Text}
use mafw.Metadata.Types.{
  Kind, g_boolean, g_int, g_uint, g_long, g_ulong, g_int64, g_uint64, g_float, g_double, g_string,
  GValue, number, string, other, Platform, Table,
}

-- The bytes of a number in memory, the lowest first.
unfoldable pub bytes_of : ℕ → ℕ → Text
bytes_of zero val = []
bytes_of (suc size) val = val % 256 ∷ bytes_of size (val / 256)

unfoldable pub sizeof_kind : Platform → Kind → ℕ
sizeof_kind m g_boolean = 4
sizeof_kind m g_int = 4
sizeof_kind m g_uint = 4
sizeof_kind m g_long = m.sizeof_long
sizeof_kind m g_ulong = m.sizeof_long
sizeof_kind m g_int64 = 8
sizeof_kind m g_uint64 = 8
sizeof_kind m g_float = 4
sizeof_kind m g_double = 8
sizeof_kind m g_string = 0

unfoldable pub int2bary : ℕ → Text
unfolding bytes_of
int2bary val = bytes_of 4 val

unfoldable pub str2bary : Text → Text
str2bary val = val ++ 0 ∷ []

-- `strlen` reads through a null pointer.
unfoldable pub gval2bary : Platform → GValue → Outcome Text
unfolding int2bary str2bary bytes_of sizeof_kind
gval2bary m (number k val) = ok (int2bary (m.gtype k) ++ bytes_of (sizeof_kind m k) val)
gval2bary m (string none) = bad_access
gval2bary m (string (some s)) = ok (int2bary (m.gtype g_string) ++ str2bary s)
gval2bary m (other type) = null

unfoldable pub values2bary : Platform → List GValue → Outcome Text
unfolding gval2bary
values2bary m [] = ok []
values2bary m (value ∷ values) = do s ← gval2bary m value; t ← values2bary m values; ok (s ++ t)

unfoldable pub mafw_metadata_val_freeze_bary : Platform → List GValue → Outcome Text
unfolding int2bary values2bary
mafw_metadata_val_freeze_bary m values = do
  t ← values2bary m values
  ok (int2bary (u32 (length values)) ++ t)

unfoldable pub mdkv2bary : Platform → Text → List GValue → Outcome Text
unfolding str2bary mafw_metadata_val_freeze_bary
mdkv2bary m key val = do t ← mafw_metadata_val_freeze_bary m val; ok (str2bary key ++ t)

-- The null pointer stands for no metadata.
unfoldable pub freeze_entries : Platform → Table → Outcome Text
unfolding mdkv2bary
freeze_entries m [] = ok []
freeze_entries m ((key, val) ∷ md) = do
  s ← mdkv2bary m key val
  t ← freeze_entries m md
  ok (s ++ t)

unfoldable pub mafw_metadata_freeze_bary : Platform → Option Table → Outcome Text
unfolding freeze_entries
mafw_metadata_freeze_bary m none = ok []
mafw_metadata_freeze_bary m (some md) = freeze_entries m md

-- A C array and its size: a stream is the list of its bytes here.
unfoldable pub mafw_metadata_freeze : Platform → Option Table → Outcome (Text × ℕ)
unfolding mafw_metadata_freeze_bary
mafw_metadata_freeze m md = do bary ← mafw_metadata_freeze_bary m md; ok (bary, length bary)

unfoldable pub mafw_metadata_val_freeze : Platform → List GValue → Outcome (Text × ℕ)
unfolding mafw_metadata_val_freeze_bary
mafw_metadata_val_freeze m val = do
  bary ← mafw_metadata_val_freeze_bary m val
  ok (bary, length bary)
