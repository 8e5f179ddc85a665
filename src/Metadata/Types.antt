-- ===== src/Metadata/Types.antt =====
-- Metadata: a hash table from keys to arrays of values.
use mafw.Common.{ℕ, ◌<◌, ◌≡◌, Option, List, [], ◌∷◌, if◌then◌else◌, text_eq}
use mafw.Aplaylist.Types.{Text}

-- The types that the serializer knows, in the order of its `switch`.
pub data Kind : Type 0 where
  g_boolean g_int g_uint g_long g_ulong g_int64 g_uint64 g_float g_double g_string : Kind

-- `number` holds the bits of the value, `string` is `none` for the null pointer; `other` is a value of
-- another type, of which only the number of the type counts.
pub data GValue : Type 0 where
  number : Kind → ℕ → GValue
  string : Option Text → GValue
  other : ℕ → GValue

-- What GLib and the machine fix: the numbers of the types, and the bytes of a `glong`.
pub record Platform : Type 0 where
  pub gtype : Kind → ℕ
  pub sizeof_long : ℕ

-- The numbers are `guint`s and differ, and a `glong` is not empty.
pub record IsPlatform (m : Platform) : Type 0 where
  pub gtype_lt : (k : Kind) → m.gtype k < 4294967296
  pub gtype_inj : (k l : Kind) → m.gtype k ≡ m.gtype l → k ≡ l
  pub long_some : 0 < m.sizeof_long

-- A key and its `GValueArray`, and a hash table in the order in which it is walked over.
abbrev pub Entry : Type 0
Entry = Text × List GValue

abbrev pub Table : Type 0
Table = List Entry

-- `g_hash_table_insert` puts a value in place of the one that the key has.
unfoldable pub hash_table_insert : Table → Text → List GValue → Table
hash_table_insert [] key val = (key, val) ∷ []
hash_table_insert ((k, v) ∷ md) key val =
    let rest = hash_table_insert md key val in
    if text_eq k key then (k, val) ∷ md else (k, v) ∷ rest
