-- ===== src/Aplaylist/Load.antt =====
-- `pls_load`, which reads a playlist from a file.
use mafw.Common.{
  ℕ, zero, suc, Bool, not, ◌||◌, Option, none, some, [], ◌∷◌, ltb, ◌==◌, if◌then◌else◌, update,
  int_limit, Outcome, ok, null, bad_access, out_of_fuel, ◌>>=◌,
}
use mafw.Aplaylist.Types.{Text, Pls}
use mafw.Aplaylist.Edit.{pls_new, maybe_realloc}
use mafw.Aplaylist.Stdio.{fgets, c_string, scan_int, scan_byte}

-- The newline at the end goes. An empty string has no last byte.
unfoldable pub chop : Text → Outcome Text
chop [] = bad_access
chop (c ∷ []) = ok (if c == b'\n' then [] else c ∷ [])
chop (c ∷ d ∷ cs) = do rest ← chop (d ∷ cs); ok (c ∷ rest)

unfoldable pub fgetsnl : ℕ → Text → Outcome (Text × Text)
unfolding chop
fgetsnl size f = got (fgets size f)
  where
    got : Option (Text × Text) → Outcome (Text × Text)
    got none = null
    got (some (buf, rest)) = do line ← chop (c_string buf); ok (line, rest)

abbrev pub buf_size : ℕ
buf_size = 2049

unfoldable pub matched {ℓ} : {A : Type ℓ} → Option A → Outcome A
matched none = null
matched (some a) = ok a

-- A line that holds a number that is not negative.
unfoldable pub read_int : Text → Outcome (ℕ × Text)
unfolding fgetsnl matched
read_int f = do
  (buf, rest) ← fgetsnl buf_size f
  (n, _) ← matched (scan_int buf)
  if ltb n int_limit then ok (n, rest) else null

-- The lines of `repeat` and `shuffled`: the test of the value comes after the one of the scan, with `&&`, so
-- that each number passes.
unfoldable pub read_bool : Text → Outcome (Bool × Text)
unfolding fgetsnl matched
read_bool f = do
  (buf, rest) ← fgetsnl buf_size f
  (n, _) ← matched (scan_int buf)
  ok (not (n == 0), rest)

unfoldable pub read_version : Text → Outcome (ℕ × Text)
unfolding fgetsnl matched
read_version f = do
  (buf, rest) ← fgetsnl buf_size f
  number ← matched (scan_byte b'V' buf)
  (version, _) ← matched (scan_int number)
  if version == 1 || version == 2 then ok (version, rest) else null

-- In version 1 all elements are shuffled already.
unfoldable pub read_pool : ℕ → ℕ → Text → Outcome (ℕ × Text)
unfolding read_int
read_pool version len f = if version == 2 then read_int f else ok (len, f)

-- "%u,%a[^\n]" on a line without a newline: the id is not empty.
unfoldable pub scan_entry : Text → Option (ℕ × Text)
scan_entry buf = after_number (scan_int buf)
  where
    after_comma : ℕ → Option Text → Option (ℕ × Text)
    after_comma pidx none = none
    after_comma pidx (some []) = none
    after_comma pidx (some (c ∷ cs)) = some (pidx, c ∷ cs)

    after_number : Option (ℕ × Text) → Option (ℕ × Text)
    after_number none = none
    after_number (some (pidx, rest)) = after_comma pidx (scan_byte b',' rest)

unfoldable pub store_entry : ℕ → ℕ → Text → Pls → Pls
store_entry i pidx oid p = record p {
  vidx = update p.vidx i oid;
  pidx = if p.shuffled then update p.pidx i pidx else p.pidx;
  iidx = if p.shuffled then update p.iidx pidx i else p.iidx;
}

-- The entries from `i` on.
unfoldable pub read_entries : ℕ → ℕ → ℕ → Text → Pls → Outcome Pls
unfolding fgetsnl matched scan_entry store_entry
read_entries zero i len f p = ok p
read_entries (suc n) i len f p = do
  (buf, rest) ← fgetsnl buf_size f
  (pidx, oid) ← matched (scan_entry buf)
  if ltb pidx len then read_entries n (suc i) len rest (store_entry i pidx oid p) else null

-- `pls_new` gives NULL for an empty name, and its result is written without a look at it.
-- `out_of_fuel`: `maybe_realloc` does not return, or aborts.
unfoldable pub grown : Option Pls → Outcome Pls
grown none = out_of_fuel
grown (some p) = ok p

unfoldable pub made : Bool → Bool → ℕ → ℕ → Option Pls → Outcome Pls
unfolding grown
made repeat shuffled len poolst none = bad_access
made repeat shuffled len poolst (some p) =
    grown (maybe_realloc (record p { repeat = repeat; shuffled = shuffled; poolst = poolst }) len)

unfoldable pub opened : Bool → ℕ → ℕ → Text → Bool → Bool → ℕ → ℕ → Outcome Pls
unfolding made
opened initialize timer id name repeat shuffled len poolst =
    made repeat shuffled len poolst (pls_new initialize timer id (some name))

-- `len` is set last.
abbrev pub finished : ℕ → Pls → Outcome Pls
finished len p = ok (record p { len = len })

-- `none`: the file cannot be opened.
unfoldable pub pls_load : Bool → ℕ → Option Text → Outcome Pls
unfolding read_version read_int read_bool read_pool opened read_entries
pls_load initialize timer none = null
pls_load initialize timer (some f) = do
  (version, f) ← read_version f
  (id, f) ← read_int f
  (name, f) ← fgetsnl buf_size f
  (repeat, f) ← read_bool f
  (shuffled, f) ← read_bool f
  (len, f) ← read_int f
  (poolst, f) ← read_pool version len f
  p ← opened initialize timer id name repeat shuffled len poolst
  q ← read_entries len 0 len f p
  finished len q
