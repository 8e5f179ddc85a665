-- ===== src/Metadata/Tables.antt =====
-- Whole tables that were frozen are thawed.
use mathlib.Core.List.{append_assoc}
use mafw.Common.{
  ℕ, zero, suc, ◌+◌, ◌≤◌, ◌<◌, ◌≡◌, refl, ◌∙◌, sym, ap, true, false, Option, none, some, List, [],
  ◌∷◌, ◌++◌, arith, length, length-append, if_false, all, text_eq, ok, ◌>>=◌, bind_eq, bind_ok,
  ok_inj,
}
use mafw.Aplaylist.Types.{Text}
use mafw.Metadata.Types.{GValue, Platform, IsPlatform, Entry, Table, hash_table_insert}
use mafw.Metadata.Freeze.{
  str2bary, mafw_metadata_val_freeze_bary, mdkv2bary, freeze_entries, mafw_metadata_freeze_bary,
}
use mafw.Metadata.Thaw.{
  c_str, mafw_metadata_val_thaw_bary, table_of, thaw_loop, mafw_metadata_thaw_bary,
}
use mafw.Metadata.RoundTrip.{is_char, c_str-str2bary, IsArray, val_thaw-val_freeze}

unfoldable pub Absent : Text → Table → Type 0
Absent key [] = 0 < 1
Absent key ((k, v) ∷ md) = (text_eq k key ≡ false) × Absent key md

-- Each key differs from those before it, and is a C string, and each value is an array.
unfoldable pub IsTable : Platform → Table → Table → Type 0
unfolding Absent
IsTable m before [] = 0 < 1
IsTable m before ((key, val) ∷ md) =
    Absent key before
    × (all is_char key ≡ true)
    × IsArray m val
    × IsTable m (before ++ (key, val) ∷ []) md

insert_new :
    (md : Table) (key : Text) (val : List GValue)
    → Absent key md
    → hash_table_insert md key val ≡ md ++ (key, val) ∷ []
unfolding hash_table_insert Absent
insert_new [] key val h = refl
insert_new ((k, v) ∷ md) key val (h, hs) =
    if_false (text_eq k key) ((k, val) ∷ md) ((k, v) ∷ hash_table_insert md key val) h
    ∙ ap (◌∷◌ (k, v)) (insert_new md key val hs)

-- The table with what was read, NULL if there is nothing.
unfoldable pub thawed : Option Table → Table → Option Table
thawed md [] = md
thawed md (e ∷ es) = some (table_of md ++ e ∷ es)

thaw_round :
    (m : Platform) (fuel : ℕ) (md : Option Table) (c : ℕ) (s key t rest : Text) (val : List GValue)
    → c_str (c ∷ s) ≡ ok (key, t)
    → mafw_metadata_val_thaw_bary m t ≡ ok (val, rest)
    → thaw_loop m (suc fuel) md (c ∷ s)
      ≡ thaw_loop m fuel (some (hash_table_insert (table_of md) key val)) rest
unfolding thaw_loop
thaw_round m fuel md c s key t rest val h e = bind_eq _ h (bind_eq _ e refl)

thaw_step :
    (m : Platform) (fuel : ℕ) (md : Option Table) (key t rest : Text) (val : List GValue)
    → all is_char key ≡ true
    → mafw_metadata_val_thaw_bary m (t ++ rest) ≡ ok (val, rest)
    → thaw_loop m (suc fuel) md (str2bary key ++ (t ++ rest))
      ≡ thaw_loop m fuel (some (hash_table_insert (table_of md) key val)) rest
unfolding str2bary
thaw_step m fuel md [] t rest val h e =
    thaw_round m fuel md 0 (t ++ rest) [] (t ++ rest) rest val (c_str-str2bary [] (t ++ rest) h) e
thaw_step m fuel md (c ∷ cs) t rest val h e =
    thaw_round m fuel md c ((cs ++ 0 ∷ []) ++ (t ++ rest)) (c ∷ cs) (t ++ rest) rest val
      (c_str-str2bary (c ∷ cs) (t ++ rest) h) e

length-str2bary : (s : Text) → length (str2bary s) ≡ length s + 1
unfolding str2bary
length-str2bary s = length-append s (0 ∷ [])

thawed_step :
    (md : Option Table) (e : Entry) (es : Table)
    → thawed (some (table_of md ++ e ∷ [])) es ≡ thawed md (e ∷ es)
unfolding thawed
thawed_step md e [] = refl
thawed_step md e (f ∷ es) = ap (λ t. some t) (append_assoc (table_of md) (e ∷ []) (f ∷ es))

-- Fuel above a size is a successor.
on_fuel {ℓ} :
    (P : ℕ → Type ℓ) (n fuel : ℕ) → n < fuel → ((less : ℕ) → n ≤ less → P (suc less)) → P fuel
on_fuel P n zero h k = absurd (omega arith)
on_fuel P n (suc less) h k = k less (omega arith)

entries_thawed :
    (m : Platform) (p : IsPlatform m) (es : Table) (md : Option Table) (s : Text) (fuel : ℕ)
    → IsTable m (table_of md) es
    → freeze_entries m es ≡ ok s
    → length s ≤ fuel
    → thaw_loop m fuel md s ≡ ok (thawed md es)
unfolding freeze_entries mdkv2bary IsTable thawed thaw_loop
entries_thawed m p [] md s fuel h e b = ap (thaw_loop m fuel md) (sym (ok_inj e))
entries_thawed m p ((key, val) ∷ es) md s fuel (new, chars, array, more) e b =
    let (s', p', q) =
      bind_ok (mdkv2bary m key val) (λ s. freeze_entries m es >>= λ t. ok (s ++ t)) e in
    let (u, p'', q') = bind_ok (freeze_entries m es) (λ t. ok (s' ++ t)) q in
    let (t, r, r') =
      bind_ok (mafw_metadata_val_freeze_bary m val) (λ t. ok (str2bary key ++ t)) p' in
    let text : s ≡ str2bary key ++ (t ++ u) =
      sym (ok_inj q') ∙ ap (λ k. k ++ u) (sym (ok_inj r')) ∙ append_assoc (str2bary key) t u in
    let size = ap length text ∙ length-append (str2bary key) (t ++ u) in
    on_fuel (λ f. thaw_loop m f md s ≡ ok (thawed md ((key, val) ∷ es))) (length u) fuel
      (omega (arith, size, length-str2bary key, length-append t u))
      λ less bound.
        ap (thaw_loop m (suc less) md) text
        ∙ thaw_step m less md key t u val chars (val_thaw-val_freeze m p val t u array r)
        ∙ ap (λ k. thaw_loop m less (some k) u) (insert_new (table_of md) key val new)
        ∙ entries_thawed m p es (some (table_of md ++ (key, val) ∷ [])) u less more p'' bound
        ∙ ap (λ k. ok k) (thawed_step md (key, val) es)

-- What was frozen is thawed: a table without entries becomes NULL, any other one is the same again.
pub thaw-freeze :
    (m : Platform) (p : IsPlatform m) (md : Table) (s : Text)
    → IsTable m [] md
    → mafw_metadata_freeze_bary m (some md) ≡ ok s
    → mafw_metadata_thaw_bary m s ≡ ok (thawed none md)
unfolding mafw_metadata_freeze_bary mafw_metadata_thaw_bary
thaw-freeze m p md s h e = entries_thawed m p md none s (length s) h e (omega arith)
