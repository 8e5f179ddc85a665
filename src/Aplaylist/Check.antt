-- ===== src/Aplaylist/Check.antt =====
-- `pls_check`, which says whether a playlist is well formed.
use mafw.Common.{
  ℕ, zero, suc, ◌+◌, ◌<◌, ◌≡◌, refl, ◌∙◌, sym, subst, ap, ◌↔◌, ◌≢◌, inl, inr, Bool, true, false,
  arith, ltb, ◌==◌, if◌then◌else◌, ◌≤◌, ◌&&◌, lt→ltb, ltb→lt, if_false, count_full, Outcome, ok,
  bad_access, ◌>>=◌, bind_ok, bind_eq, ok_inj, update, slice, count, count_absent, count_once, for,
  for_inv, if_true, if_elim, eq-cases, Bool-cases,
}
use mafw.Aplaylist.Types.{Pls}
use mafw.Aplaylist.Valid.{IsInverse, IsValid}

-- The two histograms. An entry counts at most `len` indices, so `++` does not wrap.
abbrev pub Hist : Type 0
Hist = (ℕ → ℕ) × (ℕ → ℕ)

unfoldable pub count_entries : (ℕ → ℕ) → (ℕ → ℕ) → ℕ → Hist → Hist
count_entries pidx iidx i (hist_pidx, hist_iidx) = (
  update hist_pidx (pidx i) (hist_pidx (pidx i) + 1),
  update hist_iidx (iidx i) (hist_iidx (iidx i) + 1),
)

-- The histograms have `len` places: an entry that is not below `len` is counted outside of them.
unfoldable pub tally : Pls → ℕ → Outcome Hist → Outcome Hist
unfolding count_entries
tally p i hist =
    let counted = hist >>= λ t. ok (count_entries p.pidx p.iidx i t) in
    if ltb (p.pidx i) p.len && ltb (p.iidx i) p.len then counted else bad_access

unfoldable pub histograms : Pls → Outcome Hist
unfolding tally
histograms p = for (tally p) 0 p.len (ok (λ _. 0, λ _. 0))

unfoldable pub check_entry : Hist → ℕ → Bool → Bool
check_entry (hist_pidx, hist_iidx) i isok =
    if hist_pidx i == 0
    then false
    else if hist_iidx i == 0
    then false
    else if ltb 1 (hist_pidx i)
    then false
    else if ltb 1 (hist_iidx i)
    then false
    else isok

unfoldable pub check_entries : Pls → Hist → Outcome Bool
unfolding check_entry
check_entries p hist = ok (for (check_entry hist) 0 p.len true)

unfoldable pub pls_check : Pls → Outcome Bool
unfolding histograms check_entries
pls_check p = if p.shuffled then (histograms p >>= check_entries p) else ok true

-- All entries are below `len`.
abbrev pub InRange : Pls → Type 0
InRange p = (i : ℕ) → i < p.len → (p.pidx i < p.len) × (p.iidx i < p.len)

counted : Pls → Hist
counted p = for (count_entries p.pidx p.iidx) 0 p.len (λ _. 0, λ _. 0)

module _ (p : Pls) where
  tally_in :
      (i : ℕ) (t : Hist)
      → p.pidx i < p.len
      → p.iidx i < p.len
      → tally p i (ok t) ≡ ok (count_entries p.pidx p.iidx i t)
  unfolding tally
  tally_in i t a b = if_true _ _ _ (both _ _ (lt→ltb _ _ a) (lt→ltb _ _ b))
    where
      both : (x y : Bool) → x ≡ true → y ≡ true → (x && y) ≡ true
      both x y e e' = cc (e, e')

  tally_ok :
      (i : ℕ) (o : Outcome Hist) {t : Hist}
      → tally p i o ≡ ok t
      → (p.pidx i < p.len) × (p.iidx i < p.len) × (s : Hist) × (o ≡ ok s)
  unfolding tally
  tally_ok i o e = elim (Bool-cases (ltb (p.pidx i) p.len)) [
    | inr a ↦ cc (sym (if_false _ _ _ (ap (λ b. b && ltb (p.iidx i) p.len) a)) ∙ e)
    | inl a ↦ elim (Bool-cases (ltb (p.iidx i) p.len)) [
      | inr b ↦ cc (sym (if_false _ _ _ (ap (λ x. x && ltb (p.iidx i) p.len) a ∙ b)) ∙ e)
      | inl b ↦
          let (s, same, _) =
            bind_ok o (λ t. ok (count_entries p.pidx p.iidx i t))
              (sym (if_true _ _ _ (ap (λ x. x && ltb (p.iidx i) p.len) a ∙ b)) ∙ e) in
          (ltb→lt _ _ a, ltb→lt _ _ b, s, same)
    ]
  ]

  tallies_in :
      InRange p
      → (lo n : ℕ) (t : Hist) → lo + n ≤ p.len
      → for (tally p) lo n (ok t) ≡ ok (for (count_entries p.pidx p.iidx) lo n t)
  unfolding for
  tallies_in r lo zero t b = refl
  tallies_in r lo (suc n) t b =
      let (x, y) = r lo (omega arith) in
      ap (for (tally p) (suc lo) n) (tally_in lo t x y) ∙ tallies_in r (suc lo) n _ (omega arith)

  tallies_start :
      (lo n : ℕ) (o : Outcome Hist) {t : Hist}
      → for (tally p) lo n o ≡ ok t
      → (s : Hist) × (o ≡ ok s)
  unfolding for
  tallies_start lo zero o e = (_, e)
  tallies_start lo (suc n) o e =
      let (s, e') = tallies_start (suc lo) n (tally p lo o) e in
      let (_, _, s', e'') = tally_ok lo o e' in (s', e'')

  tallies_ok :
      (lo n : ℕ) (o : Outcome Hist) {t : Hist}
      → for (tally p) lo n o ≡ ok t
      → (i : ℕ) → lo ≤ i
      → i < lo + n
      → (p.pidx i < p.len) × (p.iidx i < p.len)
  unfolding for
  tallies_ok lo zero o e i a b = absurd (omega arith)
  tallies_ok lo (suc n) o e i a b = elim (eq-cases lo i) [
    | inr ne ↦ tallies_ok (suc lo) n (tally p lo o) e i (omega arith) (omega arith)
    | inl same ↦
        let (_, e') = tallies_start (suc lo) n (tally p lo o) e in
        let (x, y, _, _) = tally_ok lo o e' in
        subst (λ k. (p.pidx k < p.len) × (p.iidx k < p.len)) same (x, y)
  ]

  histograms_in : InRange p → histograms p ≡ ok (counted p)
  unfolding histograms counted
  histograms_in r = tallies_in r 0 p.len (λ _. 0, λ _. 0) (omega arith)

  -- Where all counts are in the histograms, their entries decide.
  pls_check_ok :
      p.shuffled ≡ true
      → pls_check p ≡ ok true
      → InRange p × (for (check_entry (counted p)) 0 p.len true ≡ true)
  unfolding pls_check check_entries histograms
  pls_check_ok s e =
      let (t, there, passed) =
        bind_ok (histograms p) (check_entries p) (sym (if_true _ _ _ s) ∙ e) in
      let r : InRange p = λ i lt.
        tallies_ok 0 p.len (ok (λ _. 0, λ _. 0)) (there_for there) i (omega arith) (omega arith) in
      let same : counted p ≡ t = ok_inj (sym (histograms_in r) ∙ there) in
      (r, ap (λ k. for (check_entry k) 0 p.len true) same ∙ ok_inj passed)
    where
      there_for :
          {t : Hist} → histograms p ≡ ok t → for (tally p) 0 p.len (ok (λ _. 0, λ _. 0)) ≡ ok t
      there_for e = e

-- A histogram counts.
tally-count :
    (f g h k : ℕ → ℕ) (lo n v : ℕ)
    → let t = for (count_entries f g) lo n (h, k) in
      (t.0 v ≡ h v + count v (slice f lo n)) × (t.1 v ≡ k v + count v (slice g lo n))
unfolding count_entries for slice
tally-count f g h k lo zero v = omega arith
tally-count f g h k lo (suc n) v = ground (
  arith,
  tally-count f g (update h (f lo) (h (f lo) + 1)) (update k (g lo) (k (g lo) + 1)) (suc lo) n v,
)

-- `v` stands once among the first `len` entries of each array.
abbrev pub Once : Pls → ℕ → Type 0
Once p v = (count v (slice p.pidx 0 p.len) ≡ 1) × (count v (slice p.iidx 0 p.len) ≡ 1)

check_entry-Once :
    (p : Pls) (v : ℕ) (isok : Bool) → Once p v → check_entry (counted p) v isok ≡ isok
unfolding check_entry counted
check_entry-Once p v isok h = ground (arith, tally-count p.pidx p.iidx (λ _. 0) (λ _. 0) 0 p.len v)

check_entry-true :
    (p : Pls) (v : ℕ) (isok : Bool)
    → check_entry (counted p) v isok ≡ true
    → Once p v × (isok ≡ true)
unfolding check_entry counted
check_entry-true p v isok h = ground (arith, tally-count p.pidx p.iidx (λ _. 0) (λ _. 0) 0 p.len v)

-- `pls_check` passes exactly the playlists that are not shuffled and those in which each index of
-- a clip stands exactly once in `pidx` and exactly once in `iidx`.
pub pls_check_iff :
    (p : Pls) → (pls_check p ≡ ok true) ↔ (p.shuffled ≡ true → (v : ℕ) → v < p.len → Once p v)
unfolding pls_check check_entries
pls_check_iff p = (sound, complete)
  where
    Passed : ℕ → Bool → Type 0
    Passed j isok = isok ≡ true → (v : ℕ) → v < j → Once p v

    passed_step :
        (j : ℕ) (isok : Bool) → Passed j isok → Passed (suc j) (check_entry (counted p) j isok)
    passed_step j isok h e v lt =
        let (here, before) = check_entry-true p j isok e in
        elim (eq-cases v j) [
          | inl same ↦ subst (Once p) (sym same) here
          | inr other ↦ h before v (omega arith)
        ]

    sound : pls_check p ≡ ok true → p.shuffled ≡ true → (v : ℕ) → v < p.len → Once p v
    sound h s =
        for_inv (check_entry (counted p)) Passed 0 p.len p.len true (omega arith)
          (λ j isok _ _. passed_step j isok) (λ _ v lt. absurd (omega arith)) (pls_check_ok p s h).1

    passes : ((v : ℕ) → v < p.len → Once p v) → (histograms p >>= check_entries p) ≡ ok true
    passes h =
        let r : InRange p = λ i lt. (
          count_full p.pidx p.len (λ v b. (h v b).0) i lt,
          count_full p.iidx p.len (λ v b. (h v b).1) i lt,
        ) in
        bind_eq (check_entries p) (histograms_in p r) (
          ap (λ b. ok b)
            (for_inv (check_entry (counted p)) (λ _ b. b ≡ true) 0 p.len p.len true (omega arith)
              (λ j isok _ lt e. check_entry-Once p j isok (h j lt) ∙ e) refl))

    complete : (p.shuffled ≡ true → (v : ℕ) → v < p.len → Once p v) → pls_check p ≡ ok true
    complete h = if_elim (λ b. b ≡ ok true) p.shuffled (λ s. passes (h s)) λ _. refl

-- Inverse permutations hold each index once.
IsInverse-Once : (p : Pls) → IsInverse p.len p.pidx p.iidx → (v : ℕ) → v < p.len → Once p v
IsInverse-Once p o v lt = (
  count_once v (p.iidx v) p.pidx 0 p.len (omega arith) (omega (arith, o.iidx_lt v lt))
      (o.pidx_iidx v lt) (λ i _ b e. sym (o.iidx_pidx i (omega arith)) ∙ ap p.iidx e),
  count_once v (p.pidx v) p.iidx 0 p.len (omega arith) (omega (arith, o.pidx_lt v lt))
      (o.iidx_pidx v lt) (λ i _ b e. sym (o.pidx_iidx i (omega arith)) ∙ ap p.pidx e),
)

-- A valid playlist passes `pls_check`.
pub IsValid-pls_check : (p : Pls) → IsValid p → pls_check p ≡ ok true
IsValid-pls_check p v = (pls_check_iff p).1 (λ s. IsInverse-Once p (v.order s))

-- A shuffled playlist in which no entry of `pidx` is `v` does not pass it.
pub pls_check_missing :
    (p : Pls) (v : ℕ)
    → p.shuffled ≡ true
    → v < p.len
    → ((i : ℕ) → i < p.len → p.pidx i ≢ v)
    → pls_check p ≢ ok true
pls_check_missing p v s lt h e =
    let one = (pls_check_iff p).0 e s v lt in
    let none_there = count_absent v p.pidx 0 p.len (λ i _ b. h i (omega arith)) in
    absurd (omega (arith, one.0))
