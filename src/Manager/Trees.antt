-- ===== src/Manager/Trees.antt =====
-- Lookups in the two trees after an insertion or a removal.
use mafw.Common.{
  ℕ, ◌≡◌, ◌≢◌, refl, ◌∙◌, sym, ap, subst, ap₂, inl, inr, ◌⊎◌, Bool, true, false, ◌&&◌, Option, none,
  some, [], ◌∷◌, ◌==◌, Bool-cases, eq-cases, eq→==, ne→==, if_true, if_false, update, text_eq,
  text_eq_refl, arith,
}
use mafw.Aplaylist.Types.{Text, Pls}
use mafw.Manager.Requests.{put_name}

eqb-same : (a b : ℕ) → (a == b) ≡ true → a ≡ b
eqb-same a b h = ground arith

and_both : (a b : Bool) → (a && b) ≡ true → (a ≡ true) × (b ≡ true)
and_both true true h = (refl, refl)
and_both true false h = cc h
and_both false b h = cc h

pub text_eq-same : (s t : Text) → text_eq s t ≡ true → s ≡ t
unfolding text_eq
text_eq-same [] [] h = refl
text_eq-same [] (y ∷ ys) h = cc h
text_eq-same (x ∷ xs) [] h = cc h
text_eq-same (x ∷ xs) (y ∷ ys) h =
    let (a, b) = and_both (x == y) (text_eq xs ys) h in
    ap₂ (◌∷◌) (eqb-same x y a) (text_eq-same xs ys b)

module _ {ℓ} {A : Type ℓ} (f : ℕ → Option A) (k : ℕ) where
  pub update-some :
      (v : A) (i : ℕ) {w : A}
      → update f k (some v) i ≡ some w
      → ((k ≡ i) × (v ≡ w)) ⊎ ((k ≢ i) × (f i ≡ some w))
  update-some v i e = elim (eq-cases k i) [
    | inl h ↦ inl (h, cc (sym (if_true _ _ _ (eq→== k i h)) ∙ e))
    | inr h ↦ inr (h, sym (if_false _ _ _ (ne→== k i h)) ∙ e)
  ]

  pub update-none : (i : ℕ) {w : A} → update f k none i ≡ some w → (k ≢ i) × (f i ≡ some w)
  update-none i e = elim (eq-cases k i) [
    | inl h ↦ cc (sym (if_true _ _ _ (eq→== k i h)) ∙ e)
    | inr h ↦ (h, sym (if_false _ _ _ (ne→== k i h)) ∙ e)
  ]

module _ (f : Text → Option ℕ) (n : Text) where
  pub put_name-some :
      (v : ℕ) (m : Text) {w : ℕ}
      → put_name f n (some v) m ≡ some w
      → ((n ≡ m) × (v ≡ w)) ⊎ ((text_eq n m ≡ false) × (f m ≡ some w))
  put_name-some v m e = elim (Bool-cases (text_eq n m)) [
    | inl h ↦ inl (text_eq-same n m h, cc (sym (if_true _ _ _ h) ∙ e))
    | inr h ↦ inr (h, sym (if_false _ _ _ h) ∙ e)
  ]

  pub put_name-none :
      (m : Text) {w : ℕ} → put_name f n none m ≡ some w → (text_eq n m ≡ false) × (f m ≡ some w)
  put_name-none m e = elim (Bool-cases (text_eq n m)) [
    | inl h ↦ cc (sym (if_true _ _ _ h) ∙ e)
    | inr h ↦ (h, sym (if_false _ _ _ h) ∙ e)
  ]

-- Equal names have one id, and equal ids one name.
pub one_id :
    (f : Text → Option ℕ) (n m : Text) {i j : ℕ}
    → f n ≡ some i
    → f m ≡ some j
    → text_eq n m ≡ true
    → i ≡ j
one_id f n m a b h = cc (sym a ∙ ap f (text_eq-same n m h) ∙ b)

pub some_inj : {p r : Pls} → some p ≡ some r → p ≡ r
some_inj e = cc e

pub one_name :
    (f : ℕ → Option Pls) (i j : ℕ) {p r : Pls} {n m : Text}
    → f i ≡ some p
    → f j ≡ some r
    → p.name ≡ some n
    → r.name ≡ some m
    → i ≡ j
    → text_eq n m ≡ true
one_name f i j {p} {r} {n} {m} a b u v k =
    let same = some_inj (sym a ∙ ap f k ∙ b) in
    let names : n ≡ m = cc (sym u ∙ ap (λ (x : Pls). x.name) same ∙ v) in
    subst (λ z. text_eq n z ≡ true) names (text_eq_refl n)

-- Taking out the name of another id keeps a name.
pub put_name_other :
    (f : Text → Option ℕ) (n m : Text) (i j : ℕ)
    → i ≢ j
    → f n ≡ some i
    → f m ≡ some j
    → put_name f n none m ≡ some j
put_name_other f n m i j ne a b = elim (Bool-cases (text_eq n m)) [
  | inl h ↦ absurd (ne (one_id f n m a b h))
  | inr h ↦ if_false _ _ _ h ∙ b
]
