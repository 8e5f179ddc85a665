-- ===== src/Aplaylist/Insert/Room.antt =====
-- `maybe_realloc` ends with room for the new items, unless more than 2^31 are wanted.
use native.Mathlib.Nat.{pow-suc}
use mathlib.Core.Option
use mafw.Common.{
  ℕ, zero, suc, ◌+◌, ◌*◌, ◌^◌, ◌≤◌, ◌<◌, ◌≡◌, refl, ◌∙◌, sym, ap, Option, none, some, inl, inr, ◌⊎◌,
  arith, if_true, if_false, lt→ltb, ge→ltb, lt-cases, u32, le→leb, lt→leb_ne,
}
use mafw.Aplaylist.Types.{Pls}
use mafw.Aplaylist.Edit.{grow, grow_fuel, maybe_realloc}

pow_pos : (k : ℕ) → 0 < 2 ^ k
pow_pos zero = omega arith
pow_pos (suc k) = omega (arith, pow-suc 2 k, pow_pos k)

regroup : (s x : ℕ) → s * (x * 2) ≡ s * 2 * x
regroup s x = grind arith

double_pow : (s e : ℕ) → s * 2 ^ suc e ≡ s * 2 * 2 ^ e
double_pow s e = ap (λ k. s * k) (pow-suc 2 e) ∙ regroup s (2 ^ e)

one_pow : (s : ℕ) → s * 2 ^ zero ≡ s
one_pow s = omega arith

-- The first size of `s`, `2 * s`, ... that is enough.
Grown : ℕ → ℕ → Option ℕ → Type 0
Grown wantsize s r =
    (e : ℕ) × (r ≡ some (s * 2 ^ e))
    × (wantsize ≤ s * 2 ^ e)
    × ((e ≡ 0) ⊎ (s * 2 ^ e < 2 * wantsize))

-- One doubling more.
double-Grown : (w s : ℕ) (r : Option ℕ) → s < w → Grown w (s * 2) r → Grown w s r
unfolding Grown
double-Grown w s r more (e, result, enough, least) = (
  suc e,
  result ∙ ap some (sym (double_pow s e)),
  omega (arith, double_pow s e),
  inr (elim least [
    | inl z ↦ omega (arith, double_pow s e, ap (λ k. s * 2 * 2 ^ k) z)
    | inr h ↦ omega (arith, double_pow s e)
  ]),
)

grow-Grown :
    (k wantsize s : ℕ)
    → wantsize ≤ 2 ^ 31
    → wantsize ≤ s * 2 ^ k
    → Grown wantsize s (grow (suc k) wantsize s)
unfolding grow Grown
grow-Grown zero w s small enough =
    (0, if_false _ _ _ (ge→ltb s w (omega arith)) ∙ ap some (omega arith), omega arith, inl refl)
grow-Grown (suc k) w s small enough = elim (lt-cases s w) [
  | inr done ↦ (0, if_false _ _ _ (ge→ltb s w done) ∙ ap some (omega arith), omega arith, inl refl)
  | inl more ↦
      let wrap : u32 (s * 2) ≡ s * 2 = omega arith in
      double-Grown w s _ more (
        let (e, result, rest, least) =
          grow-Grown k w (s * 2) small (omega (arith, double_pow s k)) in
        (e, if_true _ _ _ (lt→ltb s w more) ∙ ap (grow (suc k) w) wrap ∙ result, rest, least))
]

-- For at most 2^31 items the loop of `maybe_realloc` ends within the fuel, at the first of 16, 32,
-- 64, ... that is not below `wantsize`.
pub grow_total :
    (wantsize : ℕ)
    → wantsize ≤ 2 ^ 31
    → (e : ℕ) × (grow grow_fuel wantsize 16 ≡ some (16 * 2 ^ e))
      × (wantsize ≤ 16 * 2 ^ e)
      × ((e ≡ 0) ⊎ (16 * 2 ^ e < 2 * wantsize))
unfolding Grown
grow_total wantsize small = grow-Grown 31 wantsize 16 small (omega arith)

-- Once `s` is 0 it stays 0.
grow_zero : (fuel w : ℕ) → 0 < w → grow fuel w 0 ≡ none
unfolding grow
grow_zero zero w h = refl
grow_zero (suc fuel) w h = if_true _ _ _ (lt→ltb 0 w h) ∙ grow_zero fuel w h

-- From a power of two the doubling comes to 2^31 and then wraps to 0.
grow_wraps : (fuel w s d : ℕ) → 2 ^ 31 < w → s * 2 ^ d ≡ 2 ^ 31 → grow fuel w s ≡ none
unfolding grow
grow_wraps zero w s d h e = refl
grow_wraps (suc fuel) w s zero h e =
    let wrap : u32 (s * 2) ≡ 0 = omega (arith, one_pow s) in
    if_true _ _ _ (lt→ltb s w (omega (arith, one_pow s)))
    ∙ ap (grow fuel w) wrap
    ∙ grow_zero fuel w (omega arith)
grow_wraps (suc fuel) w s (suc d) h e =
    let bound : s * 2 ≤ s * 2 * 2 ^ d = grind (arith, pow_pos d) in
    let wrap : u32 (s * 2) ≡ s * 2 = omega (arith, double_pow s d, bound) in
    if_true _ _ _ (lt→ltb s w (omega (arith, double_pow s d, bound)))
    ∙ ap (grow fuel w) wrap
    ∙ grow_wraps fuel w (s * 2) d h (omega (arith, double_pow s d))

-- For more than 2^31 items the loop of `maybe_realloc` does not end, however long it runs: `s`
-- wraps to 0 and stays there.
pub grow_diverges : (fuel wantsize : ℕ) → 2 ^ 31 < wantsize → grow fuel wantsize 16 ≡ none
grow_diverges fuel wantsize h = grow_wraps fuel wantsize 16 27 h refl

-- A playlist whose new size fits a `gint` gets room, and nothing else of it changes.
pub maybe_realloc_total :
    (p : Pls) (n : ℕ)
    → p.len ≤ p.alloc
    → p.len + n ≤ 2 ^ 31
    → (a : ℕ) × (maybe_realloc p n ≡ some (record p { alloc = a })) × (p.len + n ≤ a)
unfolding maybe_realloc
maybe_realloc_total p n room small =
    let wrap : u32 (p.len + n) ≡ p.len + n = omega arith in
    let assert = ge→ltb p.alloc p.len room in
    elim (lt-cases p.alloc (p.len + n)) [
      | inr fits ↦
          (p.alloc, if_false _ _ _ assert ∙ if_true _ _ _ (le→leb _ p.alloc (omega arith)), fits)
      | inl more ↦
          let (e, result, enough, _) = grow_total (u32 (p.len + n)) (omega arith) in
          (
            16 * 2 ^ e,
            if_false _ _ _ assert
                ∙ if_false _ _ _ (lt→leb_ne p.alloc (u32 (p.len + n)) (omega arith))
                ∙ ap (Option.map (λ s. record p { alloc = s })) result,
            omega arith,
          )
    ]
