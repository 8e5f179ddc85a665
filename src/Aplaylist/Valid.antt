-- ===== src/Aplaylist/Valid.antt =====
-- When a playlist is well formed, and that two elements may swap places.
use mafw.Common.{
  ℕ, ◌≤◌, ◌<◌, ◌≡◌, true, arith, update, int_limit, List, ◌++◌, suc, slice, take, drop,
}
use mafw.Aplaylist.Types.{Text, Pls}

-- `pidx` and `iidx` are inverse permutations of 0, ..., n - 1.
pub record IsInverse (n : ℕ) (pidx iidx : ℕ → ℕ) : Type 0 where
  pub pidx_lt : (i : ℕ) → i < n → pidx i < n
  pub iidx_lt : (v : ℕ) → v < n → iidx v < n
  pub iidx_pidx : (i : ℕ) → i < n → iidx (pidx i) ≡ i
  pub pidx_iidx : (v : ℕ) → v < n → pidx (iidx v) ≡ v

pub IsInverse-cong :
    {n m : ℕ} {f f' g g' : ℕ → ℕ} → m ≡ n → f' ≡ f → g' ≡ g → IsInverse n f g → IsInverse m f' g'
IsInverse-cong a b c o = rw (a, b, c) o

pub record IsValid (p : Pls) : Type 0 where
  pub room : p.len ≤ p.alloc
  pub small : p.len < int_limit
  pub pool : p.shuffled ≡ true → p.poolst ≤ p.len
  pub order : p.shuffled ≡ true → IsInverse p.len p.pidx p.iidx

module _ (n : ℕ) (p q : ℕ → ℕ) (v : IsInverse n p q) where
  pub pidx_inj : (i j : ℕ) → i < n → j < n → p i ≡ p j → i ≡ j
  pidx_inj i j hi hj e = ground (arith, v.iidx_pidx i hi, v.iidx_pidx j hj)

  abbrev swap_p : ℕ → ℕ → ℕ → ℕ
  swap_p a b = update (update p a (p b)) b (p a)

  abbrev swap_q : ℕ → ℕ → ℕ → ℕ
  swap_q a b = update (update q (swap_p a b a) a) (swap_p a b b) b

  pub swap-IsInverse : (a b : ℕ) → a < n → b < n → IsInverse n (swap_p a b) (swap_q a b)
  swap-IsInverse a b ha hb = record {
    pidx_lt = λ i h. ground (arith, v.pidx_lt i h, v.pidx_lt a ha, v.pidx_lt b hb);
    iidx_lt = λ i h. ground (arith, v.iidx_lt i h);
    iidx_pidx = λ i h. ground (arith, v.iidx_pidx i h, v.iidx_pidx a ha, v.iidx_pidx b hb);
    pidx_iidx = λ i h. ground (
      arith,
      v.pidx_iidx i h,
      v.iidx_pidx a ha,
      v.iidx_pidx b hb,
      v.pidx_iidx (p a) (v.pidx_lt a ha),
    );
  }

-- The object ids in visual order.
abbrev pub items : Pls → List Text
items p = slice p.vidx 0 p.len

-- A list with `ys` put in before its place `i`, and a list without its element `i`.
abbrev pub insert_at : ℕ → List Text → List Text → List Text
insert_at i ys xs = take i xs ++ (ys ++ drop i xs)

abbrev pub remove_at : ℕ → List Text → List Text
remove_at i xs = take i xs ++ drop (suc i) xs
