-- ===== src/Aplaylist/Draw.antt =====
-- Drawing clips from the pool: `shuffle_elements` and the helper that draws the current clip.
use mafw.Common.{
  ℕ, suc, ◌+◌, ◌*◌, ◌≤◌, ◌<◌, ◌≡◌, refl, ◌∙◌, true, arith, inl, inr, u32, sub_u32, for, for_inv,
  lt-cases, le→leb, lt→leb_ne, lt→ltb, ge→ltb,
}
use mafw.Aplaylist.Types.{Pls, swap_elements}
use mafw.Aplaylist.Play.{Random, InRange, shuffle_one, shuffle_elements, shuffle_current}
use mafw.Aplaylist.Valid.{IsValid, swap-IsInverse}

-- `q` comes from the shuffled playlist `p` by drawing clips: what is drawn stays where it is.
pub record Drawn (p q : Pls) : Type 0 where
  pub valid : IsValid q
  pub len_eq : q.len ≡ p.len
  pub vidx_eq : q.vidx ≡ p.vidx
  pub repeat_eq : q.repeat ≡ p.repeat
  pub shuffled_eq : q.shuffled ≡ true
  pub more : p.poolst ≤ q.poolst
  pub prefix : (i : ℕ) → i < p.poolst → q.pidx i ≡ p.pidx i

pub Drawn-refl : (p : Pls) → IsValid p → p.shuffled ≡ true → Drawn p p
Drawn-refl p v s = record {
  valid = v;
  len_eq = refl;
  vidx_eq = refl;
  repeat_eq = refl;
  shuffled_eq = s;
  more = omega arith;
  prefix = λ i h. refl;
}

pub Drawn-trans : {p q r : Pls} → Drawn p q → Drawn q r → Drawn p r
Drawn-trans a b = record {
  valid = b.valid;
  len_eq = cc;
  vidx_eq = cc;
  repeat_eq = cc;
  shuffled_eq = b.shuffled_eq;
  more = omega arith;
  prefix = λ i h. b.prefix i (omega arith) ∙ a.prefix i h;
}

-- The element at `b` of the pool becomes the last one that is drawn.
abbrev pub draw : Pls → ℕ → Pls
draw p b = let q = swap_elements p p.poolst b in record q { poolst = u32 (q.poolst + 1) }

pub draw-Drawn :
    (p : Pls) (b : ℕ)
    → IsValid p
    → p.shuffled ≡ true
    → p.poolst ≤ b
    → b < p.len
    → Drawn p (draw p b)
unfolding swap_elements
draw-Drawn p b v s lo hi = record {
  valid = record {
    room = v.room;
    small = v.small;
    pool = λ _. omega arith;
    order = λ _. swap-IsInverse p.len p.pidx p.iidx (v.order s) p.poolst b (omega arith) hi;
  };
  len_eq = refl;
  vidx_eq = refl;
  repeat_eq = refl;
  shuffled_eq = s;
  more = omega arith;
  prefix = λ i h. ground arith;
}

module _ (rand : Random) (range : InRange rand) (p : Pls) (v : IsValid p)
    (s : p.shuffled ≡ true) where
  Round : ℕ → Pls → Type 0
  Round i t = Drawn p t × (t.poolst ≡ p.poolst + i)

  Round-step :
      (i : ℕ) (t : Pls) → p.poolst + i < p.len → Round i t → Round (suc i) (shuffle_one rand i t)
  unfolding shuffle_one swap_elements Round
  Round-step i t lt (d, e) =
      let r = range (2 * i + 1) t.poolst t.len (omega (arith, d.len_eq)) in
      let step = draw-Drawn t _ d.valid d.shuffled_eq r.0 r.1 in
      (Drawn-trans d step, omega (arith, d.len_eq, v.small))

  rounds : (n : ℕ) → p.poolst + n ≤ p.len → Round n (for (shuffle_one rand) 0 n p)
  unfolding Round
  rounds n h =
      for_inv (shuffle_one rand) Round 0 n n p (omega arith)
        (λ j t lo hi r. Round-step j t (omega arith) r) (Drawn-refl p v s, omega arith)

  -- As many as are asked for, if the pool has them.
  pub shuffle_elements_some :
      (amount : ℕ)
      → p.poolst + amount ≤ p.len
      → Drawn p (shuffle_elements rand p amount)
        × ((shuffle_elements rand p amount).poolst ≡ p.poolst + amount)
  unfolding shuffle_elements Round
  shuffle_elements_some amount h =
      rw (ge→ltb (sub_u32 p.len p.poolst) amount (omega (arith, v.small)), shuffle_elements)
        (rounds amount h)

  -- All that are left, if more are asked for.
  pub shuffle_elements_all :
      (amount : ℕ)
      → p.len ≤ p.poolst + amount
      → Drawn p (shuffle_elements rand p amount) × ((shuffle_elements rand p amount).poolst ≡ p.len)
  unfolding shuffle_elements Round
  shuffle_elements_all amount h = elim (lt-cases (sub_u32 p.len p.poolst) amount) [
    | inl lt ↦ rw (lt→ltb _ _ lt) (
        let r = rounds (sub_u32 p.len p.poolst) (omega arith) in
        (r.0, omega (arith, r.1, v.small, v.pool s)))
    | inr ge ↦
        rw (ge→ltb _ _ ge)
          (let r = rounds amount (omega arith) in (r.0, omega (arith, r.1, v.small, v.pool s)))
  ]

-- A clip that is drawn keeps its position.
pub Drawn-position :
    {p q : Pls} (v : ℕ)
    → IsValid p
    → p.shuffled ≡ true
    → Drawn p q
    → v < p.len
    → p.iidx v < p.poolst
    → q.iidx v ≡ p.iidx v
Drawn-position {p} {q} v a s d lt drawn =
    let o = a.order s in
    let o' = d.valid.order d.shuffled_eq in
    ground (
      arith,
      o.iidx_lt v lt,
      o.pidx_iidx v lt,
      d.prefix (p.iidx v) drawn,
      o'.iidx_pidx (p.iidx v),
      d.len_eq,
    )

drawn_last :
    (p : Pls) (index : ℕ)
    → IsValid p
    → p.shuffled ≡ true
    → index < p.len
    → p.poolst ≤ p.iidx index
    → let q = draw p (p.iidx index) in suc (q.iidx index) ≡ q.poolst
unfolding swap_elements
drawn_last p index v s lt pool =
    let o = v.order s in
    let b = o.iidx_lt index lt in
    ground (arith, o.pidx_iidx index lt, o.iidx_pidx p.poolst (omega arith), v.small)

-- The current clip is drawn if it was not; unless another one is drawn behind it, it is the last.
pub shuffle_current_lem :
    (p : Pls) (index : ℕ)
    → IsValid p
    → p.shuffled ≡ true
    → index < p.len
    → Drawn p (shuffle_current p index)
      × ((shuffle_current p index).iidx index < (shuffle_current p index).poolst)
      × (p.poolst ≤ suc (p.iidx index)
          → suc ((shuffle_current p index).iidx index) ≡ (shuffle_current p index).poolst)
unfolding shuffle_current swap_elements
shuffle_current_lem p index v s lt =
    let o = v.order s in
    elim (lt-cases (p.iidx index) p.poolst) [
      | inl drawn ↦ rw (lt→leb_ne _ _ drawn) (Drawn-refl p v s, drawn, λ h. omega arith)
      | inr pool ↦ rw (le→leb _ _ pool) (
        draw-Drawn p (p.iidx index) v s pool (o.iidx_lt index lt),
        omega (arith, drawn_last p index v s lt pool),
        λ h. drawn_last p index v s lt pool,
      )
    ]

-- A clip that is drawn already changes nothing.
pub shuffle_current_drawn :
    (p : Pls) (index : ℕ) → p.iidx index < p.poolst → shuffle_current p index ≡ p
unfolding shuffle_current
shuffle_current_drawn p index h = rw (lt→leb_ne _ _ h)
