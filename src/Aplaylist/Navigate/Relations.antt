-- ===== src/Aplaylist/Navigate/Relations.antt =====
-- What the answers of `pls_get_next` and `pls_get_prev` mean in a shuffled playlist.
use mafw.Common.{ℕ, suc, ◌<◌, ◌≡◌, true, false, Option, none, some, ◌⊎◌}
use mafw.Aplaylist.Types.{Pls}
use mafw.Aplaylist.Play.{Clip}
use mafw.Aplaylist.Draw.{Drawn}

-- In `q`, which comes from `p` by drawing, the clip `j` is played right after the clip `index`.
pub record Follows (p : Pls) (index : ℕ) (q : Pls) (j : ℕ) : Type 0 where
  pub drawn : Drawn p q
  pub index_lt : index < p.len
  pub j_lt : j < p.len
  pub index_pos : q.iidx index < q.poolst
  pub j_pos : q.iidx j < q.poolst
  pub after :
      (q.iidx j ≡ suc (q.iidx index))
      ⊎ ((p.repeat ≡ true) × (q.iidx j ≡ 0) × (suc (q.iidx index) ≡ p.len) × (q.poolst ≡ p.len))

-- No clip follows: all are drawn, `index` is the last one, and nothing repeats.
pub record Ends (p : Pls) (index : ℕ) (q : Pls) : Type 0 where
  pub drawn : Drawn p q
  pub last : suc (q.iidx index) ≡ p.len
  pub all : q.poolst ≡ p.len
  pub no_repeat : p.repeat ≡ false

-- No clip stands before `index`, and nothing repeats.
pub record Begins (p : Pls) (index : ℕ) (q : Pls) : Type 0 where
  pub drawn : Drawn p q
  pub index_pos : q.iidx index < q.poolst
  pub first : q.iidx index ≡ 0
  pub no_repeat : p.repeat ≡ false

abbrev pub NextShuffled : Pls → ℕ → Pls × Option Clip → Type 0
NextShuffled p index (q, some (j, oid)) = Follows p index q j × (oid ≡ p.vidx j)
NextShuffled p index (q, none) = Ends p index q

abbrev pub PrevShuffled : Pls → ℕ → Pls × Option Clip → Type 0
PrevShuffled p index (q, some (j, oid)) = Follows p j q index × (oid ≡ p.vidx j)
PrevShuffled p index (q, none) = Begins p index q
