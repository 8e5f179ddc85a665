-- ===== src/Manager/Invariant.antt =====
-- Ids and names are unique, and the two trees hold the same playlists.
use mafw.Common.{
  ℕ, ◌+◌, ◌<◌, ◌^◌, ◌≡◌, ◌∙◌, sym, ap, subst, inl, inr, false, Option, none, some, arith, if_true,
  if_false, Bool-cases, update, update_self, update_ne, text_eq, text_eq_refl,
}
use mafw.Aplaylist.Types.{Text, Pls}
use mafw.Aplaylist.Valid.{IsValid}
use mafw.Manager.Requests.{Daemon, add_playlist}
use mafw.Manager.Trees.{text_eq-same, update-some, put_name-some}

-- What the tree of ids says of a playlist.
pub record Owned (d : Daemon) (i : ℕ) (p : Pls) : Type 0 where
  pub own_id : p.id ≡ i
  pub below : i < d.last_id
  pub valid : IsValid p
  pub name : Text
  pub named : p.name ≡ some name
  pub listed : d.by_name name ≡ some i

pub record IsManager (d : Daemon) : Type 0 where
  pub owned : (i : ℕ) (p : Pls) → d.playlists i ≡ some p → Owned d i p
  pub aliased :
      (n : Text) (i : ℕ)
      → d.by_name n ≡ some i
      → (p : Pls) × (d.playlists i ≡ some p) × (p.name ≡ some n)

-- A name that is free is not that of another playlist.
pub other_name :
    (f : Text → Option ℕ) (n m : Text) (i : ℕ) → f n ≡ none → f m ≡ some i → text_eq n m ≡ false
other_name f n m i free e = elim (Bool-cases (text_eq n m)) [
  | inl h ↦ cc (sym free ∙ ap f (text_eq-same n m h) ∙ e)
  | inr h ↦ h
]

pub add-IsManager :
    (d : Daemon) (n : Text) (q : Pls)
    → IsManager d
    → q.id ≡ d.last_id
    → q.name ≡ some n
    → IsValid q
    → d.by_name n ≡ none
    → d.last_id + 1 < 2 ^ 32
    → IsManager (add_playlist n (some q) d).0
unfolding add_playlist
add-IsManager d n q m own named valid free small = record {
  owned = λ i p e. elim (update-some d.playlists q.id q i e) [
    | inl (k, same) ↦
        subst (λ x. Owned (add_playlist n (some q) d).0 i x) same
          (record {
            own_id = k;
            below = omega arith;
            valid = valid;
            name = n;
            named = named;
            listed = if_true _ _ _ (text_eq_refl n) ∙ ap (λ x. some x) k;
          })
    | inr (ne, old) ↦
        let o = m.owned i p old in
        record {
          own_id = o.own_id;
          below = omega (arith, o.below);
          valid = o.valid;
          name = o.name;
          named = o.named;
          listed = if_false _ _ _ (other_name d.by_name n o.name i free o.listed) ∙ o.listed;
        }
  ];
  aliased = λ x i e. elim (put_name-some d.by_name n q.id x e) [
    | inl (k, same) ↦ (
      q,
      subst (λ j. update d.playlists q.id (some q) j ≡ some q) same
          (update_self d.playlists q.id (some q)),
      named ∙ ap (λ t. some t) k,
    )
    | inr (ne, old) ↦
        let (p, e', e'') = m.aliased x i old in
        (
          p,
          update_ne d.playlists q.id i (some q) (λ k. omega (arith, (m.owned i p e').below, k))
              ∙ e',
          e'',
        )
  ];
}
