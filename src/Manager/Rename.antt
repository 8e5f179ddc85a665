-- ===== src/Manager/Rename.antt =====
-- The tree of names after a playlist has got another name.
use mafw.Common.{
  ℕ, ◌<◌, ◌≡◌, refl, ◌∙◌, sym, ap, subst, inl, inr, false, Option, none, some, [], ◌∷◌, ◌==◌,
  if_elim, if_true, if_false, update, update_self, update_ne, text_eq_refl,
}
use mafw.Aplaylist.Types.{Text, Pls, i_am_dirty}
use mafw.Aplaylist.Valid.{IsValid}
use mafw.Aplaylist.Edit.{pls_set_name}
use mafw.Aplaylist.Settings.{pls_set_name-IsValid}
use mafw.Manager.Requests.{
  Daemon, Reply, put_name, remove_name, rename, set_name_found, set_playlist_name, name_changed,
}
use mafw.Manager.Trees.{update-some, put_name-some, put_name-none, put_name_other, one_name}
use mafw.Manager.Invariant.{Owned, other_name, IsManager}

-- A playlist `q` takes the place of the one with the id, under its new name.
abbrev renamed : Daemon → ℕ → Text → Pls → Option Text → Daemon
renamed d id name q old = record d {
  playlists = update d.playlists id (some q);
  by_name = put_name (remove_name d.by_name old) name (some id);
  log = name_changed id ∷ d.log;
}

renamed-IsManager :
    (d : Daemon) (id : ℕ) (name : Text) (p q : Pls)
    → IsManager d
    → d.playlists id ≡ some p
    → d.by_name name ≡ none
    → q.id ≡ p.id
    → q.name ≡ some name
    → IsValid q
    → IsManager (renamed d id name q p.name)
renamed-IsManager d id name p q m at free same_id named valid =
    let o = m.owned id p at in
    subst (λ x. IsManager (renamed d id name q x)) (sym o.named)
      (record {
        owned = λ i r e. elim (update-some d.playlists id q i e) [
          | inl (k, same) ↦
              subst (λ x. Owned (renamed d id name q (some o.name)) i x) same
                (record {
                  own_id = same_id ∙ o.own_id ∙ k;
                  below = subst (λ x. x < d.last_id) k o.below;
                  valid = valid;
                  name = name;
                  named = named;
                  listed = if_true _ _ _ (text_eq_refl name) ∙ ap (λ x. some x) k;
                })
          | inr (ne, old) ↦
              let u = m.owned i r old in
              record {
                own_id = u.own_id;
                below = u.below;
                valid = u.valid;
                name = u.name;
                named = u.named;
                listed =
                    if_false _ _ _ (other_name d.by_name name u.name i free u.listed)
                    ∙ put_name_other d.by_name o.name u.name id i ne o.listed u.listed;
              }
        ];
        aliased = λ x i e. elim (put_name-some (put_name d.by_name o.name none) name id x e) [
          | inl (k, same) ↦ (
            q,
            subst (λ j. update d.playlists id (some q) j ≡ some q) same
                (update_self d.playlists id (some q)),
            named ∙ ap (λ t. some t) k,
          )
          | inr (_, kept) ↦
              let (ne, old) = put_name-none d.by_name o.name x kept in
              let (r, there, its_name) = m.aliased x i old in
              (
                r,
                update_ne d.playlists id i (some q)
                      (λ k. cc (sym ne ∙ one_name d.playlists id i at there o.named its_name k))
                    ∙ there,
                its_name,
              )
        ];
      })

rename-IsManager :
    (timer id : ℕ) (name : Text) (p : Pls) (d : Daemon)
    → IsManager d
    → d.playlists id ≡ some p
    → d.by_name name ≡ none
    → IsManager (rename timer id name p d).0
unfolding rename pls_set_name i_am_dirty
rename-IsManager timer id [] p d m at free = m
rename-IsManager timer id (c ∷ cs) p d m at free =
    renamed-IsManager d id (c ∷ cs) p (pls_set_name false timer p (some (c ∷ cs))).0 m at free refl
      refl (pls_set_name-IsValid false timer p (some (c ∷ cs)) (m.owned id p at).valid)

set_name_found-IsManager :
    (timer id : ℕ) (name : Text) (source : Option Pls) (found : Option ℕ) (d : Daemon)
    → IsManager d
    → d.playlists id ≡ source
    → d.by_name name ≡ found
    → IsManager (set_name_found timer id name source found d).0
unfolding set_name_found
set_name_found-IsManager timer id name none found d m at free = m
set_name_found-IsManager timer id name (some p) (some other) d m at free = m
set_name_found-IsManager timer id name (some p) none d m at free =
    rename-IsManager timer id name p d m at free

pub set_playlist_name-IsManager :
    (timer id : ℕ) (name : Text) (d : Daemon)
    → IsManager d
    → IsManager (set_playlist_name timer id name d).0
unfolding set_playlist_name
set_playlist_name-IsManager timer id name d m =
    if_elim (λ (r : Daemon × Reply). IsManager r.0) (id == 0) (λ _. m)
      (λ _. set_name_found-IsManager timer id name (d.playlists id) (d.by_name name) d m refl refl)
