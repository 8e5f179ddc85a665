-- ===== src/Manager/Handled.antt =====
-- What the requests of the playlist manager keep.
use mafw.Common.{
  ℕ, ◌+◌, ◌<◌, ◌^◌, ◌≡◌, refl, ◌∙◌, sym, subst, false, Option, none, some, [], ◌∷◌, arith, ◌==◌,
  if_elim, if_true, update, update_ne,
}
use mafw.Aplaylist.Types.{Text, Pls, i_am_dirty}
use mafw.Aplaylist.Valid.{IsValid, IsInverse-cong}
use mafw.Aplaylist.Edit.{pls_new, pls_set_name, pls_set_repeat}
use mafw.Aplaylist.Settings.{pls_new_lem}
use mafw.Manager.Requests.{
  Daemon, Reply, Request, create, destroy, dup, set_name, remove_name, add_playlist, create_named,
  create_playlist, destroy_found, destroy_playlist, copy_pls, dup_new, dup_found, dup_playlist,
  handle_request, unlink,
}
use mafw.Manager.Trees.{update-none, put_name-none, some_inj, one_name, put_name_other}
use mafw.Manager.Rename.{set_playlist_name-IsManager}
use mafw.Manager.Invariant.{IsManager, add-IsManager}

-- A playlist that is destroyed goes out of both trees.
abbrev removed : Daemon → ℕ → ℕ → Option Text → Daemon
removed d id pid name = record d {
  playlists = update d.playlists id none;
  by_name = remove_name d.by_name name;
  log = unlink pid ∷ d.log;
}

pub remove-IsManager :
    (d : Daemon) (id : ℕ) (p : Pls)
    → IsManager d
    → d.playlists id ≡ some p
    → IsManager (removed d id p.id p.name)
remove-IsManager d id p m e =
    let o = m.owned id p e in
    subst (λ x. IsManager (removed d id p.id x)) (sym o.named)
      (record {
        owned = λ i r e'.
            let (ne, old) = update-none d.playlists id i e' in
            let u = m.owned i r old in
            record {
              own_id = u.own_id;
              below = u.below;
              valid = u.valid;
              name = u.name;
              named = u.named;
              listed = put_name_other d.by_name o.name u.name id i ne o.listed u.listed;
            };
        aliased = λ x i e'.
            let (ne, old) = put_name-none d.by_name o.name x e' in
            let (r, at, named) = m.aliased x i old in
            (
              r,
              update_ne d.playlists id i none
                    (λ k. cc (sym ne ∙ one_name d.playlists id i e at o.named named k))
                  ∙ at,
              named,
            );
      })

-- What `pls_new` gives to a request.
fresh :
    (timer id c : ℕ) (cs : Text)
    → (p : Pls) × (pls_new false timer id (some (c ∷ cs)) ≡ some p)
      × (p.id ≡ id)
      × (p.name ≡ some (c ∷ cs))
      × (p.poolst ≡ 0)
      × IsValid p
unfolding pls_new pls_set_name i_am_dirty
fresh timer id c cs =
    let (q, e, v, _, _, _, _, _) = (pls_new_lem false timer id c cs).0 in
    (_, refl, refl, refl, refl, subst IsValid (sym (some_inj e)) v)

copy_pls-IsValid :
    (timer : ℕ) (p new_pls : Pls)
    → IsValid p
    → new_pls.poolst ≡ 0
    → IsValid (copy_pls timer p new_pls)
unfolding copy_pls pls_set_repeat i_am_dirty
copy_pls-IsValid timer p new_pls v z = record {
  room = v.room;
  small = v.small;
  pool = λ s. omega (arith, z);
  order = λ s. IsInverse-cong refl (if_true _ _ _ s) (if_true _ _ _ s) (v.order s);
}

create_named-IsManager :
    (timer c : ℕ) (cs : Text) (found : Option ℕ) (d : Daemon)
    → IsManager d
    → d.by_name (c ∷ cs) ≡ found
    → d.last_id + 1 < 2 ^ 32
    → IsManager (create_named timer (c ∷ cs) found d).0
unfolding create_named
create_named-IsManager timer c cs (some id) d m e small = m
create_named-IsManager timer c cs none d m e small =
    let (p, e', own, named, _, v) = fresh timer d.last_id c cs in
    subst (λ q. IsManager (add_playlist (c ∷ cs) q d).0) (sym e')
      (add-IsManager d (c ∷ cs) p m own named v e small)

destroy_found-IsManager :
    (id : ℕ) (found : Option Pls) (d : Daemon)
    → IsManager d
    → d.playlists id ≡ found
    → IsManager (destroy_found id found d).0
unfolding destroy_found
destroy_found-IsManager id none d m e = m
destroy_found-IsManager id (some p) d m e =
    if_elim (λ (r : Daemon × Reply). IsManager r.0) (p.use_count == 0)
      (λ _. remove-IsManager d id p m e) (λ _. m)

dup_found-IsManager :
    (timer c src_id : ℕ) (cs : Text) (source : Option Pls) (found : Option ℕ) (d : Daemon)
    → IsManager d
    → d.playlists src_id ≡ source
    → d.by_name (c ∷ cs) ≡ found
    → d.last_id + 1 < 2 ^ 32
    → IsManager (dup_found timer (c ∷ cs) source found d).0
unfolding dup_found dup_new copy_pls pls_set_repeat i_am_dirty
dup_found-IsManager timer c src_id cs p (some id) d m at free small = m
dup_found-IsManager timer c src_id cs none none d m at free small = m
dup_found-IsManager timer c src_id cs (some p) none d m at free small =
    let (q, e, own, named, z, _) = fresh timer d.last_id c cs in
    let v = copy_pls-IsValid timer p q (m.owned src_id p at).valid z in
    subst (λ x. IsManager (dup_new timer (c ∷ cs) p x d).0) (sym e)
      (add-IsManager d (c ∷ cs) (copy_pls timer p q) m own named v free small)

-- While the next id is below 2^32 - 1, `handle_request` keeps the two trees consistent: each playlist is
-- valid, stands under its id, which has been given out, and under its name, and each name leads to a
-- playlist of that name.
pub handle_request-IsManager :
    (timer : ℕ) (r : Request) (d : Daemon)
    → IsManager d
    → d.last_id + 1 < 2 ^ 32
    → IsManager (handle_request timer r d).0
unfolding handle_request create_playlist destroy_playlist dup_playlist
handle_request-IsManager timer (create []) d m small = m
handle_request-IsManager timer (create (c ∷ cs)) d m small =
    create_named-IsManager timer c cs (d.by_name (c ∷ cs)) d m refl small
handle_request-IsManager timer (destroy id) d m small =
    destroy_found-IsManager id (d.playlists id) d m refl
handle_request-IsManager timer (dup src_id []) d m small = m
handle_request-IsManager timer (dup src_id (c ∷ cs)) d m small =
    dup_found-IsManager timer c src_id cs (d.playlists src_id) (d.by_name (c ∷ cs)) d m refl refl
      small
handle_request-IsManager timer (set_name plid name) d m small =
    set_playlist_name-IsManager timer plid name d m
