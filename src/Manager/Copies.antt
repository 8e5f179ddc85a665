-- ===== src/Manager/Copies.antt =====
-- A copy of a playlist, and a request to create one that is there.
use mafw.Common.{
  ℕ, ◌≡◌, refl, ◌∙◌, sym, ap, subst, Option, none, some, [], ◌∷◌, if_true, update_self,
  text_eq_refl,
}
use mafw.Aplaylist.Types.{Text, Pls, i_am_dirty}
use mafw.Aplaylist.Valid.{items}
use mafw.Aplaylist.Edit.{pls_new, pls_set_name, pls_set_repeat}
use mafw.Manager.Requests.{
  Daemon, Reply, create, dup, add_playlist, create_named, create_playlist, copy_pls, dup_new,
  dup_found, dup_playlist, handle_request, reply_id,
}

-- The reply to a request and what then stands under an id.
pub record IsCopy (r : Daemon × Reply) (id : ℕ) (p q : Pls) : Type 0 where
  pub replied : r.1 ≡ reply_id id
  pub stored : r.0.playlists id ≡ some q
  pub same_items : items q ≡ items p
  pub same_repeat : q.repeat ≡ p.repeat
  pub same_order : q.shuffled ≡ p.shuffled
  pub unused : q.use_count ≡ 0
  pub not_drawn : q.poolst ≡ 0

dup_fresh :
    (timer c : ℕ) (cs : Text) (p : Pls) (d : Daemon)
    → (q : Pls) × IsCopy (dup_found timer (c ∷ cs) (some p) none d) d.last_id p q
unfolding dup_found dup_new copy_pls pls_set_repeat i_am_dirty pls_new pls_set_name add_playlist
dup_fresh timer c cs p d = (
  _,
  record {
    replied = refl;
    stored = update_self d.playlists d.last_id _;
    same_items = refl;
    same_repeat = refl;
    same_order = refl;
    unused = refl;
    not_drawn = refl;
  },
)

-- `handle_request` makes of a playlist that exists, under a new name that is free and not empty, a copy
-- with the next id, the same object ids, repeat and shuffle modes, and use count 0; poolst of the copy
-- is 0, whatever that of the source is.
pub dup_lem :
    (timer src_id c : ℕ) (cs : Text) (p : Pls) (d : Daemon)
    → d.playlists src_id ≡ some p
    → d.by_name (c ∷ cs) ≡ none
    → (q : Pls) × IsCopy (handle_request timer (dup src_id (c ∷ cs)) d) d.last_id p q
unfolding handle_request dup_playlist
dup_lem timer src_id c cs p d at free =
    subst
      (λ found.
        (q : Pls) × IsCopy (dup_found timer (c ∷ cs) (d.playlists src_id) found d) d.last_id p q)
      (sym free)
      (subst (λ found. (q : Pls) × IsCopy (dup_found timer (c ∷ cs) found none d) d.last_id p q)
        (sym at) (dup_fresh timer c cs p d))

created :
    (timer c : ℕ) (cs : Text) (d : Daemon)
    → (i : ℕ) × ((create_named timer (c ∷ cs) none d).1 ≡ reply_id i)
      × ((create_named timer (c ∷ cs) none d).0.by_name (c ∷ cs) ≡ some i)
unfolding create_named add_playlist pls_new pls_set_name i_am_dirty
created timer c cs d = (_, refl, if_true _ _ _ (text_eq_refl (c ∷ cs)))

create_named_again :
    (timer later c : ℕ) (cs : Text) (found : Option ℕ) (d : Daemon)
    → d.by_name (c ∷ cs) ≡ found
    → handle_request later (create (c ∷ cs)) (create_named timer (c ∷ cs) found d).0
      ≡ create_named timer (c ∷ cs) found d
unfolding handle_request create_playlist create_named
create_named_again timer later c cs (some id) d e = ap (λ f. create_named later (c ∷ cs) f d) e
create_named_again timer later c cs none d e =
    let (i, replied, listed) = created timer c cs d in
    let r = create_named timer (c ∷ cs) none d in
    ap (λ f. create_named later (c ∷ cs) f r.0) listed ∙ ap (λ x. (r.0, x)) (sym replied)

-- To `handle_request`, a second request to create a playlist of the same name gives the id of the first one
-- and changes nothing.
pub create_again :
    (timer later : ℕ) (name : Text) (d : Daemon)
    → handle_request later (create name) (handle_request timer (create name) d).0
      ≡ handle_request timer (create name) d
unfolding handle_request create_playlist
create_again timer later [] d = refl
create_again timer later (c ∷ cs) d =
    create_named_again timer later c cs (d.by_name (c ∷ cs)) d refl
