-- ===== src/Probe/Sync/Resync.antt =====
-- Adding a peer to the table, and syncing it again (neo-uptime-node/src/main.rs).
use neo_easy_tier_deamon.Prelude.{
  ℕ, ◌≡◌, ◌∙◌, ap, refl, Bool, true, false, Option, none, some, List, [], ◌∷◌, if◌then◌else◌, arith,
  Option-cases, Bool-cases, inl, inr, ◌⊎◌,
}
use neo_easy_tier_deamon.Prelude.Int.{ℤ, int_eq, int_eq_iff, IsI32}
use neo_easy_tier_deamon.Prelude.Text.{Text}
use neo_easy_tier_deamon.Probe.Db.{
  NodeRow, find_node, Orm, create_node_model, create_node, get_node_by_id,
}
use neo_easy_tier_deamon.Probe.Db.Laws.{Created, create_node_lem, update_known, update_fresh}
use neo_easy_tier_deamon.Probe.Backend.{BackendPeer}
use neo_easy_tier_deamon.Probe.Report.{backend_id_of, describe, backend_id_of-describe}
use neo_easy_tier_deamon.Probe.Sync.{
  IdMap, State, get, node_map, create_req_of, approve, after_update, update_row, sync_existing,
  approved, created, sync_new, sync_peer,
}
use neo_easy_tier_deamon.Probe.Sync.Keeps.{set_columns-id}

get-node_map-keeps :
    (b : ℤ) (rows : List NodeRow) (m : IdMap NodeRow) (x : NodeRow)
    → get b m ≡ some x
    → (y : NodeRow) × (get b (node_map rows m) ≡ some y)
unfolding node_map
get-node_map-keeps b [] m x h = (x, h)
get-node_map-keeps b (r ∷ rows) m x h = elim (Option-cases (backend_id_of r.description)) [
  | inl e ↦ rw e (get-node_map-keeps b rows m x h)
  | inr (i, e) ↦ rw e (elim (Bool-cases (int_eq i b)) [
    | inl t ↦ get-node_map-keeps b rows ((i, r) ∷ m) r (rw t)
    | inr f ↦ get-node_map-keeps b rows ((i, r) ∷ m) x (rw f h)
  ])
]

-- The map has a node for each id that the description of a row names.
pub get-node_map :
    (b j : ℤ) (rows : List NodeRow) (m : IdMap NodeRow) (r : NodeRow)
    → find_node j rows ≡ some r
    → backend_id_of r.description ≡ some b
    → (y : NodeRow) × (get b (node_map rows m) ≡ some y)
unfolding node_map
get-node_map b j [] m r h e = absurd (cc)
get-node_map b j (x ∷ rows) m r h e = elim (Bool-cases (int_eq x.id j)) [
  | inl t ↦
      let same : x ≡ r = ground arith in
      let e' : backend_id_of x.description ≡ some b = rw same e in
      rw e' (get-node_map-keeps b rows ((b, x) ∷ m) x (rw ((int_eq_iff b b).1 refl)))
  | inr f ↦ get-node_map b j rows _ r (ground arith) e
]

-- What adding a peer comes to. Either the metadata stay as they are, or the peer has got a row
-- under an id that was free, which is approved and described by the peer's id.
pub record IsAdded {S : Type 0} (db : Orm S) (peer : BackendPeer) (s s' : S) (i : ℤ) : Type 0 where
  pub row : NodeRow
  pub was_free : find_node i (db.rows s) ≡ none
  pub found : find_node i (db.rows s') ≡ some row
  pub is_approved : row.is_approved ≡ true
  pub description : row.description ≡ describe peer.id

module _ {S : Type 0} (db : Orm S) (reload : ℤ → S → S) where
  approved-IsAdded :
      (peer : BackendPeer) (node : NodeRow) (m : IdMap BackendPeer) (s s1 : S)
      → find_node node.id (db.rows s) ≡ none
      → find_node node.id (db.rows s1) ≡ some node
      → node.description ≡ describe peer.id
      → let out = approved db reload peer node.id m (db.update node.id approve s1) in
        (out.1 ≡ m) ⊎ ((out.1 ≡ (node.id, peer) ∷ m) × IsAdded db peer s out.0 node.id)
  unfolding approved
  approved-IsAdded peer node m s s1 free here desc =
      from (db.update node.id approve s1)
        (λ r e. update_known db node.id approve s1 node r (λ y. refl) here e)
    where
      from :
          (x : Option NodeRow × S)
          → ((r : NodeRow)
              → x.0 ≡ some r
              → (r ≡ approve node) × (find_node node.id (db.rows x.1) ≡ some r))
          → let out = approved db reload peer node.id m x in
            (out.1 ≡ m) ⊎ ((out.1 ≡ (node.id, peer) ∷ m) × IsAdded db peer s out.0 node.id)
      from (none, s2) gives = inl refl
      from (some r, s2) gives =
          let (same, there) = gives r refl in
          inr (
            refl,
            record {
              row = r;
              was_free = free;
              found = there;
              is_approved = rw same;
              description = rw same desc;
            },
          )

  created-IsAdded :
      (peer : BackendPeer) (ip : Text) (now : ℕ) (m : IdMap BackendPeer) (s : S)
      (x : Option NodeRow × S)
      → Created db (create_req_of peer ip) now s x
      → let out = created db reload peer m x in
        (out.1 ≡ m) ⊎ ((i : ℤ) × (out.1 ≡ (i, peer) ∷ m) × IsAdded db peer s out.0 i)
  unfolding created create_req_of create_node_model
  created-IsAdded peer ip now m s (none, s1) c = inl refl
  created-IsAdded peer ip now m s (some node, s1) (model, free, after) =
      let here : find_node node.id (db.rows s1) ≡ some node =
        after node.id ∙ rw ((int_eq_iff node.id node.id).1 refl) in
      let desc : node.description ≡ describe peer.id = ap (λ (r : NodeRow). r.description) model in
      elim (approved-IsAdded peer node m s s1 free here desc) [
        | inl e ↦ inl e
        | inr (e, a) ↦ inr (node.id, e, a)
      ]

  -- `sync_new` either leaves the metadata as they are, or it gives the peer a row under an id that
  -- was free, approved and described by the peer's id, and puts the peer into the metadata under
  -- this id.
  sync_new-IsAdded :
      (peer : BackendPeer) (now : ℕ) (s : S) (m : IdMap BackendPeer)
      → let out = sync_new db reload peer now (s, m) in
        (out.1 ≡ m) ⊎ ((i : ℤ) × (out.1 ≡ (i, peer) ∷ m) × IsAdded db peer s out.0 i)
  unfolding sync_new
  sync_new-IsAdded peer now s m = from peer.public_ip
    where
      from :
          (o : Option Text)
          → let out : State S = elim o [
            | none ↦ (s, m)
            | some ip ↦ created db reload peer m (create_node db (create_req_of peer ip) now s)
          ] in
            (out.1 ≡ m) ⊎ ((i : ℤ) × (out.1 ≡ (i, peer) ∷ m) × IsAdded db peer s out.0 i)
      from none = inl refl
      from (some ip) =
          created-IsAdded peer ip now m s (create_node db (create_req_of peer ip) now s)
            (create_node_lem db (create_req_of peer ip) now s)

module _ {S : Type 0} (db : Orm S) (reload : ℤ → S → S)
    (reload_fresh : (i j : ℤ) (s : S)
      → find_node j (db.rows s) ≡ none
      → find_node j (db.rows (reload i s)) ≡ none) where
  after_update-fresh :
      (i j : ℤ) (b : Bool) (out : Option NodeRow × S)
      → find_node j (db.rows out.1) ≡ none
      → find_node j (db.rows (after_update db reload i b out)) ≡ none
  unfolding after_update
  after_update-fresh i j b (none, s) h = h
  after_update-fresh i j true (some r, s) h = reload_fresh i j s h
  after_update-fresh i j false (some r, s) h = h

  update_row-fresh :
      (i j : ℤ) (b d : Bool) (secret text : Text) (out : Option (Option NodeRow) × S)
      → find_node j (db.rows out.1) ≡ none
      → find_node j (db.rows (update_row db reload i b secret d text out)) ≡ none
  unfolding update_row
  update_row-fresh i j b d secret text (some (some node), s) h =
      after_update-fresh i j b (db.update node.id _ s)
        (update_fresh db node.id j _ s (set_columns-id b d secret text) h)
  update_row-fresh i j b d secret text (some none, s) h = h
  update_row-fresh i j b d secret text (none, s) h = h

  sync_existing-fresh :
      (peer : BackendPeer) (existing : NodeRow) (j : ℤ) (st : State S)
      → find_node j (db.rows st.0) ≡ none
      → find_node j (db.rows (sync_existing db reload peer existing st).0) ≡ none
  unfolding sync_existing get_node_by_id
  sync_existing-fresh peer existing j (s, m) h = if_fresh _ _ (
      update_row-fresh existing.id j _ _ _ _ (db.find_by_id existing.id s)
        (rw (db.find_by_id_keeps existing.id s) h))
    where
      if_fresh :
          (b : Bool) (t : S)
          → find_node j (db.rows t) ≡ none
          → find_node j (db.rows (if b then t else s)) ≡ none
      if_fresh true t k = k
      if_fresh false t k = h

  -- Once a peer whose id is an `i32` has been added, a pass of a sync that reads the table as it
  -- then is, and that has a peer of the same id (with whatever other data), makes no new row, if a
  -- reload makes none: an id that had no row still has none.
  pub sync_again :
      (peer again : BackendPeer) (s s' : S) (i j : ℤ) (now : ℕ) (m : IdMap BackendPeer)
      → IsI32 peer.id
      → again.id ≡ peer.id
      → IsAdded db peer s s' i
      → find_node j (db.rows s') ≡ none
      → find_node j (db.rows (sync_peer db reload (node_map (db.rows s') []) again now (s', m)).0)
        ≡ none
  unfolding sync_peer
  sync_again peer again s s' i j now m small same a h =
      let (y, e) =
        get-node_map peer.id i (db.rows s') [] a.row a.found
          (rw a.description (backend_id_of-describe peer.id small)) in
      from (get again.id (node_map (db.rows s') [])) y (rw same e)
    where
      from :
          (o : Option NodeRow) (y : NodeRow)
          → o ≡ some y
          → (let out : State S = elim o [
            | none ↦ sync_new db reload again now (s', m)
            | some existing ↦ sync_existing db reload again existing (s', m)
          ] in
              find_node j (db.rows out.0))
            ≡ none
      from none y e = absurd (cc)
      from (some existing) y e = sync_existing-fresh again existing j (s', m) h
