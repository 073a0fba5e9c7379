-- ===== src/Probe/Sync/Keeps.antt =====
-- What a sync leaves of the table (neo-uptime-node/src/main.rs).
use neo_easy_tier_deamon.Prelude.{
  ℕ, ◌≡◌, refl, Bool, true, false, Option, none, some, List, [], ◌∷◌, if◌then◌else◌, Bool-cases,
  inl, inr,
}
use neo_easy_tier_deamon.Prelude.Int.{ℤ, int_eq}
use neo_easy_tier_deamon.Prelude.Text.{Text}
use neo_easy_tier_deamon.Probe.Db.{
  NodeRow, find_node, Orm, CreateNodeRequest, create_node, get_all_nodes, get_node_by_id,
}
use neo_easy_tier_deamon.Probe.Db.Laws.{Updated, Created, create_node_lem, update_row_lem}
use neo_easy_tier_deamon.Probe.Backend.{BackendPeer}
use neo_easy_tier_deamon.Probe.Sync.{
  IdMap, State, get, node_map, create_req_of, set_secret, set_description, approve, after_update,
  update_row, sync_existing, approved, created, sync_new, sync_peer, sync_loop, sync_peers_to_db,
}

pub set_columns-id :
    (b d : Bool) (secret text : Text) (r : NodeRow)
    → (set_description d text (set_secret b secret r)).id ≡ r.id
set_columns-id true true secret text r = refl
set_columns-id true false secret text r = refl
set_columns-id false true secret text r = refl
set_columns-id false false secret text r = refl

module _ {S : Type 0} (db : Orm S) where
  -- Every id that has a row in `s` has one in `s'`.
  abbrev pub Keeps : S → S → Type 0
  Keeps s s' =
      (j : ℤ) (r : NodeRow)
      → find_node j (db.rows s) ≡ some r
      → (r' : NodeRow) × (find_node j (db.rows s') ≡ some r')

  pub Keeps-trans : (s t u : S) → Keeps s t → Keeps t u → Keeps s u
  Keeps-trans s t u h k j r e = let (r', e') = h j r e in k j r' e'

  Keeps-rows : (s t : S) → db.rows t ≡ db.rows s → Keeps s t
  Keeps-rows s t same j r e = (r, rw same e)

  pub Updated-Keeps :
      (P : NodeRow → Type 0) (i : ℤ) (s : S) (out : Option NodeRow × S)
      → Updated db P i s out
      → Keeps s out.1
  Updated-Keeps P i s (none, s') same j r e = Keeps-rows s s' same j r e
  Updated-Keeps P i s (some x, s') (_, _, after) j r e =
      rw (after j) (elim (Bool-cases (int_eq i j)) [ inl h ↦ (x, rw h) | inr h ↦ (r, rw h e) ])

  Created-Keeps :
      (req : CreateNodeRequest) (now : ℕ) (s : S) (out : Option NodeRow × S)
      → Created db req now s out
      → Keeps s out.1
  Created-Keeps req now s (none, s') keeps j r e = (r, keeps j r e)
  Created-Keeps req now s (some x, s') (_, _, after) j r e =
      rw (after j) (elim (Bool-cases (int_eq x.id j)) [ inl h ↦ (x, rw h) | inr h ↦ (r, rw h e) ])

module _ {S : Type 0} (db : Orm S) (reload : ℤ → S → S)
    (reload-Keeps : (i : ℤ) (s : S) → Keeps db s (reload i s)) where
  after_update-Keeps :
      (P : NodeRow → Type 0) (i j : ℤ) (b : Bool) (s : S) (out : Option NodeRow × S)
      → Updated db P i s out
      → Keeps db s (after_update db reload j b out)
  unfolding after_update
  after_update-Keeps P i j b s (none, s') u = Updated-Keeps db P i s (none, s') u
  after_update-Keeps P i j true s (some r, s') u =
      Keeps-trans db s s' (reload j s') (Updated-Keeps db P i s (some r, s') u) (reload-Keeps j s')
  after_update-Keeps P i j false s (some r, s') u = Updated-Keeps db P i s (some r, s') u

  update_row-Keeps :
      (j : ℤ) (b d : Bool) (secret text : Text) (s : S) (out : Option (Option NodeRow) × S)
      → db.rows out.1 ≡ db.rows s
      → Keeps db s (update_row db reload j b secret d text out)
  unfolding update_row
  update_row-Keeps j b d secret text s (some (some node), s1) same =
      after_update-Keeps (λ _. Unit {0}) node.id j b s
        (db.update node.id (λ r. set_description d text (set_secret b secret r)) s1)
        (update_row_lem db node.id (λ r. set_description d text (set_secret b secret r))
          (λ _. Unit {0}) s s1 (set_columns-id b d secret text) (λ _. tt) same)
  update_row-Keeps j b d secret text s (some none, s1) same = Keeps-rows db s s1 same
  update_row-Keeps j b d secret text s (none, s1) same = Keeps-rows db s s1 same

  if-Keeps : (b : Bool) (s t : S) → Keeps db s t → Keeps db s (if b then t else s)
  if-Keeps true s t k = k
  if-Keeps false s t k = λ j r e. (r, e)

  sync_existing-Keeps :
      (peer : BackendPeer) (existing : NodeRow) (st : State S)
      → Keeps db st.0 (sync_existing db reload peer existing st).0
  unfolding sync_existing get_node_by_id
  sync_existing-Keeps peer existing (s, metadata) = if-Keeps _ s _ (
      update_row-Keeps existing.id _ _ _ _ s (db.find_by_id existing.id s)
        (db.find_by_id_keeps existing.id s))

  approved-Keeps :
      (peer : BackendPeer) (i : ℤ) (m : IdMap BackendPeer) (s : S) (out : Option NodeRow × S)
      → Keeps db s out.1
      → Keeps db s (approved db reload peer i m out).0
  unfolding approved
  approved-Keeps peer i m s (none, s') k = k
  approved-Keeps peer i m s (some r, s') k = k

  created-Keeps :
      (peer : BackendPeer) (m : IdMap BackendPeer) (s : S) (out : Option NodeRow × S)
      → Keeps db s out.1
      → Keeps db s (created db reload peer m out).0
  unfolding created
  created-Keeps peer m s (none, s') k = k
  created-Keeps peer m s (some node, s') k =
      approved-Keeps peer node.id m s (db.update node.id approve s') (
        Keeps-trans db s s' (db.update node.id approve s').1 k (
          Updated-Keeps db (λ _. Unit {0}) node.id s' (db.update node.id approve s')
            (update_row_lem db node.id approve (λ _. Unit {0}) s' s' (λ r. refl) (λ _. tt) refl)))

  sync_new-Keeps :
      (peer : BackendPeer) (now : ℕ) (st : State S)
      → Keeps db st.0 (sync_new db reload peer now st).0
  unfolding sync_new
  sync_new-Keeps peer now (s, metadata) = from peer.public_ip
    where
      from :
          (o : Option Text)
          → Keeps db s (
              let out : State S = elim o [
                | none ↦ (s, metadata)
                | some ip ↦
                    created db reload peer metadata (create_node db (create_req_of peer ip) now s)
              ] in
              out.0)
      from none = λ j r e. (r, e)
      from (some ip) =
          created-Keeps peer metadata s (create_node db (create_req_of peer ip) now s) (
            Created-Keeps db (create_req_of peer ip) now s
              (create_node db (create_req_of peer ip) now s)
              (create_node_lem db (create_req_of peer ip) now s))

  sync_peer-Keeps :
      (nodes : IdMap NodeRow) (peer : BackendPeer) (now : ℕ) (st : State S)
      → Keeps db st.0 (sync_peer db reload nodes peer now st).0
  unfolding sync_peer
  sync_peer-Keeps nodes peer now st = from (get peer.id nodes)
    where
      from :
          (o : Option NodeRow)
          → Keeps db st.0 (
              let out : State S = elim o [
                | none ↦ sync_new db reload peer now st
                | some existing ↦ sync_existing db reload peer existing st
              ] in
              out.0)
      from none = sync_new-Keeps peer now st
      from (some existing) = sync_existing-Keeps peer existing st

  sync_loop-Keeps :
      (nodes : IdMap NodeRow) (peers : List BackendPeer) (now : ℕ) (st : State S)
      → Keeps db st.0 (sync_loop db reload nodes peers now st).0
  unfolding sync_loop
  sync_loop-Keeps nodes [] now st = λ j r e. (r, e)
  sync_loop-Keeps nodes (peer ∷ peers) now st =
      Keeps-trans db st.0 (sync_peer db reload nodes peer now st).0 _
        (sync_peer-Keeps nodes peer now st)
        (sync_loop-Keeps nodes peers now (sync_peer db reload nodes peer now st))

  -- Whatever the backend sends and whichever calls of the database fail, every id that had a row
  -- before a sync has one after it, if a reload keeps the ids too.
  pub sync_peers_to_db-Keeps :
      (peers : List BackendPeer) (now : ℕ) (s : S) (metadata : IdMap BackendPeer)
      → Keeps db s (sync_peers_to_db db reload peers now (s, metadata)).1.0
  unfolding sync_peers_to_db get_all_nodes
  sync_peers_to_db-Keeps peers now s metadata = from (db.find_all s) (db.find_all_keeps s)
    where
      from :
          (x : Option (List NodeRow) × S)
          → db.rows x.1 ≡ db.rows s
          → Keeps db s (
              let out : Bool × State S = elim x.0 [
                | none ↦ (false, (x.1, metadata))
                | some rows ↦
                    (true, sync_loop db reload (node_map rows []) peers now (x.1, metadata))
              ] in
              out.1.0)
      from (none, s') same = Keeps-rows db s s' same
      from (some rows, s') same =
          Keeps-trans db s s' _ (Keeps-rows db s s' same)
            (sync_loop-Keeps (node_map rows []) peers now (s', metadata))
