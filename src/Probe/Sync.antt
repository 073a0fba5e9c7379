-- ===== src/Probe/Sync.antt =====
-- `sync_peers_to_db` of neo-uptime-node/src/main.rs: the peers that the backend names are brought
-- into the table of nodes.
pub mod Keeps
pub mod Resync
use neo_easy_tier_deamon.Prelude.{
  ℕ, Bool, true, false, ◌||◌, not, Option, none, some, List, [], ◌∷◌, if◌then◌else◌,
}
use neo_easy_tier_deamon.Prelude.Int.{ℤ, pos, int_eq}
use neo_easy_tier_deamon.Prelude.Text.{Text, codes, split_once, text_eq}
use neo_easy_tier_deamon.Prelude.Text.Decimal.{parse_i32}
use neo_easy_tier_deamon.Probe.Db.{
  NodeRow, Orm, CreateNodeRequest, create_node, get_all_nodes, get_node_by_id, or_default,
}
use neo_easy_tier_deamon.Probe.Backend.{BackendPeer}
use neo_easy_tier_deamon.Probe.Report.{backend_id_of, describe}

-- A `HashMap` or `DashMap` with keys of type `i32`: a later insertion hides an earlier one.
abbrev pub IdMap : Type 0 → Type 0
IdMap V = List (ℤ × V)

abbrev pub get : {V : Type 0} → ℤ → IdMap V → Option V
get i [] = none
get i ((j, v) ∷ m) = let rest = get i m in if int_eq j i then some v else rest

-- `current_node_map`: the rows by the ids that their descriptions name.
unfoldable pub node_map : List NodeRow → IdMap NodeRow → IdMap NodeRow
node_map [] m = m
node_map (r ∷ rows) m =
    node_map rows (elim (backend_id_of r.description) [ none ↦ m | some i ↦ (i, r) ∷ m ])

abbrev pub default_port : ℤ
default_port = pos 11010

-- The host and the port in `public_ip`: all of it is the host if it has no colon.
unfoldable pub host_port : Text → Text × ℤ
host_port public_ip = elim (split_once b':' public_ip) [
  | none ↦ (public_ip, default_port)
  | some (ip, port) ↦ (ip, elim (parse_i32 port) [ none ↦ default_port | some n ↦ n ])
]

abbrev pub or_else {ℓ} : {A : Type ℓ} → Option A → A → A
or_else none d = d
or_else (some a) d = a

unfoldable pub create_req_of : BackendPeer → Text → CreateNodeRequest
create_req_of peer public_ip = record {
  name = peer.name;
  host = (host_port public_ip).0;
  port = (host_port public_ip).1;
  protocol = or_else peer.protocol (codes "tcp");
  description = some (describe peer.id);
  max_connections = pos 100;
  allow_relay = or_else peer.allow_relay true;
  network_name = or_else peer.network_name (codes "default");
  network_secret = peer.network_secret;
  qq_number = none;
  wechat = none;
  mail = none;
}

-- The columns that an update of an existing node sets.
abbrev pub set_secret : Bool → Text → NodeRow → NodeRow
set_secret true secret r = record r { network_secret = secret }
set_secret false secret r = r

abbrev pub set_description : Bool → Text → NodeRow → NodeRow
set_description true text r = record r { description = text }
set_description false text r = r

abbrev pub approve : NodeRow → NodeRow
approve r = record r { is_approved = true }

-- The database, and `peer_metadata`.
abbrev pub State : Type 0 → Type 0
State S = S × IdMap BackendPeer

-- `reload i` is `health_checker.try_update_node(i)`, of which an error is only logged.
module _ {S : Type 0} (db : Orm S) (reload : ℤ → S → S) where
  -- After the update of the row: the health checker reloads it if its secret has changed.
  after_update : ℤ → Bool → Option NodeRow × S → S
  after_update i needs_update (none, s) = s
  after_update i needs_update (some r, s) = if needs_update then reload i s else s

  update_row : ℤ → Bool → Text → Bool → Text → Option (Option NodeRow) × S → S
  unfolding after_update
  update_row i needs_update secret desc_needs_update text (some (some node), s) =
      after_update i needs_update (
        db.update node.id
          (λ r. set_description desc_needs_update text (set_secret needs_update secret r)) s)
  update_row i needs_update secret desc_needs_update text (_, s) = s

  -- A peer that `current_node_map` has.
  pub sync_existing : BackendPeer → NodeRow → State S → State S
  unfolding update_row
  sync_existing peer existing (s, metadata) =
      let secret = or_default peer.network_secret in
      let needs_update = not (text_eq existing.network_secret secret) in
      let text = describe peer.id in
      let desc_needs_update = not (text_eq existing.description text) in
      let s' =
        if needs_update || desc_needs_update
        then update_row existing.id needs_update secret desc_needs_update text
            (get_node_by_id db existing.id s)
        else s in
      (s', (existing.id, peer) ∷ metadata)

  approved : BackendPeer → ℤ → IdMap BackendPeer → Option NodeRow × S → State S
  approved peer i metadata (none, s) = (s, metadata)
  approved peer i metadata (some r, s) = (s, (i, peer) ∷ metadata)

  created : BackendPeer → IdMap BackendPeer → Option NodeRow × S → State S
  unfolding approved
  created peer metadata (none, s) = (s, metadata)
  created peer metadata (some node, s) =
      approved peer node.id metadata (db.update node.id approve s)

  -- A peer that it does not have.
  pub sync_new : BackendPeer → ℕ → State S → State S
  unfolding created
  sync_new peer now (s, metadata) = elim peer.public_ip [
    | none ↦ (s, metadata)
    | some public_ip ↦ created peer metadata (create_node db (create_req_of peer public_ip) now s)
  ]

  pub sync_peer : IdMap NodeRow → BackendPeer → ℕ → State S → State S
  unfolding sync_existing sync_new
  sync_peer nodes peer now st = elim (get peer.id nodes) [
    | none ↦ sync_new peer now st
    | some existing ↦ sync_existing peer existing st
  ]

  pub sync_loop : IdMap NodeRow → List BackendPeer → ℕ → State S → State S
  unfolding sync_peer
  sync_loop nodes [] now st = st
  sync_loop nodes (peer ∷ peers) now st = sync_loop nodes peers now (sync_peer nodes peer now st)

  -- `false` where the nodes cannot be read.
  pub sync_peers_to_db : List BackendPeer → ℕ → State S → Bool × State S
  unfolding sync_loop node_map
  sync_peers_to_db peers now (s, metadata) =
      let (found, s') = get_all_nodes db s in
      elim found [
        | none ↦ (false, (s', metadata))
        | some rows ↦ (true, sync_loop (node_map rows []) peers now (s', metadata))
      ]
