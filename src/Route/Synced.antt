-- ===== src/Route/Synced.antt =====
-- `SyncedRouteInfo` of easytier/src/peers/peer_ospf_route.rs: what a peer knows of all peers. A map is
-- an association list, a set of peers a list.
use mathlib.Core.List.{lookup, filter}
use mathlib.Core.HLevel.{×_discrete}
use neo_easy_tier_deamon.Prelude.{
  ℕ, zero, suc, ◌+◌, ◌*◌, ◌/◌, ◌%◌, ◌^◌, ◌≡◌, Bool, true, false, ◌&&◌, ◌||◌, not, Option, none,
  some, List, [], ◌∷◌, ◌++◌, map, if◌then◌else◌, ltb, ◌==◌, get_elem?, length, ℕ_discrete,
}
use neo_easy_tier_deamon.Prelude.Text.{Text, text_discrete}
use neo_easy_tier_deamon.Prelude.Assoc.{put, remove}
use neo_easy_tier_deamon.Route.Newest.{is_newer}
use neo_easy_tier_deamon.Route.Messages.{
  RoutePeerInfo, PeerFeatureFlag, PeerIdVersion, RouteConnBitmap, PeerConnInfo, RouteConnPeerList,
  ConnInfo, conn_bitmap, conn_peer_list,
}
pub mod Infos
pub mod Merging
pub mod Order

-- `ForeignNetworkRouteInfoKey`: the peer and the name of the network.
abbrev pub NetworkKey : Type 0
NetworkKey = ℕ × Text

abbrev pub key_discrete : Discrete NetworkKey
key_discrete = ×_discrete ℕ_discrete text_discrete

pub record ForeignNetworkRouteInfoEntry : Type 0 where
  pub foreign_peer_ids : List ℕ
  pub last_update : Option ℕ
  pub version : ℕ
  pub network_secret_digest : List ℕ
  pub my_peer_id_for_this_network : ℕ

-- `Raw` is the `DynamicMessage` of the crate prost-reflect, kept beside each `RoutePeerInfo`.
pub record SyncedRouteInfo (Raw : Type 0) : Type 0 where
  pub peer_infos : List (ℕ × RoutePeerInfo)
  pub raw_peer_infos : List (ℕ × Raw)
  pub conn_map : List (ℕ × (List ℕ × ℕ))
  pub foreign_network : List (NetworkKey × ForeignNetworkRouteInfoEntry)
  pub group_trust_map : List (ℕ × List (Text × Text))
  pub group_trust_map_cache : List (ℕ × List Text)
  pub version : ℕ

-- `RoutePeerInfo::new` at the time `now`; the nil UUID is 0.
unfoldable pub new_peer_info : (easytier_version : Text) (now : ℕ) → RoutePeerInfo
new_peer_info easytier_version now = record {
  peer_id = 0;
  inst_id = some 0;
  cost = 0;
  ipv4_addr = none;
  proxy_cidrs = [];
  hostname = none;
  udp_stun_info = 0;
  last_update = some now;
  version = 0;
  easytier_version = easytier_version;
  feature_flag = none;
  peer_route_id = 0;
  network_length = 24;
  quic_port = none;
  ipv6_addr = none;
  groups = [];
}

unfoldable pub without_networks_of :
    ℕ
    → List (NetworkKey × ForeignNetworkRouteInfoEntry)
    → List (NetworkKey × ForeignNetworkRouteInfoEntry)
without_networks_of peer_id [] = []
without_networks_of peer_id ((k, v) ∷ m) =
    let rest = without_networks_of peer_id m in if k.0 == peer_id then rest else (k, v) ∷ rest

module _ {Raw : Type 0} where
  -- `self.version.inc()`
  unfoldable pub inc_version : SyncedRouteInfo Raw → SyncedRouteInfo Raw
  inc_version s = record s { version = (s.version + 1) % 2 ^ 32 }

  unfoldable pub inc_if : Bool → SyncedRouteInfo Raw → SyncedRouteInfo Raw
  inc_if need_inc_version s = if need_inc_version then inc_version s else s

  unfoldable pub remove_peer : ℕ → SyncedRouteInfo Raw → SyncedRouteInfo Raw
  unfolding inc_version
  remove_peer peer_id s = record {
    peer_infos = remove ℕ_discrete peer_id s.peer_infos;
    raw_peer_infos = remove ℕ_discrete peer_id s.raw_peer_infos;
    conn_map = remove ℕ_discrete peer_id s.conn_map;
    foreign_network = without_networks_of peer_id s.foreign_network;
    group_trust_map = remove ℕ_discrete peer_id s.group_trust_map;
    group_trust_map_cache = remove ℕ_discrete peer_id s.group_trust_map_cache;
    version = (s.version + 1) % 2 ^ 32;
  }

  unfoldable pub get_peer_info_version_with_default : ℕ → SyncedRouteInfo Raw → ℕ
  get_peer_info_version_with_default peer_id s = elim (lookup ℕ_discrete peer_id s.peer_infos) [
    | none ↦ 0
    | some x ↦ x.version
  ]

  unfoldable pub get_avoid_relay_data : ℕ → SyncedRouteInfo Raw → Bool
  get_avoid_relay_data peer_id s = elim (lookup ℕ_discrete peer_id s.peer_infos) [
    | none ↦ false
    | some x ↦ elim x.feature_flag [ none ↦ false | some f ↦ f.avoid_relay_data ]
  ]

  unfoldable pub get_connected_peers : ℕ → SyncedRouteInfo Raw → Option (List ℕ)
  get_connected_peers peer_id s = elim (lookup ℕ_discrete peer_id s.conn_map) [
    | none ↦ none
    | some x ↦ some x.0
  ]

abbrev pub info_version : RoutePeerInfo → ℕ
info_version x = x.version

-- What `check_duplicate_peer_id` comes to: a panic when our own peer id is taken.
pub data Duplicate : Type 0 where
  passed : Duplicate
  duplicate_peer_id : Duplicate
  my_id_duplicated : Duplicate

module _ {Raw : Type 0} where
  unfoldable pub check_duplicate_peer_id :
      (my_peer_id my_peer_route_id dst_peer_id : ℕ) (dst_peer_route_id : Option ℕ)
      → RoutePeerInfo
      → SyncedRouteInfo Raw
      → Duplicate
  check_duplicate_peer_id my_peer_id my_peer_route_id dst_peer_id dst_peer_route_id info s =
      let saved = get_peer_info_version_with_default info.peer_id s in
      if info.peer_id == my_peer_id
      then if not (info.peer_route_id == my_peer_route_id) && ltb saved info.version
        then my_id_duplicated
        else passed
      else if info.peer_id == dst_peer_id
      then elim dst_peer_route_id [
        | none ↦ passed
        | some r ↦
            if not (r == info.peer_route_id) && ltb info.version saved
            then duplicate_peer_id
            else passed
      ]
      else passed

  -- Where an info is new or newer, it and its raw form are stored.
  unfoldable pub store_info : RoutePeerInfo → Raw → SyncedRouteInfo Raw → SyncedRouteInfo Raw
  store_info info raw s = record s {
    peer_infos = put ℕ_discrete info.peer_id info s.peer_infos;
    raw_peer_infos = put ℕ_discrete info.peer_id raw s.raw_peer_infos;
  }

  unfoldable pub merge_info :
      RoutePeerInfo → Raw → SyncedRouteInfo Raw × Bool → SyncedRouteInfo Raw × Bool
  merge_info info raw (s, need_inc_version) =
      if is_newer info_version info (lookup ℕ_discrete info.peer_id s.peer_infos)
      then (store_info info raw s, true)
      else (s, need_inc_version)

-- Times are not synchronized between peers, so an info gets the local time.
unfoldable pub stamped : (now : ℕ) → RoutePeerInfo → RoutePeerInfo
stamped now info = record info { last_update = some now }

-- How an update of the infos ends: the state is kept where it returns an error.
pub data Updated (Raw : Type 0) : Type 0 where
  updated : SyncedRouteInfo Raw → Updated Raw
  refused : SyncedRouteInfo Raw → Updated Raw
  panicked : Updated Raw

-- `raw_peer_id` reads the field `peer_id` of a raw message; `none` is the panic of an `unwrap`.
module _ {Raw : Type 0} (raw_peer_id : Raw → Option ℕ)
    (my_peer_id my_peer_route_id dst_peer_id now : ℕ) where
  unfoldable pub saved_route_id : RoutePeerInfo → SyncedRouteInfo Raw → Option ℕ
  saved_route_id info s =
      if info.peer_id == dst_peer_id
      then elim (lookup ℕ_discrete dst_peer_id s.peer_infos) [
        | none ↦ none
        | some x ↦ some x.peer_route_id
      ]
      else none

  -- Whether `assert_eq!(peer_id_raw, route_info.peer_id)` holds.
  unfoldable pub raw_agrees : Raw → RoutePeerInfo → Bool
  raw_agrees raw info = elim (raw_peer_id raw) [ none ↦ false | some i ↦ i == info.peer_id ]

  unfoldable pub after_check :
      Duplicate
      → RoutePeerInfo
      → Raw
      → SyncedRouteInfo Raw × Bool
      → (SyncedRouteInfo Raw × Bool → Updated Raw)
      → Updated Raw
  after_check passed info raw c go =
      if raw_agrees raw info then go (merge_info (stamped now info) raw c) else panicked
  after_check duplicate_peer_id info raw c go = refused c.0
  after_check my_id_duplicated info raw c go = panicked

  -- The loop over the infos, each with its raw form: `raw_peer_infos[idx]` panics where there is none.
  unfoldable pub update_loop :
      List RoutePeerInfo → List Raw → SyncedRouteInfo Raw × Bool → Updated Raw
  update_loop [] raws (s, need_inc_version) = updated (inc_if need_inc_version s)
  update_loop (info ∷ infos) [] c = panicked
  update_loop (info ∷ infos) (raw ∷ raws) (s, need_inc_version) =
      after_check
        (check_duplicate_peer_id my_peer_id my_peer_route_id dst_peer_id (saved_route_id info s)
          info s)
        info raw (s, need_inc_version) (update_loop infos raws)

  unfoldable pub update_peer_infos :
      List RoutePeerInfo → List Raw → SyncedRouteInfo Raw → Updated Raw
  update_peer_infos infos raws s = update_loop infos raws (s, false)
