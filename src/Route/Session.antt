-- ===== src/Route/Session.antt =====
-- `SyncRouteSession` of easytier/src/peers/peer_ospf_route.rs: what one peer has been told of the routes.
use mathlib.Core.List.{lookup}
use neo_easy_tier_deamon.Prelude.{
  ℕ, ◌+◌, ◌-◌, ◌≡◌, Bool, true, false, not, Option, none, some, List, [], ◌∷◌, if◌then◌else◌, ltb,
  leb, ◌==◌, ◌||◌, max, ℕ_discrete,
}
use neo_easy_tier_deamon.Prelude.Assoc.{put}
use neo_easy_tier_deamon.Route.Messages.{
  RoutePeerInfo, PeerIdVersion, RouteConnBitmap, PeerConnInfo, RouteConnPeerList, ConnInfo,
  conn_bitmap, conn_peer_list,
}
use neo_easy_tier_deamon.Route.Synced.{NetworkKey, key_discrete, ForeignNetworkRouteInfoEntry}
pub mod Saved
pub mod Restart

pub record VersionAndTouchTime : Type 0 where
  pub version : ℕ
  pub touch_time : ℕ

pub record SyncRouteSession : Type 0 where
  pub my_peer_id : ℕ
  pub dst_peer_id : ℕ
  pub dst_saved_peer_info_versions : List (ℕ × VersionAndTouchTime)
  pub dst_saved_conn_info_version : List (ℕ × VersionAndTouchTime)
  pub dst_saved_foreign_network_versions : List (NetworkKey × VersionAndTouchTime)
  pub my_session_id : ℕ
  pub dst_session_id : ℕ
  pub we_are_initiator : Bool
  pub dst_is_initiator : Bool
  pub need_sync_initiator_info : Bool
  pub rpc_tx_count : ℕ
  pub rpc_rx_count : ℕ

-- `SyncRouteSession::new` with the random session id.
unfoldable pub new_session : (my_peer_id dst_peer_id random : ℕ) → SyncRouteSession
new_session my_peer_id dst_peer_id random = record {
  my_peer_id = my_peer_id;
  dst_peer_id = dst_peer_id;
  dst_saved_peer_info_versions = [];
  dst_saved_conn_info_version = [];
  dst_saved_foreign_network_versions = [];
  my_session_id = random;
  dst_session_id = 0;
  we_are_initiator = false;
  dst_is_initiator = false;
  need_sync_initiator_info = false;
  rpc_tx_count = 0;
  rpc_rx_count = 0;
}

-- A map of saved versions, of either kind of key.
module _ {K : Type 0} (dec : Discrete K) where
  -- `get(&key).map(|v| { v.touch(); v.get() >= version }).unwrap_or(false)` at the time `now`.
  unfoldable pub is_saved :
      (now : ℕ)
      → K
      → (version : ℕ) → List (K × VersionAndTouchTime)
      → Bool × List (K × VersionAndTouchTime)
  is_saved now key version m = elim (lookup dec key m) [
    | none ↦ (false, m)
    | some v ↦
        (leb version v.version, put dec key (record { version = v.version; touch_time = now }) m)
  ]

  -- `entry(key).or_default().set_if_larger(version)`
  unfoldable pub save_version :
      (now : ℕ)
      → K
      → (version : ℕ) → List (K × VersionAndTouchTime)
      → List (K × VersionAndTouchTime)
  save_version now key version m = elim (lookup dec key m) [
    | none ↦ put dec key (record { version = max 0 version; touch_time = now }) m
    | some v ↦ put dec key (record { version = max v.version version; touch_time = v.touch_time }) m
  ]

  -- `retain(|_, v| !v.is_expired())`: what was touched in the last 60 seconds (in milliseconds) stays.
  unfoldable pub retain_fresh :
      (now : ℕ) → List (K × VersionAndTouchTime) → List (K × VersionAndTouchTime)
  retain_fresh now [] = []
  retain_fresh now ((k, v) ∷ m) =
      let rest = retain_fresh now m in
      if ltb 60000 (now - v.touch_time) then rest else (k, v) ∷ rest

unfoldable pub check_saved_peer_info_update_to_date :
    (now peer_id version : ℕ) → SyncRouteSession → Bool × SyncRouteSession
check_saved_peer_info_update_to_date now peer_id version s =
    if (version == 0) || (peer_id == s.dst_peer_id)
    then (true, s)
    else let r = is_saved ℕ_discrete now peer_id version s.dst_saved_peer_info_versions in
      (r.0, record s { dst_saved_peer_info_versions = r.1 })

unfoldable pub check_saved_conn_version_update_to_date :
    (now peer_id version : ℕ) → SyncRouteSession → Bool × SyncRouteSession
check_saved_conn_version_update_to_date now peer_id version s =
    if (version == 0) || (peer_id == s.dst_peer_id)
    then (true, s)
    else let r = is_saved ℕ_discrete now peer_id version s.dst_saved_conn_info_version in
      (r.0, record s { dst_saved_conn_info_version = r.1 })

unfoldable pub check_saved_foreign_network_version_update_to_date :
    (now : ℕ) → NetworkKey → (version : ℕ) → SyncRouteSession → Bool × SyncRouteSession
check_saved_foreign_network_version_update_to_date now key version s =
    if (version == 0) || (key.0 == s.dst_peer_id)
    then (true, s)
    else let r = is_saved key_discrete now key version s.dst_saved_foreign_network_versions in
      (r.0, record s { dst_saved_foreign_network_versions = r.1 })

unfoldable pub save_infos :
    (now dst_peer_id : ℕ)
    → List RoutePeerInfo
    → List (ℕ × VersionAndTouchTime)
    → List (ℕ × VersionAndTouchTime)
save_infos now dst_peer_id [] m = m
save_infos now dst_peer_id (info ∷ infos) m = save_infos now dst_peer_id infos (
    if info.peer_id == dst_peer_id
    then m
    else save_version ℕ_discrete now info.peer_id info.version m)

unfoldable pub update_dst_saved_peer_info_version :
    (now : ℕ) → List RoutePeerInfo → (dst_peer_id : ℕ) → SyncRouteSession → SyncRouteSession
update_dst_saved_peer_info_version now infos dst_peer_id s = record s {
  dst_saved_peer_info_versions = save_infos now dst_peer_id infos s.dst_saved_peer_info_versions;
}

unfoldable pub save_id :
    (now dst_peer_id : ℕ)
    → PeerIdVersion
    → List (ℕ × VersionAndTouchTime)
    → List (ℕ × VersionAndTouchTime)
save_id now dst_peer_id p m =
    if p.peer_id == dst_peer_id then m else save_version ℕ_discrete now p.peer_id p.version m

unfoldable pub save_ids :
    (now dst_peer_id : ℕ)
    → List PeerIdVersion
    → List (ℕ × VersionAndTouchTime)
    → List (ℕ × VersionAndTouchTime)
save_ids now dst_peer_id [] m = m
save_ids now dst_peer_id (p ∷ ps) m = save_ids now dst_peer_id ps (save_id now dst_peer_id p m)

unfoldable pub save_conns :
    (now dst_peer_id : ℕ)
    → List PeerConnInfo
    → List (ℕ × VersionAndTouchTime)
    → List (ℕ × VersionAndTouchTime)
save_conns now dst_peer_id [] m = m
save_conns now dst_peer_id (i ∷ is) m =
    save_conns now dst_peer_id is
      (elim i.peer_id [ none ↦ m | some p ↦ save_id now dst_peer_id p m ])

unfoldable pub update_dst_saved_conn_info_version :
    (now : ℕ) → ConnInfo → (dst_peer_id : ℕ) → SyncRouteSession → SyncRouteSession
update_dst_saved_conn_info_version now (conn_bitmap b) dst_peer_id s = record s {
  dst_saved_conn_info_version = save_ids now dst_peer_id b.peer_ids s.dst_saved_conn_info_version;
}
update_dst_saved_conn_info_version now (conn_peer_list l) dst_peer_id s = record s {
  dst_saved_conn_info_version =
      save_conns now dst_peer_id l.peer_conn_infos s.dst_saved_conn_info_version;
}

unfoldable pub update_initiator_flag : Bool → SyncRouteSession → SyncRouteSession
update_initiator_flag is_initiator s = record s {
  we_are_initiator = is_initiator;
  need_sync_initiator_info = true;
}

unfoldable pub update_dst_session_id : (session_id : ℕ) → SyncRouteSession → SyncRouteSession
update_dst_session_id session_id s =
    if not (session_id == s.dst_session_id)
    then record s {
      dst_session_id = session_id;
      dst_saved_conn_info_version = [];
      dst_saved_peer_info_versions = [];
    }
    else s

unfoldable pub clean_dst_saved_map : (now : ℕ) → SyncRouteSession → SyncRouteSession
clean_dst_saved_map now s = record s {
  dst_saved_peer_info_versions = retain_fresh ℕ_discrete now s.dst_saved_peer_info_versions;
  dst_saved_conn_info_version = retain_fresh ℕ_discrete now s.dst_saved_conn_info_version;
  dst_saved_foreign_network_versions =
      retain_fresh key_discrete now s.dst_saved_foreign_network_versions;
}
