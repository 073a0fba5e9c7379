-- ===== src/Route/Messages.antt =====
-- The messages that peers exchange about routes: `RoutePeerInfo` and its parts, the two forms of
-- the connections of peers, and `PeerGroupInfo` of easytier/src/proto/peer_rpc.proto.
use neo_easy_tier_deamon.Prelude.{ℕ, Bool, Option, List}
use neo_easy_tier_deamon.Prelude.Text.{Text}

pub record PeerFeatureFlag : Type 0 where
  pub is_public_server : Bool
  pub avoid_relay_data : Bool
  pub kcp_input : Bool
  pub no_relay_kcp : Bool
  pub support_conn_list_sync : Bool

-- The address is one number of 128 bits; `address` is optional as each message in a message.
pub record Ipv6Inet : Type 0 where
  pub address : Option ℕ
  pub network_length : ℕ

pub record PeerGroupInfo : Type 0 where
  pub group_name : Text
  pub group_proof : Text

pub record RoutePeerInfo : Type 0 where
  pub peer_id : ℕ
  pub inst_id : Option ℕ
  pub cost : ℕ
  pub ipv4_addr : Option ℕ
  pub proxy_cidrs : List Text
  pub hostname : Option Text
  pub udp_stun_info : ℕ
  pub last_update : Option ℕ
  pub version : ℕ
  pub easytier_version : Text
  pub feature_flag : Option PeerFeatureFlag
  pub peer_route_id : ℕ
  pub network_length : ℕ
  pub quic_port : Option ℕ
  pub ipv6_addr : Option Ipv6Inet
  pub groups : List PeerGroupInfo

pub record PeerIdVersion : Type 0 where
  pub peer_id : ℕ
  pub version : ℕ

pub record RouteConnBitmap : Type 0 where
  pub peer_ids : List PeerIdVersion
  pub bitmap : List ℕ

pub record PeerConnInfo : Type 0 where
  pub peer_id : Option PeerIdVersion
  pub connected_peer_ids : List ℕ

pub record RouteConnPeerList : Type 0 where
  pub peer_conn_infos : List PeerConnInfo

pub data ConnInfo : Type 0 where
  conn_bitmap : RouteConnBitmap → ConnInfo
  conn_peer_list : RouteConnPeerList → ConnInfo
