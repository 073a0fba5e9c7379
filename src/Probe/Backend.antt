-- ===== src/Probe/Backend.antt =====
-- The backend's data and the two requests of neo-uptime-node/src/backend_client.rs. The HTTP
-- exchange (reqwest, serde) is a parameter: what each request gave in the end.
use neo_easy_tier_deamon.Prelude.{Bool, Option, none, some, List, [], ◌∷◌, ◌++◌}
use neo_easy_tier_deamon.Prelude.Int.{ℤ}
use neo_easy_tier_deamon.Prelude.Text.{Text, codes}
use neo_easy_tier_deamon.Prelude.Text.Decimal.{format_i32}

pub record BackendPeer : Type 0 where
  pub id : ℤ
  pub name : Text
  pub description : Option Text
  pub sponsor : Option Text
  pub location : Option Text
  pub allow_relay : Option Bool
  pub public_ip : Option Text
  pub protocol : Option Text
  pub network_name : Option Text
  pub network_secret : Option Text
  pub status : Text
  pub latency_ms : Option ℤ
  pub peer : Option ℤ
  pub last_heartbeat : Option Text

pub record NodeStatus : Type 0 where
  pub node_id : ℤ
  pub status : Text
  pub latency_ms : Option ℤ
  pub peer : Option ℤ
  pub last_heartbeat : Option Text

pub record NodePrivateInfo : Type 0 where
  pub id : ℤ
  pub name : Option Text
  pub protocol : Option Text
  pub description : Option Text
  pub sponsor : Option Text
  pub location : Option Text
  pub allow_relay : Option Bool
  pub created_at : Option Text
  pub updated_at : Option Text
  pub public_ip : Option Text
  pub network_name : Option Text
  pub network_secret : Option Text

-- `name.or_else(network_name).unwrap_or_else("node-{id}")`
abbrev pub peer_name : Option Text → Option Text → ℤ → Text
peer_name (some n) _ i = n
peer_name none (some n) i = n
peer_name none none i = codes "node-" ++ format_i32 i

abbrev pub combine : NodeStatus → NodePrivateInfo → BackendPeer
combine st info = record {
  id = info.id;
  name = peer_name info.name info.network_name info.id;
  description = info.description;
  sponsor = info.sponsor;
  location = info.location;
  allow_relay = info.allow_relay;
  public_ip = info.public_ip;
  protocol = info.protocol;
  network_name = info.network_name;
  network_secret = info.network_secret;
  status = st.status;
  latency_ms = st.latency_ms;
  peer = st.peer;
  last_heartbeat = st.last_heartbeat;
}

-- The second step, for each status. `private_info i` is `none` where the request for node `i`
-- fails, is refused, or gives no `NodePrivateInfo`.
unfoldable pub fetch_private : (ℤ → Option NodePrivateInfo) → List NodeStatus → List BackendPeer
fetch_private private_info [] = []
fetch_private private_info (st ∷ sts) =
    let rest = fetch_private private_info sts in
    elim (private_info st.node_id) [ none ↦ rest | some info ↦ combine st info ∷ rest ]

-- `statuses` is `none` where the first request fails.
unfoldable pub fetch_peers :
    Option (List NodeStatus) → (ℤ → Option NodePrivateInfo) → Option (List BackendPeer)
unfolding fetch_private
fetch_peers none private_info = none
fetch_peers (some sts) private_info = some (fetch_private private_info sts)
