-- ===== src/Route/Session/Restart.antt =====
-- `update_dst_session_id`: what a session forgets when the other peer has started again.
use mathlib.Core.List.{lookup}
use native.Mathlib.Omega.{arith}
use neo_easy_tier_deamon.Prelude.{ℕ, ◌≡◌, ◌≢◌, false}
use neo_easy_tier_deamon.Route.Synced.{NetworkKey}
use neo_easy_tier_deamon.Route.Session.{
  SyncRouteSession, is_saved, check_saved_peer_info_update_to_date,
  check_saved_conn_version_update_to_date, check_saved_foreign_network_version_update_to_date,
  update_dst_session_id,
}

-- A session id that differs from the known one makes the session forget which infos and which connections the
-- other peer knows, so that all of them (but those of the other peer itself, and version 0) are sent again. What
-- it takes the other peer to know of foreign networks stays as it was.
pub update_dst_session_id-forgets :
    (session_id now p v : ℕ) (key : NetworkKey) (w : ℕ) (s : SyncRouteSession)
    → session_id ≢ s.dst_session_id
    → p ≢ s.dst_peer_id
    → v ≢ 0
    → ((check_saved_peer_info_update_to_date now p v (update_dst_session_id session_id s)).0
        ≡ false)
      × ((check_saved_conn_version_update_to_date now p v (update_dst_session_id session_id s)).0
          ≡ false)
      × ((check_saved_foreign_network_version_update_to_date now key w
            (update_dst_session_id session_id s)).0
          ≡ (check_saved_foreign_network_version_update_to_date now key w s).0)
unfolding update_dst_session_id check_saved_peer_info_update_to_date
    check_saved_conn_version_update_to_date check_saved_foreign_network_version_update_to_date
    is_saved lookup
update_dst_session_id-forgets session_id now p v key w s d n z =
    (ground (arith, d, n, z), ground (arith, d, n, z), ground (arith, d))
