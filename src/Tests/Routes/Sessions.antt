-- ===== src/Tests/Routes/Sessions.antt =====
-- Examples of connections, of trusted groups and of the session with one peer.
use mathlib.Core.List.{lookup}
use native.Mathlib.Omega.{arith}
use neo_easy_tier_deamon.Prelude.{
  ℕ, ◌≡◌, ◌↔◌, ◌⊎◌, refl, Bool, true, false, List, [], ◌∷◌, some, ℕ_discrete,
}
use neo_easy_tier_deamon.Prelude.Text.{Text, codes, text_discrete, decide_cons}
use neo_easy_tier_deamon.Prelude.Assoc.{put}
use neo_easy_tier_deamon.Route.Messages.{RoutePeerInfo, PeerGroupInfo, ConnInfo, conn_bitmap}
use neo_easy_tier_deamon.Route.Synced.{SyncedRouteInfo, new_peer_info, remove_peer}
use neo_easy_tier_deamon.Route.Conns.{
  Conn, update_conn_info, set_of, set_insert, bitmap_connected_peers, row_from, get_bit,
}
use neo_easy_tier_deamon.Route.Conns.Filled.{conn_of, IsNewestConn, mentioned}
use neo_easy_tier_deamon.Route.Conns.Merged.{conns_of, conns_of_rows, update_conn_info_lem}
use neo_easy_tier_deamon.Route.Trust.{
  GroupIdentity, declared, declared_from, verify_and_update_group_trusts, verify_infos, verify_info,
  verify_groups, verify_groups_from, was_trusted, is_verified, trust_vacant, set_trust,
}
use neo_easy_tier_deamon.Route.Trust.Caches.{IsInStep, names, trusts-IsInStep}
use neo_easy_tier_deamon.Route.Trust.Proofs.{Has, trust_of}
use neo_easy_tier_deamon.Route.Trust.Earned.{IsEarned, verify_and_update_group_trusts-IsEarned}
use neo_easy_tier_deamon.Route.Session.{
  SyncRouteSession, new_session, check_saved_peer_info_update_to_date,
  check_saved_conn_version_update_to_date, check_saved_foreign_network_version_update_to_date,
  update_dst_saved_peer_info_version, update_dst_session_id,
}
use neo_easy_tier_deamon.Route.Session.Saved.{Told, update_dst_saved_peer_info_version_iff}
use neo_easy_tier_deamon.Route.Session.Restart.{update_dst_session_id-forgets}

abbrev nothing : SyncedRouteInfo ℕ
nothing = record {
  peer_infos = [];
  raw_peer_infos = [];
  conn_map = [];
  foreign_network = [];
  group_trust_map = [];
  group_trust_map_cache = [];
  version = 0;
}

-- The peer 2 is connected to 3, and 3 to 2 and to itself.
abbrev bits : ConnInfo
bits = conn_bitmap (record {
  peer_ids = record { peer_id = 2; version = 4 } ∷ record { peer_id = 3; version = 5 } ∷ [];
  bitmap = 14 ∷ [];
})

abbrev conns : List (ℕ × Conn)
conns =
    (2, ([], 0))
    ∷ (3, ([], 0))
    ∷ (3, ([], 0))
    ∷ (2, (3 ∷ [], 4))
    ∷ (2, ([], 0))
    ∷ (3, ([], 0))
    ∷ (3, (2 ∷ 3 ∷ [], 5))
    ∷ []

conns_of-bits : conns_of bits ≡ some conns
unfolding conns_of conns_of_rows bitmap_connected_peers row_from get_bit set_of set_insert mentioned
conns_of-bits = refl

update_conn_info_example :
    (t : SyncedRouteInfo ℕ) × (update_conn_info [] 9 bits nothing ≡ some t)
    × ((p : ℕ) → IsNewestConn conns p (conn_of nothing p) (conn_of t p))
update_conn_info_example = update_conn_info_lem [] 9 bits nothing conns conns_of-bits

-- A proof is the secret here.
abbrev verify : PeerGroupInfo → Text → ℕ → Bool
verify g secret peer_id = elim (text_discrete g.group_proof secret) [ yes _ ↦ true | no _ ↦ false ]

abbrev member : RoutePeerInfo
unfolding new_peer_info
member = record (new_peer_info [] 0) {
  peer_id = 2;
  groups = record { group_name = codes "g"; group_proof = codes "s" } ∷ [];
}

abbrev identities : List GroupIdentity
identities = record { group_name = codes "g"; group_secret = codes "s" } ∷ []

nothing-IsInStep : IsInStep nothing
unfolding lookup names
nothing-IsInStep = record { step = λ p. refl }

trusts-IsInStep_example :
    IsInStep (verify_and_update_group_trusts verify (member ∷ []) identities nothing)
    × IsInStep (remove_peer 2 nothing)
trusts-IsInStep_example = trusts-IsInStep verify (member ∷ []) identities 2 nothing nothing-IsInStep

trusts_member :
    Has
      (trust_of (verify_and_update_group_trusts verify (member ∷ []) identities nothing) 2)
      (codes "g")
      (codes "s")
unfolding verify_and_update_group_trusts verify_infos verify_info verify_groups verify_groups_from
    was_trusted is_verified trust_vacant set_trust declared declared_from lookup put new_peer_info
    text_discrete decide_cons ℕ_discrete
trusts_member = ((codes "g", codes "s") ∷ [], refl, refl)

verify_and_update_group_trusts_example :
    IsEarned verify (declared identities) (member ∷ []) nothing 2 (codes "g") (codes "s")
verify_and_update_group_trusts_example =
    verify_and_update_group_trusts-IsEarned verify (member ∷ []) identities nothing 2 (codes "g")
      (codes "s") trusts_member

abbrev session : SyncRouteSession
session = new_session 1 2 77

update_dst_saved_peer_info_version_example :
    ((check_saved_peer_info_update_to_date 5 3 4
        (update_dst_saved_peer_info_version 4 (member ∷ []) session.dst_peer_id session)).0
      ≡ true)
    ↔ (((check_saved_peer_info_update_to_date 5 3 4 session).0 ≡ true) ⊎ Told (member ∷ []) 3 4)
unfolding new_session
update_dst_saved_peer_info_version_example =
    update_dst_saved_peer_info_version_iff 4 5 3 4 (member ∷ []) session (omega arith) (omega arith)

update_dst_session_id_example :
    ((check_saved_peer_info_update_to_date 5 3 4 (update_dst_session_id 8 session)).0 ≡ false)
    × ((check_saved_conn_version_update_to_date 5 3 4 (update_dst_session_id 8 session)).0 ≡ false)
    × ((check_saved_foreign_network_version_update_to_date 5
          (3, codes "n")
          4
          (update_dst_session_id 8 session)).0
        ≡ (check_saved_foreign_network_version_update_to_date 5 (3, codes "n") 4 session).0)
unfolding new_session
update_dst_session_id_example =
    update_dst_session_id-forgets 8 5 3 4 (3, codes "n") 4 session (omega arith) (omega arith)
      (omega arith)
