-- ===== src/Route/Trust.antt =====
-- The groups that a peer is trusted to be in: `verify_and_update_group_trusts` and
-- `update_my_group_trusts` of `SyncedRouteInfo` (easytier/src/peers/peer_ospf_route.rs).
use mathlib.Core.List.{lookup, Memᴰ}
use neo_easy_tier_deamon.Prelude.{
  ℕ, ◌≡◌, Bool, true, false, Option, none, some, List, [], ◌∷◌, ◌++◌, map, if◌then◌else◌,
  ℕ_discrete,
}
use mathlib.Core.Logic.{ite}
use neo_easy_tier_deamon.Prelude.Text.{Text, text_discrete}
use neo_easy_tier_deamon.Prelude.Assoc.{put, remove}
use neo_easy_tier_deamon.Route.Conns.{or_insert}
use neo_easy_tier_deamon.Route.Messages.{RoutePeerInfo, PeerGroupInfo}
use neo_easy_tier_deamon.Route.Synced.{SyncedRouteInfo}
pub mod Proofs
pub mod Caches
pub mod Shown
pub mod Earned

-- `GroupIdentity`: a name and its secret.
pub record GroupIdentity : Type 0 where
  pub group_name : Text
  pub group_secret : Text

-- `iter().map(…).collect::<HashMap>()`: the last of two entries of one name stays.
unfoldable pub declared_from : List (Text × Text) → List GroupIdentity → List (Text × Text)
declared_from m [] = m
declared_from m (g ∷ gs) = declared_from (put text_discrete g.group_name g.group_secret m) gs

unfoldable pub declared : List GroupIdentity → List (Text × Text)
declared gs = declared_from [] gs

-- Whether this proof of the group was trusted before.
unfoldable pub was_trusted : Option (List (Text × Text)) → PeerGroupInfo → Bool
was_trusted none g = false
was_trusted (some old) g = elim (lookup text_discrete g.group_name old) [
  | none ↦ false
  | some p ↦ ite (text_discrete p g.group_proof) true false
]

-- `verify` is `PeerGroupInfo::verify`: the proof, the secret and the peer, by HMAC-SHA256.
module _ (verify : PeerGroupInfo → (group_secret : Text) → (peer_id : ℕ) → Bool) where
  unfoldable pub is_verified : List (Text × Text) → PeerGroupInfo → ℕ → Bool
  is_verified secrets g peer_id = elim (lookup text_discrete g.group_name secrets) [
    | none ↦ false
    | some secret ↦ verify g secret peer_id
  ]

  -- The loop of `verify_groups`.
  unfoldable pub verify_groups_from :
      List (Text × Text)
      → Option (List (Text × Text))
      → ℕ
      → List PeerGroupInfo
      → List (Text × Text)
      → List (Text × Text)
  verify_groups_from secrets old peer_id [] trusted = trusted
  verify_groups_from secrets old peer_id (g ∷ gs) trusted =
      verify_groups_from secrets old peer_id gs (
        if was_trusted old g
        then put text_discrete g.group_name g.group_proof trusted
        else if is_verified secrets g peer_id
        then put text_discrete g.group_name g.group_proof trusted
        else trusted)

  unfoldable pub verify_groups :
      List (Text × Text) → Option (List (Text × Text)) → RoutePeerInfo → List (Text × Text)
  verify_groups secrets old info = verify_groups_from secrets old info.peer_id info.groups []

  -- The new groups of a peer go into the map and, as names, into its cache.
  unfoldable pub set_trust :
      {Raw : Type 0} → ℕ → List (Text × Text) → SyncedRouteInfo Raw → SyncedRouteInfo Raw
  set_trust peer_id trusted s = record s {
    group_trust_map = put ℕ_discrete peer_id trusted s.group_trust_map;
    group_trust_map_cache = put ℕ_discrete peer_id (map (λ g. g.0) trusted) s.group_trust_map_cache;
  }

  unfoldable pub drop_trust : {Raw : Type 0} → ℕ → SyncedRouteInfo Raw → SyncedRouteInfo Raw
  drop_trust peer_id s = record s {
    group_trust_map = remove ℕ_discrete peer_id s.group_trust_map;
    group_trust_map_cache = remove ℕ_discrete peer_id s.group_trust_map_cache;
  }

  -- The two arms of the match on the entry of a peer.
  unfoldable pub trust_occupied :
      {Raw : Type 0} → ℕ → List (Text × Text) → SyncedRouteInfo Raw → SyncedRouteInfo Raw
  trust_occupied peer_id [] s = drop_trust peer_id s
  trust_occupied peer_id (g ∷ gs) s = set_trust peer_id (g ∷ gs) s

  unfoldable pub trust_vacant :
      {Raw : Type 0} → ℕ → List (Text × Text) → SyncedRouteInfo Raw → SyncedRouteInfo Raw
  trust_vacant peer_id [] s = s
  trust_vacant peer_id (g ∷ gs) s = set_trust peer_id (g ∷ gs) s

  unfoldable pub verify_info :
      {Raw : Type 0}
      → List (Text × Text)
      → RoutePeerInfo
      → SyncedRouteInfo Raw
      → SyncedRouteInfo Raw
  verify_info secrets info s = elim (lookup ℕ_discrete info.peer_id s.group_trust_map) [
    | none ↦ trust_vacant info.peer_id (verify_groups secrets none info) s
    | some old ↦ trust_occupied info.peer_id (verify_groups secrets (some old) info) s
  ]

  unfoldable pub verify_infos :
      {Raw : Type 0}
      → List (Text × Text)
      → List RoutePeerInfo
      → SyncedRouteInfo Raw
      → SyncedRouteInfo Raw
  verify_infos secrets [] s = s
  verify_infos secrets (info ∷ infos) s = verify_infos secrets infos (verify_info secrets info s)

  unfoldable pub verify_and_update_group_trusts :
      {Raw : Type 0}
      → List RoutePeerInfo
      → List GroupIdentity
      → SyncedRouteInfo Raw
      → SyncedRouteInfo Raw
  verify_and_update_group_trusts infos local_group_declarations s =
      verify_infos (declared local_group_declarations) infos s

-- Our own groups, of the proofs in our own info (`default_info` where there is none yet).
unfoldable pub my_groups_from : List PeerGroupInfo → List (Text × Text) → List (Text × Text)
my_groups_from [] m = m
my_groups_from (g ∷ gs) m = my_groups_from gs (put text_discrete g.group_name g.group_proof m)

module _ {Raw : Type 0} (default_info : RoutePeerInfo) where
  unfoldable pub my_info : ℕ → SyncedRouteInfo Raw → RoutePeerInfo
  my_info my_peer_id s = elim (lookup ℕ_discrete my_peer_id s.peer_infos) [
    | none ↦ default_info
    | some x ↦ x
  ]

  unfoldable pub update_my_group_trusts : ℕ → SyncedRouteInfo Raw → SyncedRouteInfo Raw
  update_my_group_trusts my_peer_id s =
      let info = my_info my_peer_id s in
      record s {
        peer_infos = or_insert my_peer_id default_info s.peer_infos;
        group_trust_map =
            put ℕ_discrete my_peer_id (my_groups_from info.groups []) s.group_trust_map;
        group_trust_map_cache =
            put ℕ_discrete my_peer_id (map (λ g. g.group_name) info.groups) s.group_trust_map_cache;
      }
