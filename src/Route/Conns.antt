-- ===== src/Route/Conns.antt =====
-- The connections between peers in `SyncedRouteInfo` (easytier/src/peers/peer_ospf_route.rs): both forms
-- of `ConnInfo`, our own connections, and the networks of others that peers know.
use mathlib.Core.List.{lookup, List-discrete}
use mathlib.Core.Logic.{ite}
use neo_easy_tier_deamon.Prelude.{
  ℕ, zero, suc, ◌+◌, ◌*◌, ◌/◌, ◌%◌, ◌^◌, ◌≡◌, Bool, true, false, ◌&&◌, ◌||◌, not, Option, none,
  some, List, [], ◌∷◌, map, if◌then◌else◌, ltb, ◌==◌, get_elem?, length, ℕ_discrete,
}
use neo_easy_tier_deamon.Prelude.Text.{Text}
use neo_easy_tier_deamon.Prelude.Assoc.{put}
use neo_easy_tier_deamon.Route.Newest.{is_newer}
use neo_easy_tier_deamon.Route.Messages.{
  PeerIdVersion, RouteConnBitmap, PeerConnInfo, RouteConnPeerList, ConnInfo, conn_bitmap,
  conn_peer_list,
}
use neo_easy_tier_deamon.Route.Synced.{
  SyncedRouteInfo, NetworkKey, key_discrete, ForeignNetworkRouteInfoEntry, new_peer_info,
  inc_version, inc_if,
}
pub mod Filled
pub mod Merged

-- A `BTreeSet` is the ascending list of its elements.
unfoldable pub set_insert : ℕ → List ℕ → List ℕ
set_insert x [] = x ∷ []
set_insert x (y ∷ ys) =
    let rest = set_insert x ys in
    if ltb x y then x ∷ y ∷ ys else if x == y then y ∷ ys else y ∷ rest

unfoldable pub set_of : List ℕ → List ℕ
set_of [] = []
set_of (x ∷ xs) = set_insert x (set_of xs)

-- An entry of `conn_map`: the peers that a peer is connected to, and its version.
abbrev pub Conn : Type 0
Conn = List ℕ × ℕ

abbrev pub conn_version : Conn → ℕ
conn_version c = c.1

unfoldable pub has_key : {A : Type 0} → ℕ → List (ℕ × A) → Bool
has_key k m = elim (lookup ℕ_discrete k m) [ none ↦ false | some _ ↦ true ]

-- `map.entry(k).or_insert(a)`
unfoldable pub or_insert : {A : Type 0} → ℕ → A → List (ℕ × A) → List (ℕ × A)
or_insert k a m = if has_key k m then m else put ℕ_discrete k a m

-- `easytier_version` and `now` go into the infos that are filled in.
module _ {Raw : Type 0} (easytier_version : Text) (now : ℕ) where
  unfoldable pub fill_one : ℕ → SyncedRouteInfo Raw → SyncedRouteInfo Raw
  fill_one peer_id s = record s {
    peer_infos = or_insert peer_id (new_peer_info easytier_version now) s.peer_infos;
    conn_map = or_insert peer_id ([], 0) s.conn_map;
  }

  unfoldable pub fill_all : List ℕ → SyncedRouteInfo Raw → SyncedRouteInfo Raw
  fill_all [] s = s
  fill_all (peer_id ∷ peer_ids) s = fill_all peer_ids (fill_one peer_id s)

  -- Whether the loop has found a peer without an entry.
  unfoldable pub needs_fill : List ℕ → SyncedRouteInfo Raw → Bool
  needs_fill [] s = false
  needs_fill (peer_id ∷ peer_ids) s =
      not (has_key peer_id s.peer_infos && has_key peer_id s.conn_map)
      || needs_fill peer_ids (fill_one peer_id s)

  unfoldable pub fill_empty_peer_info : List ℕ → SyncedRouteInfo Raw → SyncedRouteInfo Raw
  fill_empty_peer_info peer_ids s = inc_if (needs_fill peer_ids s) (fill_all peer_ids s)

  -- `entry(peer_id).and_modify(…).or_insert_with(…)` on the connections.
  unfoldable pub merge_conn :
      (peer_id : ℕ) → Conn → SyncedRouteInfo Raw × Bool → SyncedRouteInfo Raw × Bool
  merge_conn peer_id c (s, need_inc_version) =
      if is_newer conn_version c (lookup ℕ_discrete peer_id s.conn_map)
      then (record s { conn_map = put ℕ_discrete peer_id c s.conn_map }, true)
      else (s, need_inc_version)

  -- One turn of either loop.
  unfoldable pub receive_conn :
      (peer_id : ℕ) → Conn → SyncedRouteInfo Raw × Bool → SyncedRouteInfo Raw × Bool
  receive_conn peer_id c (s, need_inc_version) =
      merge_conn peer_id c (fill_empty_peer_info c.0 s, need_inc_version)

-- `none` is the panic of an index out of bounds.
unfoldable pub get_bit : List ℕ → ℕ → Option Bool
get_bit bitmap idx = elim (get_elem? bitmap (idx / 8)) [
  | none ↦ none
  | some byte ↦ some ((byte / 2 ^ (idx % 8)) % 2 == 1)
]

-- The ids whose bit is set, from the position `idx` of the row `peer_idx` on.
unfoldable pub row_from :
    RouteConnBitmap → (peer_idx idx : ℕ) → List PeerIdVersion → Option (List ℕ)
row_from b peer_idx idx [] = some []
row_from b peer_idx idx (p ∷ ps) = elim (get_bit b.bitmap (peer_idx * length b.peer_ids + idx)) [
  | none ↦ none
  | some bit ↦ elim (row_from b peer_idx (idx + 1) ps) [
    | none ↦ none
    | some rest ↦ some (if bit then set_insert p.peer_id rest else rest)
  ]
]

unfoldable pub bitmap_connected_peers : RouteConnBitmap → (peer_idx : ℕ) → Option (List ℕ)
bitmap_connected_peers b peer_idx = row_from b peer_idx 0 b.peer_ids

module _ {Raw : Type 0} (easytier_version : Text) (now : ℕ) where
  unfoldable pub conn_map_loop :
      RouteConnBitmap
      → (peer_idx : ℕ) → List PeerIdVersion
      → SyncedRouteInfo Raw × Bool
      → Option (SyncedRouteInfo Raw × Bool)
  conn_map_loop b peer_idx [] c = some c
  conn_map_loop b peer_idx (p ∷ ps) c = elim (bitmap_connected_peers b peer_idx) [
    | none ↦ none
    | some peers ↦
        conn_map_loop b (peer_idx + 1) ps
          (receive_conn easytier_version now p.peer_id (peers, p.version) c)
  ]

  unfoldable pub finish : Option (SyncedRouteInfo Raw × Bool) → Option (SyncedRouteInfo Raw)
  finish none = none
  finish (some (s, need_inc_version)) = some (inc_if need_inc_version s)

  unfoldable pub update_conn_map :
      RouteConnBitmap → SyncedRouteInfo Raw → Option (SyncedRouteInfo Raw)
  update_conn_map b s = finish (
      conn_map_loop b 0 b.peer_ids (
        fill_empty_peer_info easytier_version now (set_of (map (λ p. p.peer_id) b.peer_ids)) s,
        false,
      ))

  unfoldable pub peer_list_loop :
      List PeerConnInfo → SyncedRouteInfo Raw × Bool → SyncedRouteInfo Raw × Bool
  peer_list_loop [] c = c
  peer_list_loop (i ∷ is) c = peer_list_loop is (elim i.peer_id [
    | none ↦ c
    | some p ↦
        receive_conn easytier_version now p.peer_id (set_of i.connected_peer_ids, p.version) c
  ])

  unfoldable pub update_conn_peer_list :
      RouteConnPeerList → SyncedRouteInfo Raw → SyncedRouteInfo Raw
  update_conn_peer_list l s = let r = peer_list_loop l.peer_conn_infos (s, false) in inc_if r.1 r.0

  unfoldable pub update_conn_info : ConnInfo → SyncedRouteInfo Raw → Option (SyncedRouteInfo Raw)
  update_conn_info (conn_bitmap b) s = update_conn_map b s
  update_conn_info (conn_peer_list l) s = some (update_conn_peer_list l s)

  -- Whether our connections have changed, and the new state.
  unfoldable pub update_my_conn_info :
      (my_peer_id : ℕ) (connected_peers : List ℕ) → SyncedRouteInfo Raw → Bool × SyncedRouteInfo Raw
  update_my_conn_info my_peer_id connected_peers s =
      let t = fill_empty_peer_info easytier_version now connected_peers s in
      let u : SyncedRouteInfo Raw = record t {
        conn_map = or_insert my_peer_id ([], 0) t.conn_map;
      } in
      elim (lookup ℕ_discrete my_peer_id u.conn_map) [
        | none ↦ (false, u)
        | some (old, version) ↦
            ite (List-discrete ℕ_discrete connected_peers old) (false, u)
              (
                true,
                inc_version (record u {
                  conn_map =
                      put ℕ_discrete my_peer_id (connected_peers, (version + 1) % 2 ^ 32)
                        u.conn_map;
                }),
              )
      ]

abbrev pub entry_version : ForeignNetworkRouteInfoEntry → ℕ
entry_version e = e.version

-- An item of `RouteForeignNetworkInfos`, both of whose parts are optional.
pub record NetworkItem : Type 0 where
  pub key : Option NetworkKey
  pub value : Option ForeignNetworkRouteInfoEntry

unfoldable pub merge_network :
    (now : ℕ)
    → NetworkKey
    → ForeignNetworkRouteInfoEntry
    → List (NetworkKey × ForeignNetworkRouteInfoEntry)
    → List (NetworkKey × ForeignNetworkRouteInfoEntry)
merge_network now key entry m =
    let e : ForeignNetworkRouteInfoEntry = record entry { last_update = some now } in
    if is_newer entry_version e (lookup key_discrete key m) then put key_discrete key e m else m

unfoldable pub merge_networks :
    (now : ℕ)
    → List NetworkItem
    → List (NetworkKey × ForeignNetworkRouteInfoEntry)
    → List (NetworkKey × ForeignNetworkRouteInfoEntry)
merge_networks now [] m = m
merge_networks now (i ∷ is) m = merge_networks now is (elim i.key [
  | none ↦ m
  | some key ↦ elim i.value [ none ↦ m | some entry ↦ merge_network now key entry m ]
])

unfoldable pub update_foreign_network :
    {Raw : Type 0} (now : ℕ) → List NetworkItem → SyncedRouteInfo Raw → SyncedRouteInfo Raw
update_foreign_network now infos s = record s {
  foreign_network = merge_networks now infos s.foreign_network;
}
