-- ===== src/Route/Conns/Merged.antt =====
-- `update_conn_info`: what the connections become by those that are received.
use mathlib.Core.Path.{subst}
use mathlib.Core.Option.{some-injective}
use native.Mathlib.Omega.{arith}
use neo_easy_tier_deamon.Prelude.{
  ℕ, ◌+◌, ◌≡◌, refl, sym, ap, ◌∙◌, inl, inr, List, [], ◌∷◌, ◌++◌, map, Option, none, some, Bool,
  false, Option-cases,
}
use neo_easy_tier_deamon.Prelude.Text.{Text}
use neo_easy_tier_deamon.Route.Messages.{
  PeerIdVersion, RouteConnBitmap, PeerConnInfo, ConnInfo, conn_bitmap, conn_peer_list,
}
use neo_easy_tier_deamon.Route.Synced.{SyncedRouteInfo, inc_if}
use neo_easy_tier_deamon.Route.Conns.{
  Conn, set_of, bitmap_connected_peers, receive_conn, conn_map_loop, finish, update_conn_map,
  peer_list_loop, update_conn_peer_list, update_conn_info, fill_empty_peer_info,
}
use neo_easy_tier_deamon.Route.Conns.Filled.{
  conn_of, IsNewestConn, mentioned, turn, no_conns, more_conns, fill-IsNewest,
  receive_conn-IsNewest, inc_if_conns,
}

-- The entries that a list of connections carries.
unfoldable pub conns_of_list : List PeerConnInfo → List (ℕ × Conn)
conns_of_list [] = []
conns_of_list (i ∷ is) = elim i.peer_id [
  | none ↦ conns_of_list is
  | some p ↦ turn p.peer_id (set_of i.connected_peer_ids, p.version) ++ conns_of_list is
]

-- The entries of the rows of a bitmap from `peer_idx` on, unless a bit is missing.
unfoldable pub conns_of_rows :
    RouteConnBitmap → (peer_idx : ℕ) → List PeerIdVersion → Option (List (ℕ × Conn))
conns_of_rows b peer_idx [] = some []
conns_of_rows b peer_idx (p ∷ ps) = elim (bitmap_connected_peers b peer_idx) [
  | none ↦ none
  | some peers ↦ elim (conns_of_rows b (peer_idx + 1) ps) [
    | none ↦ none
    | some rest ↦ some (turn p.peer_id (peers, p.version) ++ rest)
  ]
]

-- The entries that a message carries; each peer that it mentions has one of version 0 at least.
unfoldable pub conns_of : ConnInfo → Option (List (ℕ × Conn))
conns_of (conn_peer_list l) = some (conns_of_list l.peer_conn_infos)
conns_of (conn_bitmap b) = elim (conns_of_rows b 0 b.peer_ids) [
  | none ↦ none
  | some rows ↦ some (map mentioned (set_of (map (λ p. p.peer_id) b.peer_ids)) ++ rows)
]

module _ {Raw : Type 0} (easytier_version : Text) (now : ℕ) where
  peer_list_loop-IsNewest :
      (is : List PeerConnInfo) (s : SyncedRouteInfo Raw) (b : Bool) (p : ℕ)
      → IsNewestConn
          (conns_of_list is)
          p
          (conn_of s p)
          (conn_of (peer_list_loop easytier_version now is (s, b)).0 p)
  unfolding peer_list_loop conns_of_list
  peer_list_loop-IsNewest [] s b p = no_conns p (conn_of s p)
  peer_list_loop-IsNewest (i ∷ is) s b p =
      elim i.peer_id
        as (λ o.
          IsNewestConn
            (elim o [
              | none ↦ conns_of_list is
              | some q ↦ turn q.peer_id (set_of i.connected_peer_ids, q.version) ++ conns_of_list is
            ])
            p (conn_of s p)
            (conn_of {Raw = Raw}
              (peer_list_loop easytier_version now is (elim o [
                | none ↦ (s, b)
                | some q ↦
                    receive_conn easytier_version now q.peer_id
                      (set_of i.connected_peer_ids, q.version) (s, b)
              ])).0
              p)) [
                | none ↦ peer_list_loop-IsNewest is s b p
                | some q ↦
                    let k : Conn = (set_of i.connected_peer_ids, q.version) in
                    let c = receive_conn easytier_version now q.peer_id k (s, b) in
                    more_conns (turn q.peer_id k) (conns_of_list is) p (conn_of s p) (conn_of c.0 p)
                      (conn_of (peer_list_loop easytier_version now is c).0 p)
                      (receive_conn-IsNewest easytier_version now q.peer_id k s b p)
                      (peer_list_loop-IsNewest is c.0 c.1 p)
              ]

  conn_map_loop-IsNewest :
      (m : RouteConnBitmap) (idx : ℕ) (ps : List PeerIdVersion) (s : SyncedRouteInfo Raw) (b : Bool)
      (items : List (ℕ × Conn))
      → conns_of_rows m idx ps ≡ some items
      → (c : SyncedRouteInfo Raw × Bool) × (conn_map_loop easytier_version now m idx ps (s, b)
          ≡ some c)
        × ((p : ℕ) → IsNewestConn items p (conn_of s p) (conn_of c.0 p))
  unfolding conn_map_loop conns_of_rows
  conn_map_loop-IsNewest m idx [] s b items e = (
    (s, b),
    refl,
    λ p.
        subst (λ l. IsNewestConn l p (conn_of s p) (conn_of s p)) (some-injective _ _ e)
          (no_conns p (conn_of s p)),
  )
  conn_map_loop-IsNewest m idx (q ∷ ps) s b items e =
      elim (Option-cases (bitmap_connected_peers m idx)) [
        | inl miss ↦ absurd (ground (arith, e, miss))
        | inr (peers, found) ↦ elim (Option-cases (conns_of_rows m (idx + 1) ps)) [
          | inl miss ↦ absurd (ground (arith, e, found, miss))
          | inr (rest, more) ↦
              let k : Conn = (peers, q.version) in
              let c = receive_conn easytier_version now q.peer_id k (s, b) in
              let all : turn q.peer_id k ++ rest ≡ items = ground (arith, e, found, more) in
              let (d, returns, newest) = conn_map_loop-IsNewest m (idx + 1) ps c.0 c.1 rest more in
              (
                d,
                rw (found, conn_map_loop) returns,
                λ p.
                    subst (λ l. IsNewestConn l p (conn_of s p) (conn_of d.0 p)) all
                      (more_conns (turn q.peer_id k) rest p (conn_of s p) (conn_of c.0 p)
                        (conn_of d.0 p)
                        (receive_conn-IsNewest easytier_version now q.peer_id k s b p) (newest p)),
              )
        ]
      ]

  update_conn_map-IsNewest :
      (m : RouteConnBitmap) (s : SyncedRouteInfo Raw) (items : List (ℕ × Conn))
      → conns_of (conn_bitmap m) ≡ some items
      → (t : SyncedRouteInfo Raw) × (update_conn_map easytier_version now m s ≡ some t)
        × ((p : ℕ) → IsNewestConn items p (conn_of s p) (conn_of t p))
  unfolding update_conn_map conns_of
  update_conn_map-IsNewest m s items e = elim (Option-cases (conns_of_rows m 0 m.peer_ids)) [
    | inl miss ↦ absurd (ground (arith, e, miss))
    | inr (rows, found) ↦
        let ids = set_of (map (λ (p : PeerIdVersion). p.peer_id) m.peer_ids) in
        let u = fill_empty_peer_info easytier_version now ids s in
        let (c, returns, newest) = conn_map_loop-IsNewest m 0 m.peer_ids u false rows found in
        let all : map mentioned ids ++ rows ≡ items = ground (arith, e, found) in
        (
          inc_if c.1 c.0,
          ap (finish easytier_version now) returns ∙ unfold finish in refl,
          λ p.
              subst (λ l. IsNewestConn l p (conn_of s p) (conn_of (inc_if c.1 c.0) p)) all
                (subst (IsNewestConn (map mentioned ids ++ rows) p (conn_of s p))
                  (sym (inc_if_conns easytier_version now c.1 c.0 p))
                  (more_conns (map mentioned ids) rows p (conn_of s p) (conn_of u p) (conn_of c.0 p)
                    (fill-IsNewest easytier_version now ids s p) (newest p))),
        )
  ]

-- A message about connections whose bits are all there is taken in with no panic, in either form.
-- Afterwards each peer's connections are the old ones, unless an entry of higher version was received:
-- then they are one of highest version among those. A peer that is only mentioned counts as an entry of
-- version 0 with no connections.
pub update_conn_info_lem :
    {Raw : Type 0} (easytier_version : Text) (now : ℕ) (info : ConnInfo) (s : SyncedRouteInfo Raw)
    (items : List (ℕ × Conn))
    → conns_of info ≡ some items
    → (t : SyncedRouteInfo Raw) × (update_conn_info easytier_version now info s ≡ some t)
      × ((p : ℕ) → IsNewestConn items p (conn_of s p) (conn_of t p))
unfolding update_conn_info
update_conn_info_lem easytier_version now (conn_bitmap b) s items e =
    update_conn_map-IsNewest easytier_version now b s items e
update_conn_info_lem easytier_version now (conn_peer_list l) s items e =
    let r = peer_list_loop easytier_version now l.peer_conn_infos (s, false) in
    let all : conns_of_list l.peer_conn_infos ≡ items = unfold conns_of in some-injective _ _ e in
    (
      inc_if r.1 r.0,
      unfold update_conn_peer_list in refl,
      λ p.
          subst (λ k. IsNewestConn k p (conn_of s p) (conn_of (inc_if r.1 r.0) p)) all
            (subst (IsNewestConn (conns_of_list l.peer_conn_infos) p (conn_of s p))
              (sym (inc_if_conns easytier_version now r.1 r.0 p))
              (peer_list_loop-IsNewest easytier_version now l.peer_conn_infos s false p)),
    )
