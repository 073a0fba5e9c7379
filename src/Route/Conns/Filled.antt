-- ===== src/Route/Conns/Filled.antt =====
-- Entries for peers that others mention, and one turn of the loops over connections.
use mathlib.Core.List.{lookup, Memᴰ}
use mathlib.Core.List.Memᴰ
use mathlib.Core.Path.{subst}
use native.Mathlib.Omega.{arith}
use neo_easy_tier_deamon.Prelude.{
  ℕ, ◌≡◌, refl, sym, ap, ◌∙◌, inl, inr, List, [], ◌∷◌, ◌++◌, map, Option, ℕ_discrete, Bool, true,
  false, Bool-cases, Option-cases, if_true, if_false, if◌then◌else◌,
}
use neo_easy_tier_deamon.Prelude.Text.{Text}
use neo_easy_tier_deamon.Prelude.Assoc.{put}
use neo_easy_tier_deamon.Prelude.Mem.{mem-append_left, mem-append_right, mem-of_append}
use neo_easy_tier_deamon.Route.Newest.{
  IsNewest, none_received, then_received, is_newer, store-IsNewest, keep-IsNewest,
}
use neo_easy_tier_deamon.Route.Synced.{SyncedRouteInfo, inc_if, inc_version}
use neo_easy_tier_deamon.Route.Conns.{
  Conn, conn_version, has_key, or_insert, fill_one, fill_all, fill_empty_peer_info, merge_conn,
  receive_conn, needs_fill,
}

abbrev pub conn_of : {Raw : Type 0} → SyncedRouteInfo Raw → ℕ → Option Conn
conn_of s p = lookup ℕ_discrete p s.conn_map

-- What is received of the connections of `p`, among entries for several peers.
abbrev pub IsNewestConn : List (ℕ × Conn) → ℕ → Option Conn → Option Conn → Type 0
IsNewestConn items p = IsNewest conn_version (λ x. Memᴰ (p, x) items)

-- The entry of a peer that is only mentioned.
unfoldable pub mentioned : ℕ → ℕ × Conn
mentioned p = (p, ([], 0))

-- What one turn receives: the peers that are mentioned, and the connections of one peer.
abbrev pub turn : ℕ → Conn → List (ℕ × Conn)
turn k c = map mentioned c.0 ++ (k, c) ∷ []

pub no_conns : (p : ℕ) (o : Option Conn) → IsNewestConn [] p o o
no_conns p o = none_received conn_version (λ x. Memᴰ (p, x) []) o (λ x m. Memᴰ.not-nil m)

pub more_conns :
    (xs ys : List (ℕ × Conn)) (p : ℕ) (a b c : Option Conn)
    → IsNewestConn xs p a b
    → IsNewestConn ys p b c
    → IsNewestConn (xs ++ ys) p a c
more_conns xs ys p a b c h k =
    then_received conn_version (λ x. Memᴰ (p, x) xs) (λ x. Memᴰ (p, x) ys)
      (λ x. Memᴰ (p, x) (xs ++ ys)) (λ x m. mem-append_left (p, x) xs ys m)
      (λ x m. mem-append_right (p, x) xs ys m) (λ x m. mem-of_append (p, x) xs ys m) a b c h k

-- One entry, whether it is written or not.
one_conn :
    (k p : ℕ) (c : Conn) (m n : List (ℕ × Conn))
    → n ≡ (if is_newer conn_version c (lookup ℕ_discrete k m) then put ℕ_discrete k c m else m)
    → IsNewestConn ((k, c) ∷ []) p (lookup ℕ_discrete p m) (lookup ℕ_discrete p n)
one_conn k p c m n e =
    let one : IsNewest conn_version (λ x. (x ≡ c) × (k ≡ p)) (lookup ℕ_discrete p m)
        (lookup ℕ_discrete p n) =
      elim (Bool-cases (is_newer conn_version c (lookup ℕ_discrete k m))) [
        | inl y ↦
            subst
              (λ o.
                IsNewest conn_version (λ x. (x ≡ c) × (k ≡ p)) (lookup ℕ_discrete p m)
                  (lookup ℕ_discrete p o))
              (sym (e ∙ if_true _ _ _ y)) (store-IsNewest conn_version ℕ_discrete k p c m y)
        | inr z ↦
            subst
              (λ o.
                IsNewest conn_version (λ x. (x ≡ c) × (k ≡ p)) (lookup ℕ_discrete p m)
                  (lookup ℕ_discrete p o))
              (sym (e ∙ if_false _ _ _ z)) (keep-IsNewest conn_version ℕ_discrete k p c m z)
      ] in
    then_received conn_version (λ x. (x ≡ c) × (k ≡ p)) (λ x. Memᴰ (p, x) [])
      (λ x. Memᴰ (p, x) ((k, c) ∷ [])) (λ x q. Memᴰ.head (cc (q.0, q.1)))
      (λ x q. absurd (Memᴰ.not-nil q))
      (λ x q.
        let i = Memᴰ.eq_of_singleton q in
        inl (ap (λ (z : ℕ × Conn). z.1) i, sym (ap (λ (z : ℕ × Conn). z.0) i)))
      (lookup ℕ_discrete p m) (lookup ℕ_discrete p n) (lookup ℕ_discrete p n) one
      (no_conns p (lookup ℕ_discrete p n))

-- A peer that is mentioned gets the version 0, which is never newer than an entry that is there.
or_insert-newer :
    (k : ℕ) (m : List (ℕ × Conn))
    → or_insert k ([], 0) m ≡ (
        if is_newer conn_version ([], 0) (lookup ℕ_discrete k m)
        then put ℕ_discrete k ([], 0) m
        else m)
unfolding or_insert has_key is_newer
or_insert-newer k m = elim (Option-cases (lookup ℕ_discrete k m)) [
  | inl e ↦ ground (arith, e)
  | inr (c, e) ↦ ground (arith, e)
]

module _ {Raw : Type 0} (easytier_version : Text) (now : ℕ) where
  fill_all-IsNewest :
      (ids : List ℕ) (s : SyncedRouteInfo Raw) (p : ℕ)
      → IsNewestConn
          (map mentioned ids)
          p
          (conn_of s p)
          (conn_of (fill_all easytier_version now ids s) p)
  unfolding fill_all fill_one mentioned
  fill_all-IsNewest [] s p = no_conns p (conn_of s p)
  fill_all-IsNewest (k ∷ ids) s p =
      let t = fill_one easytier_version now k s in
      more_conns (mentioned k ∷ []) (map mentioned ids) p (conn_of s p) (conn_of t p)
        (conn_of (fill_all easytier_version now ids t) p)
        (one_conn k p ([], 0) s.conn_map (or_insert k ([], 0) s.conn_map)
          (or_insert-newer k s.conn_map))
        (fill_all-IsNewest ids t p)

  pub inc_if_conns :
      (b : Bool) (s : SyncedRouteInfo Raw) (p : ℕ) → conn_of (inc_if b s) p ≡ conn_of s p
  unfolding inc_if inc_version
  inc_if_conns true s p = refl
  inc_if_conns false s p = refl

  pub fill-IsNewest :
      (ids : List ℕ) (s : SyncedRouteInfo Raw) (p : ℕ)
      → IsNewestConn
          (map mentioned ids)
          p
          (conn_of s p)
          (conn_of (fill_empty_peer_info easytier_version now ids s) p)
  unfolding fill_empty_peer_info
  fill-IsNewest ids s p =
      subst (IsNewestConn (map mentioned ids) p (conn_of s p))
        (sym (
          inc_if_conns (needs_fill easytier_version now ids s) (fill_all easytier_version now ids s)
            p))
        (fill_all-IsNewest ids s p)

  merge_conn_map :
      (k : ℕ) (c : Conn) (s : SyncedRouteInfo Raw) (b : Bool)
      → (merge_conn easytier_version now k c (s, b)).0.conn_map ≡ (
          if is_newer conn_version c (lookup ℕ_discrete k s.conn_map)
          then put ℕ_discrete k c s.conn_map
          else s.conn_map)
  unfolding merge_conn
  merge_conn_map k c s b = ground arith

  pub receive_conn-IsNewest :
      (k : ℕ) (c : Conn) (s : SyncedRouteInfo Raw) (b : Bool) (p : ℕ)
      → IsNewestConn
          (turn k c)
          p
          (conn_of s p)
          (conn_of (receive_conn easytier_version now k c (s, b)).0 p)
  unfolding receive_conn
  receive_conn-IsNewest k c s b p =
      let t = fill_empty_peer_info easytier_version now c.0 s in
      let u = merge_conn easytier_version now k c (t, b) in
      more_conns (map mentioned c.0) ((k, c) ∷ []) p (conn_of s p) (conn_of t p) (conn_of u.0 p)
        (fill-IsNewest c.0 s p) (one_conn k p c t.conn_map u.0.conn_map (merge_conn_map k c t b))
