-- ===== src/Route/Synced/Infos.antt =====
-- What a peer keeps of the infos that it receives of one peer.
use mathlib.Core.List.{lookup, Memᴰ}
use mathlib.Core.List.Memᴰ
use mathlib.Core.Path.{subst}
use neo_easy_tier_deamon.Prelude.{
  ℕ, ◌≡◌, sym, ap, ◌∙◌, inl, inr, List, [], ◌∷◌, Option, ℕ_discrete, Bool, Bool-cases, if_true,
  if_false,
}
use neo_easy_tier_deamon.Route.Messages.{RoutePeerInfo}
use neo_easy_tier_deamon.Route.Newest.{
  IsNewest, none_received, then_received, is_newer, store-IsNewest, keep-IsNewest,
}
use neo_easy_tier_deamon.Route.Synced.{SyncedRouteInfo, info_version, store_info, merge_info}

abbrev pub info_of : {Raw : Type 0} → SyncedRouteInfo Raw → ℕ → Option RoutePeerInfo
info_of s p = lookup ℕ_discrete p s.peer_infos

abbrev pub AmongInfos : List RoutePeerInfo → ℕ → RoutePeerInfo → Type 0
AmongInfos infos p x = Memᴰ x infos × (x.peer_id ≡ p)

abbrev pub IsNewestInfo :
    List RoutePeerInfo → ℕ → Option RoutePeerInfo → Option RoutePeerInfo → Type 0
IsNewestInfo infos p = IsNewest info_version (AmongInfos infos p)

pub no_infos : (p : ℕ) (o : Option RoutePeerInfo) → IsNewestInfo [] p o o
no_infos p o = none_received info_version (AmongInfos [] p) o (λ x m. Memᴰ.not-nil m.0)

module _ {Raw : Type 0} (info : RoutePeerInfo) (raw : Raw) (s : SyncedRouteInfo Raw) (b : Bool)
    (p : ℕ) where
  abbrev One : RoutePeerInfo → Type 0
  One x = (x ≡ info) × (info.peer_id ≡ p)

  merge_info-IsNewest :
      IsNewest info_version One (info_of s p) (info_of (merge_info info raw (s, b)).0 p)
  unfolding merge_info store_info
  merge_info-IsNewest = elim (Bool-cases (is_newer info_version info (info_of s info.peer_id))) [
    | inl y ↦
        subst
          (λ (x : SyncedRouteInfo Raw × Bool).
            IsNewest info_version One (info_of s p) (info_of x.0 p))
          (sym (if_true _ _ _ y))
          (store-IsNewest info_version ℕ_discrete info.peer_id p info s.peer_infos y)
    | inr n ↦
        subst
          (λ (x : SyncedRouteInfo Raw × Bool).
            IsNewest info_version One (info_of s p) (info_of x.0 p))
          (sym (if_false _ _ _ n))
          (keep-IsNewest info_version ℕ_discrete info.peer_id p info s.peer_infos n)
  ]

  -- One info is merged, and then others.
  pub more_infos :
      (infos : List RoutePeerInfo) (c : Option RoutePeerInfo)
      → IsNewestInfo infos p (info_of (merge_info info raw (s, b)).0 p) c
      → IsNewestInfo (info ∷ infos) p (info_of s p) c
  more_infos infos c h =
      then_received info_version One (AmongInfos infos p) (AmongInfos (info ∷ infos) p)
        (λ x q. (Memᴰ.head q.0, ap (λ (z : RoutePeerInfo). z.peer_id) q.0 ∙ q.1))
        (λ x q. (Memᴰ.tail q.0, q.1))
        (λ x q. elim q.0 [
          | Memᴰ.head e ↦ inl (e, ap (λ (z : RoutePeerInfo). z.peer_id) (sym e) ∙ q.1)
          | Memᴰ.tail r ↦ inr (r, q.1)
        ])
        (info_of s p) (info_of (merge_info info raw (s, b)).0 p) c merge_info-IsNewest h
