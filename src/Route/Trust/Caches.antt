-- ===== src/Route/Trust/Caches.antt =====
-- The cache of the trusted groups' names stays in step with the map of trusted groups.
use mathlib.Core.List.{lookup}
use mathlib.Core.Logic.{ite, if_neg}
use native.Mathlib.Omega.{arith}
use neo_easy_tier_deamon.Prelude.{
  ℕ, ◌≡◌, refl, sym, ap, ◌∙◌, inl, inr, Bool, Option, none, some, List, [], ◌∷◌, map, ℕ_discrete,
  Option-cases,
}
use neo_easy_tier_deamon.Prelude.Text.{Text}
use neo_easy_tier_deamon.Prelude.Assoc.{remove, lookup-put, lookup-remove}
use neo_easy_tier_deamon.Route.Messages.{RoutePeerInfo, PeerGroupInfo}
use neo_easy_tier_deamon.Route.Synced.{SyncedRouteInfo, remove_peer}
use neo_easy_tier_deamon.Route.Trust.{
  GroupIdentity, declared, set_trust, drop_trust, trust_occupied, trust_vacant, verify_groups,
  verify_info, verify_infos, verify_and_update_group_trusts,
}

unfoldable pub names : Option (List (Text × Text)) → Option (List Text)
names none = none
names (some gs) = some (map (λ g. g.0) gs)

-- For each peer the cache has the names of the trusted groups, or neither has an entry.
pub record IsInStep {Raw : Type 0} (s : SyncedRouteInfo Raw) : Type 0 where
  pub step :
      (p : ℕ)
      → lookup ℕ_discrete p s.group_trust_map_cache ≡ names (lookup ℕ_discrete p s.group_trust_map)

module _ (verify : PeerGroupInfo → Text → ℕ → Bool) {Raw : Type 0} where
  set_trust-IsInStep :
      (k : ℕ) (gs : List (Text × Text)) (s : SyncedRouteInfo Raw)
      → IsInStep s
      → IsInStep (set_trust verify k gs s)
  unfolding set_trust names
  set_trust-IsInStep k gs s h = record {
    step = λ p. elim (ℕ_discrete k p) [
      | yes e ↦ ground (
        arith,
        lookup-put ℕ_discrete k p gs s.group_trust_map,
        lookup-put ℕ_discrete k p (map (λ (g : Text × Text). g.0) gs) s.group_trust_map_cache,
        e,
      )
      | no n ↦
          (lookup-put ℕ_discrete k p (map (λ (g : Text × Text). g.0) gs) s.group_trust_map_cache
            ∙ if_neg (ℕ_discrete k p) n _ _)
          ∙ (h.step p
              ∙ ap names (
                  sym (
                    lookup-put ℕ_discrete k p gs s.group_trust_map
                    ∙ if_neg (ℕ_discrete k p) n _ _)))
    ];
  }

  -- Both lose the same entry.
  removed :
      (k : ℕ) (s t : SyncedRouteInfo Raw)
      → t.group_trust_map ≡ remove ℕ_discrete k s.group_trust_map
      → t.group_trust_map_cache ≡ remove ℕ_discrete k s.group_trust_map_cache
      → IsInStep s
      → IsInStep t
  unfolding names
  removed k s t em ec h = record {
    step = λ p.
        (ap (λ (m : List (ℕ × List Text)). lookup ℕ_discrete p m) ec
          ∙ lookup-remove ℕ_discrete k p s.group_trust_map_cache)
        ∙ (elim (ℕ_discrete k p)
              as (λ d.
                ite d none (lookup ℕ_discrete p s.group_trust_map_cache)
                ≡ names (ite d none (lookup ℕ_discrete p s.group_trust_map))) [
                  | yes e ↦ refl
                  | no n ↦ h.step p
                ]
            ∙ ap names (
                sym (
                  ap (λ (m : List (ℕ × List (Text × Text))). lookup ℕ_discrete p m) em
                  ∙ lookup-remove ℕ_discrete k p s.group_trust_map)));
  }

  occupied-IsInStep :
      (k : ℕ) (gs : List (Text × Text)) (s : SyncedRouteInfo Raw)
      → IsInStep s
      → IsInStep (trust_occupied verify k gs s)
  unfolding trust_occupied drop_trust
  occupied-IsInStep k [] s h = removed k s (drop_trust verify k s) refl refl h
  occupied-IsInStep k (g ∷ gs) s h = set_trust-IsInStep k (g ∷ gs) s h

  vacant-IsInStep :
      (k : ℕ) (gs : List (Text × Text)) (s : SyncedRouteInfo Raw)
      → IsInStep s
      → IsInStep (trust_vacant verify k gs s)
  unfolding trust_vacant
  vacant-IsInStep k [] s h = h
  vacant-IsInStep k (g ∷ gs) s h = set_trust-IsInStep k (g ∷ gs) s h

  info-IsInStep :
      (secrets : List (Text × Text)) (info : RoutePeerInfo) (s : SyncedRouteInfo Raw)
      → IsInStep s
      → IsInStep (verify_info verify secrets info s)
  unfolding verify_info
  info-IsInStep secrets info s h =
      elim (Option-cases (lookup ℕ_discrete info.peer_id s.group_trust_map)) [
        | inl e ↦
            rw (e, verify_info)
              (vacant-IsInStep info.peer_id (verify_groups verify secrets none info) s h)
        | inr (old, e) ↦
            rw (e, verify_info)
              (occupied-IsInStep info.peer_id (verify_groups verify secrets (some old) info) s h)
      ]

  infos-IsInStep :
      (secrets : List (Text × Text)) (infos : List RoutePeerInfo) (s : SyncedRouteInfo Raw)
      → IsInStep s
      → IsInStep (verify_infos verify secrets infos s)
  unfolding verify_infos
  infos-IsInStep secrets [] s h = h
  infos-IsInStep secrets (info ∷ infos) s h =
      infos-IsInStep secrets infos (verify_info verify secrets info s)
        (info-IsInStep secrets info s h)

-- The cache of group names is in step with the map of trusted groups after the groups of received infos
-- have been verified, and after a peer has been removed, if it was before.
pub trusts-IsInStep :
    {Raw : Type 0} (verify : PeerGroupInfo → Text → ℕ → Bool) (infos : List RoutePeerInfo)
    (local_group_declarations : List GroupIdentity) (p : ℕ) (s : SyncedRouteInfo Raw)
    → IsInStep s
    → IsInStep (verify_and_update_group_trusts verify infos local_group_declarations s)
      × IsInStep (remove_peer p s)
unfolding verify_and_update_group_trusts remove_peer
trusts-IsInStep verify infos gs p s h = (
  infos-IsInStep verify (declared gs) infos s h,
  removed verify p s (remove_peer p s) refl refl h,
)
