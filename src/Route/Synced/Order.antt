-- ===== src/Route/Synced/Order.antt =====
-- Peers that receive the same infos in different orders agree.
use mathlib.Core.List.{Memᴰ}
use mathlib.Core.Path.{subst}
use mathlib.Core.Option.{some-injective}
use native.Mathlib.Omega.{arith}
use neo_easy_tier_deamon.Prelude.{
  ℕ, ◌<◌, ◌≡◌, sym, ap, ◌∙◌, inl, inr, List, map, Option, none, some, ◌↔◌,
}
use neo_easy_tier_deamon.Prelude.Mem.{mem-map, mem-of_map}
use neo_easy_tier_deamon.Route.Messages.{RoutePeerInfo}
use neo_easy_tier_deamon.Route.Synced.{SyncedRouteInfo, updated, stamped, update_peer_infos}
use neo_easy_tier_deamon.Route.Synced.Infos.{info_of, IsNewestInfo}
use neo_easy_tier_deamon.Route.Synced.Merging.{update_peer_infos-updated}

-- An info without the local time.
unfoldable pub timeless : Option RoutePeerInfo → Option RoutePeerInfo
timeless none = none
timeless (some x) = some (record x { last_update = none })

-- The infos about `p` in the two lists are the same, in whatever order and however often, and each
-- version of them is one info.
pub record IsSameNews (p : ℕ) (infos infos' : List RoutePeerInfo) : Type 0 where
  pub same : (x : RoutePeerInfo) → x.peer_id ≡ p → Memᴰ x infos ↔ Memᴰ x infos'
  pub one_each :
      (x y : RoutePeerInfo)
      → Memᴰ x infos
      → Memᴰ y infos
      → x.peer_id ≡ p
      → y.peer_id ≡ p
      → x.version ≡ y.version
      → x ≡ y

not_old :
    (now now' p : ℕ) (infos infos' : List RoutePeerInfo) (o n : Option RoutePeerInfo)
    (x : RoutePeerInfo)
    → ((y : RoutePeerInfo) → y.peer_id ≡ p → Memᴰ y infos → Memᴰ y infos')
    → Memᴰ x (map (stamped now) infos)
    → x.peer_id ≡ p
    → ((y : RoutePeerInfo) → o ≡ some y → y.version < x.version)
    → n ≡ o
    → ¬ IsNewestInfo (map (stamped now') infos') p o n
unfolding stamped
not_old now now' p infos infos' o n x sub m q higher e k =
    let (y, r, i) = mem-of_map (stamped now) x infos m in
    let of_p : y.peer_id ≡ p = ap (λ (z : RoutePeerInfo). z.peer_id) i ∙ q in
    let (z, f, le) =
      k.above (stamped now' y) (mem-map (stamped now') y infos' (sub y of_p r), of_p) in
    omega (arith, higher z (sym e ∙ f), ap (λ (w : RoutePeerInfo). w.version) i)

agree :
    (now now' p : ℕ) (infos infos' : List RoutePeerInfo) (o n n' : Option RoutePeerInfo)
    → IsSameNews p infos infos'
    → IsNewestInfo (map (stamped now) infos) p o n
    → IsNewestInfo (map (stamped now') infos') p o n'
    → timeless n ≡ timeless n'
unfolding stamped timeless
agree now now' p infos infos' o n n' h k k' = elim k.origin [
  | inl e ↦ elim k'.origin [
    | inl e' ↦ ap timeless (e ∙ sym e')
    | inr (x, (m, q), f, l) ↦
        absurd (not_old now' now p infos' infos o n x (λ y r z. (h.same y r).1 z) m q l e k)
  ]
  | inr (x, (m, q), f, l) ↦ elim k'.origin [
    | inl e' ↦
        absurd (not_old now now' p infos infos' o n' x (λ y r z. (h.same y r).0 z) m q l e' k')
    | inr (x', (m', q'), f', l') ↦
        let (y, r, i) = mem-of_map (stamped now) x infos m in
        let (y', r', i') = mem-of_map (stamped now') x' infos' m' in
        let of_p : y.peer_id ≡ p = ap (λ (z : RoutePeerInfo). z.peer_id) i ∙ q in
        let of_p' : y'.peer_id ≡ p = ap (λ (z : RoutePeerInfo). z.peer_id) i' ∙ q' in
        let (z, g, le) =
          k.above (stamped now y')
            (mem-map (stamped now) y' infos ((h.same y' of_p').1 r'), of_p') in
        let (z', g', le') =
          k'.above (stamped now' y) (mem-map (stamped now') y infos' ((h.same y of_p).0 r), of_p) in
        let vx = ap (λ (w : RoutePeerInfo). w.version) (some-injective _ _ (sym g ∙ f) ∙ sym i) in
        let vx' =
          ap (λ (w : RoutePeerInfo). w.version) (some-injective _ _ (sym g' ∙ f') ∙ sym i') in
        let same = h.one_each y y' r ((h.same y' of_p').1 r') of_p of_p' (omega arith) in
        ap timeless f
        ∙ (ap (λ (w : RoutePeerInfo). timeless (some w)) (sym i)
            ∙ (ap (λ (w : RoutePeerInfo). timeless (some w)) same
                ∙ (ap (λ (w : RoutePeerInfo). timeless (some w)) i' ∙ sym (ap timeless f'))))
  ]
]

-- Two peers whose entries of `p` agree, and which accept lists with the same infos of `p`, in
-- whatever order, with whatever repetitions and infos of other peers between, agree on `p` again (the
-- local times aside), as long as one version of `p` is one info.
pub update_peer_infos-agree :
    {Raw : Type 0} (raw_peer_id : Raw → Option ℕ) (p : ℕ) (me route dst now : ℕ)
    (infos : List RoutePeerInfo) (raws : List Raw) (s t : SyncedRouteInfo Raw)
    (me' route' dst' now' : ℕ) (infos' : List RoutePeerInfo) (raws' : List Raw)
    (s' t' : SyncedRouteInfo Raw)
    → IsSameNews p infos infos'
    → info_of s p ≡ info_of s' p
    → update_peer_infos raw_peer_id me route dst now infos raws s ≡ updated t
    → update_peer_infos raw_peer_id me' route' dst' now' infos' raws' s' ≡ updated t'
    → timeless (info_of t p) ≡ timeless (info_of t' p)
update_peer_infos-agree raw_peer_id p me route dst now infos raws s t me' route' dst' now' infos'
      raws' s' t' news same e e' =
    let (merged, _) = update_peer_infos-updated raw_peer_id me route dst now infos raws s t e in
    let (merged', _) =
      update_peer_infos-updated raw_peer_id me' route' dst' now' infos' raws' s' t' e' in
    agree now now' p infos infos' (info_of s p) (info_of t p) (info_of t' p) news (merged p) (
      subst (λ o. IsNewestInfo (map (stamped now') infos') p o (info_of t' p)) (sym same)
        (merged' p))
