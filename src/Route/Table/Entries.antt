-- ===== src/Route/Table/Entries.antt =====
-- What the loop over the first hops writes into the map of next hops.
use mathlib.Core.List.{lookup, Memᴰ}
use mathlib.Core.Path.{subst}
use mathlib.Core.Option.{none-ne-some, some-injective}
use mathlib.Core.Logic.{if_pos, if_neg}
use native.Mathlib.Omega.{arith}
use neo_easy_tier_deamon.Prelude.{
  ℕ, ◌≤◌, ◌<◌, ◌≡◌, ◌≢◌, refl, sym, ap, ◌∙◌, inl, inr, List, [], ◌∷◌, none, some, ℕ_discrete,
  Option-cases, if_true, if_false, ltb, lt→ltb, get_elem?,
}
use neo_easy_tier_deamon.Prelude.Assoc.{lookup-put, lookup-put_self}
use neo_easy_tier_deamon.Route.Table.{
  PeerGraph, NextHopInfo, next_hop_info, insert_newer, insert_hop, insert_hops,
}

abbrev pub NextHopMap : Type 0
NextHopMap = List (ℕ × NextHopInfo)

-- Any entry for `p` is from before `version`.
abbrev pub IsStale : ℕ → NextHopMap → ℕ → Type 0
IsStale version m p = (x : NextHopInfo) → lookup ℕ_discrete p m ≡ some x → x.version < version

-- The nodes of a graph stand for different peers.
abbrev pub IsDistinct : List ℕ → Type 0
IsDistinct nodes = (i j p : ℕ) → get_elem? nodes i ≡ some p → get_elem? nodes j ≡ some p → i ≡ j

newer_other :
    (version p q : ℕ) (info : NextHopInfo) (m : NextHopMap)
    → p ≢ q
    → lookup ℕ_discrete q (insert_newer version p info m) ≡ lookup ℕ_discrete q m
unfolding insert_newer
newer_other version p q info m n = ground (arith, lookup-put ℕ_discrete p q info m)

newer_stale :
    (version p : ℕ) (info : NextHopInfo) (m : NextHopMap)
    → IsStale version m p
    → lookup ℕ_discrete p (insert_newer version p info m) ≡ some info
unfolding insert_newer
newer_stale version p info m s = elim (Option-cases (lookup ℕ_discrete p m)) [
  | inl e ↦ rw (e, insert_newer) (lookup-put_self ℕ_discrete p info m)
  | inr (x, e) ↦
      rw (e, insert_newer)
        (ap (λ (l : NextHopMap). lookup ℕ_discrete p l)
            (if_true _ _ _ (lt→ltb x.version version (s x e)))
          ∙ lookup-put_self ℕ_discrete p info m)
]

newer_fresh :
    (version p : ℕ) (info x : NextHopInfo) (m : NextHopMap)
    → lookup ℕ_discrete p m ≡ some x
    → version ≤ x.version
    → lookup ℕ_discrete p (insert_newer version p info m) ≡ some x
unfolding insert_newer
newer_fresh version p info x m e l =
    rw (e, insert_newer)
      (ap (λ (l : NextHopMap). lookup ℕ_discrete p l)
          (if_false (ltb x.version version) _ _ (ground arith))
        ∙ e)

module _ (graph : PeerGraph) (costs : List (ℕ × ℕ)) (version : ℕ) where
  -- No `unwrap` on this entry panics.
  pub record IsKnown (dst next_hop : ℕ) : Type 0 where
    pub peer : ℕ
    pub peer_known : get_elem? graph.nodes next_hop ≡ some peer
    pub cost : ℕ
    pub cost_known : lookup ℕ_discrete dst costs ≡ some cost
    pub dst_peer : ℕ
    pub dst_known : get_elem? graph.nodes dst ≡ some dst_peer

  insert_hop_known :
      (dst next_hop path_len : ℕ) (m : NextHopMap) (k : IsKnown dst next_hop)
      → insert_hop graph costs version dst next_hop path_len m
        ≡ some (insert_newer version k.dst_peer (next_hop_info version k.cost k.peer path_len) m)
  unfolding insert_hop
  insert_hop_known dst next_hop path_len m k =
      rw (k.peer_known, insert_hop)
        (rw (k.cost_known, insert_hop) (rw (k.dst_known, insert_hop) refl))

  -- What `m` becomes at the peer `p` of the node `v`, by the first hops `hops`.
  pub record IsInserted (hops : List (ℕ × (ℕ × ℕ))) (m n : NextHopMap) (v p : ℕ) : Type 0 where
    pub absent : lookup ℕ_discrete v hops ≡ none → lookup ℕ_discrete p n ≡ lookup ℕ_discrete p m
    pub fresh :
        (x : NextHopInfo)
        → lookup ℕ_discrete p m ≡ some x
        → version ≤ x.version
        → lookup ℕ_discrete p n ≡ some x
    pub stale :
        (h count q c : ℕ)
        → IsStale version m p
        → lookup ℕ_discrete v hops ≡ some (h, count)
        → get_elem? graph.nodes h ≡ some q
        → lookup ℕ_discrete v costs ≡ some c
        → lookup ℕ_discrete p n ≡ some (next_hop_info version c q count)

  module _ (dst h0 n0 : ℕ) (hops : List (ℕ × (ℕ × ℕ))) (m n : NextHopMap) (v p : ℕ)
      (at_v : get_elem? graph.nodes v ≡ some p) (k : IsKnown dst h0)
      (rest : IsInserted hops
        (insert_newer version k.dst_peer (next_hop_info version k.cost k.peer n0) m)
        n
        v
        p) where
    info : NextHopInfo
    info = next_hop_info version k.cost k.peer n0

    at_head : v ≡ dst → IsInserted ((dst, (h0, n0)) ∷ hops) m n v p
    unfolding lookup info next_hop_info
    at_head e =
        let same : k.dst_peer ≡ p =
          some-injective _ _ (sym k.dst_known ∙ (ap (get_elem? graph.nodes) (sym e) ∙ at_v)) in
        let found : lookup ℕ_discrete v ((dst, (h0, n0)) ∷ hops) ≡ some (h0, n0) =
          if_pos (ℕ_discrete v dst) e _ _ in
        record {
          absent = λ a. absurd (none-ne-some _ (sym a ∙ found));
          fresh = λ x l y.
              rest.fresh x
                (subst (λ q. lookup ℕ_discrete p (insert_newer version q info m) ≡ some x)
                  (sym same) (newer_fresh version p info x m l y))
                y;
          stale = λ h count q c s l lq lc.
              let pair = some-injective _ _ (sym found ∙ l) in
              let wrote =
                rest.fresh info
                  (subst (λ q. lookup ℕ_discrete p (insert_newer version q info m) ≡ some info)
                    (sym same) (newer_stale version p info m s))
                  (omega arith) in
              wrote
              ∙ ap some (
                  cc (
                    some-injective _ _
                        (sym k.cost_known ∙ (ap (λ x. lookup ℕ_discrete x costs) (sym e) ∙ lc)),
                    some-injective _ _ (
                        sym k.peer_known
                        ∙ (ap (λ (x : ℕ × ℕ). get_elem? graph.nodes x.0) pair ∙ lq)),
                    ap (λ (x : ℕ × ℕ). x.1) pair,
                  ));
        }

    past_head : IsDistinct graph.nodes → v ≢ dst → IsInserted ((dst, (h0, n0)) ∷ hops) m n v p
    unfolding lookup info
    past_head d ne =
        let other : k.dst_peer ≢ p = λ e. ne (d v dst p at_v (k.dst_known ∙ ap some e)) in
        let kept = newer_other version k.dst_peer p info m other in
        let skip : lookup ℕ_discrete v ((dst, (h0, n0)) ∷ hops) ≡ lookup ℕ_discrete v hops =
          if_neg (ℕ_discrete v dst) ne _ _ in
        record {
          absent = λ a. rest.absent (sym skip ∙ a) ∙ kept;
          fresh = λ x l y. rest.fresh x (kept ∙ l) y;
          stale = λ h count q c s l lq lc.
              rest.stale h count q c (λ x y. s x (sym kept ∙ y)) (sym skip ∙ l) lq lc;
        }

  -- The loop over the first hops does not panic, and inserts each of them once.
  pub insert_hops_lem :
      IsDistinct graph.nodes
      → (hops : List (ℕ × (ℕ × ℕ))) (m : NextHopMap)
      → ((dst h n : ℕ) → Memᴰ (dst, (h, n)) hops → IsKnown dst h)
      → (n : NextHopMap) × (insert_hops graph costs version hops m ≡ some n)
        × ((v p : ℕ) → get_elem? graph.nodes v ≡ some p → IsInserted hops m n v p)
  unfolding insert_hops
  insert_hops_lem d [] m known = (
    m,
    refl,
    λ v p at_v. record {
      absent = λ a. refl;
      fresh = λ x l y. l;
      stale = λ h count q c s l lq lc. absurd (unfold lookup in none-ne-some _ l);
    },
  )
  insert_hops_lem d ((dst, (h, n)) ∷ hops) m known =
      let k = known dst h n (Memᴰ.head refl) in
      let (o, e, rest) =
        insert_hops_lem d hops
          (insert_newer version k.dst_peer (next_hop_info version k.cost k.peer n) m)
          (λ x y z q. known x y z (Memᴰ.tail q)) in
      (
        o,
        rw (insert_hop_known dst h n m k, insert_hops) e,
        λ v p at_v. elim (ℕ_discrete v dst) [
          | yes i ↦ at_head dst h n hops m o v p at_v k (rest v p at_v) i
          | no i ↦ past_head dst h n hops m o v p at_v k (rest v p at_v) d i
        ],
      )
