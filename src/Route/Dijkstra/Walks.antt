-- ===== src/Route/Dijkstra/Walks.antt =====
-- The walks of a graph, which say what scores and first hops of `dijkstra_with_first_hop` mean.
use mathlib.Core.List.{Memᴰ}
use native.Mathlib.Omega.{arith}
use neo_easy_tier_deamon.Prelude.{ℕ, ◌+◌, ◌≡◌, ◌==◌, if◌then◌else◌, sym}
use neo_easy_tier_deamon.Route.Dijkstra.{Graph, Edge}

module _ (g : Graph) (start : ℕ) where
  -- A walk from `start` to `v`: its cost, the first vertex after `start` (`start` itself when
  -- there is none), and the number of its edges.
  pub data Walk : (v cost first count : ℕ) → Type 0 where
    stay :
        (v cost first count : ℕ)
        → v ≡ start
        → cost ≡ 0
        → first ≡ start
        → count ≡ 0
        → Walk v cost first count
    step :
        (v cost first count : ℕ) (u d k n : ℕ) (e : Edge)
        → Walk u d k n
        → Memᴰ e (g.edges u)
        → e.target ≡ v
        → cost ≡ d + e.cost
        → first ≡ (if n == 0 then v else k)
        → count ≡ n + 1
        → Walk v cost first count

  -- A bound on the scores that holds at `start` and along each edge holds for each walk.
  pub walk_bound :
      (P : ℕ → ℕ → Type 0)
      → P start 0
      → ((u d : ℕ) (e : Edge) → P u d → Memᴰ e (g.edges u) → P e.target (d + e.cost))
      → {v c k n : ℕ} → Walk v c k n
      → P v c
  walk_bound P p0 ps (stay v c k n ev ec ek en) = rw (ev, ec) p0
  walk_bound P p0 ps (step v c k n u d k' n' e w m et ec ek en) =
      rw (sym et, ec) (ps u d e (walk_bound P p0 ps w) m)

  -- Only the walk that stays has no edge.
  pub walk_still : {v c k n : ℕ} → Walk v c k n → n ≡ 0 → v ≡ start
  walk_still (stay v c k n ev ec ek en) z = ev
  walk_still (step v c k n u d k' n' e w m et ec ek en) z = absurd (omega arith)
