-- ===== src/Route/Dijkstra.antt =====
-- `dijkstra_with_first_hop` and `MinScored` of easytier/src/peers/graph_algo.rs, for costs
-- that are natural numbers with an addition of their own. The graph is the function behind petgraph's `edges`.
use mathlib.Core.List.{lookup, Memᴰ}
use Prim.Native.Nat.{Ordering}
use neo_easy_tier_deamon.Prelude.{
  ℕ, zero, suc, ◌+◌, ◌%◌, ◌^◌, ◌≤◌, ◌≡◌, ◌≢◌, Bool, true, false, Option, none, some, List, [], ◌∷◌,
  if◌then◌else◌, ltb, ◌==◌, ◌&&◌, ◌||◌, not, length, ℕ_discrete,
}
use neo_easy_tier_deamon.Prelude.Assoc.{put}
pub mod Heap
pub mod Walks
pub mod Edges
pub mod Turns
pub mod Rounds
pub mod Correct
pub mod Within
pub mod Fits

pub record MinScored : Type 0 where
  pub score : ℕ
  pub node : ℕ

-- `MinScored` compares in reverse order by the score.
unfoldable pub cmp : MinScored → MinScored → Ordering
cmp m n =
    let a = m.score in
    let b = n.score in
    if a == b
    then Ordering.eq
    else if ltb a b
    then Ordering.gt
    else if ltb b a
    then Ordering.lt
    else if not (a == a) && not (b == b)
    then Ordering.eq
    else if not (a == a)
    then Ordering.lt
    else Ordering.gt

-- What `BinaryHeap::pop` promises: it is empty-handed only on an empty heap, and otherwise takes
-- out one entry, and no entry is greater.
pub record IsPopped (h : List MinScored) (m : MinScored) (rest : List MinScored) : Type 0 where
  pub member : Memᴰ m h
  pub kept : (e : MinScored) → Memᴰ e rest → Memᴰ e h
  pub split : (e : MinScored) → Memᴰ e h → (e ≢ m) → Memᴰ e rest
  pub size : length h ≡ suc (length rest)
  pub greatest : (e : MinScored) → Memᴰ e h → cmp m e ≢ Ordering.lt

abbrev pub Pops : List MinScored → Option (MinScored × List MinScored) → Type 0
Pops h none = h ≡ []
Pops h (some (m, rest)) = IsPopped h m rest

pub record BinaryHeap : Type 0 where
  pub pop : List MinScored → Option (MinScored × List MinScored)
  pub pop_lem : (h : List MinScored) → Pops h (pop h)

pub record Edge : Type 0 where
  pub target : ℕ
  pub cost : ℕ

-- petgraph has no edges for an index that is no node's.
pub record Graph : Type 0 where
  pub node_bound : ℕ
  pub edges : ℕ → List Edge
  pub outside : (v : ℕ) → node_bound ≤ v → edges v ≡ []

-- The variables of the function: `visited`, `scores`, `first_hop` and `visit_next`.
pub record Search : Type 0 where
  pub visited : List ℕ
  pub scores : List (ℕ × ℕ)
  pub first_hop : List (ℕ × (ℕ × ℕ))
  pub visit_next : List MinScored

unfoldable pub is_visited : List ℕ → ℕ → Bool
is_visited [] v = false
is_visited (x ∷ xs) v = (v == x) || is_visited xs v

-- `none` is the panic of `first_hop[&node]` on a missing key.
pub data Outcome : Type 0 where
  done : Search → Outcome
  panicked : Outcome
  out_of_fuel : Outcome

unfoldable pub hop_of : (start node next : ℕ) → Search → Option (ℕ × ℕ)
hop_of start node next s =
    if node == start then some (next, 0) else lookup ℕ_discrete node s.first_hop

unfoldable pub improved : ℕ → ℕ → ℕ × ℕ → Search → Search
improved next score hop s = record s {
  scores = put ℕ_discrete next score s.scores;
  visit_next = record { score = score; node = next } ∷ s.visit_next;
  first_hop = put ℕ_discrete next (hop.0, hop.1 + 1) s.first_hop;
}

unfoldable pub improve : (start node next score : ℕ) → Search → Option Search
improve start node next score s = elim (hop_of start node next s) [
  | none ↦ none
  | some hop ↦ some (improved next score hop s)
]

unfoldable pub offer : (start node next score : ℕ) → Search → Option ℕ → Option Search
offer start node next score s (some old) =
    if ltb score old then improve start node next score s else some s
offer start node next score s none = improve start node next score s

unfoldable pub initial : ℕ → Search
initial start = record {
  visited = [];
  scores = put ℕ_discrete start 0 [];
  first_hop = put ℕ_discrete start (start, 0) [];
  visit_next = record { score = 0; node = start } ∷ [];
}

-- The edges that leave the nodes below `n` that are not visited.
unfoldable pub edges_left : Graph → List ℕ → ℕ → ℕ
edges_left g visited zero = 0
edges_left g visited (suc n) =
    (if is_visited visited n then 0 else length (g.edges n)) + edges_left g visited n

unfoldable pub visit : ℕ → Option Search → Option Search
visit node none = none
visit node (some s) = some (record s { visited = node ∷ s.visited })

-- `add` is the addition of the costs: `K: Measure` of the source.
module _ (add : ℕ → ℕ → ℕ) where
  -- One turn of the inner loop.
  unfoldable pub relax : (start node node_score : ℕ) → Edge → Search → Option Search
  relax start node node_score e s =
      if is_visited s.visited e.target
      then some s
      else offer start node e.target (add node_score e.cost) s (lookup ℕ_discrete e.target s.scores)

  unfoldable pub relax_all : (start node node_score : ℕ) → List Edge → Search → Option Search
  relax_all start node node_score [] s = some s
  relax_all start node node_score (e ∷ es) s = elim (relax start node node_score e s) [
    | none ↦ none
    | some t ↦ relax_all start node node_score es t
  ]

  -- One turn of the `while let`, on the entry that was popped.
  unfoldable pub round : Graph → (start : ℕ) → MinScored → Search → Option Search
  round g start m s =
      if is_visited s.visited m.node
      then some s
      else visit m.node (relax_all start m.node m.score (g.edges m.node) s)

  unfoldable pub loop : BinaryHeap → Graph → (start fuel : ℕ) → Search → Outcome
  loop heap g start zero s = out_of_fuel
  loop heap g start (suc fuel) s = elim (heap.pop s.visit_next) [
    | none ↦ done s
    | some (m, rest) ↦ elim (round g start m (record s { visit_next = rest })) [
      | none ↦ panicked
      | some t ↦ loop heap g start fuel t
    ]
  ]

  -- Each round pops an entry, and each edge pushes at most one.
  unfoldable pub dijkstra_with_first_hop : BinaryHeap → Graph → (start : ℕ) → Outcome
  dijkstra_with_first_hop heap g start =
      loop heap g start (edges_left g [] g.node_bound + 2) (initial start)

-- The addition of `usize`, on 64 bits.
abbrev pub add_usize : ℕ → ℕ → ℕ
add_usize a b = (a + b) % 2 ^ 64
