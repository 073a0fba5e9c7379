-- ===== src/Probe/Check/Found.antt =====
-- What a passed test says of the instance (neo-uptime-node/src/health_checker.rs).
use neo_easy_tier_deamon.Prelude.{
  ℕ, ◌≡◌, ◌≤◌, ◌⊎◌, ◌∙◌, sym, refl, Bool, true, false, Option, none, some, List, [], ◌∷◌,
  if◌then◌else◌, min, arith, inl, inr,
}
use neo_easy_tier_deamon.Prelude.Text.{Text}
use neo_easy_tier_deamon.Probe.Check.Destination.{
  IsDestination, IsPassedOver, is_destination-true, is_destination-false, IsBeforeDash,
  before_dash_lem, IsCount, conn_count_of-IsCount,
}
use neo_easy_tier_deamon.Probe.Check.{
  PeerInfo, Route, PeerRoutePair, Instance, passed, bail, is_destination, Search, found, absent,
  aborted, search_step, find_destination, latencies, smallest, response_time_of, read_pair,
  read_search, test_node_healthy, not_running, has_error,
}

-- No number of the list is smaller.
abbrev pub AtMost : ℕ → List ℕ → Type 0
AtMost n [] = Unit
AtMost n (m ∷ ms) = (n ≤ m) × AtMost n ms

abbrev pub Among : ℕ → List ℕ → Type 0
Among n [] = true ≡ false
Among n (m ∷ ms) = (n ≡ m) ⊎ Among n ms

smallest-AtMost : (n : ℕ) (ms : List ℕ) → (smallest n ms ≤ n) × AtMost (smallest n ms) ms
smallest-AtMost n [] = (omega arith, tt)
smallest-AtMost n (m ∷ ms) =
    let (le, rest) = smallest-AtMost (min n m) ms in (omega arith, (omega arith, rest))

smallest-Among : (n : ℕ) (ms : List ℕ) → (smallest n ms ≡ n) ⊎ Among (smallest n ms) ms
smallest-Among n [] = inl refl
smallest-Among n (m ∷ ms) = elim (smallest-Among (min n m) ms) [
  | inr a ↦ inr (inr a)
  | inl e ↦ elim (min_cases n m) [ inl h ↦ inl (e ∙ h) | inr h ↦ inr (inl (e ∙ h)) ]
]
  where
    min_cases : (a b : ℕ) → (min a b ≡ a) ⊎ (min a b ≡ b)
    min_cases a b = ground arith

-- The smallest of the numbers, or 0 if there is none.
abbrev pub IsSmallest : ℕ → List ℕ → Type 0
IsSmallest n ms = AtMost n ms × (Among n ms ⊎ ((ms ≡ []) × (n ≡ 0)))

response_time_of-IsSmallest : (ms : List ℕ) → IsSmallest (response_time_of ms) ms
response_time_of-IsSmallest [] = (tt, inr (refl, refl))
response_time_of-IsSmallest (m ∷ ms) = (smallest-AtMost m ms, inl (smallest-Among m ms))

-- The pair `x` is the first of the list that is a destination, and no pair before it lacks its
-- feature flag.
abbrev pub IsFirst : PeerRoutePair → List PeerRoutePair → Type 0
IsFirst x [] = true ≡ false
IsFirst x (y ∷ ys) = ((x ≡ y) × IsDestination x) ⊎ (IsPassedOver y × IsFirst x ys)

find_destination-IsFirst :
    (x : PeerRoutePair) (xs : List PeerRoutePair) → find_destination xs ≡ found x → IsFirst x xs
unfolding find_destination
find_destination-IsFirst x [] h = absurd cc
find_destination-IsFirst x (y ∷ ys) h =
    from (is_destination y) (λ k. find_destination-IsFirst x ys k) refl h
  where
    from :
        (o : Option Bool)
        → (find_destination ys ≡ found x → IsFirst x ys)
        → is_destination y ≡ o
        → search_step o y (find_destination ys) ≡ found x
        → IsFirst x (y ∷ ys)
    from none later e h = absurd cc
    from (some true) later e h =
        let q : y ≡ x = cc in inl (sym q, is_destination-true x (rw (← q) e))
    from (some false) later e h = inr (is_destination-false y e, later h)

-- What a passed test has found.
pub record IsPassed (i : Instance) (version : Text) (time conns : ℕ) : Type 0 where
  pub pair : PeerRoutePair
  pub route : Route
  pub peer : PeerInfo
  pub running : i.running ≡ true
  pub no_error : i.error_msg ≡ none
  pub first : IsFirst pair i.peer_route_pairs
  pub route_is : pair.route ≡ some route
  pub peer_is : pair.peer ≡ some peer
  pub version_is : IsBeforeDash version route.version
  pub time_is : IsSmallest time (latencies peer.conns)
  pub conns_is : IsCount conns peer.peer_id i.foreign_network_summary

passed_parts :
    {v v' : Text} {t t' c c' : ℕ} → passed v t c ≡ passed v' t' c' → (v' ≡ v) × (t' ≡ t) × (c' ≡ c)
passed_parts h = (cc, cc, cc)

-- If the test of an instance passes, then the instance runs and has no error, and there is a first
-- peer with connections that is no public server and has not the daemon's own name (each peer
-- before it has a feature flag or no route): the version is the part of its version before the first
-- dash, the response time is the smallest latency of a connection with statistics (0 if there is
-- none), and the count is the one that the summary has for its id (0 if there is none).
pub test_node_healthy_passed :
    (i : Instance) (version : Text) (time conns : ℕ)
    → test_node_healthy (some i) ≡ passed version time conns
    → IsPassed i version time conns
unfolding test_node_healthy read_search read_pair
test_node_healthy_passed i version time conns h = at_running i.running i.error_msg refl refl h
  where
    at_pair :
        (x : PeerRoutePair) (r : Option Route) (p : Option PeerInfo)
        → find_destination i.peer_route_pairs ≡ found x
        → x.route ≡ r
        → x.peer ≡ p
        → i.running ≡ true
        → i.error_msg ≡ none
        → read_pair i.foreign_network_summary r p ≡ passed version time conns
        → IsPassed i version time conns
    at_pair x none p f er ep run err h = absurd cc
    at_pair x (some route) none f er ep run err h = absurd cc
    at_pair x (some route) (some peer) f er ep run err h =
        let (ev, et, ec) = passed_parts h in
        record {
          pair = x;
          route = route;
          peer = peer;
          running = run;
          no_error = err;
          first = find_destination-IsFirst x i.peer_route_pairs f;
          route_is = er;
          peer_is = ep;
          version_is = rw ev (before_dash_lem route.version);
          time_is = rw et (response_time_of-IsSmallest (latencies peer.conns));
          conns_is = rw ec (conn_count_of-IsCount peer.peer_id i.foreign_network_summary);
        }

    at_search :
        (s : Search)
        → find_destination i.peer_route_pairs ≡ s
        → i.running ≡ true
        → i.error_msg ≡ none
        → read_search i.foreign_network_summary s ≡ passed version time conns
        → IsPassed i version time conns
    at_search (found x) f run err h = at_pair x x.route x.peer f refl refl run err h
    at_search absent f run err h = absurd cc
    at_search aborted f run err h = absurd cc

    at_running :
        (b : Bool) (e : Option Text)
        → i.running ≡ b
        → i.error_msg ≡ e
        → (if b
            then elim e [
              | some err ↦ bail (has_error err)
              | none ↦ read_search i.foreign_network_summary (find_destination i.peer_route_pairs)
            ]
            else bail not_running)
          ≡ passed version time conns
        → IsPassed i version time conns
    at_running false e run err h = absurd cc
    at_running true (some t) run err h = absurd cc
    at_running true none run err h = at_search (find_destination i.peer_route_pairs) refl run err h
