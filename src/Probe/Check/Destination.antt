-- ===== src/Probe/Check/Destination.antt =====
-- What the parts of a test of an instance mean (neo-uptime-node/src/health_checker.rs).
use mathlib.Core.List.{Memᴰ}
use mathlib.Core.Path.{subst}
use mathlib.Core.Bool.{true≢false}
use mathlib.Core.Option.{none-ne-some, some-injective}
use neo_easy_tier_deamon.Prelude.{
  ℕ, ◌≡◌, ◌≢◌, ◌⊎◌, ◌∙◌, ap, sym, refl, Bool, true, false, not, ◌&&◌, Option, none, some, List, [],
  ◌∷◌, ◌++◌, arith, inl, inr, Bool-cases, Option-cases, ◌==◌, if_true, if_false,
}
use neo_easy_tier_deamon.Prelude.Text.{Text, codes, split_once, text_eq, text_eq_iff}
use neo_easy_tier_deamon.Probe.Check.{
  PeerInfo, Route, PeerRoutePair, has_conns, is_destination, before_dash, network_count,
  conn_count_of,
}

abbrev pub daemon_name : Text
daemon_name = codes "NeoUptimeDeamon"

-- A peer that is no public server and not the daemon, and has connections of its own.
pub record IsDestination (x : PeerRoutePair) : Type 0 where
  pub route : Route
  pub route_is : x.route ≡ some route
  pub no_public_server : route.feature_flag ≡ some false
  pub no_daemon : route.hostname ≢ daemon_name
  pub peer : PeerInfo
  pub peer_is : x.peer ≡ some peer
  pub connected : peer.conns ≢ []

-- A pair that the search passes over: it is no destination, and its route has a feature flag.
pub record IsPassedOver (x : PeerRoutePair) : Type 0 where
  pub other : ¬ IsDestination x
  pub flagged : (r : Route) → x.route ≡ some r → r.feature_flag ≢ none

has_conns-true :
    (p : Option PeerInfo) → has_conns p ≡ true → (q : PeerInfo) × (p ≡ some q) × (q.conns ≢ [])
has_conns-true none h = absurd cc
has_conns-true (some p) h = (
  p,
  refl,
  λ e. absurd (true≢false (sym h ∙ ap (λ l. has_conns (some (record p { conns = l }))) e)),
)

has_conns_of : (p : PeerInfo) → p.conns ≢ [] → has_conns (some p) ≡ true
has_conns_of p n = at_conns p.conns n
  where
    at_conns : (l : List (Option ℕ)) → l ≢ [] → has_conns (some (record p { conns = l })) ≡ true
    at_conns [] n = absurd (n refl)
    at_conns (c ∷ l) n = refl

module _ (x : PeerRoutePair) where
  unrouted : x.route ≡ none → is_destination x ≡ some false
  unfolding is_destination
  unrouted e = rw (e, is_destination) refl

  unflagged : (r : Route) → x.route ≡ some r → r.feature_flag ≡ none → is_destination x ≡ none
  unfolding is_destination
  unflagged r e f = rw (e, is_destination) (rw (f, is_destination) refl)

  flagged_test :
      (r : Route) (b : Bool)
      → x.route ≡ some r
      → r.feature_flag ≡ some b
      → is_destination x ≡ some (not b && not (text_eq r.hostname daemon_name) && has_conns x.peer)
  unfolding is_destination
  flagged_test r b e f = rw (e, is_destination) (rw (f, is_destination) refl)

  all_three : (b c d : Bool) → not b && not c && d ≡ true → (b ≡ false) × (c ≡ false) × (d ≡ true)
  all_three b c d h = (ground (arith, h), ground (arith, h), ground (arith, h))

  flagged-IsDestination :
      (r : Route) (b : Bool)
      → x.route ≡ some r
      → r.feature_flag ≡ some b
      → is_destination x ≡ some true
      → IsDestination x
  flagged-IsDestination r b e f h =
      let (public, named, conns) =
        all_three b _ _ (some-injective _ _ (sym (flagged_test r b e f) ∙ h)) in
      let (p, ep, n) = has_conns-true x.peer conns in
      record {
        route = r;
        route_is = e;
        no_public_server = f ∙ ap some public;
        no_daemon = λ q. true≢false (sym ((text_eq_iff r.hostname daemon_name).1 q) ∙ named);
        peer = p;
        peer_is = ep;
        connected = n;
      }

  pub is_destination-true : is_destination x ≡ some true → IsDestination x
  is_destination-true h = elim (Option-cases x.route) [
    | inl e ↦ absurd (true≢false (some-injective _ _ (sym h ∙ unrouted e)))
    | inr (r, e) ↦ elim (Option-cases r.feature_flag) [
      | inl f ↦ absurd (none-ne-some _ (sym (unflagged r e f) ∙ h))
      | inr (b, f) ↦ flagged-IsDestination r b e f h
    ]
  ]

  true-of_destination : IsDestination x → is_destination x ≡ some true
  true-of_destination d =
      let named : text_eq d.route.hostname daemon_name ≡ false =
        elim (Bool-cases (text_eq d.route.hostname daemon_name)) [
          | inl y ↦ absurd (d.no_daemon ((text_eq_iff d.route.hostname daemon_name).0 y))
          | inr n ↦ n
        ] in
      flagged_test d.route false d.route_is d.no_public_server
      ∙ rw (named, d.peer_is) (ap some (has_conns_of d.peer d.connected))

  pub is_destination-false : is_destination x ≡ some false → IsPassedOver x
  is_destination-false h = record {
    other = λ d. true≢false (some-injective _ _ (sym (true-of_destination d) ∙ h));
    flagged = λ r e f. none-ne-some _ (sym (unflagged r e f) ∙ h);
  }

-- The part before the first dash, or all of a text with no dash.
abbrev pub IsBeforeDash : Text → Text → Type 0
IsBeforeDash v text = ¬ Memᴰ b'-' v × ((v ≡ text) ⊎ ((rest : Text) × (text ≡ v ++ (b'-' ∷ rest))))

abbrev IsCut : Text → Option (Text × Text) → Type 0
IsCut text none = ¬ Memᴰ b'-' text
IsCut text (some (a, b)) = ¬ Memᴰ b'-' a × (text ≡ a ++ (b'-' ∷ b))

split_once-IsCut : (text : Text) → IsCut text (split_once b'-' text)
unfolding split_once
split_once-IsCut [] = λ m. elim m [ ]
split_once-IsCut (c ∷ s) = elim (Bool-cases (b'-' == c)) [
  | inl y ↦
      subst (IsCut (c ∷ s)) (sym (if_true _ _ _ y))
        ((λ m. elim m [ ]), (let same : c ≡ b'-' = ground (arith, y) in ap (λ x. x ∷ s) same))
  | inr n ↦
      subst (IsCut (c ∷ s)) (sym (if_false _ _ _ n))
        (later n (split_once b'-' s) (split_once-IsCut s))
]
  where
    differs : (a : Text) → ¬ Memᴰ b'-' a → (b'-' == c) ≡ false → ¬ Memᴰ b'-' (c ∷ a)
    differs a k n (Memᴰ.head e) = ground (arith, n, e)
    differs a k n (Memᴰ.tail m) = k m

    later :
        (b'-' == c) ≡ false
        → (o : Option (Text × Text)) → IsCut s o
        → IsCut (c ∷ s) (elim o [ none ↦ none | some (a, b) ↦ some (c ∷ a, b) ])
    later n none k = differs s k n
    later n (some (a, b)) (k, e) = (differs a k n, ap (λ x. c ∷ x) e)

pub before_dash_lem : (text : Text) → IsBeforeDash (before_dash text) text
before_dash_lem text = read (split_once b'-' text) (split_once-IsCut text)
  where
    read :
        (o : Option (Text × Text))
        → IsCut text o
        → IsBeforeDash (elim o [ none ↦ text | some (a, b) ↦ a ]) text
    read none n = (n, inl refl)
    read (some (a, b)) (n, e) = (n, inr (b, e))

-- The count that the summary has for the id, or 0 where it has none.
abbrev pub IsCount : ℕ → ℕ → Option (List (ℕ × ℕ)) → Type 0
IsCount n i none = n ≡ 0
IsCount n i (some m) = Memᴰ (i, n) m ⊎ ((n ≡ 0) × ((k : ℕ) → ¬ Memᴰ (i, k) m))

network_count_lem : (i : ℕ) (m : List (ℕ × ℕ)) → IsCount (network_count i m) i (some m)
network_count_lem i [] = inr (refl, λ k q. elim q [ ])
network_count_lem i ((j, n) ∷ m) = elim (Bool-cases (j == i)) [
  | inl y ↦
      let same : j ≡ i = ground (arith, y) in
      subst (λ k. IsCount k i (some ((j, n) ∷ m))) (sym (if_true _ _ _ y))
        (inl (Memᴰ.head (ap (λ x. (x, n)) (sym same))))
  | inr x ↦
      let away : j ≢ i = ground (arith, x) in
      subst (λ k. IsCount k i (some ((j, n) ∷ m))) (sym (if_false _ _ _ x))
        (elim (network_count_lem i m) [
          | inl q ↦ inl (Memᴰ.tail q)
          | inr (z, none_in) ↦ inr (
            z,
            λ k q. elim q [
              | Memᴰ.head e ↦ away (sym (ap (λ (y : ℕ × ℕ). y.0) e))
              | Memᴰ.tail t ↦ none_in k t
            ],
          )
        ])
]

pub conn_count_of-IsCount :
    (i : ℕ) (summary : Option (List (ℕ × ℕ))) → IsCount (conn_count_of i summary) i summary
conn_count_of-IsCount i none = refl
conn_count_of-IsCount i (some m) = network_count_lem i m
