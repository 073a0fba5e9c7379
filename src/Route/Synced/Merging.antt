-- ===== src/Route/Synced/Merging.antt =====
-- `SyncedRouteInfo::update_peer_infos`.
use mathlib.Core.Path.{subst}
use native.Mathlib.Omega.{arith}
use neo_easy_tier_deamon.Prelude.{
  ℕ, ◌+◌, ◌%◌, ◌^◌, ◌<◌, ◌≡◌, ◌≢◌, refl, sym, ap, ◌∙◌, ◌⊎◌, inl, inr, List, [], ◌∷◌, ◌++◌, map,
  Option, some, ℕ_discrete, Bool, true, false, Bool-cases, Option-cases, if_true, if_false,
}
use neo_easy_tier_deamon.Route.Messages.{RoutePeerInfo}
use neo_easy_tier_deamon.Route.Synced.{
  SyncedRouteInfo, Updated, updated, refused, Duplicate, passed, duplicate_peer_id,
  my_id_duplicated, stamped, info_version, merge_info, store_info, inc_if, inc_version,
  saved_route_id, after_check, update_loop, update_peer_infos, check_duplicate_peer_id,
  get_peer_info_version_with_default,
}
use neo_easy_tier_deamon.Route.Newest.{is_newer}
use neo_easy_tier_deamon.Route.Synced.Infos.{info_of, IsNewestInfo, no_infos, more_infos}

module _ {Raw : Type 0} (raw_peer_id : Raw → Option ℕ)
    (my_peer_id my_peer_route_id dst_peer_id now : ℕ) where
  abbrev pub IsMerged : List RoutePeerInfo → SyncedRouteInfo Raw → SyncedRouteInfo Raw → Type 0
  IsMerged infos s t =
      (p : ℕ) → IsNewestInfo (map (stamped now) infos) p (info_of s p) (info_of t p)

  after_check-updated :
      (d : Duplicate) (info : RoutePeerInfo) (raw : Raw) (c : SyncedRouteInfo Raw × Bool)
      (go : SyncedRouteInfo Raw × Bool → Updated Raw) (t : SyncedRouteInfo Raw)
      → after_check raw_peer_id my_peer_id my_peer_route_id dst_peer_id now d info raw c go
        ≡ updated t
      → go (merge_info (stamped now info) raw c) ≡ updated t
  unfolding after_check
  after_check-updated passed info raw c go t e = ground (arith, e)
  after_check-updated duplicate_peer_id info raw c go t e = absurd (ground (arith, e))
  after_check-updated my_id_duplicated info raw c go t e = absurd (ground (arith, e))

  after_check-refused :
      (d : Duplicate) (info : RoutePeerInfo) (raw : Raw) (c : SyncedRouteInfo Raw × Bool)
      (go : SyncedRouteInfo Raw × Bool → Updated Raw) (t : SyncedRouteInfo Raw)
      → after_check raw_peer_id my_peer_id my_peer_route_id dst_peer_id now d info raw c go
        ≡ refused t
      → (go (merge_info (stamped now info) raw c) ≡ refused t)
        ⊎ ((d ≡ duplicate_peer_id) × (c.0 ≡ t))
  unfolding after_check
  after_check-refused passed info raw c go t e = inl (ground (arith, e))
  after_check-refused duplicate_peer_id info raw c go t e = inr (refl, ground (arith, e))
  after_check-refused my_id_duplicated info raw c go t e = absurd (ground (arith, e))

  abbrev Flagged : SyncedRouteInfo Raw → Bool → SyncedRouteInfo Raw × Bool → Type 0
  Flagged s b c = (c.0.version ≡ s.version) × (c.1 ≡ false → (c.0 ≡ s) × (b ≡ false))

  -- One info either changes nothing, or asks for a new version.
  merge_info_flag :
      (info : RoutePeerInfo) (raw : Raw) (s : SyncedRouteInfo Raw) (b : Bool)
      → Flagged s b (merge_info info raw (s, b))
  unfolding merge_info store_info
  merge_info_flag info raw s b =
      elim (Bool-cases (is_newer info_version info (info_of s info.peer_id))) [
        | inl y ↦
            subst (Flagged s b) (sym (if_true _ _ _ y)) (refl, λ e. absurd (ground (arith, e)))
        | inr n ↦ subst (Flagged s b) (sym (if_false _ _ _ n)) (refl, λ e. (refl, e))
      ]

  abbrev loop : List RoutePeerInfo → List Raw → SyncedRouteInfo Raw × Bool → Updated Raw
  loop = update_loop raw_peer_id my_peer_id my_peer_route_id dst_peer_id now

  loop_ends :
      (s : SyncedRouteInfo Raw) (b : Bool) (t : SyncedRouteInfo Raw)
      → inc_if b s ≡ t
      → IsMerged [] s t × (((t ≡ s) × (b ≡ false)) ⊎ (t.version ≡ (s.version + 1) % 2 ^ 32))
  unfolding inc_if inc_version
  loop_ends s true t e = (
    λ p.
        subst (λ (u : SyncedRouteInfo Raw). IsNewestInfo [] p (info_of s p) (info_of u p)) e
          (no_infos p (info_of s p)),
    inr (sym (ap (λ (u : SyncedRouteInfo Raw). u.version) e)),
  )
  loop_ends s false t e = (
    λ p.
        subst (λ (u : SyncedRouteInfo Raw). IsNewestInfo [] p (info_of s p) (info_of u p)) e
          (no_infos p (info_of s p)),
    inl (sym e, refl),
  )

  loop-updated :
      (infos : List RoutePeerInfo) (raws : List Raw) (s : SyncedRouteInfo Raw) (b : Bool)
      (t : SyncedRouteInfo Raw)
      → loop infos raws (s, b) ≡ updated t
      → IsMerged infos s t × (((t ≡ s) × (b ≡ false)) ⊎ (t.version ≡ (s.version + 1) % 2 ^ 32))
  unfolding update_loop
  loop-updated [] raws s b t e = loop_ends s b t (cc e)
  loop-updated (info ∷ infos) [] s b t e = absurd (ground (arith, e))
  loop-updated (info ∷ infos) (raw ∷ raws) s b t e =
      let go = after_check-updated _ info raw (s, b) (loop infos raws) t e in
      let c = merge_info (stamped now info) raw (s, b) in
      let (merged, v) = loop-updated infos raws c.0 c.1 t go in
      let (same, keeps) = merge_info_flag (stamped now info) raw s b in
      (
        λ p.
            more_infos (stamped now info) raw s b p (map (stamped now) infos) (info_of t p)
              (merged p),
        elim v [
          | inl (i, f) ↦ let (k, z) = keeps f in inl (i ∙ k, z)
          | inr n ↦ inr (n ∙ ap (λ x. (x + 1) % 2 ^ 32) same)
        ],
      )

  -- Why the infos are refused: one of them is about the sender, and older than the info that is known
  -- of the sender, which has another route id. The infos before it are merged.
  pub record IsRefused (infos : List RoutePeerInfo) (s t : SyncedRouteInfo Raw) : Type 0 where
    pub before : List RoutePeerInfo
    pub info : RoutePeerInfo
    pub after : List RoutePeerInfo
    pub parts : infos ≡ before ++ info ∷ after
    pub merged : IsMerged before s t
    pub kept_version : t.version ≡ s.version
    pub of_sender : info.peer_id ≡ dst_peer_id
    pub not_mine : info.peer_id ≢ my_peer_id
    pub known : RoutePeerInfo
    pub is_known : info_of t dst_peer_id ≡ some known
    pub other_route_id : known.peer_route_id ≢ info.peer_route_id
    pub older : info.version < known.version

  abbrev IsDuplicate : RoutePeerInfo → SyncedRouteInfo Raw → RoutePeerInfo → Type 0
  IsDuplicate info s known =
      (info.peer_id ≡ dst_peer_id)
      × (info.peer_id ≢ my_peer_id)
      × (info_of s dst_peer_id ≡ some known)
      × (known.peer_route_id ≢ info.peer_route_id)
      × (info.version < known.version)

  duplicate_lem :
      (info : RoutePeerInfo) (s : SyncedRouteInfo Raw)
      → check_duplicate_peer_id my_peer_id my_peer_route_id dst_peer_id
          (saved_route_id raw_peer_id my_peer_id my_peer_route_id dst_peer_id now info s)
          info
          s
        ≡ duplicate_peer_id
      → (known : RoutePeerInfo) × IsDuplicate info s known
  unfolding check_duplicate_peer_id saved_route_id get_peer_info_version_with_default
  duplicate_lem info s e = elim (ℕ_discrete info.peer_id my_peer_id) [
    | yes y ↦ absurd (ground (arith, e, y))
    | no n ↦ elim (ℕ_discrete info.peer_id dst_peer_id) [
      | no k ↦ absurd (ground (arith, e, n, k))
      | yes k ↦ elim (Option-cases (info_of s dst_peer_id)) [
        | inl miss ↦ absurd (ground (arith, e, n, k, miss))
        | inr (x, found) ↦
            (x, (k, n, found, ground (arith, e, n, k, found), ground (arith, e, n, k, found)))
      ]
    ]
  ]

  loop-refused :
      (infos : List RoutePeerInfo) (raws : List Raw) (s : SyncedRouteInfo Raw) (b : Bool)
      (t : SyncedRouteInfo Raw)
      → loop infos raws (s, b) ≡ refused t
      → IsRefused infos s t
  unfolding update_loop
  loop-refused [] raws s b t e = absurd (ground (arith, e))
  loop-refused (info ∷ infos) [] s b t e = absurd (ground (arith, e))
  loop-refused (info ∷ infos) (raw ∷ raws) s b t e =
      let c = merge_info (stamped now info) raw (s, b) in
      elim (after_check-refused _ info raw (s, b) (loop infos raws) t e) [
        | inr (d, same) ↦
            let (x, (own, mine, found, ids, lt)) = duplicate_lem info s d in
            record {
              before = [];
              info = info;
              after = infos;
              parts = refl;
              merged = (loop_ends s false t (unfold inc_if in same)).0;
              kept_version = ap (λ (u : SyncedRouteInfo Raw). u.version) (sym same);
              of_sender = own;
              not_mine = mine;
              known = x;
              is_known = ap (λ (u : SyncedRouteInfo Raw). info_of u dst_peer_id) (sym same) ∙ found;
              other_route_id = ids;
              older = lt;
            }
        | inl go ↦
            let r = loop-refused infos raws c.0 c.1 t go in
            let (same, _) = merge_info_flag (stamped now info) raw s b in
            record {
              before = info ∷ r.before;
              info = r.info;
              after = r.after;
              parts = ap (λ l. info ∷ l) r.parts;
              merged = λ p.
                  more_infos (stamped now info) raw s b p (map (stamped now) r.before) (info_of t p)
                    (r.merged p);
              kept_version = r.kept_version ∙ same;
              of_sender = r.of_sender;
              not_mine = r.not_mine;
              known = r.known;
              is_known = r.is_known;
              other_route_id = r.other_route_id;
              older = r.older;
            }
      ]

-- Where the infos are accepted, each peer's entry is the old one unless a received info of that peer
-- has a higher version: then it is a received one of highest version, stamped with the local time. The
-- version counter goes up by one, modulo 2 ^ 32, or nothing at all has changed.
pub update_peer_infos-updated :
    {Raw : Type 0} (raw_peer_id : Raw → Option ℕ) (my_peer_id my_peer_route_id dst_peer_id now : ℕ)
    (infos : List RoutePeerInfo) (raws : List Raw) (s t : SyncedRouteInfo Raw)
    → update_peer_infos raw_peer_id my_peer_id my_peer_route_id dst_peer_id now infos raws s
      ≡ updated t
    → IsMerged raw_peer_id my_peer_id my_peer_route_id dst_peer_id now infos s t
      × ((t ≡ s) ⊎ (t.version ≡ (s.version + 1) % 2 ^ 32))
unfolding update_peer_infos
update_peer_infos-updated raw_peer_id me route dst now infos raws s t e =
    let (merged, v) = loop-updated raw_peer_id me route dst now infos raws s false t e in
    (merged, elim v [ inl (same, _) ↦ inl same | inr n ↦ inr n ])

-- Where the infos are refused as those of a duplicated peer id, one of them is about the sender (and not
-- about this peer), is older than the info that is known of the sender and has another route id. The
-- infos before it have been merged all the same, and the version counter has not gone up.
pub update_peer_infos-refused :
    {Raw : Type 0} (raw_peer_id : Raw → Option ℕ) (my_peer_id my_peer_route_id dst_peer_id now : ℕ)
    (infos : List RoutePeerInfo) (raws : List Raw) (s t : SyncedRouteInfo Raw)
    → update_peer_infos raw_peer_id my_peer_id my_peer_route_id dst_peer_id now infos raws s
      ≡ refused t
    → IsRefused raw_peer_id my_peer_id my_peer_route_id dst_peer_id now infos s t
unfolding update_peer_infos
update_peer_infos-refused raw_peer_id me route dst now infos raws s t e =
    loop-refused raw_peer_id me route dst now infos raws s false t e
