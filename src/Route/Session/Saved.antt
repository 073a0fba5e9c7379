-- ===== src/Route/Session/Saved.antt =====
-- What a session takes the other peer to know.
use mathlib.Core.List.{lookup, Memᴰ}
use mathlib.Core.List.Memᴰ
use mathlib.Core.Path.{subst}
use mathlib.Core.Logic.{if_pos, if_neg}
use mathlib.Core.Option.{some-injective, none-ne-some}
use native.Mathlib.Omega.{arith}
use neo_easy_tier_deamon.Prelude.{
  ℕ, ◌≤◌, ◌≡◌, ◌≢◌, ◌↔◌, refl, sym, ap, ◌∙◌, ◌⊎◌, inl, inr, Bool, true, ◌||◌, some, List, [], ◌∷◌,
  if◌then◌else◌, leb, leb→le, ◌==◌, max, ℕ_discrete, Option-cases, Bool-cases, if_true, if_false,
}
use neo_easy_tier_deamon.Prelude.Assoc.{lookup-put}
use neo_easy_tier_deamon.Route.Messages.{RoutePeerInfo}
use neo_easy_tier_deamon.Route.Session.{
  VersionAndTouchTime, SyncRouteSession, is_saved, save_version, save_infos,
  check_saved_peer_info_update_to_date, update_dst_saved_peer_info_version,
}

module _ {K : Type 0} (dec : Discrete K) where
  abbrev pub Saved : List (K × VersionAndTouchTime) → K → ℕ → Type 0
  Saved m k v = (x : VersionAndTouchTime) × (lookup dec k m ≡ some x) × (v ≤ x.version)

  pub is_saved_iff :
      (now : ℕ) (k : K) (v : ℕ) (m : List (K × VersionAndTouchTime))
      → ((is_saved dec now k v m).0 ≡ true) ↔ Saved m k v
  unfolding is_saved
  is_saved_iff now k v m = elim (Option-cases (lookup dec k m)) [
    | inl e ↦ ((λ t. absurd (ground (arith, e, t))), (λ h. absurd (none-ne-some _ (sym e ∙ h.1))))
    | inr (x, e) ↦ ((λ t. (x, e, ground (arith, e, t))), (λ h. ground (arith, e, h.1, h.2)))
  ]

  -- A version that is saved for a key.
  at_key :
      (now : ℕ) (k : K) (w : ℕ) (m : List (K × VersionAndTouchTime)) (v : ℕ)
      → Saved (save_version dec now k w m) k v ↔ (Saved m k v ⊎ (v ≤ w))
  unfolding save_version
  at_key now k w m v = elim (Option-cases (lookup dec k m)) [
    | inl e ↦
        let y : VersionAndTouchTime = record { version = max 0 w; touch_time = now } in
        let found : lookup dec k (save_version dec now k w m) ≡ some y =
          rw (e, save_version)
            (lookup-put dec k k y m ∙ if_pos (dec k k) refl (some y) (lookup dec k m)) in
        (
          (λ h. inr (
              ground (
                arith,
                ap (λ (x : VersionAndTouchTime). x.version) (some-injective _ _ (sym found ∙ h.1)),
                h.2,
              ))),
          λ h. elim h [
            | inl (x, f, _) ↦ absurd (none-ne-some _ (sym e ∙ f))
            | inr le ↦ (y, found, ground (arith, le))
          ],
        )
    | inr (o, e) ↦
        let y : VersionAndTouchTime = record {
          version = max o.version w;
          touch_time = o.touch_time;
        } in
        let found : lookup dec k (save_version dec now k w m) ≡ some y =
          rw (e, save_version)
            (lookup-put dec k k y m ∙ if_pos (dec k k) refl (some y) (lookup dec k m)) in
        (
          (λ h.
              let le : v ≤ max o.version w = ground (
                arith,
                ap (λ (x : VersionAndTouchTime). x.version) (some-injective _ _ (sym found ∙ h.1)),
                h.2,
              ) in
              elim (Bool-cases (leb v w)) [
                | inl y ↦ inr (leb→le v w y)
                | inr n ↦ inl (o, e, ground (arith, le, n))
              ]),
          λ h. elim h [
            | inl (x, f, le) ↦
                let same =
                  ap (λ (z : VersionAndTouchTime). z.version) (some-injective _ _ (sym e ∙ f)) in
                (y, found, ground (arith, le, same))
            | inr le ↦ (y, found, ground (arith, le))
          ],
        )
  ]

  off_key :
      (now : ℕ) (k p : K) (w : ℕ) (m : List (K × VersionAndTouchTime))
      → k ≢ p
      → lookup dec p (save_version dec now k w m) ≡ lookup dec p m
  unfolding save_version
  off_key now k p w m n = elim (Option-cases (lookup dec k m)) [
    | inl e ↦ rw (e, save_version) (lookup-put dec k p _ m ∙ if_neg (dec k p) n _ (lookup dec p m))
    | inr (o, e) ↦
        rw (e, save_version) (lookup-put dec k p _ m ∙ if_neg (dec k p) n _ (lookup dec p m))
  ]

  pub save_version_iff :
      (now : ℕ) (k p : K) (w : ℕ) (m : List (K × VersionAndTouchTime)) (v : ℕ)
      → Saved (save_version dec now k w m) p v ↔ (Saved m p v ⊎ ((k ≡ p) × (v ≤ w)))
  save_version_iff now k p w m v = elim (dec k p) [
    | yes e ↦
        let h : Saved (save_version dec now k w m) p v ↔ (Saved m p v ⊎ (v ≤ w)) =
          subst (λ q. Saved (save_version dec now k w m) q v ↔ (Saved m q v ⊎ (v ≤ w))) e
            (at_key now k w m v) in
        (
          (λ s. elim (h.0 s) [ inl o ↦ inl o | inr le ↦ inr (e, le) ]),
          (λ s. elim s [ inl o ↦ h.1 (inl o) | inr (_, le) ↦ h.1 (inr le) ]),
        )
    | no n ↦
        let same = off_key now k p w m n in
        (
          (λ s. inl (s.0, sym same ∙ s.1, s.2)),
          λ s. elim s [ inl o ↦ (o.0, same ∙ o.1, o.2) | inr (e, _) ↦ absurd (n e) ],
        )
  ]

-- One of the infos is about `p` and of at least this version.
abbrev pub Told : List RoutePeerInfo → ℕ → ℕ → Type 0
Told infos p v = (x : RoutePeerInfo) × Memᴰ x infos × (x.peer_id ≡ p) × (v ≤ x.version)

save_infos_iff :
    (now dst : ℕ) (infos : List RoutePeerInfo) (m : List (ℕ × VersionAndTouchTime)) (p v : ℕ)
    → p ≢ dst
    → Saved ℕ_discrete (save_infos now dst infos m) p v ↔ (Saved ℕ_discrete m p v ⊎ Told infos p v)
unfolding save_infos
save_infos_iff now dst [] m p v n =
    ((λ s. inl s), (λ s. elim s [ inl o ↦ o | inr (x, q, _, _) ↦ absurd (Memᴰ.not-nil q) ]))
save_infos_iff now dst (i ∷ is) m p v n =
    let u = (if i.peer_id == dst then m else save_version ℕ_discrete now i.peer_id i.version m) in
    let rest = save_infos_iff now dst is u p v n in
    let head : Saved ℕ_discrete u p v
        ↔ (Saved ℕ_discrete m p v ⊎ ((i.peer_id ≡ p) × (v ≤ i.version))) =
      elim (Bool-cases (i.peer_id == dst)) [
        | inl y ↦
            subst
              (λ w.
                Saved ℕ_discrete w p v
                ↔ (Saved ℕ_discrete m p v ⊎ ((i.peer_id ≡ p) × (v ≤ i.version))))
              (sym (if_true _ _ _ y))
              (
                (λ s. inl s),
                (λ s. elim s [ inl o ↦ o | inr (e, _) ↦ absurd (n (ground (arith, e, y))) ]),
              )
        | inr z ↦
            subst
              (λ w.
                Saved ℕ_discrete w p v
                ↔ (Saved ℕ_discrete m p v ⊎ ((i.peer_id ≡ p) × (v ≤ i.version))))
              (sym (if_false _ _ _ z)) (save_version_iff ℕ_discrete now i.peer_id p i.version m v)
      ] in
    (
      (λ s. elim (rest.0 s) [
        | inr (x, q, e, le) ↦ inr (x, Memᴰ.tail q, e, le)
        | inl o ↦ elim (head.0 o) [
          | inl old ↦ inl old
          | inr (e, le) ↦ inr (i, Memᴰ.head refl, e, le)
        ]
      ]),
      λ s. elim s [
        | inl old ↦ rest.1 (inl (head.1 (inl old)))
        | inr (x, q, e, le) ↦ elim q [
          | Memᴰ.tail r ↦ rest.1 (inr (x, r, e, le))
          | Memᴰ.head h ↦ rest.1 (
              inl (
                head.1 (
                  inr (
                    sym (ap (λ (y : RoutePeerInfo). y.peer_id) h) ∙ e,
                    subst (λ (y : RoutePeerInfo). v ≤ y.version) h le,
                  ))))
        ]
      ],
    )

check_iff :
    (now p v : ℕ) (s : SyncRouteSession)
    → p ≢ s.dst_peer_id
    → v ≢ 0
    → ((check_saved_peer_info_update_to_date now p v s).0 ≡ true)
      ↔ Saved ℕ_discrete s.dst_saved_peer_info_versions p v
unfolding check_saved_peer_info_update_to_date
check_iff now p v s n z =
    subst
      (λ (r : Bool × SyncRouteSession).
        (r.0 ≡ true) ↔ Saved ℕ_discrete s.dst_saved_peer_info_versions p v)
      (sym (if_false ((v == 0) || (p == s.dst_peer_id)) _ _ (ground (arith, n, z))))
      (is_saved_iff ℕ_discrete now p v s.dst_saved_peer_info_versions)

-- After infos have been told to the other peer, the session takes it to know a version of a peer (that is not
-- the other peer itself, and not version 0) exactly if it did before or one of the infos is about that peer and
-- of that version or a higher one: nothing is sent again without need, and nothing newer is held back.
pub update_dst_saved_peer_info_version_iff :
    (now now' p v : ℕ) (infos : List RoutePeerInfo) (s : SyncRouteSession)
    → p ≢ s.dst_peer_id
    → v ≢ 0
    → ((check_saved_peer_info_update_to_date now' p v
          (update_dst_saved_peer_info_version now infos s.dst_peer_id s)).0
        ≡ true)
      ↔ (((check_saved_peer_info_update_to_date now' p v s).0 ≡ true) ⊎ Told infos p v)
unfolding update_dst_saved_peer_info_version
update_dst_saved_peer_info_version_iff now now' p v infos s n z =
    let t = update_dst_saved_peer_info_version now infos s.dst_peer_id s in
    let before = check_iff now' p v s n z in
    let after = check_iff now' p v t n z in
    let told = save_infos_iff now s.dst_peer_id infos s.dst_saved_peer_info_versions p v n in
    (
      (λ c. elim (told.0 (after.0 c)) [ inl o ↦ inl (before.1 o) | inr q ↦ inr q ]),
      (λ c. elim c [
        | inl o ↦ after.1 (told.1 (inl (before.0 o)))
        | inr q ↦ after.1 (told.1 (inr q))
      ]),
    )
