-- ===== src/Route/Trust/Earned.antt =====
-- `verify_and_update_group_trusts`: where the groups that a peer is trusted to be in come from.
use mathlib.Core.List.{lookup, Memᴰ}
use mathlib.Core.List.Memᴰ
use mathlib.Core.Logic.{if_pos, if_neg}
use mathlib.Core.Path.{subst}
use mathlib.Core.Option.{some-injective, none-ne-some}
use neo_easy_tier_deamon.Prelude.{
  ℕ, ◌≡◌, ◌≢◌, refl, sym, ap, ◌∙◌, ◌⊎◌, inl, inr, Bool, Option, none, some, List, [], ◌∷◌,
  ℕ_discrete, Option-cases,
}
use neo_easy_tier_deamon.Prelude.Text.{Text, text_discrete}
use neo_easy_tier_deamon.Prelude.Assoc.{lookup-put, lookup-remove}
use neo_easy_tier_deamon.Route.Messages.{RoutePeerInfo, PeerGroupInfo}
use neo_easy_tier_deamon.Route.Synced.{SyncedRouteInfo}
use neo_easy_tier_deamon.Route.Trust.{
  GroupIdentity, declared, verify_groups, set_trust, drop_trust, trust_occupied, trust_vacant,
  verify_info, verify_infos, verify_and_update_group_trusts,
}
use neo_easy_tier_deamon.Route.Trust.Proofs.{Has, trust_of, IsProven, IsBacked, groups-IsBacked}
use neo_easy_tier_deamon.Route.Trust.Shown.{IsShown, about_any, later_shown, first_shown}

nothing_found :
    (name proof : Text) (trusted : List (Text × Text))
    → trusted ≡ []
    → ¬ (lookup text_discrete name trusted ≡ some proof)
unfolding lookup
nothing_found name proof trusted empty e =
    none-ne-some proof (sym (ap (λ m. lookup text_discrete name m) empty) ∙ e)

module _ (verify : PeerGroupInfo → Text → ℕ → Bool) {Raw : Type 0} where
  -- After the turn of the peer `k` with the groups `gs`.
  abbrev IsTurn : ℕ → List (Text × Text) → SyncedRouteInfo Raw → SyncedRouteInfo Raw → Type 0
  IsTurn k gs s t =
      (p : ℕ) (name proof : Text)
      → Has (trust_of t p) name proof
      → ((k ≡ p) × (lookup text_discrete name gs ≡ some proof))
        ⊎ ((k ≢ p) × Has (trust_of s p) name proof)

  set_trust-IsTurn :
      (k : ℕ) (gs : List (Text × Text)) (s : SyncedRouteInfo Raw)
      → IsTurn k gs s (set_trust verify k gs s)
  unfolding set_trust
  set_trust-IsTurn k gs s p name proof (m, e, l) =
      let found = sym (lookup-put ℕ_discrete k p gs s.group_trust_map) ∙ e in
      elim (ℕ_discrete k p) [
        | yes i ↦
            let same =
              some-injective _ _
                (sym (if_pos (ℕ_discrete k p) i (some gs) (trust_of s p)) ∙ found) in
            inl (i, ap (λ x. lookup text_discrete name x) same ∙ l)
        | no n ↦ inr (n, (m, sym (if_neg (ℕ_discrete k p) n (some gs) (trust_of s p)) ∙ found, l))
      ]

  drop_trust-IsTurn : (k : ℕ) (s : SyncedRouteInfo Raw) → IsTurn k [] s (drop_trust verify k s)
  unfolding drop_trust
  drop_trust-IsTurn k s p name proof (m, e, l) =
      let found = sym (lookup-remove ℕ_discrete k p s.group_trust_map) ∙ e in
      elim (ℕ_discrete k p) [
        | yes i ↦
            absurd (none-ne-some _ (sym (if_pos (ℕ_discrete k p) i none (trust_of s p)) ∙ found))
        | no n ↦ inr (n, (m, sym (if_neg (ℕ_discrete k p) n none (trust_of s p)) ∙ found, l))
      ]

  occupied-IsTurn :
      (k : ℕ) (gs : List (Text × Text)) (s : SyncedRouteInfo Raw)
      → IsTurn k gs s (trust_occupied verify k gs s)
  unfolding trust_occupied
  occupied-IsTurn k [] s = drop_trust-IsTurn k s
  occupied-IsTurn k (g ∷ gs) s = set_trust-IsTurn k (g ∷ gs) s

  vacant-IsTurn :
      (k : ℕ) (gs : List (Text × Text)) (s : SyncedRouteInfo Raw)
      → trust_of s k ≡ none
      → IsTurn k gs s (trust_vacant verify k gs s)
  unfolding trust_vacant
  vacant-IsTurn k [] s empty p name proof (m, e, l) =
      inr ((λ i. none-ne-some _ (sym empty ∙ (ap (λ q. trust_of s q) i ∙ e))), (m, e, l))
  vacant-IsTurn k (g ∷ gs) s empty p name proof h = set_trust-IsTurn k (g ∷ gs) s p name proof h

  module _ (secrets : List (Text × Text)) where
    -- Where a trusted group of `p` comes from, after one info.
    abbrev Comes : RoutePeerInfo → SyncedRouteInfo Raw → ℕ → Text → Text → Type 0
    Comes info s p name proof =
        ((info.peer_id ≡ p) × IsBacked verify secrets info.groups (trust_of s p) p name proof)
        ⊎ ((info.peer_id ≢ p) × Has (trust_of s p) name proof)

    turn-Comes :
        (info : RoutePeerInfo) (o : Option (List (Text × Text))) (s t : SyncedRouteInfo Raw)
        → trust_of s info.peer_id ≡ o
        → IsTurn info.peer_id (verify_groups verify secrets o info) s t
        → (p : ℕ) (name proof : Text) → Has (trust_of t p) name proof
        → Comes info s p name proof
    unfolding verify_groups
    turn-Comes info o s t at_peer turn p name proof h = elim (turn p name proof h) [
      | inr r ↦ inr r
      | inl (i, l) ↦
          elim (groups-IsBacked verify secrets info.groups o info.peer_id [] name proof l) [
            | inl nothing ↦ absurd (nothing_found name proof [] refl nothing)
            | inr b ↦ inl (
              i,
              subst (λ q. IsBacked verify secrets info.groups (trust_of s q) q name proof) i
                  (subst (λ x. IsBacked verify secrets info.groups x info.peer_id name proof)
                    (sym at_peer) b),
            )
          ]
    ]

    info-Comes :
        (info : RoutePeerInfo) (s : SyncedRouteInfo Raw) (p : ℕ) (name proof : Text)
        → Has (trust_of (verify_info verify secrets info s) p) name proof
        → Comes info s p name proof
    unfolding verify_info
    info-Comes info s p name proof h = elim (Option-cases (trust_of s info.peer_id)) [
      | inl e ↦
          turn-Comes info none s
            (trust_vacant verify info.peer_id (verify_groups verify secrets none info) s) e
            (vacant-IsTurn info.peer_id (verify_groups verify secrets none info) s e) p name proof
            (rw (e, verify_info) at h)
      | inr (old, e) ↦
          turn-Comes info (some old) s
            (trust_occupied verify info.peer_id (verify_groups verify secrets (some old) info) s) e
            (occupied-IsTurn info.peer_id (verify_groups verify secrets (some old) info) s) p name
            proof (rw (e, verify_info) at h)
    ]

    -- The group was trusted before or a received proof of it is valid; and if any info about the peer was
    -- received, one of these shows the group.
    pub record IsEarned (infos : List RoutePeerInfo) (s : SyncedRouteInfo Raw) (p : ℕ)
        (name proof : Text) : Type 0 where
      pub reason :
          Has (trust_of s p) name proof
          ⊎ ((h : IsShown infos p name proof) × IsProven verify secrets h.group p)
      pub shown : (x : RoutePeerInfo) → Memᴰ x infos → x.peer_id ≡ p → IsShown infos p name proof

    more-IsEarned :
        (i : RoutePeerInfo) (is : List RoutePeerInfo) (s u : SyncedRouteInfo Raw) (p : ℕ)
        (name proof : Text)
        → (Has (trust_of u p) name proof → Comes i s p name proof)
        → IsEarned is u p name proof
        → IsEarned (i ∷ is) s p name proof
    more-IsEarned i is s u p name proof comes h = record {
      reason = elim h.reason [
        | inr (w, v) ↦ inr (later_shown i is p name proof w, v)
        | inl old ↦ elim (comes old) [
          | inr (_, before) ↦ inl before
          | inl (e, b) ↦ elim b.reason [
            | inl before ↦ inl before
            | inr v ↦ inr (first_shown verify secrets i is (trust_of s p) p name proof e b, v)
          ]
        ]
      ];
      shown = λ x m e. elim (about_any is p) [
        | inl (y, n, f) ↦ later_shown i is p name proof (h.shown y n f)
        | inr none_of ↦ elim h.reason [
          | inr (w, _) ↦ absurd (none_of w.info w.member w.about)
          | inl old ↦ elim (comes old) [
            | inl (f, b) ↦ first_shown verify secrets i is (trust_of s p) p name proof f b
            | inr (n, _) ↦ elim m [
              | Memᴰ.head k ↦ absurd (n (ap (λ (y : RoutePeerInfo). y.peer_id) (sym k) ∙ e))
              | Memᴰ.tail t ↦ absurd (none_of x t e)
            ]
          ]
        ]
      ];
    }

    infos-IsEarned :
        (infos : List RoutePeerInfo) (s : SyncedRouteInfo Raw) (p : ℕ) (name proof : Text)
        → Has (trust_of (verify_infos verify secrets infos s) p) name proof
        → IsEarned infos s p name proof
    unfolding verify_infos
    infos-IsEarned [] s p name proof h = record {
      reason = inl h;
      shown = λ x m. absurd (Memᴰ.not-nil m);
    }
    infos-IsEarned (i ∷ is) s p name proof h =
        let u = verify_info verify secrets i s in
        more-IsEarned i is s u p name proof (info-Comes i s p name proof)
          (infos-IsEarned is u p name proof h)

-- A peer is trusted to be in a group, with a proof, only if it was before or one of its received infos
-- carries the group and a proof that is valid for the peer by the secret declared here; and if any info of
-- the peer was received, then only if one of them carries the group with that proof.
pub verify_and_update_group_trusts-IsEarned :
    {Raw : Type 0} (verify : PeerGroupInfo → Text → ℕ → Bool) (infos : List RoutePeerInfo)
    (local_group_declarations : List GroupIdentity) (s : SyncedRouteInfo Raw) (p : ℕ)
    (name proof : Text)
    → Has
        (trust_of (verify_and_update_group_trusts verify infos local_group_declarations s) p)
        name
        proof
    → IsEarned verify (declared local_group_declarations) infos s p name proof
unfolding verify_and_update_group_trusts
verify_and_update_group_trusts-IsEarned verify infos gs s p name proof h =
    infos-IsEarned verify (declared gs) infos s p name proof h
