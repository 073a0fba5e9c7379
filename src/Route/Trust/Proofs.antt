-- ===== src/Route/Trust/Proofs.antt =====
-- A peer is trusted to be in a group only by a proof.
use mathlib.Core.List.{lookup, Memᴰ}
use mathlib.Core.Logic.{if_pos, if_neg}
use mathlib.Core.Path.{subst}
use mathlib.Core.Option.{some-injective}
use native.Mathlib.Omega.{arith}
use neo_easy_tier_deamon.Prelude.{
  ℕ, ◌≡◌, refl, sym, ap, ◌∙◌, ◌⊎◌, inl, inr, Bool, true, false, Option, none, some, List, [], ◌∷◌,
  ℕ_discrete, Option-cases, Bool-cases, if◌then◌else◌, if_true, if_false,
}
use neo_easy_tier_deamon.Prelude.Text.{Text, text_discrete}
use neo_easy_tier_deamon.Prelude.Assoc.{put, lookup-put}
use neo_easy_tier_deamon.Route.Messages.{PeerGroupInfo}
use neo_easy_tier_deamon.Route.Synced.{SyncedRouteInfo}
use neo_easy_tier_deamon.Route.Trust.{was_trusted, is_verified, verify_groups_from}

-- The group `name` with this proof is among the entry of a peer.
abbrev pub Has : Option (List (Text × Text)) → Text → Text → Type 0
Has o name proof =
    (gs : List (Text × Text)) × (o ≡ some gs) × (lookup text_discrete name gs ≡ some proof)

abbrev pub trust_of : {Raw : Type 0} → SyncedRouteInfo Raw → ℕ → Option (List (Text × Text))
trust_of s p = lookup ℕ_discrete p s.group_trust_map

was_trusted-Has :
    (old : Option (List (Text × Text))) (g : PeerGroupInfo)
    → was_trusted old g ≡ true
    → Has old g.group_name g.group_proof
unfolding was_trusted
was_trusted-Has none g e = absurd (ground (arith, e))
was_trusted-Has (some old) g e = elim (Option-cases (lookup text_discrete g.group_name old)) [
  | inl miss ↦ absurd (ground (arith, e, miss))
  | inr (p, found) ↦ elim (text_discrete p g.group_proof) [
    | yes same ↦ (old, refl, found ∙ ap some same)
    | no other ↦
        absurd (ground (arith, e, found, if_neg (text_discrete p g.group_proof) other true false))
  ]
]

module _ (verify : PeerGroupInfo → Text → ℕ → Bool) (secrets : List (Text × Text)) where
  -- A group whose proof `verify` accepts, by the secret that is declared here.
  pub record IsProven (g : PeerGroupInfo) (p : ℕ) : Type 0 where
    pub secret : Text
    pub is_declared : lookup text_discrete g.group_name secrets ≡ some secret
    pub accepted : verify g secret p ≡ true

  is_verified-IsProven :
      (g : PeerGroupInfo) (p : ℕ) → is_verified verify secrets g p ≡ true → IsProven g p
  unfolding is_verified
  is_verified-IsProven g p e = elim (Option-cases (lookup text_discrete g.group_name secrets)) [
    | inl miss ↦ absurd (ground (arith, e, miss))
    | inr (secret, found) ↦ record {
      secret = secret;
      is_declared = found;
      accepted = ground (arith, e, found);
    }
  ]

  -- One of `groups` carries this name and proof, and is proven or was trusted.
  pub record IsBacked (groups : List PeerGroupInfo) (old : Option (List (Text × Text))) (p : ℕ)
      (name proof : Text) : Type 0 where
    pub group : PeerGroupInfo
    pub member : Memᴰ group groups
    pub name_eq : group.group_name ≡ name
    pub proof_eq : group.group_proof ≡ proof
    pub reason : Has old name proof ⊎ IsProven group p

  put-IsBacked :
      (g : PeerGroupInfo) (gs : List PeerGroupInfo) (old : Option (List (Text × Text))) (p : ℕ)
      (trusted : List (Text × Text)) (name proof : Text)
      → Has old g.group_name g.group_proof ⊎ IsProven g p
      → lookup text_discrete name (put text_discrete g.group_name g.group_proof trusted)
        ≡ some proof
      → (lookup text_discrete name trusted ≡ some proof) ⊎ IsBacked (g ∷ gs) old p name proof
  put-IsBacked g gs old p trusted name proof r e =
      let found = sym (lookup-put text_discrete g.group_name name g.group_proof trusted) ∙ e in
      elim (text_discrete g.group_name name) [
        | yes i ↦
            let same = some-injective _ _ (
              sym (
                if_pos (text_discrete g.group_name name) i (some g.group_proof)
                  (lookup text_discrete name trusted))
              ∙ found) in
            inr (record {
              group = g;
              member = Memᴰ.head refl;
              name_eq = i;
              proof_eq = same;
              reason = elim r [
                | inl (m, o, l) ↦
                    inl (m, o, ap (λ n. lookup text_discrete n m) (sym i) ∙ (l ∙ ap some same))
                | inr v ↦ inr v
              ];
            })
        | no n ↦ inl (
            sym (
              if_neg (text_discrete g.group_name name) n (some g.group_proof)
                (lookup text_discrete name trusted))
            ∙ found)
      ]

  one_group :
      (g : PeerGroupInfo) (gs : List PeerGroupInfo) (old : Option (List (Text × Text))) (p : ℕ)
      (trusted : List (Text × Text)) (name proof : Text)
      → lookup text_discrete name (
          if was_trusted old g
          then put text_discrete g.group_name g.group_proof trusted
          else if is_verified verify secrets g p
          then put text_discrete g.group_name g.group_proof trusted
          else trusted)
        ≡ some proof
      → (lookup text_discrete name trusted ≡ some proof) ⊎ IsBacked (g ∷ gs) old p name proof
  one_group g gs old p trusted name proof e = elim (Bool-cases (was_trusted old g)) [
    | inl y ↦
        put-IsBacked g gs old p trusted name proof (inl (was_trusted-Has old g y))
          (subst (λ m. lookup text_discrete name m ≡ some proof) (if_true _ _ _ y) e)
    | inr n ↦
        let e' = subst (λ m. lookup text_discrete name m ≡ some proof) (if_false _ _ _ n) e in
        elim (Bool-cases (is_verified verify secrets g p)) [
          | inl y ↦
              put-IsBacked g gs old p trusted name proof (inr (is_verified-IsProven g p y))
                (subst (λ m. lookup text_discrete name m ≡ some proof) (if_true _ _ _ y) e')
          | inr k ↦
              inl (subst (λ m. lookup text_discrete name m ≡ some proof) (if_false _ _ _ k) e')
        ]
  ]

  later_group :
      (g : PeerGroupInfo) (gs : List PeerGroupInfo) (old : Option (List (Text × Text))) (p : ℕ)
      (name proof : Text)
      → IsBacked gs old p name proof
      → IsBacked (g ∷ gs) old p name proof
  later_group g gs old p name proof b = record {
    group = b.group;
    member = Memᴰ.tail b.member;
    name_eq = b.name_eq;
    proof_eq = b.proof_eq;
    reason = b.reason;
  }

  pub groups-IsBacked :
      (gs : List PeerGroupInfo) (old : Option (List (Text × Text))) (p : ℕ)
      (trusted : List (Text × Text)) (name proof : Text)
      → lookup text_discrete name (verify_groups_from verify secrets old p gs trusted) ≡ some proof
      → (lookup text_discrete name trusted ≡ some proof) ⊎ IsBacked gs old p name proof
  unfolding verify_groups_from
  groups-IsBacked [] old p trusted name proof e = inl e
  groups-IsBacked (g ∷ gs) old p trusted name proof e =
      elim (groups-IsBacked gs old p _ name proof e) [
        | inr b ↦ inr (later_group g gs old p name proof b)
        | inl l ↦ one_group g gs old p trusted name proof l
      ]
