-- ===== src/Route/Trust/Shown.antt =====
-- The infos that show a group.
use mathlib.Core.List.{Memᴰ}
use mathlib.Core.List.Memᴰ
use neo_easy_tier_deamon.Prelude.{
  ℕ, ◌≡◌, ◌≢◌, refl, sym, ap, ◌∙◌, ◌⊎◌, inl, inr, Bool, Option, List, [], ◌∷◌, ℕ_discrete,
}
use neo_easy_tier_deamon.Prelude.Text.{Text}
use neo_easy_tier_deamon.Route.Messages.{RoutePeerInfo, PeerGroupInfo}
use neo_easy_tier_deamon.Route.Trust.Proofs.{IsBacked}

-- An info about `p` that carries the name and the proof.
pub record IsShown (infos : List RoutePeerInfo) (p : ℕ) (name proof : Text) : Type 0 where
  pub info : RoutePeerInfo
  pub member : Memᴰ info infos
  pub about : info.peer_id ≡ p
  pub group : PeerGroupInfo
  pub group_member : Memᴰ group info.groups
  pub name_eq : group.group_name ≡ name
  pub proof_eq : group.group_proof ≡ proof

pub about_any :
    (infos : List RoutePeerInfo) (p : ℕ)
    → ((x : RoutePeerInfo) × Memᴰ x infos × (x.peer_id ≡ p))
      ⊎ ((x : RoutePeerInfo) → Memᴰ x infos → x.peer_id ≢ p)
about_any [] p = inr (λ x m e. Memᴰ.not-nil m)
about_any (i ∷ is) p = elim (ℕ_discrete i.peer_id p) [
  | yes e ↦ inl (i, Memᴰ.head refl, e)
  | no n ↦ elim (about_any is p) [
    | inl (x, m, e) ↦ inl (x, Memᴰ.tail m, e)
    | inr none_of ↦ inr (λ x m e. elim m [
      | Memᴰ.head h ↦ n (ap (λ (y : RoutePeerInfo). y.peer_id) (sym h) ∙ e)
      | Memᴰ.tail t ↦ none_of x t e
    ])
  ]
]

abbrev pub later_shown :
    (i : RoutePeerInfo) (is : List RoutePeerInfo) (p : ℕ) (name proof : Text)
    → IsShown is p name proof
    → IsShown (i ∷ is) p name proof
later_shown i is p name proof h = record {
  info = h.info;
  member = Memᴰ.tail h.member;
  about = h.about;
  group = h.group;
  group_member = h.group_member;
  name_eq = h.name_eq;
  proof_eq = h.proof_eq;
}

module _ (verify : PeerGroupInfo → Text → ℕ → Bool) (secrets : List (Text × Text)) where
  abbrev pub first_shown :
      (i : RoutePeerInfo) (is : List RoutePeerInfo) (o : Option (List (Text × Text))) (p : ℕ)
      (name proof : Text)
      → i.peer_id ≡ p
      → IsBacked verify secrets i.groups o p name proof
      → IsShown (i ∷ is) p name proof
  first_shown i is o p name proof e b = record {
    info = i;
    member = Memᴰ.head refl;
    about = e;
    group = b.group;
    group_member = b.member;
    name_eq = b.name_eq;
    proof_eq = b.proof_eq;
  }
