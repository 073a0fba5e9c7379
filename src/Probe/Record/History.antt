-- ===== src/Probe/Record/History.antt =====
-- A record against the checks that made it (neo-uptime-node/src/health_checker.rs), and the counts
-- of these checks by quarters of an hour.
use Prim.Native.String.{String}
use neo_easy_tier_deamon.Prelude.{
  ℕ, suc, ◌+◌, ◌*◌, ◌/◌, ◌<◌, ◌≤◌, ◌≡◌, refl, Bool, List, [], ◌∷◌, Option, length, if◌then◌else◌,
  ◌==◌, arith, ℕ_discrete, ◌⊎◌, inl, inr,
}
use neo_easy_tier_deamon.Prelude.Int.{ℤ}
use neo_easy_tier_deamon.Prelude.Words.{u64_mod}
use neo_easy_tier_deamon.Probe.Status.{HealthStatus}
use neo_easy_tier_deamon.Probe.Ring.{
  RingItem, ring_size, empty_item, slot_of, round_of, granularity_sec,
}
use neo_easy_tier_deamon.Probe.Ring.Slots.{step_item, window_split, slot_of-lt}
use neo_easy_tier_deamon.Probe.Record.{HealthyMemRecord, new, update_health_status}

-- A call of `update_health_status`: its arguments, and the two readings of the clock.
pub record Check : Type 0 where
  pub status : HealthStatus
  pub response_time : Option ℤ
  pub error_message : Option String
  pub read_at : ℕ
  pub at : ℕ

-- A fresh record after the checks of a list, the last one first.
unfoldable pub replay : ℤ → ℕ → List Check → HealthyMemRecord
replay node_id created [] = new node_id created
replay node_id created (c ∷ cs) =
    update_health_status (replay node_id created cs) c.status c.response_time c.error_message
      c.read_at c.at

-- No check of the list is later than `t`.
abbrev pub NotAfter : ℕ → List Check → Type 0
NotAfter t [] = Unit
NotAfter t (c ∷ cs) = (c.at ≤ t) × NotAfter t cs

-- The clock does not run backwards.
abbrev pub IsOrdered : List Check → Type 0
IsOrdered [] = Unit
IsOrdered (c ∷ cs) = NotAfter c.at cs × IsOrdered cs

-- How many checks of the kind `p` fall into the quarter of an hour with number `w`.
abbrev pub tally : (Check → Bool) → ℕ → List Check → ℕ
tally p w [] = 0
tally p w (c ∷ cs) =
    let rest = tally p w cs in
    if c.at / granularity_sec == w then (if p c then suc rest else rest) else rest

pub tally-le-length : (p : Check → Bool) (w : ℕ) (cs : List Check) → tally p w cs ≤ length cs
tally-le-length p w [] = omega arith
tally-le-length p w (c ∷ cs) = ground (arith, tally-le-length p w cs)

-- The checks of slot `i` belong to round `k` or an earlier one.
abbrev pub Latest : ℕ → ℕ → List Check → Type 0
Latest i k [] = Unit
Latest i k (c ∷ cs) = (slot_of c.at ≡ i → round_of c.at ≤ k) × Latest i k cs

-- An item of slot `i` counts the checks of the kind `p` of its round, the latest with a check.
pub record Tally (p : Check → Bool) (i : ℕ) (x : RingItem) (cs : List Check) : Type 0 where
  pub counted : x.counter ≡ tally p (x.round * ring_size + i) cs
  pub latest : Latest i x.round cs
  pub reached :
      (t : ℕ) → NotAfter t cs → (x.round ≡ 0) ⊎ (x.round * ring_size + i ≤ t / granularity_sec)

pub tally-later :
    (p : Check → Bool) (i k r : ℕ) (cs : List Check)
    → Latest i k cs
    → k < r
    → i < ring_size
    → tally p (r * ring_size + i) cs ≡ 0
tally-later p i k r [] l h hi = refl
tally-later p i k r (c ∷ cs) l h hi =
    ground (arith, tally-later p i k r cs l.1 h hi, window_split c.at)

Latest-mono : (i k r : ℕ) (cs : List Check) → k ≤ r → Latest i k cs → Latest i r cs
Latest-mono i k r [] h l = tt
Latest-mono i k r (c ∷ cs) h l = (λ e. omega (arith, l.0 e), Latest-mono i k r cs h l.1)

Latest-NotAfter : (i t : ℕ) (cs : List Check) → NotAfter t cs → Latest i (round_of t) cs
Latest-NotAfter i t [] h = tt
Latest-NotAfter i t (c ∷ cs) h = (λ _. omega arith, Latest-NotAfter i t cs h.1)

-- What a slot holds of the round of `t` before a check at `t`.
pub aged-eq-tally :
    (p : Check → Bool) (x : RingItem) (t : ℕ) (cs : List Check)
    → Tally p (slot_of t) x cs
    → NotAfter t cs
    → (if x.round == round_of t then x.counter else 0)
      ≡ tally p (round_of t * ring_size + slot_of t) cs
aged-eq-tally p x t cs v h = elim (ℕ_discrete x.round (round_of t)) [
  | yes e ↦ rw (← e) (ground arith)
  | no ne ↦ ground (
    arith,
    tally-later p (slot_of t) x.round (round_of t) cs v.latest (omega (arith, v.reached t h))
        (slot_of-lt t),
  )
]

pub empty-Tally : (p : Check → Bool) (i : ℕ) → Tally p i empty_item []
empty-Tally p i = record { counted = refl; latest = tt; reached = λ t n. inl refl }

-- A check that falls into the slot.
pub step_item-Tally :
    (p : Check → Bool) (x : RingItem) (c : Check) (cs : List Check)
    → Tally p (slot_of c.at) x cs
    → NotAfter c.at cs
    → length cs + 1 < u64_mod
    → Tally p (slot_of c.at) (step_item (p c) c.at x) (c ∷ cs)
step_item-Tally p x c cs v h small = record {
  counted = ground (
    arith,
    aged-eq-tally p x c.at cs v h,
    window_split c.at,
    tally-le-length p (round_of c.at * ring_size + slot_of c.at) cs,
  );
  latest = (λ _. omega arith, Latest-NotAfter (slot_of c.at) c.at cs h);
  reached = λ t n. inr (omega arith);
}

-- A check that falls into another slot.
pub skip-Tally :
    (p : Check → Bool) (i : ℕ) (x : RingItem) (c : Check) (cs : List Check)
    → Tally p i x cs
    → i < ring_size
    → ¬ (slot_of c.at ≡ i)
    → Tally p i x (c ∷ cs)
skip-Tally p i x c cs v hi ne = record {
  counted = ground (arith, window_split c.at);
  latest = (λ e. absurd (ne e), v.latest);
  reached = λ t n. v.reached t n.1;
}
