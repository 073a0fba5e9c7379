-- ===== src/Probe/Record/Tallies.antt =====
-- The two rings of a record after a history of checks (neo-uptime-node/src/health_checker.rs).
use neo_easy_tier_deamon.Prelude.{
  ℕ, ◌+◌, ◌*◌, ◌<◌, ◌≡◌, refl, Bool, true, false, List, [], ◌∷◌, length, set-set, if◌then◌else◌,
  arith, ==_refl, ==_ne, ℕ_discrete, ◌∙◌,
}
use neo_easy_tier_deamon.Prelude.Int.{ℤ}
use neo_easy_tier_deamon.Prelude.Words.{u64_mod}
use neo_easy_tier_deamon.Probe.Status.{is_healthy}
use neo_easy_tier_deamon.Probe.Ring.{
  Ring, ring_size, empty_ring, item_at, update_at, slot_of, inc, try_update_round,
}
use neo_easy_tier_deamon.Probe.Ring.Slots.{
  item_at-empty_ring, length-empty_ring, length-update_at, item_at-update_at, step_item,
  inc-eq-step_item, try_update_round-eq-step_item, inc-try_update_round, slot_of-lt,
}
use neo_easy_tier_deamon.Probe.Record.{new, update_health_status}
use neo_easy_tier_deamon.Probe.Record.History.{
  Check, replay, NotAfter, IsOrdered, tally, Latest, Tally, empty-Tally, step_item-Tally,
  skip-Tally,
}

abbrev pub any_check : Check → Bool
any_check c = true

abbrev pub healthy_check : Check → Bool
healthy_check c = is_healthy c.status

-- Every slot of a ring counts the checks of the kind `p` of its round.
pub record RingTally (p : Check → Bool) (ring : Ring) (cs : List Check) : Type 0 where
  pub size : length ring ≡ ring_size
  pub slots : (i : ℕ) → i < ring_size → Tally p i (item_at ring i) cs

empty_ring-RingTally : (p : Check → Bool) → RingTally p empty_ring []
empty_ring-RingTally p = record {
  size = length-empty_ring;
  slots = λ i h. rw (item_at-empty_ring i) (empty-Tally p i);
}

-- A check changes its own slot, and nothing else.
step-RingTally :
    (p : Check → Bool) (ring : Ring) (c : Check) (cs : List Check)
    → RingTally p ring cs
    → NotAfter c.at cs
    → length cs + 1 < u64_mod
    → RingTally p (update_at ring (slot_of c.at) (step_item (p c) c.at)) (c ∷ cs)
step-RingTally p ring c cs v h small = record {
  size = length-update_at ring (slot_of c.at) (step_item (p c) c.at) ∙ v.size;
  slots = slot;
}
  where
    in_range : slot_of c.at < length ring
    in_range = omega (arith, v.size)

    slot :
        (i : ℕ)
        → i < ring_size
        → Tally p i (item_at (update_at ring (slot_of c.at) (step_item (p c) c.at)) i) (c ∷ cs)
    slot i hi =
        rw (item_at-update_at ring (slot_of c.at) i (step_item (p c) c.at) in_range)
          (elim (ℕ_discrete (slot_of c.at) i) [
            | yes e ↦ rw (← e) (
                rw (==_refl (slot_of c.at)) (
                  step_item-Tally p (item_at ring (slot_of c.at)) c cs
                    (v.slots (slot_of c.at) (slot_of-lt c.at)) h small))
            | no ne ↦ rw (==_ne _ _ ne) (skip-Tally p i (item_at ring i) c cs (v.slots i hi) hi ne)
          ])

-- The two writes to the ring of the healthy checks come to one.
pub healthy_ring_step :
    (ok : Bool) (now : ℕ) (ring : Ring)
    → slot_of now < length ring
    → (if ok
        then update_at
            (update_at ring (slot_of now) (λ x. try_update_round x now))
            (slot_of now)
            (λ x. inc x now)
        else update_at ring (slot_of now) (λ x. try_update_round x now))
      ≡ update_at ring (slot_of now) (step_item ok now)
healthy_ring_step false now ring h =
    rw (try_update_round-eq-step_item (item_at ring (slot_of now)) now)
healthy_ring_step true now ring h =
    rw (item_at-update_at ring (slot_of now) (slot_of now) (λ x. try_update_round x now) h) (
      rw (==_refl (slot_of now)) (
        rw (inc-try_update_round (item_at ring (slot_of now)) now)
          (set-set ring (slot_of now) _ _)))

module _ (node_id : ℤ) (created : ℕ) where
  -- After the checks of an ordered history the ring of totals counts all checks, and the other
  -- ring the healthy ones.
  pub replay-RingTally :
      (cs : List Check)
      → IsOrdered cs
      → length cs < u64_mod
      → RingTally any_check (replay node_id created cs).total_check_counter_ring cs
        × RingTally healthy_check (replay node_id created cs).healthy_counter_ring cs
  unfolding replay new update_health_status
  replay-RingTally [] o small = (empty_ring-RingTally any_check, empty_ring-RingTally healthy_check)
  replay-RingTally (c ∷ cs) o small =
      let r = replay node_id created cs in
      let ih = replay-RingTally cs o.1 (omega arith) in
      (
        rw (inc-eq-step_item (item_at r.total_check_counter_ring (slot_of c.at)) c.at)
            (step-RingTally any_check r.total_check_counter_ring c cs ih.0 o.0 (omega arith)),
        rw
            (healthy_ring_step (is_healthy c.status) c.at r.healthy_counter_ring
              (omega (arith, ih.1.size)))
            (step-RingTally healthy_check r.healthy_counter_ring c cs ih.1 o.0 (omega arith)),
      )

-- A slot of the two rings is always in the same round.
same_round_step :
    (total healthy : Ring) (b b' : Bool) (now i : ℕ)
    → slot_of now < length total
    → slot_of now < length healthy
    → (item_at healthy i).round ≡ (item_at total i).round
    → (item_at (update_at healthy (slot_of now) (step_item b now)) i).round
      ≡ (item_at (update_at total (slot_of now) (step_item b' now)) i).round
same_round_step total healthy b b' now i ht hh e =
    rw (item_at-update_at healthy (slot_of now) i (step_item b now) hh)
      (rw (item_at-update_at total (slot_of now) i (step_item b' now) ht) (ground arith))

module _ (node_id : ℤ) (created : ℕ) where
  pub replay-same_round :
      (cs : List Check) (i : ℕ)
      → IsOrdered cs
      → length cs < u64_mod
      → (item_at (replay node_id created cs).healthy_counter_ring i).round
        ≡ (item_at (replay node_id created cs).total_check_counter_ring i).round
  unfolding replay new update_health_status
  replay-same_round [] i o small = refl
  replay-same_round (c ∷ cs) i o small =
      let r = replay node_id created cs in
      let (vt, vh) = replay-RingTally node_id created cs o.1 (omega arith) in
      rw (inc-eq-step_item (item_at r.total_check_counter_ring (slot_of c.at)) c.at) (
        rw
          (healthy_ring_step (is_healthy c.status) c.at r.healthy_counter_ring
            (omega (arith, vh.size)))
          (same_round_step r.total_check_counter_ring r.healthy_counter_ring (is_healthy c.status)
            true c.at i (omega (arith, vt.size)) (omega (arith, vh.size))
            (replay-same_round cs i o.1 (omega arith))))

  -- After any ordered history of fewer than 2 ^ 64 updates of a new record, slot `i` of both rings
  -- is in one round, and the two counters are the numbers of all and of the healthy checks of the
  -- history in the quarter of an hour that this round and the slot make up. No check of the slot
  -- has a later round.
  pub replay_slots :
      (cs : List Check) (i : ℕ)
      → IsOrdered cs
      → length cs < u64_mod
      → i < ring_size
      → let r = replay node_id created cs in
        let t = item_at r.total_check_counter_ring i in
        let h = item_at r.healthy_counter_ring i in
        (t.counter ≡ tally any_check (t.round * ring_size + i) cs)
        × (h.counter ≡ tally healthy_check (t.round * ring_size + i) cs)
        × (h.round ≡ t.round)
        × Latest i t.round cs
  replay_slots cs i o small hi =
      let (vt, vh) = replay-RingTally node_id created cs o small in
      let same = replay-same_round cs i o small in
      ((vt.slots i hi).counted, rw (← same) (vh.slots i hi).counted, same, (vt.slots i hi).latest)
