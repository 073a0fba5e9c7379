-- ===== src/Probe/Record/CounterRing.antt =====
-- `get_counter_ring` of neo-uptime-node/src/health_checker.rs: the counts of the last 96 quarters
-- of an hour, the current one first.
use neo_easy_tier_deamon.Prelude.{
  ℕ, zero, suc, ◌+◌, ◌-◌, ◌*◌, ◌/◌, ◌<◌, ◌≤◌, ◌≡◌, ◌≢◌, refl, List, length, get_elem?, some, ap,
  Bool, arith, ==_ne, ℕ_discrete, ◌∙◌,
}
use native.Mathlib.Nat.{add-zero, zero-add}
use neo_easy_tier_deamon.Prelude.Int.{ℤ}
use neo_easy_tier_deamon.Prelude.Words.{u64_mod}
use neo_easy_tier_deamon.Probe.Ring.{
  Ring, RingItem, ring_size, item_at, update_at, slot_of, round_of, granularity_sec, get,
  try_update_round,
}
use neo_easy_tier_deamon.Probe.Ring.Slots.{
  length-update_at, item_at-update_at, window_split, slot_of-lt,
}
use neo_easy_tier_deamon.Probe.Record.{counter_ring_from, get_counter_ring}
use neo_easy_tier_deamon.Probe.Record.History.{
  Check, replay, NotAfter, IsOrdered, tally, Tally, tally-later,
}
use neo_easy_tier_deamon.Probe.Record.Tallies.{
  replay-RingTally, replay-same_round, any_check, healthy_check,
}

-- The times at which the loop looks lie in different slots.
slots_differ :
    (now i k : ℕ)
    → suc (i + k) < ring_size
    → ring_size * granularity_sec ≤ now + granularity_sec
    → slot_of (now - i * granularity_sec) ≢ slot_of (now - (i + 1 + k) * granularity_sec)
slots_differ now i k h late e = omega arith

-- Pass `k` of the loop reads what stood in its slot at the start.
counter_ring_from-get_elem? :
    (n i k : ℕ) (total healthy : Ring) (now : ℕ)
    → k < n
    → i + n ≤ ring_size
    → ring_size ≤ length total
    → ring_size * granularity_sec ≤ now + granularity_sec
    → let t = now - (i + k) * granularity_sec in
      let out = counter_ring_from n i total healthy now in
      (get_elem? out.1 k ≡ some (get (item_at total (slot_of t)) t).1)
      × (get_elem? out.2 k ≡ some (item_at healthy (slot_of t)).counter)
unfolding counter_ring_from
counter_ring_from-get_elem? zero i k total healthy now hk hn ht late = elim hk [ ]
counter_ring_from-get_elem? (suc n) i zero total healthy now hk hn ht late =
    rw (add-zero i) (refl, refl)
counter_ring_from-get_elem? (suc n) i (suc k) total healthy now hk hn ht late =
    let t = now - i * granularity_sec in
    let t' = now - (i + 1 + k) * granularity_sec in
    let f : RingItem → RingItem = λ _. (get (item_at total (slot_of t)) t).0 in
    let total' = update_at total (slot_of t) f in
    let same : item_at total' (slot_of t') ≡ item_at total (slot_of t') =
      rw (item_at-update_at total (slot_of t) (slot_of t') f (omega (arith, slot_of-lt t)))
        (rw (==_ne _ _ (slots_differ now i k (omega arith) late))) in
    let next : i + suc k ≡ i + 1 + k = omega arith in
    let ih =
      counter_ring_from-get_elem? n (i + 1) k total' healthy now (omega arith) (omega arith)
        (omega (arith, length-update_at total (slot_of t) f)) late in
    rw next (rw same at ih)

-- What `get` returns for a slot, if no check is later than `now` and less than a day separates `t`
-- from `now`.
get-Tally :
    (p : Check → Bool) (x : RingItem) (t now : ℕ) (cs : List Check)
    → Tally p (slot_of t) x cs
    → NotAfter now cs
    → now / granularity_sec < t / granularity_sec + ring_size
    → (get x t).1 ≡ tally p (t / granularity_sec) cs
unfolding get try_update_round
get-Tally p x t now cs v h near = elim (ℕ_discrete x.round (round_of t)) [
  | yes e ↦ ground (arith, window_split t, ap (λ k. tally p (k * ring_size + slot_of t) cs) e)
  | no ne ↦ ground (
    arith,
    window_split t,
    tally-later p (slot_of t) x.round (round_of t) cs v.latest
        (omega (arith, v.reached now h, window_split t)) (slot_of-lt t),
  )
]

module _ (node_id : ℤ) (created : ℕ) where
  -- After an ordered history of fewer than 2 ^ 64 checks none of which is later than the record's
  -- last check time (which is at least a day less a quarter of an hour after the epoch), place `i` of the first
  -- list is the number of checks in the quarter of an hour that is `i` before the current one.
  pub get_counter_ring_totals :
      (cs : List Check) (i : ℕ)
      → IsOrdered cs
      → length cs < u64_mod
      → NotAfter (replay node_id created cs).last_check_time cs
      → ring_size * granularity_sec ≤ (replay node_id created cs).last_check_time + granularity_sec
      → i < ring_size
      → let r = replay node_id created cs in
        get_elem? (get_counter_ring r).1 i
        ≡ some (tally any_check (r.last_check_time / granularity_sec - i) cs)
  unfolding get_counter_ring
  get_counter_ring_totals cs i o small h late hi =
      let r = replay node_id created cs in
      let now = r.last_check_time in
      let t = now - i * granularity_sec in
      let v = (replay-RingTally node_id created cs o small).0 in
      let window : now / granularity_sec - i ≡ t / granularity_sec = omega arith in
      let read =
        (counter_ring_from-get_elem? ring_size 0 i r.total_check_counter_ring r.healthy_counter_ring
          now hi (omega arith) (omega (arith, v.size)) late).0 in
      rw window (
        rw
          (← get-Tally any_check (item_at r.total_check_counter_ring (slot_of t)) t now cs
            (v.slots (slot_of t) (slot_of-lt t)) h (omega arith))
          (rw (zero-add i) at read))

  -- After an ordered history of fewer than 2 ^ 64 checks none of which is later than the record's
  -- last check time (which is at least a day less a quarter of an hour after the epoch): if slot
  -- `j`, at which pass `i` looks, was last used in another round than the one that the pass is
  -- about, then there is no check in that quarter of an hour, the first list says so, and the
  -- second list still shows the healthy checks of the other round.
  pub get_counter_ring_stale :
      (cs : List Check) (i j : ℕ)
      → IsOrdered cs
      → length cs < u64_mod
      → NotAfter (replay node_id created cs).last_check_time cs
      → ring_size * granularity_sec ≤ (replay node_id created cs).last_check_time + granularity_sec
      → i < ring_size
      → j ≡ slot_of ((replay node_id created cs).last_check_time - i * granularity_sec)
      → (item_at (replay node_id created cs).healthy_counter_ring j).round
        ≢ round_of ((replay node_id created cs).last_check_time - i * granularity_sec)
      → let r = replay node_id created cs in
        let old = (item_at r.healthy_counter_ring j).round in
        (get_elem? (get_counter_ring r).1 i ≡ some 0)
        × (tally any_check (r.last_check_time / granularity_sec - i) cs ≡ 0)
        × (get_elem? (get_counter_ring r).2 i ≡ some (tally healthy_check (old * ring_size + j) cs))
  unfolding get_counter_ring
  get_counter_ring_stale cs i j o small h late hi ej ne =
      let r = replay node_id created cs in
      let now = r.last_check_time in
      let t = now - i * granularity_sec in
      let v = replay-RingTally node_id created cs o small in
      let totals = get_counter_ring_totals cs i o small h late hi in
      let x = item_at r.total_check_counter_ring (slot_of t) in
      let vx = v.0.slots (slot_of t) (slot_of-lt t) in
      let window : now / granularity_sec - i ≡ t / granularity_sec = omega arith in
      let same = replay-same_round node_id created cs (slot_of t) o small in
      let ne' : x.round ≢ round_of t = λ e. ne (rw ej (same ∙ e)) in
      let none_there : tally any_check (now / granularity_sec - i) cs ≡ 0 =
        rw (window, window_split t)
          (tally-later any_check (slot_of t) x.round (round_of t) cs vx.latest
            (omega (arith, vx.reached now h, window_split t)) (slot_of-lt t)) in
      let read =
        (counter_ring_from-get_elem? ring_size 0 i r.total_check_counter_ring r.healthy_counter_ring
          now hi (omega arith) (omega (arith, v.0.size)) late).1 in
      (
        rw none_there at totals,
        none_there,
        rw ej (rw (← (v.1.slots (slot_of t) (slot_of-lt t)).counted) (rw (zero-add i) at read)),
      )
