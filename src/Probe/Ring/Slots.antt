-- ===== src/Probe/Ring/Slots.antt =====
-- Reading and writing a slot of a ring (neo-uptime-node/src/health_checker.rs).
use neo_easy_tier_deamon.Prelude.{
  ℕ, ◌+◌, ◌*◌, ◌/◌, ◌<◌, ◌≡◌, Bool, true, false, length, length-set, length-replicate, get_or-set,
  get_or-replicate, if◌then◌else◌, ◌==◌, arith,
}
use neo_easy_tier_deamon.Prelude.Words.{u64_add}
use neo_easy_tier_deamon.Probe.Ring.{
  Ring, RingItem, ring_size, empty_item, empty_ring, item_at, update_at, slot_of, round_of,
  granularity_sec, inc, try_update_round,
}

pub item_at-empty_ring : (i : ℕ) → item_at empty_ring i ≡ empty_item
unfolding empty_ring
item_at-empty_ring i = get_or-replicate ring_size i empty_item

pub length-empty_ring : length empty_ring ≡ ring_size
unfolding empty_ring
length-empty_ring = length-replicate ring_size empty_item

pub length-update_at :
    (ring : Ring) (i : ℕ) (f : RingItem → RingItem) → length (update_at ring i f) ≡ length ring
length-update_at ring i f = length-set ring i (f (item_at ring i))

pub item_at-update_at :
    (ring : Ring) (i j : ℕ) (f : RingItem → RingItem)
    → i < length ring
    → item_at (update_at ring i f) j ≡ (if i == j then f (item_at ring i) else item_at ring j)
item_at-update_at ring i j f h = get_or-set ring i j (f (item_at ring i)) empty_item h

-- What a check does to its slot: the round is brought up to date, and a check that counts is
-- counted.
abbrev pub step_item : Bool → ℕ → RingItem → RingItem
step_item counts now x =
    let base = if x.round == round_of now then x.counter else 0 in
    record { counter = if counts then u64_add base 1 else base; round = round_of now }

pub inc-eq-step_item : (x : RingItem) (now : ℕ) → inc x now ≡ step_item true now x
unfolding inc
inc-eq-step_item x now = ground arith

pub try_update_round-eq-step_item :
    (x : RingItem) (now : ℕ) → try_update_round x now ≡ step_item false now x
unfolding try_update_round
try_update_round-eq-step_item x now = ground arith

pub inc-try_update_round :
    (x : RingItem) (now : ℕ) → inc (try_update_round x now) now ≡ step_item true now x
unfolding inc
inc-try_update_round x now = ground arith

-- A round and a slot together are the number of a quarter of an hour.
pub window_split : (t : ℕ) → t / granularity_sec ≡ round_of t * ring_size + slot_of t
window_split t = omega arith

pub slot_of-lt : (t : ℕ) → slot_of t < ring_size
slot_of-lt t = omega arith
