-- ===== src/Probe/Ring.antt =====
-- The counters of neo-uptime-node/src/health_checker.rs: a `RingItem`, and the ring of 96 of them
-- that covers a day by quarters of an hour.
pub mod Slots
use neo_easy_tier_deamon.Prelude.{
  ℕ, ◌*◌, ◌/◌, ◌%◌, List, set, get_or, ◌==◌, if◌then◌else◌, replicate,
}
use neo_easy_tier_deamon.Prelude.Words.{u64_add}

abbrev pub granularity_sec : ℕ
granularity_sec = 60 * 15

abbrev pub max_duration_sec : ℕ
max_duration_sec = 60 * 60 * 24

abbrev pub ring_size : ℕ
ring_size = max_duration_sec / granularity_sec

pub record RingItem : Type 0 where
  pub counter : ℕ
  pub round : ℕ

abbrev pub empty_item : RingItem
empty_item = record { counter = 0; round = 0 }

-- The round of a timestamp: how often the ring has gone round.
abbrev pub round_of : ℕ → ℕ
round_of timestamp = timestamp / (granularity_sec * ring_size)

unfoldable pub try_update_round : RingItem → ℕ → RingItem
try_update_round item timestamp =
    if item.round == round_of timestamp
    then item
    else record { counter = 0; round = round_of timestamp }

unfoldable pub inc : RingItem → ℕ → RingItem
unfolding try_update_round
inc item timestamp =
    let item' = try_update_round item timestamp in
    record item' { counter = u64_add item'.counter 1 }

-- The item after the call, and what the call returns.
unfoldable pub get : RingItem → ℕ → RingItem × ℕ
unfolding try_update_round
get item timestamp = let item' = try_update_round item timestamp in (item', item'.counter)

abbrev pub Ring : Type 0
Ring = List RingItem

-- `vec![Default::default(); HEALTH_CHECK_RING_SIZE]`
unfoldable pub empty_ring : Ring
empty_ring = replicate ring_size empty_item

-- `(now / GRANULARITY) % RING_SIZE`
abbrev pub slot_of : ℕ → ℕ
slot_of timestamp = (timestamp / granularity_sec) % ring_size

abbrev pub item_at : Ring → ℕ → RingItem
item_at ring i = get_or ring i empty_item

-- `ring[i].f(timestamp)`
abbrev pub update_at : Ring → ℕ → (RingItem → RingItem) → Ring
update_at ring i f = set ring i (f (item_at ring i))
