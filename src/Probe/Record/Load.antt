-- ===== src/Probe/Record/Load.antt =====
-- Loading a record from its rows in the database (neo-uptime-node/src/health_checker.rs): the
-- loop that fills the rings does not bring the healthy ring up to date at a row that is not
-- healthy, so that the two rings can part.
use Prim.Native.String.{String}
use neo_easy_tier_deamon.Prelude.{
  ℕ, suc, ◌+◌, ◌-◌, ◌<◌, ◌≡◌, ◌≢◌, refl, List, [], ◌∷◌, length, ltb, ap, true, false, if◌then◌else◌,
  ◌==◌, arith, ◌&&◌, ◌⊎◌, inl, ◌∙◌,
}
use neo_easy_tier_deamon.Prelude.Int.{ℤ}
use neo_easy_tier_deamon.Prelude.Words.{u64_mod}
use neo_easy_tier_deamon.Probe.Status.{is_healthy}
use neo_easy_tier_deamon.Probe.Ring.{
  RingItem, ring_size, item_at, slot_of, round_of, empty_ring, max_duration_sec, inc,
}
use neo_easy_tier_deamon.Probe.Ring.Slots.{
  length-update_at, item_at-update_at, slot_of-lt, step_item, item_at-empty_ring, inc-eq-step_item,
  length-empty_ring,
}
use neo_easy_tier_deamon.Probe.Record.{
  HealthyMemRecord, HealthRow, new, populate_one, populate_ring_from_records, get_status,
  from_latest, from_db_records,
}

module _ (to_lowercase : String → String) where
  -- The rows of a slot that are young enough all belong to round `k`.
  abbrev pub OneRound : ℕ → ℕ → ℕ → List HealthRow → Type 0
  OneRound now i k [] = Unit
  OneRound now i k (row ∷ rows) =
      (now - row.checked_at < max_duration_sec
        → slot_of row.checked_at ≡ i
        → round_of row.checked_at ≡ k)
      × OneRound now i k rows

  -- How many young rows fall into slot `i`, and how many of them are healthy.
  abbrev pub young_rows : ℕ → ℕ → List HealthRow → ℕ
  young_rows now i [] = 0
  young_rows now i (row ∷ rows) =
      let rest = young_rows now i rows in
      if ltb (now - row.checked_at) max_duration_sec && slot_of row.checked_at == i
      then suc rest
      else rest

  abbrev pub young_healthy_rows : ℕ → ℕ → List HealthRow → ℕ
  young_healthy_rows now i [] = 0
  young_healthy_rows now i (row ∷ rows) =
      let rest = young_healthy_rows now i rows in
      if ltb (now - row.checked_at) max_duration_sec
        && slot_of row.checked_at == i
        && is_healthy (get_status to_lowercase row)
      then suc rest
      else rest

  -- What a row does to slot `i` of the two rings.
  populate_one-slots :
      (now i : ℕ) (row : HealthRow) (r : HealthyMemRecord)
      → length r.total_check_counter_ring ≡ ring_size
      → length r.healthy_counter_ring ≡ ring_size
      → let r' = populate_one to_lowercase now row r in
        let t = item_at r.total_check_counter_ring i in
        let h = item_at r.healthy_counter_ring i in
        let here = ltb (now - row.checked_at) max_duration_sec && slot_of row.checked_at == i in
        (item_at r'.total_check_counter_ring i
          ≡ (if here then step_item true row.checked_at t else t))
        × (item_at r'.healthy_counter_ring i ≡ (
            if here && is_healthy (get_status to_lowercase row)
            then step_item true row.checked_at h
            else h))
        × (length r'.total_check_counter_ring ≡ ring_size)
        × (length r'.healthy_counter_ring ≡ ring_size)
  unfolding populate_one
  populate_one-slots now i row r ht hh =
      let at = row.checked_at in
      let s = slot_of at in
      ground (
        arith,
        item_at-update_at r.total_check_counter_ring s i (λ x. inc x at)
            (omega (arith, slot_of-lt at)),
        item_at-update_at r.healthy_counter_ring s i (λ x. inc x at) (omega (arith, slot_of-lt at)),
        inc-eq-step_item (item_at r.total_check_counter_ring i) at,
        inc-eq-step_item (item_at r.healthy_counter_ring i) at,
        length-update_at r.total_check_counter_ring s (λ x. inc x at),
        length-update_at r.healthy_counter_ring s (λ x. inc x at),
      )

  -- The loop from any rings on, at a slot all of whose young rows are in round `k`.
  populate-slots :
      (now i k : ℕ) (rows : List HealthRow) (r : HealthyMemRecord)
      → length r.total_check_counter_ring ≡ ring_size
      → length r.healthy_counter_ring ≡ ring_size
      → OneRound now i k rows
      → let t = item_at r.total_check_counter_ring i in
        let h = item_at r.healthy_counter_ring i in
        ((t.counter ≡ 0) ⊎ (t.round ≡ k))
        → ((h.counter ≡ 0) ⊎ (h.round ≡ k))
        → t.counter + length rows < u64_mod
        → h.counter + length rows < u64_mod
        → let r' = populate_ring_from_records to_lowercase now rows r in
          ((item_at r'.total_check_counter_ring i).counter ≡ t.counter + young_rows now i rows)
          × ((item_at r'.healthy_counter_ring i).counter
              ≡ h.counter + young_healthy_rows now i rows)
  unfolding populate_ring_from_records
  populate-slots now i k [] r lt lh one kt kh st sh = ground arith
  populate-slots now i k (row ∷ rows) r lt lh one kt kh st sh =
      let p = populate_one-slots now i row r lt lh in
      let r' = populate_one to_lowercase now row r in
      let ih =
        populate-slots now i k rows r' p.2 p.3 one.1 (ground (arith, p.0, one.0))
          (ground (arith, p.1, one.0)) (ground (arith, p.0)) (ground (arith, p.1)) in
      (ground (arith, ih.0, p.0, one.0), ground (arith, ih.1, p.1, one.0))

  from_latest-rings :
      (rows : List HealthRow) (r : HealthyMemRecord)
      → ((from_latest to_lowercase rows r).total_check_counter_ring ≡ r.total_check_counter_ring)
        × ((from_latest to_lowercase rows r).healthy_counter_ring ≡ r.healthy_counter_ring)
  from_latest-rings [] r = (refl, refl)
  from_latest-rings (row ∷ rows) r = (refl, refl)

  -- If all young rows (those of less than a day ago) of slot `i` are in one round, and there are
  -- fewer than 2 ^ 64 rows, then loading counts in this slot exactly the young rows of the slot, and exactly the healthy ones of them.
  from_db_records_slots :
      (node_id : ℤ) (rows : List HealthRow) (now now' i k : ℕ)
      → OneRound now' i k rows
      → length rows < u64_mod
      → let r = from_db_records to_lowercase node_id rows now now' in
        ((item_at r.total_check_counter_ring i).counter ≡ young_rows now' i rows)
        × ((item_at r.healthy_counter_ring i).counter ≡ young_healthy_rows now' i rows)
  unfolding from_db_records new
  from_db_records_slots node_id rows now now' i k one small =
      let r = from_latest to_lowercase rows (new node_id now) in
      let rings = from_latest-rings rows (new node_id now) in
      let te = ap (λ x. (item_at x i).counter) rings.0 in
      let he = ap (λ x. (item_at x i).counter) rings.1 in
      let z : (item_at empty_ring i).counter ≡ 0 =
        ap (λ (x : RingItem). x.counter) (item_at-empty_ring i) in
      let p =
        populate-slots now' i k rows r (ap length rings.0 ∙ length-empty_ring)
          (ap length rings.1 ∙ length-empty_ring) one (inl (te ∙ z)) (inl (he ∙ z))
          (omega (arith, te, z)) (omega (arith, he, z)) in
      (omega (arith, p.0, te, z), omega (arith, p.1, he, z))

  -- The rings part: of three young rows of one slot, two healthy ones of one round and then one of
  -- another round that is not healthy, loading keeps one check in all and two healthy ones.
  pub from_db_records_parted :
      (node_id : ℤ) (a b c : HealthRow) (now now' i : ℕ)
      → (now' - a.checked_at < max_duration_sec)
        × (now' - b.checked_at < max_duration_sec)
        × (now' - c.checked_at < max_duration_sec)
      → (slot_of a.checked_at ≡ i) × (slot_of b.checked_at ≡ i) × (slot_of c.checked_at ≡ i)
      → (round_of a.checked_at ≡ round_of b.checked_at)
        × (round_of b.checked_at ≢ round_of c.checked_at)
      → (is_healthy (get_status to_lowercase a) ≡ true)
        × (is_healthy (get_status to_lowercase b) ≡ true)
        × (is_healthy (get_status to_lowercase c) ≡ false)
      → let r = from_db_records to_lowercase node_id (a ∷ b ∷ c ∷ []) now now' in
        ((item_at r.total_check_counter_ring i).counter ≡ 1)
        × ((item_at r.healthy_counter_ring i).counter ≡ 2)
  unfolding from_db_records populate_ring_from_records new
  from_db_records_parted node_id a b c now now' i young here rounds kinds =
      let r = from_latest to_lowercase (a ∷ b ∷ c ∷ []) (new node_id now) in
      let p = populate_one-slots now' i a r length-empty_ring length-empty_ring in
      let r1 = populate_one to_lowercase now' a r in
      let q = populate_one-slots now' i b r1 p.2 p.3 in
      let r2 = populate_one to_lowercase now' b r1 in
      let s = populate_one-slots now' i c r2 q.2 q.3 in
      (ground (arith, p.0, q.0, s.0), ground (arith, p.1, q.1, s.1, item_at-empty_ring i))
