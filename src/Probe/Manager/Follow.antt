-- ===== src/Probe/Manager/Follow.antt =====
-- The nodes that are checked after a pass of the manager
-- (neo-uptime-node/src/health_checker_manager.rs).
use neo_easy_tier_deamon.Prelude.{
  ◌≡◌, ◌∙◌, ap, refl, Bool, true, false, ◌||◌, ◌&&◌, not, Option, none, some, List, [], ◌∷◌, arith,
  Bool-cases, inl, inr,
}
use neo_easy_tier_deamon.Prelude.Int.{ℤ, int_eq, int_eq_iff}
use neo_easy_tier_deamon.Probe.Db.{NodeRow, Orm, get_all_nodes}
use neo_easy_tier_deamon.Probe.Manager.{
  contains, insert, delete, ids, Checker, without, added, add_one, add_loop, removed, remove_loop,
  follow, followed, check_node_changes,
}

contains-insert : (x y : ℤ) (ys : List ℤ) → contains x (insert y ys) ≡ (int_eq y x || contains x ys)
unfolding insert
contains-insert x y ys = elim (Bool-cases (int_eq y x)) [
  | inl e ↦ rw ((int_eq_iff y x).0 e) (ground (arith, int_eq_iff x x))
  | inr e ↦ ground (arith)
]

contains-delete :
    (x y : ℤ) (ys : List ℤ) → contains x (delete y ys) ≡ (contains x ys && not (int_eq y x))
contains-delete x y [] = refl
contains-delete x y (z ∷ zs) =
    ground (arith, contains-delete x y zs, int_eq_iff z y, int_eq_iff y x, int_eq_iff z x)

contains-without :
    (x : ℤ) (ys zs : List ℤ) → contains x (without ys zs) ≡ (contains x ys && not (contains x zs))
contains-without x [] zs = refl
contains-without x (y ∷ ys) zs = elim (Bool-cases (int_eq y x)) [
  | inl e ↦ rw ((int_eq_iff y x).0 e) (ground (arith, int_eq_iff x x, contains-without x ys zs))
  | inr e ↦ ground (arith, contains-without x ys zs)
]

module _ {S : Type 0} (db : Orm S) (checker : Checker S) where
  -- Whichever calls fail: a set may only grow by the ids that it is walked through with.
  add_one-bounds :
      (x i : ℤ) (st : List ℤ × S)
      → let out = (add_one db checker i st).0 in
        (contains x st.0 ≡ true → contains x out ≡ true)
        × (contains x out ≡ true → (int_eq i x || contains x st.0) ≡ true)
  unfolding add_one added
  add_one-bounds x i (current, s) = elim (Bool-cases (contains i current)) [
    | inl e ↦ rw e (ground arith, ground arith)
    | inr e ↦ rw e (from (checker.add_node i s))
  ]
    where
      from :
          (r : Bool × S)
          → (contains x current ≡ true → contains x (added db checker i current r).0 ≡ true)
            × (contains x (added db checker i current r).0 ≡ true
                → (int_eq i x || contains x current) ≡ true)
      from (true, s') = rw (contains-insert x i current) (ground arith, ground arith)
      from (false, s') = (λ h. h, λ h. ground arith)

  add_loop-bounds :
      (x : ℤ) (is : List ℤ) (st : List ℤ × S)
      → let out = (add_loop db checker is st).0 in
        (contains x st.0 ≡ true → contains x out ≡ true)
        × (contains x out ≡ true → (contains x is || contains x st.0) ≡ true)
  unfolding add_loop
  add_loop-bounds x [] st = (λ h. h, λ h. h)
  add_loop-bounds x (i ∷ is) st =
      let (lo, hi) = add_one-bounds x i st in
      let (lo', hi') = add_loop-bounds x is (add_one db checker i st) in
      (λ h. lo' (lo h), λ h. ground (arith, hi, hi' h))

  remove_loop-bounds :
      (x : ℤ) (is : List ℤ) (st : List ℤ × S)
      → let out = (remove_loop db checker is st).0 in
        (contains x st.0 ≡ true → contains x is ≡ false → contains x out ≡ true)
        × (contains x out ≡ true → contains x st.0 ≡ true)
  unfolding remove_loop removed
  remove_loop-bounds x [] st = (λ h k. h, λ h. h)
  remove_loop-bounds x (i ∷ is) (current, s) =
      let (lo, hi) = from (checker.remove_node i s) in
      let (lo', hi') =
        remove_loop-bounds x is (removed db checker i current (checker.remove_node i s)) in
      (λ h k. lo' (lo h (ground arith)) (ground arith), λ h. hi (hi' h))
    where
      from :
          (r : Bool × S)
          → (contains x current ≡ true
              → int_eq i x ≡ false
              → contains x (removed db checker i current r).0 ≡ true)
            × (contains x (removed db checker i current r).0 ≡ true → contains x current ≡ true)
      from (true, s') = rw (contains-delete x i current) (λ h k. ground arith, λ h. ground arith)
      from (false, s') = (λ h k. h, λ h. h)

  -- Whichever calls of the health checker fail in a pass over a table that could be read: a node
  -- of the table that was checked stays checked, and a node that is neither in the table nor was
  -- checked is not checked after it.
  follow_bounds :
      (x : ℤ) (db_ids : List ℤ) (st : List ℤ × S)
      → let out = (follow db checker db_ids st).0 in
        (contains x db_ids ≡ true → contains x st.0 ≡ true → contains x out ≡ true)
        × (contains x db_ids ≡ false → contains x st.0 ≡ false → contains x out ≡ false)
  unfolding follow
  follow_bounds x db_ids st =
      let st' = add_loop db checker db_ids st in
      let (lo, hi) = add_loop-bounds x db_ids st in
      let (lo', hi') = remove_loop-bounds x (without st'.0 db_ids) st' in
      (
        (λ d c. lo' (lo c) (contains-without x st'.0 db_ids ∙ ground arith)),
        (λ d c. ground (arith, hi, hi')),
      )

module _ {S : Type 0} (db : Orm S) (checker : Checker S)
    (add_ok : (i : ℤ) (s : S) → (checker.add_node i s).0 ≡ true)
    (remove_ok : (i : ℤ) (s : S) → (checker.remove_node i s).0 ≡ true) where
  added_ok :
      (x i : ℤ) (current : List ℤ) (r : Bool × S)
      → r.0 ≡ true
      → contains x (added db checker i current r).0 ≡ (int_eq i x || contains x current)
  unfolding added
  added_ok x i current (true, s) h = contains-insert x i current
  added_ok x i current (false, s) h = absurd cc

  add_one_ok :
      (x i : ℤ) (st : List ℤ × S)
      → contains x (add_one db checker i st).0 ≡ (int_eq i x || contains x st.0)
  unfolding add_one
  add_one_ok x i (current, s) = elim (Bool-cases (contains i current)) [
    | inl e ↦ rw e (elim (Bool-cases (int_eq i x)) [
      | inl t ↦ let q : i ≡ x = (int_eq_iff i x).0 t in rw (t, ← q) e
      | inr f ↦ rw f refl
    ])
    | inr e ↦ rw e (added_ok x i current (checker.add_node i s) (add_ok i s))
  ]

  add_loop_ok :
      (x : ℤ) (is : List ℤ) (st : List ℤ × S)
      → contains x (add_loop db checker is st).0 ≡ (contains x is || contains x st.0)
  unfolding add_loop
  add_loop_ok x [] st = refl
  add_loop_ok x (i ∷ is) st =
      ground (arith, add_loop_ok x is (add_one db checker i st), add_one_ok x i st)

  removed_ok :
      (x i : ℤ) (current : List ℤ) (r : Bool × S)
      → r.0 ≡ true
      → contains x (removed db checker i current r).0 ≡ (contains x current && not (int_eq i x))
  unfolding removed
  removed_ok x i current (true, s) h = contains-delete x i current
  removed_ok x i current (false, s) h = absurd cc

  remove_loop_ok :
      (x : ℤ) (is : List ℤ) (st : List ℤ × S)
      → contains x (remove_loop db checker is st).0 ≡ (contains x st.0 && not (contains x is))
  unfolding remove_loop
  remove_loop_ok x [] st = ground arith
  remove_loop_ok x (i ∷ is) (current, s) = ground (
    arith,
    remove_loop_ok x is (removed db checker i current (checker.remove_node i s)),
    removed_ok x i current (checker.remove_node i s) (remove_ok i s),
  )

  follow_ok :
      (x : ℤ) (db_ids : List ℤ) (st : List ℤ × S)
      → contains x (follow db checker db_ids st).0 ≡ contains x db_ids
  unfolding follow
  follow_ok x db_ids st =
      let st' = add_loop db checker db_ids st in
      ground (
        arith,
        remove_loop_ok x (without st'.0 db_ids) st',
        contains-without x st'.0 db_ids,
        add_loop_ok x db_ids st,
      )

  followed_ok :
      (x : ℤ) (current : List ℤ) (r : Option (List NodeRow) × S) (rows : List NodeRow)
      → r.0 ≡ some rows
      → let out = followed db checker current r in
        (out.0 ≡ true) × (contains x out.1.0 ≡ contains x (ids rows))
  unfolding followed
  followed_ok x current (none, s) rows h = absurd cc
  followed_ok x current (some found, s) rows h =
      let e : found ≡ rows = cc in
      (refl, follow_ok x (ids found) (current, s) ∙ ap (λ l. contains x (ids l)) e)

  -- If no call of the health checker fails and the table can be read, then after a pass exactly the
  -- nodes of the table are checked, whichever were before.
  pub check_node_changes_exact :
      (x : ℤ) (current : List ℤ) (s : S) (rows : List NodeRow)
      → (db.find_all s).0 ≡ some rows
      → let out = check_node_changes db checker (current, s) in
        (out.0 ≡ true) × (contains x out.1.0 ≡ contains x (ids (db.rows s)))
  unfolding check_node_changes get_all_nodes
  check_node_changes_exact x current s rows h =
      let (read, exact) = followed_ok x current (db.find_all s) rows h in
      (read, exact ∙ ap (λ l. contains x (ids l)) (db.find_all_gives s rows h))
