-- ===== src/Probe/Manager.antt =====
-- `HealthCheckerManager::check_node_changes` of neo-uptime-node/src/health_checker_manager.rs: the
-- set of the nodes that are checked follows the table.
pub mod Follow
use neo_easy_tier_deamon.Prelude.{
  ℕ, ◌≡◌, ◌∙◌, ap, refl, Bool, true, false, ◌||◌, ◌&&◌, not, Option, none, some, List, [], ◌∷◌,
  if◌then◌else◌, arith, Bool-cases, inl, inr,
}
use neo_easy_tier_deamon.Prelude.Int.{ℤ, int_eq, int_eq_iff}
use neo_easy_tier_deamon.Probe.Db.{NodeRow, Orm, get_all_nodes}

-- A `HashSet<i32>`, as the list of its members.
abbrev pub contains : ℤ → List ℤ → Bool
contains x [] = false
contains x (y ∷ ys) = int_eq y x || contains x ys

pub insert : ℤ → List ℤ → List ℤ
insert x xs = if contains x xs then xs else x ∷ xs

abbrev pub delete : ℤ → List ℤ → List ℤ
delete x [] = []
delete x (y ∷ ys) = let rest = delete x ys in if int_eq y x then rest else y ∷ rest

pub ids : List NodeRow → List ℤ
unfolding insert
ids [] = []
ids (r ∷ rows) = insert r.id (ids rows)

-- What the manager calls of the health checker; `false` is an error, which it logs.
pub record Checker (S : Type 0) : Type 0 where
  pub add_node : ℤ → S → Bool × S
  pub try_update_node : ℤ → S → Bool × S
  pub remove_node : ℤ → S → Bool × S

-- The members of one set that another has not.
abbrev pub without : List ℤ → List ℤ → List ℤ
without [] db_ids = []
without (x ∷ xs) db_ids =
    let rest = without xs db_ids in if contains x db_ids then rest else x ∷ rest

module _ {S : Type 0} (db : Orm S) (checker : Checker S) where
  added : ℤ → List ℤ → Bool × S → List ℤ × S
  unfolding insert
  added i current (true, s) = (insert i current, s)
  added i current (false, s) = (current, s)

  pub add_one : ℤ → List ℤ × S → List ℤ × S
  unfolding added
  add_one i (current, s) =
      if contains i current
      then (current, (checker.try_update_node i s).1)
      else added i current (checker.add_node i s)

  pub add_loop : List ℤ → List ℤ × S → List ℤ × S
  unfolding add_one
  add_loop [] st = st
  add_loop (i ∷ is) st = add_loop is (add_one i st)

  removed : ℤ → List ℤ → Bool × S → List ℤ × S
  removed i current (true, s) = (delete i current, s)
  removed i current (false, s) = (current, s)

  pub remove_loop : List ℤ → List ℤ × S → List ℤ × S
  unfolding removed
  remove_loop [] st = st
  remove_loop (i ∷ is) (current, s) = remove_loop is (removed i current (checker.remove_node i s))

  -- The two loops, for the ids of the table.
  pub follow : List ℤ → List ℤ × S → List ℤ × S
  unfolding add_loop remove_loop
  follow db_ids st = let st' = add_loop db_ids st in remove_loop (without st'.0 db_ids) st'

  -- `false` where the nodes cannot be read. A set is walked through in the order of its list.
  followed : List ℤ → Option (List NodeRow) × S → Bool × (List ℤ × S)
  unfolding follow ids
  followed current (none, s) = (false, (current, s))
  followed current (some rows, s) = (true, follow (ids rows) (current, s))

  pub check_node_changes : List ℤ × S → Bool × (List ℤ × S)
  unfolding followed
  check_node_changes (current, s) = followed current (get_all_nodes db s)
