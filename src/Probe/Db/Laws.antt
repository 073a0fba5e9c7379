-- ===== src/Probe/Db/Laws.antt =====
-- What the node operations do to the table (neo-uptime-node/src/db/operations.rs).
use neo_easy_tier_deamon.Prelude.{
  ℕ, ◌≡◌, ◌∙◌, sym, ap, refl, Bool, Option, none, some, List, [], ◌∷◌, ◌++◌, if◌then◌else◌, arith,
  Option-cases, Bool-cases, inl, inr,
}
use neo_easy_tier_deamon.Prelude.Int.{ℤ, int_eq, int_eq_iff}
use neo_easy_tier_deamon.Prelude.Text.{Text}
use neo_easy_tier_deamon.Probe.Db.{
  NodeRow, find_node, modify_node, Orm, CreateNodeRequest, create_node_model, create_node,
  update_node_status, update_node_version, set_status, set_version, bind, ◌>>=◌, ok_or_not_found,
}

pub find_node-id :
    (i : ℤ) (rows : List NodeRow) {r : NodeRow} → find_node i rows ≡ some r → r.id ≡ i
find_node-id i [] h = cc
find_node-id i (x ∷ rows) {r} h = ground (arith, int_eq_iff x.id i, find_node-id i rows {r = r})

-- A change that keeps ids is found again under its id only.
pub find_node-modify_node :
    (i j : ℤ) (f : NodeRow → NodeRow) (rows : List NodeRow)
    → ((r : NodeRow) → (f r).id ≡ r.id)
    → find_node j (modify_node i f rows)
      ≡ elim (find_node j rows) [ none ↦ none | some r ↦ some (if int_eq i j then f r else r) ]
find_node-modify_node i j f [] k = refl
find_node-modify_node i j f (x ∷ rows) k = ground (
  arith,
  find_node-modify_node i j f rows k,
  k x,
  int_eq_iff x.id i,
  int_eq_iff x.id j,
  int_eq_iff i j,
)

pub find_node-append :
    (j : ℤ) (rows : List NodeRow) (r : NodeRow)
    → find_node j (rows ++ (r ∷ []))
      ≡ elim (find_node j rows) [ none ↦ if int_eq r.id j then some r else none | some x ↦ some x ]
find_node-append j [] r = refl
find_node-append j (x ∷ rows) r = ground (arith, find_node-append j rows r)

-- What a lookup finds after a change of the row `i` into `r`.
abbrev pub changed : ℤ → NodeRow → ℤ → Option NodeRow → Option NodeRow
changed i r j o = if int_eq i j then some r else o

find_node-modify_changed :
    (i j : ℤ) (f : NodeRow → NodeRow) (rows : List NodeRow) (r : NodeRow)
    → ((x : NodeRow) → (f x).id ≡ x.id)
    → find_node i (modify_node i f rows) ≡ some r
    → find_node j (modify_node i f rows) ≡ changed i r j (find_node j rows)
find_node-modify_changed i j f rows r k h = elim (Bool-cases (int_eq i j)) [
  | inl e ↦ rw e (rw (← (int_eq_iff i j).0 e) h)
  | inr e ↦ ground (arith, find_node-modify_node i j f rows k)
]

-- The row that a change leaves under its id is the changed one.
modified_row :
    (i : ℤ) (f : NodeRow → NodeRow) (rows : List NodeRow) (r : NodeRow)
    → ((x : NodeRow) → (f x).id ≡ x.id)
    → find_node i (modify_node i f rows) ≡ some r
    → (x : NodeRow) × (r ≡ f x)
modified_row i f [] r k h = cc
modified_row i f (x ∷ rows) r k h = elim (Bool-cases (int_eq x.id i)) [
  | inl e ↦ (x, ground (arith, k x))
  | inr e ↦ modified_row i f rows r k (ground (arith, k x))
]

module _ {S : Type 0} (db : Orm S) where
  -- A successful update of the row `i` gives back a row with this id for which `P` holds, and a
  -- lookup then finds it, and every other row as it was; a failing one changes no row.
  abbrev pub Updated : (NodeRow → Type 0) → ℤ → S → Option NodeRow × S → Type 0
  Updated P i s (none, s') = db.rows s' ≡ db.rows s
  Updated P i s (some r, s') =
      (r.id ≡ i)
      × P r
      × ((j : ℤ) → find_node j (db.rows s') ≡ changed i r j (find_node j (db.rows s)))

  pub update_row_lem :
      (i : ℤ) (f : NodeRow → NodeRow) (P : NodeRow → Type 0) (s s1 : S)
      → ((x : NodeRow) → (f x).id ≡ x.id)
      → ((x : NodeRow) → P (f x))
      → db.rows s1 ≡ db.rows s
      → Updated P i s (db.update i f s1)
  update_row_lem i f P s s1 k p same = elim (Option-cases (db.update i f s1).0) [
    | inl e ↦ rw e (db.update_fails i f s1 e ∙ same)
    | inr (r, e) ↦
        let (after, there) = db.update_modifies i f s1 r e in
        let modified = after ∙ ap (modify_node i f) same in
        let there' = rw modified at there in
        rw e (
          find_node-id i (modify_node i f (db.rows s)) there',
          (let (x, same_row) = modified_row i f (db.rows s) r k there' in rw same_row (p x)),
          λ j. rw modified (find_node-modify_changed i j f (db.rows s) r k there'),
        )
  ]

  update_found :
      (i : ℤ) (f : NodeRow → NodeRow) (P : NodeRow → Type 0) (s s1 : S)
      → ((x : NodeRow) → (f x).id ≡ x.id)
      → ((x : NodeRow) → P (f x))
      → db.rows s1 ≡ db.rows s
      → (o : Option NodeRow) → o ≡ find_node i (db.rows s)
      → Updated P i s ((do node ← ok_or_not_found o; db.update node.id f) s1)
  update_found i f P s s1 k p same none found = same
  update_found i f P s s1 k p same (some node) found =
      rw (find_node-id i (db.rows s) (sym found)) (update_row_lem i f P s s1 k p same)

  update_lem :
      (i : ℤ) (f : NodeRow → NodeRow) (P : NodeRow → Type 0) (s : S)
      → ((x : NodeRow) → (f x).id ≡ x.id)
      → ((x : NodeRow) → P (f x))
      → Updated P i s
          ((do found ← db.find_by_id i; node ← ok_or_not_found found; db.update node.id f) s)
  update_lem i f P s k p =
      from (db.find_by_id i s) (db.find_by_id_keeps i s) (db.find_by_id_gives i s)
    where
      from :
          (x : Option (Option NodeRow) × S)
          → db.rows x.1 ≡ db.rows s
          → ((o : Option NodeRow) → x.0 ≡ some o → o ≡ find_node i (db.rows s))
          → Updated P i s (bind x (λ found. do node ← ok_or_not_found found; db.update node.id f))
      from (none, s1) same gives = same
      from (some o, s1) same gives = update_found i f P s s1 k p same o (gives o refl)

  -- `update_node_status` on success gives back the row of its id with the new flag, a lookup then
  -- finds that row, and every other row as it was; on an error no row has changed.
  pub update_node_status_lem :
      (i : ℤ) (active : Bool) (n : Option ℤ) (now : ℕ) (s : S)
      → Updated (λ r. r.is_active ≡ active) i s (update_node_status db i active n now s)
  unfolding update_node_status
  update_node_status_lem i active n now s =
      update_lem i (set_status active n now) (λ r. r.is_active ≡ active) s (keeps_id n) (sets n)
    where
      keeps_id : (n : Option ℤ) (r : NodeRow) → (set_status active n now r).id ≡ r.id
      keeps_id none r = refl
      keeps_id (some c) r = refl

      sets : (n : Option ℤ) (r : NodeRow) → (set_status active n now r).is_active ≡ active
      sets none r = refl
      sets (some c) r = refl

  -- `update_node_version` on success gives back the row of its id with the new version, a lookup
  -- then finds that row, and every other row as it was; on an error no row has changed.
  pub update_node_version_lem :
      (i : ℤ) (version : Text) (now : ℕ) (s : S)
      → Updated (λ r. r.version ≡ version) i s (update_node_version db i version now s)
  unfolding update_node_version
  update_node_version_lem i version now s =
      update_lem i (set_version version now) (λ r. r.version ≡ version) s (λ r. refl) (λ r. refl)

  -- What `create_node` leaves: on success the new row, made from the request, stands under an id
  -- that was free, and every other row is found as before. On an error a row may have been added
  -- all the same, but every row that was there is found as before.
  abbrev pub Created : CreateNodeRequest → ℕ → S → Option NodeRow × S → Type 0
  Created req now s (none, s') =
      (j : ℤ) (r : NodeRow) → find_node j (db.rows s) ≡ some r → find_node j (db.rows s') ≡ some r
  Created req now s (some r, s') =
      (r ≡ create_node_model req now r.id)
      × (find_node r.id (db.rows s) ≡ none)
      × ((j : ℤ) → find_node j (db.rows s') ≡ changed r.id r j (find_node j (db.rows s)))

  append_keeps :
      (rows rows' : List NodeRow) (x : NodeRow)
      → rows' ≡ rows ++ (x ∷ [])
      → (j : ℤ) (r : NodeRow) → find_node j rows ≡ some r
      → find_node j rows' ≡ some r
  append_keeps rows rows' x e j r h = rw e (rw (find_node-append j rows x) (rw h))

  ok_or_not_found-Created :
      (req : CreateNodeRequest) (now : ℕ) (s s2 : S) (i : ℤ) (o : Option NodeRow)
      → db.rows s2 ≡ db.rows s ++ (create_node_model req now i ∷ [])
      → find_node i (db.rows s) ≡ none
      → o ≡ find_node i (db.rows s2)
      → Created req now s (ok_or_not_found o s2)
  unfolding create_node_model
  ok_or_not_found-Created req now s s2 i none e free found =
      append_keeps (db.rows s) (db.rows s2) (create_node_model req now i) e
  ok_or_not_found-Created req now s s2 i (some r) e free found =
      rw row_eq
        (refl, free, λ j. rw e (ground (arith, find_node-append j (db.rows s) m, int_eq_iff i j)))
    where
      m : NodeRow
      m = create_node_model req now i

      row_eq : r ≡ m
      row_eq =
          let there : find_node i (db.rows s2) ≡ some m =
            rw e (rw (find_node-append i (db.rows s) m) (rw free (rw ((int_eq_iff i i).1 refl)))) in
          cc (found, there)

  -- `create_node` on success gives back a row that is made from the request, under an id that was
  -- free; a lookup then finds it, and every other row as it was. On an error every row that was
  -- there is still found as it was.
  pub create_node_lem :
      (req : CreateNodeRequest) (now : ℕ) (s : S) → Created req now s (create_node db req now s)
  unfolding create_node
  create_node_lem req now s =
      from_insert (db.insert m s) (db.insert_fails m s) (db.insert_appends m s)
    where
      m : ℤ → NodeRow
      m = create_node_model req now

      from_find :
          (i : ℤ) (s1 : S) (x : Option (Option NodeRow) × S)
          → db.rows s1 ≡ db.rows s ++ (m i ∷ [])
          → find_node i (db.rows s) ≡ none
          → db.rows x.1 ≡ db.rows s1
          → ((o : Option NodeRow) → x.0 ≡ some o → o ≡ find_node i (db.rows s1))
          → Created req now s (bind x (λ node. ok_or_not_found node))
      from_find i s1 (none, s2) e free same gives =
          append_keeps (db.rows s) (db.rows s2) (m i) (same ∙ e)
      from_find i s1 (some o, s2) e free same gives =
          ok_or_not_found-Created req now s s2 i o (same ∙ e) free (rw same (gives o refl))

      from_insert :
          (x : Option ℤ × S)
          → (x.0 ≡ none → db.rows x.1 ≡ db.rows s)
          → ((i : ℤ)
              → x.0 ≡ some i
              → (db.rows x.1 ≡ db.rows s ++ (m i ∷ [])) × (find_node i (db.rows s) ≡ none))
          → Created req now s (bind x (λ i. do node ← db.find_by_id i; ok_or_not_found node))
      from_insert (none, s1) fails appends = λ j r h. rw (fails refl) h
      from_insert (some i, s1) fails appends =
          from_find i s1 (db.find_by_id i s1) (appends i refl).0 (appends i refl).1
            (db.find_by_id_keeps i s1) (db.find_by_id_gives i s1)

  -- A successful update gives back the changed row.
  pub update_known :
      (i : ℤ) (f : NodeRow → NodeRow) (s : S) (x r : NodeRow)
      → ((y : NodeRow) → (f y).id ≡ y.id)
      → find_node i (db.rows s) ≡ some x
      → (db.update i f s).0 ≡ some r
      → (r ≡ f x) × (find_node i (db.rows (db.update i f s).1) ≡ some r)
  update_known i f s x r k found e =
      let (after, there) = db.update_modifies i f s r e in
      let there' = rw after at there in
      (ground (arith, find_node-modify_node i i f (db.rows s) k, int_eq_iff i i), there)

  -- An update makes no new row.
  pub update_fresh :
      (i j : ℤ) (f : NodeRow → NodeRow) (s : S)
      → ((y : NodeRow) → (f y).id ≡ y.id)
      → find_node j (db.rows s) ≡ none
      → find_node j (db.rows (db.update i f s).1) ≡ none
  update_fresh i j f s k h = elim (Option-cases (db.update i f s).0) [
    | inl e ↦ rw (db.update_fails i f s e) h
    | inr (r, e) ↦
        rw ((db.update_modifies i f s r e).0)
          (ground (arith, find_node-modify_node i j f (db.rows s) k))
  ]
