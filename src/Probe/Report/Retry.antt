-- ===== src/Probe/Report/Retry.antt =====
-- The retries of a report (the inner loop of `start_status_report_task` in
-- neo-uptime-node/src/main.rs).
use neo_easy_tier_deamon.Prelude.{
  ℕ, zero, suc, ◌+◌, ◌^◌, ◌<◌, ◌≡◌, refl, ap, leb, Bool, true, false, ◌||◌, List, [], ◌∷◌,
  if◌then◌else◌, arith, ℕ_discrete, ◌∙◌, Bool-cases, ◌⊎◌, inl, inr,
}
use neo_easy_tier_deamon.Prelude.Text.{Text, codes, contains}

-- What `report_status` gives: success, or an error with its text.
pub data Reply : Type 0 where
  accepted : Reply
  failed : Text → Reply

pub data Outcome : Type 0 where
  reported auth_failed gave_up out_of_fuel : Outcome

abbrev pub max_retries : ℕ
max_retries = 3

-- `e.to_string().contains("401") || e.to_string().contains("Unauthorized")`
unfoldable pub is_auth_error : Text → Bool
is_auth_error e = contains (codes "401") e || contains (codes "Unauthorized") e

-- How the loop ends, how many calls it makes, and for how many seconds it sleeps between them.
pub record Run : Type 0 where
  pub outcome : Outcome
  pub calls : ℕ
  pub sleeps : List ℕ

-- The loop at `retry_count`; reply `k` is what call `k` gets. Each pass takes one unit of fuel.
unfoldable pub retry_loop : ℕ → (ℕ → Reply) → ℕ → Run
retry_loop zero replies retry_count = record { outcome = out_of_fuel; calls = 0; sleeps = [] }
retry_loop (suc fuel) replies retry_count =
    let rest = retry_loop fuel replies (retry_count + 1) in
    elim (replies retry_count) [
      | accepted ↦ record { outcome = reported; calls = 1; sleeps = [] }
      | failed e ↦
          if is_auth_error e
          then record { outcome = auth_failed; calls = 1; sleeps = [] }
          else if leb max_retries (retry_count + 1)
          then record { outcome = gave_up; calls = 1; sleeps = [] }
          else record {
            outcome = rest.outcome;
            calls = rest.calls + 1;
            sleeps = 2 ^ (retry_count + 1) ∷ rest.sleeps;
          }
    ]

unfoldable pub report_with_retry : (ℕ → Reply) → Run
report_with_retry replies = retry_loop max_retries replies 0

-- An error after which the loop goes on, and one after which it does not.
abbrev pub IsTransient : Reply → Type 0
IsTransient r = (e : Text) × (r ≡ failed e) × (is_auth_error e ≡ false)

abbrev pub IsAuth : Reply → Type 0
IsAuth r = (e : Text) × (r ≡ failed e) × (is_auth_error e ≡ true)

-- How a run must end, given the replies: after `k` transient errors, `k` below 3, with a success or
-- an authentication error, or with a third transient error; between two calls it sleeps 2 and then
-- 4 seconds.
abbrev pub sleeps_before : ℕ → List ℕ
sleeps_before zero = []
sleeps_before (suc zero) = 2 ∷ []
sleeps_before (suc (suc k)) = 2 ∷ 4 ∷ []

-- The ways to end: a success that only transient errors precede, an authentication error that only
-- transient errors precede, and three transient errors.
pub data Ends (replies : ℕ → Reply) (r : Run) : Type 0 where
  success :
      (k : ℕ)
      → k < max_retries
      → ((j : ℕ) → j < k → IsTransient (replies j))
      → replies k ≡ accepted
      → r ≡ record { outcome = reported; calls = k + 1; sleeps = sleeps_before k }
      → Ends replies r
  auth :
      (k : ℕ)
      → k < max_retries
      → ((j : ℕ) → j < k → IsTransient (replies j))
      → IsAuth (replies k)
      → r ≡ record { outcome = auth_failed; calls = k + 1; sleeps = sleeps_before k }
      → Ends replies r
  exhausted :
      ((j : ℕ) → j < max_retries → IsTransient (replies j))
      → r ≡ record { outcome = gave_up; calls = max_retries; sleeps = 2 ∷ 4 ∷ [] }
      → Ends replies r

Reply-cases : (r : Reply) → (r ≡ accepted) ⊎ (IsAuth r ⊎ IsTransient r)
Reply-cases accepted = inl refl
Reply-cases (failed e) = elim (Bool-cases (is_auth_error e)) [
  | inl h ↦ inr (inl (e, refl, h))
  | inr h ↦ inr (inr (e, refl, h))
]

module _ (replies : ℕ → Reply) where
  loop_accepted :
      (f n : ℕ)
      → replies n ≡ accepted
      → retry_loop (suc f) replies n ≡ record { outcome = reported; calls = 1; sleeps = [] }
  unfolding retry_loop
  loop_accepted f n h = rw (h, retry_loop)

  loop_auth :
      (f n : ℕ)
      → IsAuth (replies n)
      → retry_loop (suc f) replies n ≡ record { outcome = auth_failed; calls = 1; sleeps = [] }
  unfolding retry_loop
  loop_auth f n (e, h, a) = ground arith

  loop_transient :
      (f n : ℕ)
      → IsTransient (replies n)
      → let rest = retry_loop f replies (n + 1) in
        retry_loop (suc f) replies n ≡ (
          if leb max_retries (n + 1)
          then record { outcome = gave_up; calls = 1; sleeps = [] }
          else record {
            outcome = rest.outcome;
            calls = rest.calls + 1;
            sleeps = 2 ^ (n + 1) ∷ rest.sleeps;
          })
  unfolding retry_loop
  loop_transient f n (e, h, a) = rw (h, retry_loop) (rw a)

none_below : (P : ℕ → Type 0) (j : ℕ) → j < 0 → P j
none_below P j h = absurd (omega arith)

one_more : (P : ℕ → Type 0) (k : ℕ) → ((j : ℕ) → j < k → P j) → P k → (j : ℕ) → j < suc k → P j
one_more P k below here j h = elim (ℕ_discrete j k) [
  | yes e ↦ rw e here
  | no ne ↦ below j (omega arith)
]

-- For any replies of the backend the retry loop ends within three calls, in one of the ways of
-- `Ends`: it reports success after fewer than three transient errors, it stops at the first
-- authentication error, or it gives up after three transient errors; it makes one call for each
-- reply and sleeps 2 and then 4 seconds between them.
pub report_with_retry-Ends : (replies : ℕ → Reply) → Ends replies (report_with_retry replies)
unfolding report_with_retry
report_with_retry-Ends replies = elim (Reply-cases (replies 0)) [
  | inl a ↦ success 0 (omega arith) (none_below T) a (loop_accepted replies 2 0 a)
  | inr (inl b) ↦ auth 0 (omega arith) (none_below T) b (loop_auth replies 2 0 b)
  | inr (inr t) ↦
      let below1 = one_more T 0 (none_below T) t in
      let e1 = loop_transient replies 2 0 t in
      elim (Reply-cases (replies 1)) [
        | inl a ↦ success 1 (omega arith) below1 a (e1 ∙ ap after1 (loop_accepted replies 1 1 a))
        | inr (inl b) ↦ auth 1 (omega arith) below1 b (e1 ∙ ap after1 (loop_auth replies 1 1 b))
        | inr (inr t') ↦
            let below2 = one_more T 1 below1 t' in
            let e2 = e1 ∙ ap after1 (loop_transient replies 1 1 t') in
            elim (Reply-cases (replies 2)) [
              | inl a ↦
                  success 2 (omega arith) below2 a (e2 ∙ ap after2 (loop_accepted replies 0 2 a))
              | inr (inl b) ↦
                  auth 2 (omega arith) below2 b (e2 ∙ ap after2 (loop_auth replies 0 2 b))
              | inr (inr t'') ↦
                  exhausted (one_more T 2 below2 t'')
                    (e2 ∙ ap after2 (loop_transient replies 0 2 t''))
            ]
      ]
]
  where
    T : ℕ → Type 0
    T j = IsTransient (replies j)

    after1 : Run → Run
    after1 r = record { outcome = r.outcome; calls = r.calls + 1; sleeps = 2 ∷ r.sleeps }

    after2 : Run → Run
    after2 r = record { outcome = r.outcome; calls = r.calls + 1 + 1; sleeps = 2 ∷ 4 ∷ r.sleeps }
