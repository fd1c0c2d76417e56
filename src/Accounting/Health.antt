-- ===== src/Accounting/Health.antt =====
-- The health of a schedule over its runs, in src/systems/schedule.rs.
use ah.Base.{
  ℕ, ◌+◌, ◌-◌, ◌^◌, ◌≤◌, ◌≡◌, refl, ◌∙◌, Bool, true, false, ◌&&◌, not, List, [], ◌∷◌, ◌++◌, Option,
  Text, leb, if◌then◌else◌, arith, inl, inr, Bool-cases, count, count-append, min,
}
use ah.Accounting.{
  Notice, alert, recovered, run_failed, settle_definition, settle_health, outcome_notices, when,
}
use ah.Protocol.{saturating_add}
use ah.Schedule.{ScheduleDefinition, ScheduleHealth}

-- A recorded run: whether it failed, when it was finished, and its error.
pub record Settled : Type 0 where
  pub run_has_failed : Bool
  pub finished_at : ℕ
  pub error : Option Text

-- The definition after the recorded runs.
unfoldable pub settle_runs : ℕ → List Settled → ScheduleDefinition → ScheduleDefinition
settle_runs threshold [] def = def
settle_runs threshold (r ∷ runs) def =
    settle_runs threshold runs (settle_definition threshold r.run_has_failed r.finished_at def)

-- The notices of the recorded runs.
unfoldable pub notices_of_runs : ℕ → List Settled → ScheduleDefinition → List Notice
notices_of_runs threshold [] def = []
notices_of_runs threshold (r ∷ runs) def =
    let next = settle_definition threshold r.run_has_failed r.finished_at def in
    outcome_notices r.run_has_failed r.error def.health.alerting next
    ++ notices_of_runs threshold runs next

-- The failures behind the last success, `n` of them in front of the runs.
unfoldable pub failures_behind : ℕ → List Settled → ℕ
failures_behind n [] = n
failures_behind n (r ∷ runs) = failures_behind (if r.run_has_failed then n + 1 else 0) runs

abbrev pub is_alert : Notice → Bool
is_alert (alert id n) = true
is_alert _ = false

abbrev pub is_recovered : Notice → Bool
is_recovered (recovered id) = true
is_recovered _ = false

-- The health that a number of failures since the last success makes.
pub record Reflects (threshold n : ℕ) (h : ScheduleHealth) : Type 0 where
  pub failures : h.consecutive_failures ≡ min n (2 ^ 32 - 1)
  pub alerts : h.alerting ≡ leb threshold n

settle_health-Reflects :
    (threshold n : ℕ) (b : Bool) (at : ℕ) (h : ScheduleHealth)
    → 1 ≤ threshold
    → threshold ≤ 2 ^ 32 - 1
    → Reflects threshold n h
    → Reflects threshold (if b then n + 1 else 0) (settle_health threshold b at h)
unfolding settle_health saturating_add
settle_health-Reflects threshold n true at h low high r =
    let f = r.failures in
    let a = r.alerts in
    let next = saturating_add h.consecutive_failures 1 in
    elim (Bool-cases (leb threshold n)) [
      | inl e ↦
          let was : h.alerting ≡ true = a ∙ e in
          let now : leb threshold (n + 1) ≡ true = ground arith in
          record { failures = omega arith; alerts = rw (was, now) refl }
      | inr e ↦
          let was : h.alerting ≡ false = a ∙ e in
          let same : saturating_add h.consecutive_failures 1 ≡ n + 1 = ground arith in
          record { failures = omega arith; alerts = rw (was, same) refl }
    ]
settle_health-Reflects threshold n false at h low high r = record {
  failures = omega arith;
  alerts = ground arith;
}

settle_runs-from :
    (threshold : ℕ) (runs : List Settled) (n : ℕ) (def : ScheduleDefinition)
    → 1 ≤ threshold
    → threshold ≤ 2 ^ 32 - 1
    → Reflects threshold n def.health
    → Reflects threshold (failures_behind n runs) (settle_runs threshold runs def).health
unfolding settle_runs failures_behind settle_definition
settle_runs-from threshold [] n def low high r = r
settle_runs-from threshold (q ∷ runs) n def low high r =
    settle_runs-from threshold runs _ _ low high
      (settle_health-Reflects threshold n q.run_has_failed q.finished_at def.health low high r)

-- From a schedule that has not failed since its last success, with a threshold of at least 1 that a u32
-- holds, whatever runs are recorded: the counter is the number of failures since the last success, up
-- to the end of u32, and the schedule is alerting exactly if they have reached the threshold.
pub settle_runs-Reflects :
    (threshold : ℕ) (runs : List Settled) (def : ScheduleDefinition)
    → 1 ≤ threshold
    → threshold ≤ 2 ^ 32 - 1
    → def.health.consecutive_failures ≡ 0
    → def.health.alerting ≡ false
    → ((settle_runs threshold runs def).health.consecutive_failures
        ≡ min (failures_behind 0 runs) (2 ^ 32 - 1))
      × ((settle_runs threshold runs def).health.alerting ≡ leb threshold (failures_behind 0 runs))
settle_runs-Reflects threshold runs def low high f a =
    let fresh : Reflects threshold 0 def.health = record {
      failures = omega (arith, f);
      alerts = ground (arith, a);
    } in
    let last = settle_runs-from threshold runs 0 def low high fresh in (last.failures, last.alerts)

unfoldable pub bit : Bool → ℕ
bit b = if b then 1 else 0

counts :
    (b was now : Bool) (id n : ℕ) (error : Option Text)
    → count is_alert (
          when b (run_failed id error)
          ++ when (not was && now) (alert id n)
          ++ when (was && not now) (recovered id))
        + bit was
      ≡ count is_recovered (
          when b (run_failed id error)
          ++ when (not was && now) (alert id n)
          ++ when (was && not now) (recovered id))
        + bit now
unfolding when bit
counts true true true id n error = refl
counts true true false id n error = refl
counts true false true id n error = refl
counts true false false id n error = refl
counts false true true id n error = refl
counts false true false id n error = refl
counts false false true id n error = refl
counts false false false id n error = refl

outcome_notices-bit :
    (b was : Bool) (error : Option Text) (def : ScheduleDefinition)
    → count is_alert (outcome_notices b error was def) + bit was
      ≡ count is_recovered (outcome_notices b error was def) + bit def.health.alerting
unfolding outcome_notices when bit
outcome_notices-bit b was error def =
    counts b was def.health.alerting def.id def.health.consecutive_failures error

notices_of_runs-from :
    (threshold : ℕ) (runs : List Settled) (def : ScheduleDefinition)
    → count is_alert (notices_of_runs threshold runs def) + bit def.health.alerting
      ≡ count is_recovered (notices_of_runs threshold runs def)
        + bit (settle_runs threshold runs def).health.alerting
unfolding notices_of_runs settle_runs
notices_of_runs-from threshold [] def = refl
notices_of_runs-from threshold (r ∷ runs) def =
    let next = settle_definition threshold r.run_has_failed r.finished_at def in
    let here = outcome_notices r.run_has_failed r.error def.health.alerting next in
    let there = notices_of_runs threshold runs next in
    omega (
      arith,
      count-append is_alert here there,
      count-append is_recovered here there,
      outcome_notices-bit r.run_has_failed def.health.alerting r.error next,
      notices_of_runs-from threshold runs next,
    )

-- From a schedule that is not alerting, whatever runs are recorded, at whatever threshold: as many
-- recoveries are told as alerts, or one less, and one less exactly if the schedule is alerting at
-- the end.
pub notices_of_runs-balanced :
    (threshold : ℕ) (runs : List Settled) (def : ScheduleDefinition)
    → def.health.alerting ≡ false
    → count is_alert (notices_of_runs threshold runs def)
      ≡ count is_recovered (notices_of_runs threshold runs def)
        + bit (settle_runs threshold runs def).health.alerting
unfolding bit
notices_of_runs-balanced threshold runs def h =
    let all = notices_of_runs-from threshold runs def in ground (arith, all, h)
