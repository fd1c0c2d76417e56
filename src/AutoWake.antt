-- ===== src/AutoWake.antt =====
-- `AutoWakeBudget` of src/domain/loop_control.rs: the sliding window that limits how often background
-- notifications may wake a task by themselves.
pub mod Window
pub mod Rate
mod Tests
use ah.Chrono.{Chrono}
use ah.Base.{
  ℕ, ◌+◌, ◌-◌, ◌^◌, max, Bool, true, false, List, [], ◌∷◌, ◌++◌, Option, none, some, ltb, leb,
  if◌then◌else◌, length,
}

-- The two fields of `LoopControlConfig` that the budget reads: a `u32` and a `u64`.
pub record LoopControlConfig : Type 0 where
  pub max_auto_wakes : ℕ
  pub auto_wake_window_secs : ℕ

pub record AutoWakeBudget : Type 0 where
  pub recent_wakes : List ℕ
  pub exhausted_notified : Bool

unfoldable pub default_budget : AutoWakeBudget
default_budget = record { recent_wakes = []; exhausted_notified = false }

-- `i64::try_from(n).unwrap_or(i64::MAX)`.
unfoldable pub to_i64 : ℕ → ℕ
to_i64 n = if ltb n (2 ^ 63) then n else 2 ^ 63 - 1

unfoldable pub unwrap_or : Option ℕ → ℕ → ℕ
unwrap_or none n = n
unwrap_or (some d) n = d

unfoldable pub window : Chrono → LoopControlConfig → ℕ
unfolding to_i64 unwrap_or
window chrono config =
    unwrap_or (chrono.try_seconds (to_i64 (max config.auto_wake_window_secs 1))) chrono.max_duration

-- `while front.is_some_and(|at| now - at >= window) { pop_front }`.
pub expire : ℕ → ℕ → List ℕ → List ℕ
expire w now [] = []
expire w now (at ∷ wakes) = if leb (at + w) now then expire w now wakes else at ∷ wakes

-- `AutoWakeBudget::try_record_wake`, over the window in ticks.
unfoldable pub record_wake : ℕ → ℕ → AutoWakeBudget → ℕ → AutoWakeBudget × Bool
unfolding expire
record_wake w limit b now =
    let live = expire w now b.recent_wakes in
    if leb limit (length live)
    then (record b { recent_wakes = live }, false)
    else (record { recent_wakes = live ++ now ∷ []; exhausted_notified = false }, true)

unfoldable pub try_record_wake :
    Chrono → LoopControlConfig → AutoWakeBudget → ℕ → AutoWakeBudget × Bool
unfolding record_wake window
try_record_wake chrono config b now = record_wake (window chrono config) config.max_auto_wakes b now

-- The budget after a row of attempts, and the instants at which a wake was granted, oldest first.
pub attempts :
    Chrono → LoopControlConfig → AutoWakeBudget → List ℕ → List ℕ → AutoWakeBudget × List ℕ
attempts chrono config b granted [] = (b, granted)
attempts chrono config b granted (now ∷ more) =
    let (b', ok) = try_record_wake chrono config b now in
    attempts chrono config b' (if ok then granted ++ now ∷ [] else granted) more
