-- ===== src/AutoWake/Tests.antt =====
-- Runs of the wake budget, and its theorems at concrete attempts.
use ah.Chrono.{Chrono}
use ah.Base.{ℕ, ◌*◌, ◌≤◌, ◌≡◌, refl, List, [], ◌∷◌, some, arith, count}
use ah.AutoWake.{LoopControlConfig, default_budget, window, try_record_wake, attempts}
use ah.AutoWake.Window.{in_window}
use ah.AutoWake.Rate.{granted_spec, attempts-granted_spec, attempts_rate}

-- A tick is a millisecond, and no duration is out of range.
abbrev milliseconds : Chrono
milliseconds = record {
  try_seconds = λ n. some (1000 * n);
  max_duration = 9_223_372_036_854_775_807;
  seconds = λ n. 1000 * n;
  from_std = λ n. some (1000 * n);
}

abbrev two_in_ten : LoopControlConfig
two_in_ten = record { max_auto_wakes = 2; auto_wake_window_secs = 10 }

abbrev times : List ℕ
times = 1000 ∷ 2000 ∷ 3000 ∷ 11000 ∷ 11500 ∷ []

-- The third and the last attempt find two wakes in the window.
granted_times :
    (attempts milliseconds two_in_ten default_budget [] times).1 ≡ 1000 ∷ 2000 ∷ 11000 ∷ []
unfolding attempts try_record_wake default_budget
granted_times = refl

attempts-granted_spec_example :
    (attempts milliseconds two_in_ten default_budget [] times).1
    ≡ granted_spec (window milliseconds two_in_ten) 2 [] times
attempts-granted_spec_example =
    attempts-granted_spec milliseconds two_in_ten 12000 times (omega arith)

attempts_rate_example :
    count
      (in_window (window milliseconds two_in_ten) 12000)
      (attempts milliseconds two_in_ten default_budget [] times).1
    ≤ 2
attempts_rate_example = attempts_rate milliseconds two_in_ten 12000 times (omega arith)
