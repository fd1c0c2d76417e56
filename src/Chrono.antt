-- ===== src/Chrono.antt =====
-- What the program takes of the crate `chrono`. An instant is a number of ticks since an epoch before
-- every instant of the program, a duration a number of ticks; neither has an upper end here.
use ah.Base.{ℕ, Option}

pub record Chrono : Type 0 where
  -- `Duration::try_seconds`, which fails out of range.
  pub try_seconds : ℕ → Option ℕ
  -- `Duration::MAX`.
  pub max_duration : ℕ
  -- `Duration::seconds`.
  pub seconds : ℕ → ℕ
  -- `Duration::from_std` of so many seconds, which fails out of range.
  pub from_std : ℕ → Option ℕ
