-- ===== src/AutoWake/Window.antt =====
-- The queue of recent wakes against the wakes that lie in the window.
use ah.Base.{
  ℕ, ◌+◌, ◌≤◌, ◌<◌, ◌≡◌, refl, Bool, List, [], ◌∷◌, ◌++◌, arith, ltb, leb, length, count, inl, inr,
  Bool-cases, leb_false→lt,
}
use ah.AutoWake.{expire}

-- A wake at `at` still counts at `now`.
abbrev pub in_window : ℕ → ℕ → ℕ → Bool
in_window w now at = ltb now (at + w)

-- In order, from `low` on and up to `high`.
abbrev pub Between : ℕ → ℕ → List ℕ → Type 0
Between low high [] = low ≤ high
Between low high (at ∷ more) = (low ≤ at) × Between at high more

Between-low :
    (low low' high : ℕ) (wakes : List ℕ)
    → low ≤ low'
    → Between low' high wakes
    → Between low high wakes
Between-low low low' high [] h b = omega arith
Between-low low low' high (at ∷ more) h b = (omega arith, b.1)

pub Between-high :
    (low high high' : ℕ) (wakes : List ℕ)
    → high ≤ high'
    → Between low high wakes
    → Between low high' wakes
Between-high low high high' [] h b = omega arith
Between-high low high high' (at ∷ more) h b = (b.0, Between-high at high high' more h b.1)

pub Between-append :
    (low high : ℕ) (wakes : List ℕ) → Between low high wakes → Between low high (wakes ++ high ∷ [])
Between-append low high [] b = omega arith
Between-append low high (at ∷ more) b = (b.0, Between-append at high more b.1)

all_in_window :
    (w now low high : ℕ) (wakes : List ℕ)
    → now < low + w
    → Between low high wakes
    → count (in_window w now) wakes ≡ length wakes
all_in_window w now low high [] h b = refl
all_in_window w now low high (at ∷ more) h b =
    ground (arith, all_in_window w now at high more (omega arith) b.1)

-- Of a queue in order the loop leaves exactly what lies in the window.
pub length-expire :
    (w now low high : ℕ) (wakes : List ℕ)
    → Between low high wakes
    → length (expire w now wakes) ≡ count (in_window w now) wakes
unfolding expire
length-expire w now low high [] b = refl
length-expire w now low high (at ∷ more) b = elim (Bool-cases (leb (at + w) now)) [
  | inl old ↦ ground (arith, length-expire w now at high more b.1)
  | inr live ↦ ground (arith, all_in_window w now at high more (leb_false→lt _ _ live) b.1)
]

-- What it drops is out of the window for good.
pub count-expire :
    (w now later : ℕ) (wakes : List ℕ)
    → now ≤ later
    → count (in_window w later) (expire w now wakes) ≡ count (in_window w later) wakes
unfolding expire
count-expire w now later [] h = refl
count-expire w now later (at ∷ more) h = ground (arith, count-expire w now later more h)

pub Between-expire :
    (w now low high : ℕ) (wakes : List ℕ)
    → Between low high wakes
    → Between low high (expire w now wakes)
unfolding expire
Between-expire w now low high [] b = b
Between-expire w now low high (at ∷ more) b = elim (Bool-cases (leb (at + w) now)) [
  | inl old ↦
      rw (old, expire)
        (Between-low low at high (expire w now more) b.0 (Between-expire w now at high more b.1))
  | inr live ↦ rw (live, expire) b
]

pub length-expire-le : (w now : ℕ) (wakes : List ℕ) → length (expire w now wakes) ≤ length wakes
unfolding expire
length-expire-le w now [] = omega arith
length-expire-le w now (at ∷ more) = ground (arith, length-expire-le w now more)
