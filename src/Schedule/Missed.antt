-- ===== src/Schedule/Missed.antt =====
-- Which missed run is made up for, against the instants at which a cron expression fires.
use ah.Base.{
  ℕ, zero, suc, ◌-◌, ◌≤◌, ◌<◌, max, ◌≡◌, refl, subst, Bool, true, false, Option, none, some, leb,
  arith, Bool-cases, Option-cases, inl, inr, dec_lt, ◌⊎◌,
}
use ah.Schedule.{
  cron, ScheduleDefinition, CatchUp, nothing_missed, fire, expired, latest_from, latest_in_window,
  since, first_or_none, cron_decision, spec_decision, catch_up_decision,
}

module _ (fires : ℕ → Bool) where
  -- The expression does not fire behind `from` up to `to`.
  abbrev pub Silent : ℕ → ℕ → Type 0
  Silent from to = (v : ℕ) → from < v → v ≤ to → fires v ≡ false

  -- The first firing behind `from`.
  pub record IsFirst (from u : ℕ) : Type 0 where
    pub later : from < u
    pub hit : fires u ≡ true
    pub silent : (v : ℕ) → from < v → v < u → fires v ≡ false

  -- The last firing behind `from` and up to `to`.
  pub record IsLatest (from to u : ℕ) : Type 0 where
    pub later : from < u
    pub within : u ≤ to
    pub hit : fires u ≡ true
    pub silent : Silent u to

  abbrev Firsts : ℕ → Option ℕ → Type 0
  Firsts from none = (v : ℕ) → from < v → fires v ≡ false
  Firsts from (some u) = IsFirst from u

  -- What `next` of the crate promises.
  abbrev pub IsNext : (ℕ → Option ℕ) → Type 0
  IsNext next = (from : ℕ) → Firsts from (next from)

  -- What a search behind `from` comes to.
  abbrev Found : ℕ → ℕ → Option ℕ → Option ℕ → Type 0
  Found from to last found =
      ((found ≡ last) × Silent from to) ⊎ ((u : ℕ) × (found ≡ some u) × IsLatest from to u)

  -- A firing that is taken starts the search anew.
  Found-later :
      (t u now : ℕ) (found : Option ℕ) (last : Option ℕ)
      → IsFirst t u
      → u ≤ now
      → Found u now (some u) found
      → Found t now last found
  Found-later t u now found last first p (inl (e, silent)) =
      inr (u, e, record { later = first.later; within = p; hit = first.hit; silent = silent })
  Found-later t u now found last first p (inr (w, e, l)) = inr (
    w,
    e,
    record {
      later = omega (arith, first.later, l.later);
      within = l.within;
      hit = l.hit;
      silent = l.silent;
    },
  )

  latest_from-Found :
      (next : ℕ → Option ℕ)
      → IsNext next
      → (now n : ℕ) (last : Option ℕ) (t : ℕ) → now - t ≤ n
      → Found t now last (latest_from next now n last t)
  unfolding latest_from
  latest_from-Found next k now zero last t b = inl (refl, λ v lo hi. ground (arith, lo, hi, b))
  latest_from-Found next k now (suc n) last t b = elim (Option-cases (next t)) [
    | inl e ↦
        let none_left : Firsts t none = subst (Firsts t) e (k t) in
        rw (latest_from, e) (inl (refl, λ v lo hi. none_left v lo))
    | inr (u, e) ↦
        let first : IsFirst t u = subst (Firsts t) e (k t) in
        elim (Bool-cases (leb u now)) [
          | inr p ↦
              rw (latest_from, e, p)
                (inl (refl, λ v lo hi. first.silent v lo (ground (arith, hi, p))))
          | inl p ↦
              rw (latest_from, e, p)
                (Found-later t u now _ last first (ground (arith, p))
                  (latest_from-Found next k now n (some u) u (omega (arith, b, first.later))))
        ]
  ]

  -- What each verdict on a cron schedule says, from the last firing on and in the window.
  abbrev pub Verdict : ℕ → ℕ → ℕ → CatchUp → Type 0
  Verdict from start now nothing_missed = Silent from now
  Verdict from start now (fire m) = IsLatest start now m
  Verdict from start now (expired m) = IsFirst from m × (m ≤ start) × Silent start now

  Silent-before :
      (from start now u : ℕ) → IsFirst from u → start < u → Silent start now → Silent from now
  Silent-before from start now u first past silent v lo hi = elim (dec_lt v u) [
    | yes h ↦ first.silent v lo h
    | no h ↦ silent v (omega (arith, h, past)) hi
  ]

  first_or_none-Verdict :
      (from start now : ℕ) (first : Option ℕ)
      → Firsts from first
      → Silent start now
      → Verdict from start now (first_or_none first start)
  unfolding first_or_none
  first_or_none-Verdict from start now none k silent = λ v lo hi. k v lo
  first_or_none-Verdict from start now (some u) k silent = elim (Bool-cases (leb u start)) [
    | inl p ↦ rw p (k, ground (arith, p), silent)
    | inr p ↦ rw p (Silent-before from start now u k (ground (arith, p)) silent)
  ]

  cron_decision-Verdict :
      (next : ℕ → Option ℕ)
      → IsNext next
      → (from now window : ℕ)
      → Verdict from (max from (now - window)) now (cron_decision next from now window)
  unfolding cron_decision latest_in_window
  cron_decision-Verdict next k from now window =
      let start = max from (now - window) in
      elim (latest_from-Found next k now (now - start) none start (omega arith)) [
        | inl (e, silent) ↦
            rw (cron_decision, latest_in_window, e)
              (first_or_none-Verdict from start now (next from) (k from) silent)
        | inr (u, e, l) ↦ rw (cron_decision, latest_in_window, e) l
      ]

  -- For a cron job and `next` that gives the first firing behind an instant: the run that is made up
  -- for is the last firing behind the last run and inside the window, up to now; if it is too late,
  -- the first firing missed lies at or before the start of the window, and none lies in it; and if
  -- nothing was missed, there is no firing behind the last run up to now.
  pub catch_up_decision-Verdict :
      (def : ScheduleDefinition) (next : ℕ → Option ℕ) (now window : ℕ)
      → def.schedule ≡ cron next
      → IsNext next
      → Verdict (since def) (max (since def) (now - window)) now (catch_up_decision def now window)
  unfolding catch_up_decision spec_decision since
  catch_up_decision-Verdict def next now window e k =
      rw (catch_up_decision, e) (cron_decision-Verdict next k (since def) now window)
