-- ===== src/AutoWake/Rate.antt =====
-- The budget against its contract: a wake is granted if the window has room, counted over every wake
-- that was ever granted.
use ah.Base.{
  ℕ, ◌≤◌, ◌≡◌, refl, List, [], ◌∷◌, ◌++◌, arith, ltb, leb, if◌then◌else◌, length, length-append,
  count, count-append, inl, inr, Bool-cases, leb_false→lt, ◌∙◌, count-le-length,
}
use ah.Chrono.{Chrono}
use ah.AutoWake.{
  LoopControlConfig, AutoWakeBudget, default_budget, window, expire, record_wake, try_record_wake,
  attempts,
}
use ah.AutoWake.Window.{
  in_window, Between, Between-high, Between-append, Between-expire, length-expire, length-expire-le,
  count-expire,
}

-- The contract keeps no queue: it counts the granted wakes that lie in the window.
pub granted_spec : ℕ → ℕ → List ℕ → List ℕ → List ℕ
granted_spec w limit granted [] = granted
granted_spec w limit granted (now ∷ more) =
    granted_spec w limit
      (if ltb (count (in_window w now) granted) limit then granted ++ now ∷ [] else granted) more

-- The queue is in order, ends by `last`, and counts like the whole record from `last` on.
record Tracks (w limit : ℕ) (b : AutoWakeBudget) (granted : List ℕ) (last : ℕ) : Type 0 where
  sized : length b.recent_wakes ≤ limit
  ordered : Between 0 last b.recent_wakes
  counted :
      (now : ℕ)
      → last ≤ now
      → count (in_window w now) b.recent_wakes ≡ count (in_window w now) granted

-- One attempt grants what the contract grants, and keeps track.
record_wake-granted :
    (w limit : ℕ) (b : AutoWakeBudget) (granted : List ℕ) (last now : ℕ)
    → Tracks w limit b granted last
    → last ≤ now
    → (record_wake w limit b now).1 ≡ ltb (count (in_window w now) granted) limit
unfolding record_wake
record_wake-granted w limit b granted last now t h =
    ground (arith, length-expire w now 0 last b.recent_wakes t.ordered, t.counted now h)

record_wake-Tracks :
    (w limit : ℕ) (b : AutoWakeBudget) (granted : List ℕ) (last now : ℕ)
    → Tracks w limit b granted last
    → last ≤ now
    → let (b', ok) = record_wake w limit b now in
      Tracks w limit b' (if ok then granted ++ now ∷ [] else granted) now
unfolding record_wake
record_wake-Tracks w limit b granted last now t h =
    let live = expire w now b.recent_wakes in
    let order : Between 0 now live =
      Between-expire w now 0 now b.recent_wakes
        (Between-high 0 last now b.recent_wakes h t.ordered) in
    elim (Bool-cases (leb limit (length live))) [
      | inl full ↦
          rw (full, record_wake)
            (record {
              sized = omega (arith, length-expire-le w now b.recent_wakes, t.sized);
              ordered = order;
              counted = λ later k.
                  count-expire w now later b.recent_wakes k ∙ t.counted later (omega arith);
            })
      | inr room ↦
          rw (room, record_wake)
            (record {
              sized = rw (length-append live (now ∷ [])) (omega (arith, leb_false→lt _ _ room));
              ordered = Between-append 0 now live order;
              counted = λ later k.
                  rw
                    (
                      count-append (in_window w later) live (now ∷ []),
                      count-append (in_window w later) granted (now ∷ []),
                    )
                    (omega (
                      arith,
                      count-expire w now later b.recent_wakes k,
                      t.counted later (omega arith),
                    ));
            })
    ]

attempts-Tracks :
    (chrono : Chrono) (config : LoopControlConfig) (b : AutoWakeBudget) (granted : List ℕ)
    (last high : ℕ) (times : List ℕ)
    → let w = window chrono config in
      let limit = config.max_auto_wakes in
      Tracks w limit b granted last
      → Between last high times
      → (((attempts chrono config b granted times).1 ≡ granted_spec w limit granted times)
          × Tracks w limit
              (attempts chrono config b granted times).0
              (attempts chrono config b granted times).1
              high)
unfolding attempts granted_spec try_record_wake
attempts-Tracks chrono config b granted last high [] t h = (
  refl,
  record {
    sized = t.sized;
    ordered = Between-high 0 last high b.recent_wakes h t.ordered;
    counted = λ now k. t.counted now (omega arith);
  },
)
attempts-Tracks chrono config b granted last high (now ∷ more) t h =
    let w = window chrono config in
    let limit = config.max_auto_wakes in
    rw (← record_wake-granted w limit b granted last now t h.0) (
      attempts-Tracks chrono config (record_wake w limit b now).0
        (if (record_wake w limit b now).1 then granted ++ now ∷ [] else granted) now high more
        (record_wake-Tracks w limit b granted last now t h.0) h.1)

start-Tracks : (w limit : ℕ) → Tracks w limit default_budget [] 0
unfolding default_budget
start-Tracks w limit = record {
  sized = omega arith;
  ordered = omega arith;
  counted = λ now h. refl;
}

-- At attempts whose instants do not go back, the budget grants the wakes of its contract: one at
-- `now` exactly when fewer than `max_auto_wakes` of all the wakes granted before lie in the window
-- that ends at `now`.
pub attempts-granted_spec :
    (chrono : Chrono) (config : LoopControlConfig) (now : ℕ) (times : List ℕ)
    → Between 0 now times
    → (attempts chrono config default_budget [] times).1
      ≡ granted_spec (window chrono config) config.max_auto_wakes [] times
attempts-granted_spec chrono config now times h =
    (attempts-Tracks chrono config default_budget [] 0 now times (start-Tracks _ _) h).0

-- After attempts whose instants do not go back, and at any instant `now` from the last of them on,
-- at most `max_auto_wakes` granted wakes lie in the window that ends at `now`.
pub attempts_rate :
    (chrono : Chrono) (config : LoopControlConfig) (now : ℕ) (times : List ℕ)
    → Between 0 now times
    → count
        (in_window (window chrono config) now)
        (attempts chrono config default_budget [] times).1
      ≤ config.max_auto_wakes
attempts_rate chrono config now times h =
    let w = window chrono config in
    let (_, t) = attempts-Tracks chrono config default_budget [] 0 now times (start-Tracks _ _) h in
    let b = (attempts chrono config default_budget [] times).0 in
    omega (
      arith,
      t.counted now (omega arith),
      t.sized,
      count-le-length (in_window w now) b.recent_wakes,
    )
