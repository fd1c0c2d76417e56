-- ===== src/Upkeep/Interruptions.antt =====
-- One-shot schedules that the start-up of src/systems/schedule.rs finds interrupted.
use ah.Base.{
  ℕ, ◌≡◌, refl, ap, ◌∙◌, true, false, List, [], ◌∷◌, map, arith, ◌⊎◌, All-mono, All, inl, inr,
  Bool-cases,
}
use ah.Schedule.{ScheduleDefinition}
use ah.Upkeep.{is_interrupted, has_id, pause, interrupted, pause_interrupted, start_up}

-- Every id that is listed stays listed when the list grows at the front.
has_id-cons : (i : ℕ) (ids : List ℕ) (id : ℕ) → has_id ids id ≡ true → has_id (i ∷ ids) id ≡ true
unfolding has_id
has_id-cons i ids id h = ground (arith, h)

pause-is_interrupted :
    (ids : List ℕ) (d : ScheduleDefinition)
    → (is_interrupted d ≡ false) ⊎ (has_id ids d.id ≡ true)
    → is_interrupted (pause ids d) ≡ false
unfolding is_interrupted pause
pause-is_interrupted ids d (inl h) = elim (Bool-cases (has_id ids d.id)) [
  | inl e ↦ rw e refl
  | inr e ↦ rw e h
]
pause-is_interrupted ids d (inr e) = rw e refl

map-pause :
    (ids : List ℕ) (defs : List ScheduleDefinition)
    → All (λ d. (is_interrupted d ≡ false) ⊎ (has_id ids d.id ≡ true)) defs
    → interrupted (map (pause ids) defs) ≡ []
unfolding interrupted
map-pause ids [] a = refl
map-pause ids (d ∷ defs) (h, a) = rw (pause-is_interrupted ids d h) (map-pause ids defs a)

interrupted-hit :
    (d : ScheduleDefinition) (defs : List ScheduleDefinition)
    → is_interrupted d ≡ true
    → interrupted (d ∷ defs) ≡ d ∷ interrupted defs
unfolding interrupted
interrupted-hit d defs e = rw e refl

interrupted-miss :
    (d : ScheduleDefinition) (defs : List ScheduleDefinition)
    → is_interrupted d ≡ false
    → interrupted (d ∷ defs) ≡ interrupted defs
unfolding interrupted
interrupted-miss d defs e = rw e refl

-- The test for a list that is known to be another one.
has_id-along :
    {ds es : List ScheduleDefinition} (id : ℕ)
    → ds ≡ es
    → has_id (map (λ c. c.id) es) id ≡ true
    → has_id (map (λ c. c.id) ds) id ≡ true
has_id-along id e h = ap (λ cs. has_id (map (λ c. c.id) cs) id) e ∙ h

has_id-here : (i : ℕ) (ids : List ℕ) → has_id (i ∷ ids) i ≡ true
unfolding has_id
has_id-here i ids = ground arith

listed :
    (defs : List ScheduleDefinition)
    → All
        (λ d.
          (is_interrupted d ≡ false) ⊎ (has_id (map (λ e. e.id) (interrupted defs)) d.id ≡ true))
        defs
listed [] = tt
listed (d ∷ defs) = elim (Bool-cases (is_interrupted d)) [
  | inl e ↦ (
    inr (has_id-along d.id (interrupted-hit d defs e) (has_id-here d.id _)),
    All-mono _ _ defs
        (λ x o. elim o [
          | inl h ↦ inl h
          | inr h ↦ inr (has_id-along x.id (interrupted-hit d defs e) (has_id-cons d.id _ x.id h))
        ])
        (listed defs),
  )
  | inr e ↦ (
    inl e,
    All-mono _ _ defs
        (λ x o. elim o [
          | inl h ↦ inl h
          | inr h ↦ inr (has_id-along x.id (interrupted-miss d defs e) h)
        ])
        (listed defs),
  )
]

pause-none : (d : ScheduleDefinition) → pause [] d ≡ d
unfolding pause has_id
pause-none d = refl

map-pause-none : (defs : List ScheduleDefinition) → map (pause []) defs ≡ defs
map-pause-none [] = refl
map-pause-none (d ∷ defs) = rw (pause-none d, map-pause-none defs) refl

-- After a start-up no schedule is interrupted: a second one, whenever it comes, tells of none and
-- leaves the definitions as the first one left them.
pub start_up-start_up :
    (now window later window' : ℕ) (defs : List ScheduleDefinition)
    → ((start_up later window' (start_up now window defs).definitions).told ≡ [])
      × ((start_up later window' (start_up now window defs).definitions).definitions
          ≡ (start_up now window defs).definitions)
unfolding start_up pause_interrupted
start_up-start_up now window later window' defs =
    let none_left : interrupted (pause_interrupted defs) ≡ [] =
      unfold pause_interrupted in
      map-pause (map (λ d. d.id) (interrupted defs)) defs (listed defs) in
    (
      none_left,
      ap (λ ds. map (pause (map (λ d. d.id) ds)) (pause_interrupted defs)) none_left
          ∙ map-pause-none (pause_interrupted defs),
    )
