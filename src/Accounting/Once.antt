-- ===== src/Accounting/Once.antt =====
-- A scheduled run of src/systems/schedule.rs is accounted for once, however its writes end.
use mathlib.Core.List.{Mem}
use ah.Base.{
  ℕ, ◌≡◌, refl, sym, ap, ◌∙◌, Bool, List, [], ◌∷◌, Option, none, some, Text, ◌==◌, if◌then◌else◌,
  any, arith, inl, inr, ◌⊎◌, Bool-cases, Option-cases, subst,
}
use ah.Accounting.{
  ScheduledRun, Attempt, run_record, find_definition, replace_definition, settle_definition,
  unwrap_or,
}
use ah.Ledger.Append.{
  append_run-whole, Codes, read_runs-append_run, any-add_record, add_record-seen,
}
use ah.Ledger.{
  Codec, written, rolled_back, append_run, append_ok, append_err, ScheduleStoreError,
  ScheduleRunRecord, read_runs, ok, add_record, same_run,
}
use ah.Schedule.{ScheduleDefinition}
use ah.Task.{Task}

-- A write that is whole or leaves the file as it was.
abbrev pub IsWhole : Attempt → Type 0
IsWhole a = (a.write ≡ written) ⊎ (a.write ≡ rolled_back)

-- The first definition with the id, settled.
unfoldable pub settle_first : ℕ → ℕ → Bool → ℕ → List ScheduleDefinition → List ScheduleDefinition
settle_first threshold id run_has_failed finished_at [] = []
settle_first threshold id run_has_failed finished_at (def ∷ defs) =
    let rest = settle_first threshold id run_has_failed finished_at defs in
    if def.id == id
    then settle_definition threshold run_has_failed finished_at def ∷ defs
    else def ∷ rest

some_inj : {x y : ScheduleDefinition} → some x ≡ some y → x ≡ y
unfolding unwrap_or
some_inj {x} e = ap (λ o. unwrap_or o x) e

any-cong {ℓ} :
    {A : Type ℓ} (p q : A → Bool) → ((x : A) → p x ≡ q x) → (xs : List A) → any p xs ≡ any q xs
any-cong p q h [] = refl
any-cong p q h (x ∷ xs) = rw (h x, any-cong p q h xs) refl

pub replace_definition-settle_first :
    (threshold id : ℕ) (b : Bool) (at : ℕ) (defs : List ScheduleDefinition)
    (def : ScheduleDefinition)
    → find_definition id defs ≡ some def
    → replace_definition id (settle_definition threshold b at def) defs
      ≡ settle_first threshold id b at defs
unfolding replace_definition settle_first find_definition
replace_definition-settle_first threshold id b at [] def h = ground (arith, h)
replace_definition-settle_first threshold id b at (d ∷ defs) def h =
    elim (Bool-cases (d.id == id)) [
      | inl e ↦
          let same : d ≡ def = some_inj (unfold find_definition in rw e at h) in
          rw (replace_definition, settle_first, e, same) refl
      | inr e ↦
          let found : find_definition id defs ≡ some def = unfold find_definition in rw e at h in
          rw (replace_definition, settle_first, e)
            (ap (λ rest. d ∷ rest)
              (replace_definition-settle_first threshold id b at defs def found))
    ]

pub find_definition-settle_first :
    (threshold id : ℕ) (b : Bool) (at : ℕ) (defs : List ScheduleDefinition)
    → find_definition id defs ≡ none
    → settle_first threshold id b at defs ≡ defs
unfolding settle_first find_definition
find_definition-settle_first threshold id b at [] h = refl
find_definition-settle_first threshold id b at (d ∷ defs) h = elim (Bool-cases (d.id == id)) [
  | inl e ↦ ground (arith, h, e)
  | inr e ↦
      let missing : find_definition id defs ≡ none = unfold find_definition in rw e at h in
      rw (settle_first, e)
        (ap (λ rest. d ∷ rest) (find_definition-settle_first threshold id b at defs missing))
]

module _ (codec : Codec) (threshold : ℕ) (task : Task) (run : ScheduledRun) where
  same_run-run_record :
      (old : ScheduleRunRecord) (m n : ℕ) (a b : Attempt)
      → same_run old (run_record task run m a) ≡ same_run old (run_record task run n b)
  unfolding same_run run_record
  same_run-run_record old m n a b = elim (Option-cases old.task_id) [
    | inl e ↦ rw e refl
    | inr (t, e) ↦ rw e refl
  ]

  -- The records of the run count as one, whatever each attempt finds.
  add_record-again :
      (records : List ScheduleRunRecord) (m n : ℕ) (a b : Attempt)
      → add_record (add_record records (run_record task run m a)) (run_record task run n b)
        ≡ add_record records (run_record task run m a)
  add_record-again records m n a b =
      add_record-seen (add_record records (run_record task run m a)) (run_record task run n b) (
        any-cong _ _ (λ old. same_run-run_record old n m b a) _
        ∙ any-add_record records (run_record task run m a))

  module _ (attempts : List Attempt) where
    -- The ledger holds the runs that it held before, with this one, as one of the
    -- attempts finds it, or without it.
    pub data Holds (records : List ScheduleRunRecord) (ledger : Option Text) : Type 0 where
      without : read_runs codec run.schedule_id ledger ≡ ok records → Holds records ledger
      including :
          (finished_at : ℕ) (a : Attempt)
          → Mem a attempts
          → read_runs codec run.schedule_id ledger
            ≡ ok (add_record records (run_record task run finished_at a))
          → Holds records ledger

    pub append_run-Holds :
        (records : List ScheduleRunRecord) (ledger : Option Text) (at : ℕ) (a : Attempt)
        → Mem a attempts
        → IsWhole a
        → ((n : ℕ) → Codes codec (run_record task run n a))
        → Holds records ledger
        → (((append_run codec a.write ledger (run_record task run at a)).1 ≡ append_ok)
            × ((n : ℕ) × (b : Attempt) × Mem b attempts
                × (read_runs codec run.schedule_id
                      (append_run codec a.write ledger (run_record task run at a)).0
                    ≡ ok (add_record records (run_record task run n b)))))
          ⊎ ((e : ScheduleStoreError) × ((append_run codec a.write ledger
                  (run_record task run at a)).1
                ≡ append_err e)
              × Holds records (append_run codec a.write ledger (run_record task run at a)).0)
    unfolding run_record
    append_run-Holds records ledger at a m w c (without h) =
        elim (append_run-whole codec a.write ledger records (run_record task run at a) w (c at) h) [
          | inl (e, g) ↦ inl (e, (at, a, m, g))
          | inr (e, f, g) ↦ inr (e, f, without g)
        ]
    append_run-Holds records ledger at a m w c (including n b k h) =
        elim (append_run-whole codec a.write ledger _ (run_record task run at a) w (c at) h) [
          | inl (e, g) ↦ inl (e, (n, b, k, g ∙ ap ok (add_record-again records n at b a)))
          | inr (e, f, g) ↦ inr (e, f, including n b k g)
        ]

    pub append_run-written :
        (records : List ScheduleRunRecord) (ledger : Option Text) (at : ℕ) (a : Attempt)
        → a.write ≡ written
        → ((n : ℕ) → Codes codec (run_record task run n a))
        → Holds records ledger
        → (append_run codec a.write ledger (run_record task run at a)).1 ≡ append_ok
    unfolding run_record
    append_run-written records ledger at a w c (without h) =
        subst (λ v. (append_run codec v ledger (run_record task run at a)).1 ≡ append_ok) (sym w)
          (read_runs-append_run codec (run_record task run at a) (c at) ledger records h).0
    append_run-written records ledger at a w c (including n b k h) =
        subst (λ v. (append_run codec v ledger (run_record task run at a)).1 ≡ append_ok) (sym w)
          (read_runs-append_run codec (run_record task run at a) (c at) ledger _ h).0
