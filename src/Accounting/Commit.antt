-- ===== src/Accounting/Commit.antt =====
-- The rounds of the accounting of src/systems/schedule.rs, up to the commit.
use mathlib.Core.List.{Mem, mem-cons_self, mem-cons_of_mem}
use ah.Base.{
  All-mono, ℕ, ◌≡◌, refl, sym, ◌∙◌, true, false, ◌||◌, not, List, [], ◌∷◌, none, arith, inl, inr,
  ◌⊎◌, Bool-cases, Option-cases, All,
}
use ah.Accounting.{
  ScheduledRun, Attempt, Accounting, is_ready, has_failed, run_record, find_definition,
  alert_storage, finish_run, commit_health, commit_ledger, account, account_all, unwrap_or,
}
use ah.Ledger.Append.{Codes}
use ah.Ledger.{Codec, written, ScheduleRunRecord, read_runs, ok, add_record}
use ah.Task.{Task}
use ah.Accounting.Once.{
  IsWhole, settle_first, replace_definition-settle_first, find_definition-settle_first, Holds,
  without, including, append_run-Holds, append_run-written,
}

All-Mem : (xs : List Attempt) → All (λ x. Mem x xs) xs
All-Mem [] = tt
All-Mem (x ∷ xs) = (
  mem-cons_self,
  All-mono (λ y. Mem y xs) (λ y. Mem y (x ∷ xs)) xs (λ y m. mem-cons_of_mem x m) (All-Mem xs),
)

module _ (codec : Codec) (threshold : ℕ) (task : Task) (run : ScheduledRun)
    (attempts : List Attempt) where
  -- Where the accounting of the run stands: nothing of the definitions is changed, or everything is,
  -- once, and saved, and the ledger holds the run.
  pub data Progress (records : List ScheduleRunRecord) (from s : Accounting) : Type 0 where
    under_way :
        s.recorded ≡ false
        → s.definitions ≡ from.definitions
        → s.stored ≡ from.stored
        → Holds codec threshold task run attempts records s.ledger
        → Progress records from s
    committed :
        (finished_at : ℕ) (a : Attempt)
        → Mem a attempts
        → s.recorded ≡ true
        → s.definitions
          ≡ settle_first threshold run.schedule_id (has_failed task a) finished_at from.definitions
        → (s.stored ≡ s.definitions) ⊎ (find_definition run.schedule_id from.definitions ≡ none)
        → ((n : ℕ) × (b : Attempt) × Mem b attempts
            × (read_runs codec run.schedule_id s.ledger
                ≡ ok (add_record records (run_record task run n b))))
        → Progress records from s

  commit_health-Progress :
      (records : List ScheduleRunRecord) (from s : Accounting) (at : ℕ) (a : Attempt)
      → Mem a attempts
      → s.recorded ≡ false
      → s.definitions ≡ from.definitions
      → s.stored ≡ from.stored
      → ((n : ℕ) × (b : Attempt) × Mem b attempts
          × (read_runs codec run.schedule_id s.ledger
              ≡ ok (add_record records (run_record task run n b))))
      → Progress records from (commit_health threshold task run at a s)
  unfolding commit_health finish_run alert_storage has_failed
  commit_health-Progress records from s at a m r d t (n, b, k, h) =
      elim (Option-cases (find_definition run.schedule_id s.definitions)) [
        | inl e ↦
            rw (commit_health, e)
              (committed at a m refl
                (d ∙ sym (find_definition-settle_first threshold _ _ _ _ (rw d at e)))
                (inr (rw d at e)) (n, b, k, h))
        | inr (def, e) ↦ elim (Bool-cases a.save_ok) [
          | inl f ↦
              rw (commit_health, e, f)
                (committed at a m refl
                  (rw d (replace_definition-settle_first threshold _ _ _ _ def (rw d at e)))
                  (inl refl) (n, b, k, h))
          | inr f ↦ rw (commit_health, e, f) (under_way r d t (including n b k h))
        ]
      ]

  account-Progress :
      (records : List ScheduleRunRecord) (from s : Accounting) (a : Attempt)
      → Mem a attempts
      → IsWhole a
      → ((n : ℕ) → Codes codec (run_record task run n a))
      → Progress records from s
      → Progress records from (account codec threshold task run a s)
  unfolding account commit_ledger alert_storage
  account-Progress records from s a m w c (committed at b k r d t h) =
      rw (account, r) (committed at b k refl d t h)
  account-Progress records from s a m w c (under_way r d t h) =
      elim (Bool-cases (s.recorded || a.blocked || not (is_ready task a))) [
        | inl e ↦ rw (account, e) (under_way r d t h)
        | inr e ↦
            elim (append_run-Holds codec threshold task run attempts records s.ledger
              (unwrap_or s.completed_at a.now) a m w c h) [
                | inl (f, g) ↦
                    rw (account, e, commit_ledger, f)
                      (commit_health-Progress records from _ _ a m r d t g)
                | inr (_, f, g) ↦ rw (account, e, commit_ledger, f) (under_way r d t g)
              ]
      ]

  account_all-keeps :
      (records : List ScheduleRunRecord) (from : Accounting) (rest : List Attempt) (s : Accounting)
      → All (λ b. Mem b attempts) rest
      → All IsWhole rest
      → All (λ b. (n : ℕ) → Codes codec (run_record task run n b)) rest
      → Progress records from s
      → Progress records from (account_all codec threshold task run rest s)
  unfolding account_all
  account_all-keeps records from [] s m w c p = p
  account_all-keeps records from (a ∷ rest) s (m, ms) (w, ws) (c, cs) p =
      account_all-keeps records from rest _ ms ws cs (account-Progress records from s a m w c p)

  -- A round that finds everything delivered and whose writes succeed marks the run, if it is under
  -- way.
  commit_health-recorded :
      (s : Accounting) (at : ℕ) (a : Attempt)
      → a.save_ok ≡ true
      → (commit_health threshold task run at a s).recorded ≡ true
  unfolding commit_health finish_run
  commit_health-recorded s at a f =
      elim (Option-cases (find_definition run.schedule_id s.definitions)) [
        | inl e ↦ rw (commit_health, e) refl
        | inr (def, e) ↦ rw (commit_health, e, f) refl
      ]

  account-recorded :
      (records : List ScheduleRunRecord) (from s : Accounting) (a : Attempt)
      → ((n : ℕ) → Codes codec (run_record task run n a))
      → a.blocked ≡ false
      → is_ready task a ≡ true
      → a.write ≡ written
      → a.save_ok ≡ true
      → Progress records from s
      → (account codec threshold task run a s).recorded ≡ true
  unfolding account commit_ledger
  account-recorded records from s a c b q w f (committed at n k r d t h) = rw (account, r) refl
  account-recorded records from s a c b q w f (under_way r d t h) =
      let guard : (s.recorded || a.blocked || not (is_ready task a)) ≡ false =
        ground (arith, r, b, q) in
      let stored' =
        append_run-written codec threshold task run attempts records s.ledger
          (unwrap_or s.completed_at a.now) a w c h in
      rw (account, guard, commit_ledger, stored') (commit_health-recorded _ _ a f)

  -- From a run that is not accounted for, over a ledger that reads, whatever the rounds find, if no
  -- write is torn and the codec reads back the records that they would write: either the run is not
  -- marked, the definitions in memory and in the store are as they were, and the ledger holds what it
  -- held, with one record of the run behind it or without; or the run is marked, its definition is
  -- settled once, as one of the rounds finds the run, in the store too unless the schedule is gone, and
  -- the ledger holds one record of the run behind what it held.
  pub account_all-Progress :
      (records : List ScheduleRunRecord) (from : Accounting)
      → All IsWhole attempts
      → All (λ b. (n : ℕ) → Codes codec (run_record task run n b)) attempts
      → from.recorded ≡ false
      → read_runs codec run.schedule_id from.ledger ≡ ok records
      → Progress records from (account_all codec threshold task run attempts from)
  account_all-Progress records from w c r h =
      account_all-keeps records from attempts from (All-Mem attempts) w c
        (under_way r refl refl (without h))

  -- After any rounds from a run that is not accounted for, over a ledger that reads, one round that is
  -- put off by no retry, finds everything delivered and whose writes succeed marks the run as recorded,
  -- if no earlier write is torn and the codec reads back the records that the rounds would write.
  pub account_all-recorded :
      (records : List ScheduleRunRecord) (from : Accounting) (a : Attempt)
      → All IsWhole attempts
      → All (λ b. (n : ℕ) → Codes codec (run_record task run n b)) attempts
      → ((n : ℕ) → Codes codec (run_record task run n a))
      → from.recorded ≡ false
      → read_runs codec run.schedule_id from.ledger ≡ ok records
      → a.blocked ≡ false
      → is_ready task a ≡ true
      → a.write ≡ written
      → a.save_ok ≡ true
      → (account codec threshold task run a
          (account_all codec threshold task run attempts from)).recorded
        ≡ true
  account_all-recorded records from a ws cs c r h b q w f =
      account-recorded records from _ a c b q w f (account_all-Progress records from ws cs r h)
