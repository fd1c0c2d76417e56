-- ===== src/Upkeep/Tests.antt =====
-- A start-up over an interrupted schedule, and an expired one whose removal fails before it succeeds.
use ah.Base.{
  ℕ, zero, suc, ◌≡◌, refl, ap, Bool, true, false, List, [], ◌∷◌, none, some, Option, Text, ◌++◌,
  ◌==◌, count, arith, All, inl, inr, map,
}
use ah.Ledger.Append.{Codes}
use ah.Ledger.Lines.{strip_cr}
use ah.Ledger.{Codec, Write, written, rolled_back, parsed, ok, read_runs, add_record}
use ah.Schedule.{ScheduleDefinition, ScheduleSpec, once, cron, reply}
use ah.Upkeep.Interruptions.{start_up-start_up}
use ah.Upkeep.Removal.{IsWhole, expire_rounds-ended}
use ah.Upkeep.{
  start_up, Expiry, ExpiryRound, PendingScheduleRecord, expire_rounds, catch_up, record_missed,
  missed_record, complete_once, persist,
}

abbrev definition : ℕ → ScheduleSpec → Option ℕ → ScheduleDefinition
definition id schedule last_fired_at = record {
  id = id;
  name = [];
  content = [];
  raw = [];
  schedule = schedule;
  output_channel = none;
  notify = reply;
  report_of = none;
  enabled = true;
  created_at = 0;
  health = record {
    last_fired_at = last_fired_at;
    last_success_at = none;
    consecutive_failures = 0;
    alerting = false;
  };
}

-- One that was interrupted, one that has not fired yet, and one that never fires again.
abbrev three : List ScheduleDefinition
three =
    definition 1 (once 50) (some 50)
    ∷ definition 2 (once 900) none
    ∷ definition 3 (cron (λ t. none)) none
    ∷ []

start_up_test :
    map (λ d. d.enabled) (start_up 100 1000 three).definitions ≡ false ∷ true ∷ true ∷ []
unfolding start_up ah.Upkeep.pause_interrupted ah.Upkeep.pause ah.Upkeep.has_id
    ah.Upkeep.interrupted ah.Upkeep.is_interrupted ah.Upkeep.is_once ah.Accounting.is_some
start_up_test = refl

complete_once_test :
    map (λ d. d.id) (complete_once ((true, 1) ∷ (false, 2) ∷ (true, 3) ∷ []) three) ≡ 2 ∷ 3 ∷ []
unfolding complete_once ah.Upkeep.has_id ah.Upkeep.finished_once ah.Upkeep.is_once
complete_once_test = refl

persist_test :
    persist true false false three (record { stored = []; retry = false })
    ≡ record { stored = []; retry = true }
unfolding persist
persist_test = refl

start_up-start_up_example :
    ((start_up 200 1000 (start_up 100 1000 three).definitions).told ≡ [])
    × ((start_up 200 1000 (start_up 100 1000 three).definitions).definitions
        ≡ (start_up 100 1000 three).definitions)
start_up-start_up_example = start_up-start_up 100 1000 200 1000 three

-- The record of a trigger is a line of as many letters A as its instant.
abbrev letters : ℕ → Text
letters zero = []
letters (suc n) = 65 ∷ letters n

abbrev missed_codec : Codec
missed_codec = record {
  decode = λ t. parsed (missed_record 2 (count (λ b. b == 65) t) 100);
  encode = λ r. letters r.fired_at;
}

count-strip_cr : (t : Text) → count (λ b. b == 65) (strip_cr t) ≡ count (λ b. b == 65) t
unfolding strip_cr
count-strip_cr [] = refl
count-strip_cr (b ∷ []) = ground arith
count-strip_cr (b ∷ c ∷ bs) = ground (arith, count-strip_cr (c ∷ bs))

abbrev expired_two : PendingScheduleRecord
expired_two = record {
  entry = missed_record 2 3 100;
  expired = some (definition 2 (once 900) none);
}

missed-Codes : Codes missed_codec expired_two.entry
unfolding missed_record ah.Upkeep.missed_summary
missed-Codes = record {
  strip = λ t. ap (λ m. parsed (missed_record 2 m 100)) (count-strip_cr t);
  round = refl;
  flat = (refl, (refl, (refl, tt)));
}

abbrev round : Write → Bool → ExpiryRound
round write save_ok = record { blocked = false; write = write; save_ok = save_ok }

-- The ledger write fails, then the save.
abbrev failing : List ExpiryRound
failing = round rolled_back true ∷ round written false ∷ []

failing-IsWhole : All IsWhole failing
failing-IsWhole = (inr refl, (inl refl, tt))

abbrev before : Expiry
before = record {
  definitions = three;
  stored = three;
  ledger = none;
  pending = true;
  storage_alerted = false;
  told_removed = false;
}

before-reads : read_runs missed_codec 2 none ≡ ok []
unfolding read_runs
before-reads = refl

expire_rounds-ended_example :
    ((expire_rounds missed_codec expired_two (failing ++ round written true ∷ []) before).pending
      ≡ false)
    × (read_runs missed_codec 2
          (expire_rounds missed_codec expired_two
            (failing ++ round written true ∷ [])
            before).ledger
        ≡ ok (add_record [] (missed_record 2 3 100)))
unfolding missed_record
expire_rounds-ended_example =
    expire_rounds-ended missed_codec expired_two [] before failing (round written true)
      failing-IsWhole missed-Codes refl before-reads refl refl refl
