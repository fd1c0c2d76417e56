-- ===== src/Ledger/Append.antt =====
-- What a ledger reads as after a run is recorded.
use ah.Base.{
  ℕ, suc, ◌+◌, ◌≡◌, refl, ap, ◌∙◌, subst, Bool, true, false, List, [], ◌∷◌, ◌++◌, map, Option, none,
  some, Text, ◌==◌, if◌then◌else◌, All, Bool-cases, inl, inr, ◌⊎◌, arith, any,
}
use ah.Ledger.{
  ScheduleRunRecord, RunOutcome, notified, silent, failed, skipped_overlap, missed, outcome_eq,
  same_trigger, same_run, Decoded, not_utf8, invalid, parsed, Codec, ScheduleStoreError, io,
  ledger_record, mismatch, Runs, err, ok, add_record, read_lines, read_runs, Write, written,
  rolled_back, torn, Appended, append_ok, append_err, contents, entry_bytes, write_entry,
  append_run,
}
use ah.Ledger.Lines.{lines, strip_cr, unterminated, lines-append, lines-flat}

abbrev ok_or : List ScheduleRunRecord → Runs → List ScheduleRunRecord
ok_or records (err e) = records
ok_or records (ok found) = found

ok_inj : {xs ys : List ScheduleRunRecord} → ok xs ≡ ok ys → xs ≡ ys
ok_inj h = ap (ok_or []) h

read_lines-snoc :
    (id line : ℕ) (before records : List ScheduleRunRecord) (file : List Decoded)
    (r : ScheduleRunRecord)
    → read_lines id line before file ≡ ok records
    → (r.schedule_id == id) ≡ true
    → read_lines id line before (file ++ parsed r ∷ []) ≡ ok (add_record records r)
unfolding read_lines
read_lines-snoc id line before records [] r h s = rw s (ap (λ rs. ok (add_record rs r)) (ok_inj h))
read_lines-snoc id line before records (not_utf8 ∷ file) r h s = ground (arith, h)
read_lines-snoc id line before records (invalid ∷ file) r h s = ground (arith, h)
read_lines-snoc id line before records (parsed q ∷ file) r h s =
    let rest = read_lines id (suc line) (add_record before q) file in
    elim (Bool-cases (q.schedule_id == id)) [
      | inl e ↦
          let h' : rest ≡ ok records =
            subst (λ b. (if b then rest else err (mismatch (line + 1))) ≡ ok records) e h in
          rw e (read_lines-snoc id (suc line) (add_record before q) records file r h' s)
      | inr e ↦
          let h' : err (mismatch (line + 1)) ≡ ok records =
            subst (λ b. (if b then rest else err (mismatch (line + 1))) ≡ ok records) e h in
          ground (arith, h')
    ]

outcome_eq_refl : (o : RunOutcome) → outcome_eq o o ≡ true
outcome_eq_refl notified = refl
outcome_eq_refl silent = refl
outcome_eq_refl failed = refl
outcome_eq_refl skipped_overlap = refl
outcome_eq_refl missed = refl

same_run_refl : (r : ScheduleRunRecord) → same_run r r ≡ true
unfolding same_run
same_run_refl r = ground (arith, outcome_eq_refl r.outcome)

any_snoc :
    (p : ScheduleRunRecord → Bool) (xs : List ScheduleRunRecord) (r : ScheduleRunRecord)
    → p r ≡ true
    → any p (xs ++ r ∷ []) ≡ true
any_snoc p [] r h = rw h refl
any_snoc p (x ∷ xs) r h = ground (arith, any_snoc p xs r h)

-- What the codec of a ledger does: it does not care for a carriage return at a line's end, and reads
-- the line of the record `r`, which has no newline, back.
pub record Codes (codec : Codec) (r : ScheduleRunRecord) : Type 0 where
  pub strip : (t : Text) → codec.decode (strip_cr t) ≡ codec.decode t
  pub round : codec.decode (codec.encode r) ≡ parsed r
  pub flat : All (λ b. (b == 10) ≡ false) (codec.encode r)

pub add_record-seen :
    (records : List ScheduleRunRecord) (r : ScheduleRunRecord)
    → any (λ old. same_run old r) records ≡ true
    → add_record records r ≡ records
unfolding add_record
add_record-seen records r e = rw (add_record, e) refl

Runs-cases :
    (o : Runs)
    → ((e : ScheduleStoreError) × (o ≡ err e))
      ⊎ ((records : List ScheduleRunRecord) × (o ≡ ok records))
Runs-cases (err e) = inl (e, refl)
Runs-cases (ok records) = inr (records, refl)

-- A missing file reads like an empty one.
pub read_runs-contents :
    (codec : Codec) (id : ℕ) (file : Option Text)
    → read_runs codec id (some (contents file)) ≡ read_runs codec id file
unfolding read_runs contents read_lines lines ah.Ledger.Lines.lines_from
read_runs-contents codec id none = refl
read_runs-contents codec id (some file) = refl

-- A record that was added is found.
pub any-add_record :
    (records : List ScheduleRunRecord) (r : ScheduleRunRecord)
    → any (λ old. same_run old r) (add_record records r) ≡ true
unfolding add_record
any-add_record records r = elim (Bool-cases (any (λ old. same_run old r) records)) [
  | inl e ↦ rw (add_record, e) e
  | inr e ↦ rw (add_record, e) (any_snoc (λ old. same_run old r) records r (same_run_refl r))
]

-- A run that the ledger holds is not written.
pub appended_seen :
    (codec : Codec) (write : Write) (file : Option Text) (r : ScheduleRunRecord)
    (records : List ScheduleRunRecord)
    → read_runs codec r.schedule_id file ≡ ok records
    → any (λ old. same_run old r) records ≡ true
    → append_run codec write file r ≡ (file, append_ok)
unfolding append_run
appended_seen codec write file r records h seen = rw (append_run, h, seen) refl

module _ (codec : Codec) (r : ScheduleRunRecord) where
  entry-decoded :
      Codes codec r
      → (file : Text)
      → map codec.decode (lines (file ++ entry_bytes codec file r))
        ≡ map codec.decode (lines file) ++ parsed r ∷ []
  unfolding entry_bytes
  entry-decoded c file =
      lines-append codec.decode c.strip file (codec.encode r ++ 10 ∷ [])
      ∙ rw (lines-flat (codec.encode r) c.flat)
          (ap (λ d. map codec.decode (lines file) ++ d ∷ []) (c.strip (codec.encode r) ∙ c.round))

  read-entry :
      Codes codec r
      → (file : Option Text) (records : List ScheduleRunRecord)
      → read_runs codec r.schedule_id file ≡ ok records
      → read_runs codec r.schedule_id (some (contents file ++ entry_bytes codec (contents file) r))
        ≡ ok (add_record records r)
  unfolding read_runs contents read_lines lines ah.Ledger.Lines.lines_from
  read-entry c none records h =
      rw (read_runs, entry-decoded c [])
        (read_lines-snoc r.schedule_id 0 [] records [] r h (ground arith))
  read-entry c (some file) records h =
      rw (read_runs, entry-decoded c file)
        (read_lines-snoc r.schedule_id 0 [] records (map codec.decode (lines file)) r h
          (ground arith))

  -- A ledger that reads as some runs, after a run is appended and written, reads as the same runs
  -- with this one behind them, or as the same runs if it was recorded already; the append succeeds.
  -- That holds for a missing file and for one whose last line is not ended, with a codec that reads
  -- the line of the run back, if this line has no newline, whatever carriage returns end lines.
  pub read_runs-append_run :
      Codes codec r
      → (file : Option Text) (records : List ScheduleRunRecord)
      → read_runs codec r.schedule_id file ≡ ok records
      → ((append_run codec written file r).1 ≡ append_ok)
        × (read_runs codec r.schedule_id (append_run codec written file r).0
            ≡ ok (add_record records r))
  unfolding append_run write_entry
  read_runs-append_run c file records h = elim (Bool-cases (any (λ old. same_run old r) records)) [
    | inl e ↦ rw (append_run, h, e, add_record-seen records r e) (refl, h)
    | inr e ↦ rw (append_run, h, e) (refl, read-entry c file records h)
  ]

  -- Whatever the write would come to, a run that was appended is not appended again: the ledger
  -- stays as it is, and the second append succeeds, if the ledger read as some runs before and the
  -- codec reads the line of the run back.
  pub append_run-append_run :
      Codes codec r
      → (write : Write) (file : Option Text) (records : List ScheduleRunRecord)
      → read_runs codec r.schedule_id file ≡ ok records
      → append_run codec write (append_run codec written file r).0 r
        ≡ ((append_run codec written file r).0, append_ok)
  unfolding append_run add_record
  append_run-append_run c write file records h =
      let again = (read_runs-append_run c file records h).1 in
      let seen = any-add_record records r in
      let next = (append_run codec written file r).0 in
      appended_seen codec write next r (add_record records r) again seen

  -- A failed write whose tail is cut off again leaves the runs, or the error, that the ledger reads
  -- as.
  pub read_runs-rolled_back :
      (id : ℕ) (file : Option Text)
      → read_runs codec id (append_run codec rolled_back file r).0 ≡ read_runs codec id file
  unfolding append_run write_entry
  read_runs-rolled_back id file = elim (Runs-cases (read_runs codec r.schedule_id file)) [
    | inl (e, h) ↦ rw (append_run, h) refl
    | inr (records, h) ↦ elim (Bool-cases (any (λ old. same_run old r) records)) [
      | inl s ↦ rw (append_run, h, s) refl
      | inr s ↦ rw (append_run, h, s) (read_runs-contents codec id file)
    ]
  ]

-- An append whose write is whole or leaves nothing adds the record, or fails and changes nothing.
pub append_run-whole :
    (codec : Codec) (write : Write) (file : Option Text) (records : List ScheduleRunRecord)
    (r : ScheduleRunRecord)
    → (write ≡ written) ⊎ (write ≡ rolled_back)
    → Codes codec r
    → read_runs codec r.schedule_id file ≡ ok records
    → (((append_run codec write file r).1 ≡ append_ok)
        × (read_runs codec r.schedule_id (append_run codec write file r).0
            ≡ ok (add_record records r)))
      ⊎ ((e : ScheduleStoreError) × ((append_run codec write file r).1 ≡ append_err e)
          × (read_runs codec r.schedule_id (append_run codec write file r).0 ≡ ok records))
unfolding append_run write_entry
append_run-whole codec write file records r (inl w) c h =
    rw w (inl (read_runs-append_run codec r c file records h))
append_run-whole codec write file records r (inr w) c h =
    elim (Bool-cases (any (λ old. same_run old r) records)) [
      | inl e ↦ rw (append_run, h, e, add_record-seen records r e) (inl (refl, h))
      | inr e ↦
          rw (append_run, h, e, w) (inr (io, refl, read_runs-contents codec r.schedule_id file ∙ h))
    ]
