-- ===== src/Ledger/Distinct.antt =====
-- What a ledger that can be read is made of.
use ah.Base.{
  ℕ, suc, ◌≡◌, subst, true, false, List, [], ◌∷◌, ◌++◌, map, Option, none, some, Text, ◌==◌, All,
  All-append, Bool-cases, inl, inr, arith, any,
}
use ah.Ledger.{
  ScheduleRunRecord, same_run, Decoded, not_utf8, invalid, parsed, Codec, Runs, err, ok, add_record,
  read_lines, read_runs,
}
use ah.Ledger.Lines.{lines}

-- No run comes again behind its first record.
abbrev pub Distinct : List ScheduleRunRecord → Type 0
Distinct [] = Unit
Distinct (r ∷ records) = All (λ later. same_run r later ≡ false) records × Distinct records

Distinct-snoc :
    (records : List ScheduleRunRecord) (r : ScheduleRunRecord)
    → any (λ old. same_run old r) records ≡ false
    → Distinct records
    → Distinct (records ++ r ∷ [])
Distinct-snoc [] r h d = (tt, tt)
Distinct-snoc (q ∷ records) r h d =
    let first : same_run q r ≡ false = ground (arith, h) in
    let rest : any (λ old. same_run old r) records ≡ false = ground (arith, h) in
    (
      All-append (λ later. same_run q later ≡ false) records (r ∷ []) d.0 (first, tt),
      Distinct-snoc records r rest d.1,
    )

-- Records of the schedule `id`, none twice.
abbrev pub IsLedger : ℕ → List ScheduleRunRecord → Type 0
IsLedger id records = Distinct records × All (λ r. (r.schedule_id == id) ≡ true) records

add_record-IsLedger :
    (id : ℕ) (records : List ScheduleRunRecord) (r : ScheduleRunRecord)
    → (r.schedule_id == id) ≡ true
    → IsLedger id records
    → IsLedger id (add_record records r)
unfolding add_record
add_record-IsLedger id records r s (d, k) =
    elim (Bool-cases (any (λ old. same_run old r) records)) [
      | inl e ↦ rw (add_record, e) (d, k)
      | inr e ↦
          rw (add_record, e)
            (
              Distinct-snoc records r e d,
              All-append (λ q. (q.schedule_id == id) ≡ true) records (r ∷ []) k (s, tt),
            )
    ]

abbrev Ledgers : ℕ → Runs → Type 0
Ledgers id (err e) = Unit
Ledgers id (ok records) = IsLedger id records

read_lines-Ledgers :
    (id line : ℕ) (records : List ScheduleRunRecord) (file : List Decoded)
    → IsLedger id records
    → Ledgers id (read_lines id line records file)
unfolding read_lines
read_lines-Ledgers id line records [] k = k
read_lines-Ledgers id line records (not_utf8 ∷ file) k = tt
read_lines-Ledgers id line records (invalid ∷ file) k = tt
read_lines-Ledgers id line records (parsed r ∷ file) k = elim (Bool-cases (r.schedule_id == id)) [
  | inl s ↦ rw s (
      read_lines-Ledgers id (suc line) (add_record records r) file
        (add_record-IsLedger id records r s k))
  | inr s ↦ rw s tt
]

-- The runs that a ledger file reads as all belong to its schedule, and no run stands there twice,
-- however often the file holds it.
pub read_runs-IsLedger :
    (codec : Codec) (id : ℕ) (file : Option Text) (records : List ScheduleRunRecord)
    → read_runs codec id file ≡ ok records
    → IsLedger id records
unfolding read_runs
read_runs-IsLedger codec id none records h = subst (Ledgers id) h (tt, tt)
read_runs-IsLedger codec id (some file) records h =
    subst (Ledgers id) h (read_lines-Ledgers id 0 [] (map codec.decode (lines file)) (tt, tt))
