-- ===== src/Ledger/Summary.antt =====
-- The statistics and the short history that a ledger gives.
use ah.Base.{
  length-take, ℕ, ◌+◌, ◌%◌, ◌^◌, ◌<◌, ◌≡◌, refl, sym, ap, ◌∙◌, Bool, true, List, [], ◌∷◌, ◌++◌,
  append-nil, append_assoc, min, if◌then◌else◌, filter, count, length, take, drop, take-drop, leb,
  arith, Bool-cases, inl, inr, length-append,
}
use ah.Ledger.{
  ScheduleRunRecord, RunOutcome, notified, silent, failed, skipped_overlap, missed, outcome_eq,
  RunSummary, inc, tally, tally_all, summarise, reverse, recent,
}

abbrev zeros : RunSummary
zeros = record { total = 0; notified = 0; failed = 0; skipped = 0; missed = 0 }

module _ (field : RunSummary → ℕ) (counted : RunOutcome → Bool) where
  tally_all-count :
      ((s : RunSummary) (o : RunOutcome)
        → field (tally s o) ≡ (if counted o then inc (field s) else field s))
      → (s : RunSummary) (records : List ScheduleRunRecord) → field s < 2 ^ 64
      → field (tally_all s records) ≡ (field s + count (λ r. counted r.outcome) records) % 2 ^ 64
  unfolding tally_all inc
  tally_all-count h s [] b = omega arith
  tally_all-count h s (r ∷ records) b = elim (Bool-cases (counted r.outcome)) [
    | inl e ↦
        let one : field (tally s r.outcome) ≡ (field s + 1) % 2 ^ 64 = h s r.outcome ∙ rw e refl in
        rw e
          (omega (arith, one, tally_all-count h (tally s r.outcome) records (omega (arith, one))))
    | inr e ↦
        let same : field (tally s r.outcome) ≡ field s = h s r.outcome ∙ rw e refl in
        rw e (
          omega
            (arith, same, tally_all-count h (tally s r.outcome) records (omega (arith, same, b))))
  ]

  tally_all-zeros :
      ((s : RunSummary) (o : RunOutcome)
        → field (tally s o) ≡ (if counted o then inc (field s) else field s))
      → (records : List ScheduleRunRecord) → field zeros ≡ 0
      → field (tally_all zeros records) ≡ count (λ r. counted r.outcome) records % 2 ^ 64
  tally_all-zeros h records z = omega (arith, z, tally_all-count h zeros records (omega (arith, z)))

-- The records since an instant with one outcome.
abbrev pub outcomes : RunOutcome → ℕ → List ScheduleRunRecord → ℕ
outcomes o since records =
    count (λ r. outcome_eq r.outcome o) (filter (λ r. leb since r.fired_at) records)

tally-total : (s : RunSummary) (o : RunOutcome) → (tally s o).total ≡ inc s.total
unfolding tally
tally-total s notified = refl
tally-total s silent = refl
tally-total s failed = refl
tally-total s skipped_overlap = refl
tally-total s missed = refl

tally-notified :
    (s : RunSummary) (o : RunOutcome)
    → (tally s o).notified ≡ (if outcome_eq o notified then inc s.notified else s.notified)
unfolding tally
tally-notified s notified = refl
tally-notified s silent = refl
tally-notified s failed = refl
tally-notified s skipped_overlap = refl
tally-notified s missed = refl

tally-failed :
    (s : RunSummary) (o : RunOutcome)
    → (tally s o).failed ≡ (if outcome_eq o failed then inc s.failed else s.failed)
unfolding tally
tally-failed s notified = refl
tally-failed s silent = refl
tally-failed s failed = refl
tally-failed s skipped_overlap = refl
tally-failed s missed = refl

tally-skipped :
    (s : RunSummary) (o : RunOutcome)
    → (tally s o).skipped ≡ (if outcome_eq o skipped_overlap then inc s.skipped else s.skipped)
unfolding tally
tally-skipped s notified = refl
tally-skipped s silent = refl
tally-skipped s failed = refl
tally-skipped s skipped_overlap = refl
tally-skipped s missed = refl

tally-missed :
    (s : RunSummary) (o : RunOutcome)
    → (tally s o).missed ≡ (if outcome_eq o missed then inc s.missed else s.missed)
unfolding tally
tally-missed s notified = refl
tally-missed s silent = refl
tally-missed s failed = refl
tally-missed s skipped_overlap = refl
tally-missed s missed = refl

count-filter :
    (p : ScheduleRunRecord → Bool) (records : List ScheduleRunRecord)
    → count (λ r. true) (filter p records) ≡ count p records
count-filter p [] = refl
count-filter p (r ∷ records) = ground (arith, count-filter p records)

-- The summary since an instant counts the runs that fired then or later, up to the wrap of u64: all
-- of them, and those that notified, failed, were skipped or were missed.
pub summarise-counts :
    (since : ℕ) (records : List ScheduleRunRecord)
    → ((summarise since records).total ≡ count (λ r. leb since r.fired_at) records % 2 ^ 64)
      × ((summarise since records).notified ≡ outcomes notified since records % 2 ^ 64)
      × ((summarise since records).failed ≡ outcomes failed since records % 2 ^ 64)
      × ((summarise since records).skipped ≡ outcomes skipped_overlap since records % 2 ^ 64)
      × ((summarise since records).missed ≡ outcomes missed since records % 2 ^ 64)
unfolding summarise tally
summarise-counts since records =
    let recent_ones = filter (λ r. leb since r.fired_at) records in
    (
      tally_all-zeros (λ s. s.total) (λ o. true) tally-total recent_ones refl
          ∙ ap (λ n. n % 2 ^ 64) (count-filter (λ r. leb since r.fired_at) records),
      tally_all-zeros (λ s. s.notified) (λ o. outcome_eq o notified) tally-notified recent_ones
          refl,
      tally_all-zeros (λ s. s.failed) (λ o. outcome_eq o failed) tally-failed recent_ones refl,
      tally_all-zeros (λ s. s.skipped) (λ o. outcome_eq o skipped_overlap) tally-skipped recent_ones
          refl,
      tally_all-zeros (λ s. s.missed) (λ o. outcome_eq o missed) tally-missed recent_ones refl,
    )

reverse-snoc {ℓ} : {A : Type ℓ} (xs : List A) (x : A) → reverse (xs ++ x ∷ []) ≡ x ∷ reverse xs
unfolding reverse
reverse-snoc [] x = refl
reverse-snoc (y ∷ xs) x = rw (reverse-snoc xs x) refl

reverse-append {ℓ} : {A : Type ℓ} (xs ys : List A) → reverse (xs ++ ys) ≡ reverse ys ++ reverse xs
unfolding reverse
reverse-append [] ys = sym (append-nil (reverse ys))
reverse-append (x ∷ xs) ys =
    rw (reverse-append xs ys) (append_assoc (reverse ys) (reverse xs) (x ∷ []))

reverse-reverse {ℓ} : {A : Type ℓ} (xs : List A) → reverse (reverse xs) ≡ xs
unfolding reverse
reverse-reverse [] = refl
reverse-reverse (x ∷ xs) = reverse-snoc (reverse xs) x ∙ ap (◌∷◌ x) (reverse-reverse xs)

length-reverse {ℓ} : {A : Type ℓ} (xs : List A) → length (reverse xs) ≡ length xs
unfolding reverse
length-reverse [] = refl
length-reverse (x ∷ xs) = omega (arith, length-append (reverse xs) (x ∷ []), length-reverse xs)

-- The short history is the latest runs, latest first: behind some older runs, they are what the
-- ledger holds, and there are as many as the limit asks for, at most 100 and at most all.
pub recent-latest :
    (records : List ScheduleRunRecord) (limit : ℕ)
    → ((older : List ScheduleRunRecord) × (records ≡ older ++ reverse (recent records limit)))
      × (length (recent records limit) ≡ min (min limit 100) (length records))
unfolding recent
recent-latest records limit =
    let n = min limit 100 in
    (
      (
        reverse (drop n (reverse records)),
        sym (reverse-reverse records)
            ∙ ap reverse (sym (take-drop n (reverse records)))
            ∙ reverse-append (take n (reverse records)) (drop n (reverse records)),
      ),
      length-take n (reverse records) ∙ ap (min n) (length-reverse records),
    )
