-- ===== src/Upkeep/Removal.antt =====
-- The records of triggers that were not run, in src/systems/schedule.rs.
use ah.Base.{
  ◌≡◌, refl, sym, ap, ◌∙◌, true, false, ◌||◌, not, List, [], ◌∷◌, ◌++◌, Option, none, some, All,
  inl, inr, ◌⊎◌, Bool-cases, Option-cases, Text, subst, false≢true,
}
use ah.Ledger.Append.{
  Codes, append_run-whole, read_runs-append_run, add_record-seen, any-add_record,
}
use ah.Ledger.{
  Codec, Write, written, rolled_back, append_run, append_ok, append_err, ScheduleRunRecord,
  ScheduleStoreError, read_runs, ok, add_record,
}
use ah.Schedule.{ScheduleDefinition}
use ah.Upkeep.{
  PendingScheduleRecord, Expiry, ExpiryRound, still_expired, without_id, remove_expired,
  expire_round, expire_rounds,
}

abbrev pub IsWhole : ExpiryRound → Type 0
IsWhole r = (r.write ≡ written) ⊎ (r.write ≡ rolled_back)

module _ (codec : Codec) (p : PendingScheduleRecord) where
  -- The record is pending and no definition is removed, or it is in the ledger, once, and only then a
  -- definition may be gone.
  pub data Recorded (records : List ScheduleRunRecord) (from s : Expiry) : Type 0 where
    waiting :
        s.pending ≡ true
        → s.definitions ≡ from.definitions
        → s.stored ≡ from.stored
        → (read_runs codec p.entry.schedule_id s.ledger ≡ ok records)
          ⊎ (read_runs codec p.entry.schedule_id s.ledger ≡ ok (add_record records p.entry))
        → Recorded records from s
    settled :
        s.pending ≡ false
        → read_runs codec p.entry.schedule_id s.ledger ≡ ok (add_record records p.entry)
        → ((still_expired from.definitions p.expired ≡ none)
            × (s.definitions ≡ from.definitions)
            × (s.stored ≡ from.stored))
          ⊎ ((def : ScheduleDefinition) × (still_expired from.definitions p.expired ≡ some def)
              × (s.definitions ≡ without_id def.id from.definitions)
              × (s.stored ≡ without_id p.entry.schedule_id from.definitions))
        → Recorded records from s

  remove_expired-Recorded :
      (records : List ScheduleRunRecord) (from s : Expiry) (r : ExpiryRound)
      → s.pending ≡ true
      → s.definitions ≡ from.definitions
      → s.stored ≡ from.stored
      → read_runs codec p.entry.schedule_id s.ledger ≡ ok (add_record records p.entry)
      → Recorded records from (remove_expired p (still_expired s.definitions p.expired) r s)
  unfolding remove_expired
  remove_expired-Recorded records from s r w d t h =
      elim (Option-cases (still_expired s.definitions p.expired)) [
        | inl e ↦ rw (remove_expired, e) (settled refl h (inl (rw d at e, d, t)))
        | inr (def, e) ↦ elim (Bool-cases r.save_ok) [
          | inl f ↦
              rw (remove_expired, e, f)
                (settled refl h (inr (def, rw d at e, rw d refl, rw d refl)))
          | inr f ↦ rw (remove_expired, e, f) (waiting w d t (inr h))
        ]
      ]

  append-once :
      (records : List ScheduleRunRecord) (ledger : Option Text) (r : ExpiryRound)
      → IsWhole r
      → Codes codec p.entry
      → (read_runs codec p.entry.schedule_id ledger ≡ ok records)
        ⊎ (read_runs codec p.entry.schedule_id ledger ≡ ok (add_record records p.entry))
      → (((append_run codec r.write ledger p.entry).1 ≡ append_ok)
          × (read_runs codec p.entry.schedule_id (append_run codec r.write ledger p.entry).0
              ≡ ok (add_record records p.entry)))
        ⊎ ((e : ScheduleStoreError) × ((append_run codec r.write ledger p.entry).1 ≡ append_err e)
            × ((read_runs codec p.entry.schedule_id (append_run codec r.write ledger p.entry).0
                  ≡ ok records)
                ⊎ (read_runs codec p.entry.schedule_id (append_run codec r.write ledger p.entry).0
                    ≡ ok (add_record records p.entry))))
  append-once records ledger r w c (inl h) =
      elim (append_run-whole codec r.write ledger records p.entry w c h) [
        | inl g ↦ inl g
        | inr (e, f, g) ↦ inr (e, f, inl g)
      ]
  append-once records ledger r w c (inr h) =
      elim (append_run-whole codec r.write ledger (add_record records p.entry) p.entry w c h) [
        | inl (f, g) ↦ inl (
          f,
          g
              ∙ ap ok (
                  add_record-seen (add_record records p.entry) p.entry
                    (any-add_record records p.entry)),
        )
        | inr (e, f, g) ↦ inr (e, f, inr g)
      ]

  expire_round-Recorded :
      (records : List ScheduleRunRecord) (from s : Expiry) (r : ExpiryRound)
      → IsWhole r
      → Codes codec p.entry
      → Recorded records from s
      → Recorded records from (expire_round codec p r s)
  unfolding expire_round
  expire_round-Recorded records from s r w c (settled q h g) =
      rw (expire_round, q) (settled refl h g)
  expire_round-Recorded records from s r w c (waiting q d t h) =
      elim (Bool-cases (not s.pending || r.blocked)) [
        | inl e ↦ rw (expire_round, e) (waiting q d t h)
        | inr e ↦ elim (append-once records s.ledger r w c h) [
          | inl (f, g) ↦ rw (expire_round, e, f) (remove_expired-Recorded records from _ r q d t g)
          | inr (_, f, g) ↦ rw (expire_round, e, f) (waiting q d t g)
        ]
      ]

  rounds-Recorded :
      (records : List ScheduleRunRecord) (from : Expiry) (rounds : List ExpiryRound) (s : Expiry)
      → All IsWhole rounds
      → Codes codec p.entry
      → Recorded records from s
      → Recorded records from (expire_rounds codec p rounds s)
  unfolding expire_rounds
  rounds-Recorded records from [] s w c h = h
  rounds-Recorded records from (r ∷ rounds) s (w, ws) c h =
      rounds-Recorded records from rounds _ ws c (expire_round-Recorded records from s r w c h)

  pub expire_rounds-Recorded :
      (records : List ScheduleRunRecord) (from : Expiry) (rounds : List ExpiryRound)
      → All IsWhole rounds
      → Codes codec p.entry
      → from.pending ≡ true
      → read_runs codec p.entry.schedule_id from.ledger ≡ ok records
      → Recorded records from (expire_rounds codec p rounds from)
  expire_rounds-Recorded records from rounds w c q h =
      rounds-Recorded records from rounds from w c (waiting q refl refl (inl h))

  settled-ledger :
      (records : List ScheduleRunRecord) (from s : Expiry)
      → s.pending ≡ false
      → Recorded records from s
      → (s.pending ≡ false)
        × (read_runs codec p.entry.schedule_id s.ledger ≡ ok (add_record records p.entry))
  settled-ledger records from s q (settled _ h g) = (q, h)
  settled-ledger records from s q (waiting u d t h) = absurd (false≢true (sym q ∙ u))

  expire_rounds-snoc :
      (rounds : List ExpiryRound) (r : ExpiryRound) (s : Expiry)
      → expire_rounds codec p (rounds ++ r ∷ []) s
        ≡ expire_round codec p r (expire_rounds codec p rounds s)
  unfolding expire_rounds
  expire_rounds-snoc [] r s = refl
  expire_rounds-snoc (q ∷ rounds) r s = expire_rounds-snoc rounds r (expire_round codec p q s)

  remove_expired-ends :
      (expired : Option ScheduleDefinition) (r : ExpiryRound) (s : Expiry)
      → r.save_ok ≡ true
      → (remove_expired p expired r s).pending ≡ false
  unfolding remove_expired
  remove_expired-ends none r s e = refl
  remove_expired-ends (some def) r s e = rw e refl

  append_run-ends :
      (records : List ScheduleRunRecord) (ledger : Option Text) (w : Write)
      → w ≡ written
      → Codes codec p.entry
      → (read_runs codec p.entry.schedule_id ledger ≡ ok records)
        ⊎ (read_runs codec p.entry.schedule_id ledger ≡ ok (add_record records p.entry))
      → (append_run codec w ledger p.entry).1 ≡ append_ok
  append_run-ends records ledger w e c (inl h) =
      subst (λ v. (append_run codec v ledger p.entry).1 ≡ append_ok) (sym e)
        (read_runs-append_run codec p.entry c ledger records h).0
  append_run-ends records ledger w e c (inr h) =
      subst (λ v. (append_run codec v ledger p.entry).1 ≡ append_ok) (sym e)
        (read_runs-append_run codec p.entry c ledger (add_record records p.entry) h).0

  expire_round-ends :
      (records : List ScheduleRunRecord) (from s : Expiry) (r : ExpiryRound)
      → r.blocked ≡ false
      → r.write ≡ written
      → r.save_ok ≡ true
      → Codes codec p.entry
      → Recorded records from s
      → (expire_round codec p r s).pending ≡ false
  unfolding expire_round
  expire_round-ends records from s r b w k c (settled q h g) = rw (expire_round, q) refl
  expire_round-ends records from s r b w k c (waiting q d t h) =
      rw (expire_round, q, b, append_run-ends records s.ledger r.write w c h)
        (remove_expired-ends (still_expired s.definitions p.expired) r _ k)

  -- After any rounds of which no write is torn, a round that is due and in which the write and the save
  -- succeed ends the record, if the ledger read at first and the codec reads the record back: it is
  -- not pending any more, and the ledger holds it, once, behind what it held.
  pub expire_rounds-ended :
      (records : List ScheduleRunRecord) (from : Expiry) (rounds : List ExpiryRound)
      (r : ExpiryRound)
      → All IsWhole rounds
      → Codes codec p.entry
      → from.pending ≡ true
      → read_runs codec p.entry.schedule_id from.ledger ≡ ok records
      → r.blocked ≡ false
      → r.write ≡ written
      → r.save_ok ≡ true
      → ((expire_rounds codec p (rounds ++ r ∷ []) from).pending ≡ false)
        × (read_runs codec p.entry.schedule_id
              (expire_rounds codec p (rounds ++ r ∷ []) from).ledger
            ≡ ok (add_record records p.entry))
  expire_rounds-ended records from rounds r w c q h b e k =
      let before = expire_rounds-Recorded records from rounds w c q h in
      subst
        (λ s.
          (s.pending ≡ false)
          × (read_runs codec p.entry.schedule_id s.ledger ≡ ok (add_record records p.entry)))
        (sym (expire_rounds-snoc rounds r from))
        (settled-ledger records from _ (expire_round-ends records from _ r b e k c before)
          (expire_round-Recorded records from _ r (inl e) c before))
