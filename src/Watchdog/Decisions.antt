-- ===== src/Watchdog/Decisions.antt =====
-- Which decisions of the watchdog are acted on.
use ah.Base.{
  ◌≡◌, refl, sym, ap, ◌∙◌, false, ◌&&◌, List, [], ◌∷◌, Option, none, some, Text, Bool-cases,
  Option-cases, inl, inr, ◌⊎◌, false≢true,
}
use ah.Watchdog.{
  WatchdogSubjectKind, WatchdogDecision, is_allowed, filter_guidance, find_subject, needs_guidance,
  is_none, keep_decision, filter_decisions,
}
use ah.Watchdog.Actions.{
  IsFirst, Suits, Cleans, Guides, find_subject-IsFirst, IsFirst-find_subject, is_allowed-Suits,
  Suits-is_allowed, filter_guidance-Cleans, Cleans-filter_guidance, needs-Guides, Guides-needs,
}

-- The decision is acted on with this guidance.
pub record IsActionable (subjects : List (Text × WatchdogSubjectKind)) (d : WatchdogDecision)
    (g : Option Text) : Type 0 where
  pub kind : WatchdogSubjectKind
  pub first : IsFirst subjects d.subject_id kind
  pub suits : Suits kind d.action
  pub cleans : Cleans d.guidance g
  pub guides : Guides d.action g

-- The second list holds the decisions of the first one that can be acted on, in their order, each
-- with its guidance but otherwise as it is.
pub data IsSifted (subjects : List (Text × WatchdogSubjectKind))
    : List WatchdogDecision → List WatchdogDecision → Type 0 where
  all_sifted : IsSifted subjects [] []
  acted_on :
      {d : WatchdogDecision} {ds es : List WatchdogDecision} {g : Option Text}
      → IsActionable subjects d g
      → IsSifted subjects ds es
      → IsSifted subjects (d ∷ ds) (record d { guidance = g } ∷ es)
  passed_over :
      {d : WatchdogDecision} {ds es : List WatchdogDecision}
      → ¬ ((g : Option Text) × IsActionable subjects d g)
      → IsSifted subjects ds es
      → IsSifted subjects (d ∷ ds) es

keep_decision-IsActionable :
    (subjects : List (Text × WatchdogSubjectKind)) (d : WatchdogDecision)
    → (keep_decision subjects d ≡ none)
      ⊎ ((g : Option Text) × (keep_decision subjects d ≡ some (record d { guidance = g }))
          × IsActionable subjects d g)
unfolding keep_decision
keep_decision-IsActionable subjects d = elim (Option-cases (find_subject d.subject_id subjects)) [
  | inl e ↦ inl (rw (keep_decision, e) refl)
  | inr (kind, e) ↦ elim (Bool-cases (is_allowed kind d.action)) [
    | inr a ↦ inl (rw (keep_decision, e, a) refl)
    | inl a ↦ elim (Bool-cases (needs_guidance d.action && is_none (filter_guidance d.guidance))) [
      | inl g ↦ inl (rw (keep_decision, e, a, g) refl)
      | inr g ↦ inr (
        filter_guidance d.guidance,
        rw (keep_decision, e, a, g) refl,
        record {
          kind = kind;
          first = find_subject-IsFirst d.subject_id subjects kind e;
          suits = is_allowed-Suits kind d.action a;
          cleans = filter_guidance-Cleans d.guidance;
          guides = needs-Guides d.action (filter_guidance d.guidance) g;
        },
      )
    ]
  ]
]

IsActionable-keep_decision :
    (subjects : List (Text × WatchdogSubjectKind)) (d : WatchdogDecision) (g : Option Text)
    → IsActionable subjects d g
    → keep_decision subjects d ≡ some (record d { guidance = g })
unfolding keep_decision
IsActionable-keep_decision subjects d g a =
    let clean = Cleans-filter_guidance a.cleans in
    let guides : (needs_guidance d.action && is_none (filter_guidance d.guidance)) ≡ false =
      ap (λ h. needs_guidance d.action && is_none h) clean ∙ Guides-needs d.action g a.guides in
    rw
      (
        keep_decision,
        IsFirst-find_subject a.first,
        Suits-is_allowed a.kind d.action a.suits,
        guides,
      )
      (ap (λ h. some (record d { guidance = h })) clean)

-- The decisions that are acted on are exactly those that are about a subject of the review, the first
-- with their id, with an action that suits its kind and guidance that is not blank where the action
-- needs it; in their order, each as it is but for guidance that is blank, which is dropped.
pub filter_decisions-IsSifted :
    (subjects : List (Text × WatchdogSubjectKind)) (decisions : List WatchdogDecision)
    → IsSifted subjects decisions (filter_decisions subjects decisions)
unfolding filter_decisions is_none
filter_decisions-IsSifted subjects [] = all_sifted
filter_decisions-IsSifted subjects (d ∷ decisions) =
    let rest = filter_decisions-IsSifted subjects decisions in
    elim (keep_decision-IsActionable subjects d) [
      | inl e ↦
          rw (filter_decisions, e)
            (passed_over
              (λ (g, a).
                false≢true
                  (sym (ap is_none (IsActionable-keep_decision subjects d g a)) ∙ ap is_none e))
              rest)
      | inr (g, e, a) ↦ rw (filter_decisions, e) (acted_on a rest)
    ]
