-- ===== src/Watchdog/Actions.antt =====
-- What a decision of the watchdog has to be about, and what it may ask for.
use ah.Base.{
  ◌≡◌, refl, sym, ap, ◌∙◌, true, false, ◌&&◌, List, [], ◌∷◌, Option, none, some, Text, text_eq,
  text_eq→eq, text_eq_refl, Bool-cases, inl, inr, false≢true, subst,
}
use ah.Watchdog.Blanks.{IsSpaces, is_blank-IsSpaces}
use ah.Watchdog.{
  WatchdogSubjectKind, tool_call, sub_task, WatchdogAction, continue, adjust, finalize, cancel,
  retry, notify_owner, is_allowed, is_blank, filter_guidance, find_subject, needs_guidance, is_none,
}

-- The first subject with this id is of this kind.
pub data IsFirst : List (Text × WatchdogSubjectKind) → Text → WatchdogSubjectKind → Type 0 where
  listed_here :
      {subjects : List (Text × WatchdogSubjectKind)} {id : Text} {kind : WatchdogSubjectKind}
      → IsFirst ((id, kind) ∷ subjects) id kind
  listed_later :
      {subjects : List (Text × WatchdogSubjectKind)} {other id : Text}
      {first kind : WatchdogSubjectKind}
      → ¬ (other ≡ id)
      → IsFirst subjects id kind
      → IsFirst ((other, first) ∷ subjects) id kind

-- Every subject can be watched on, stopped or told of; only a call can be made again, and only a
-- sub-task can be advised or told to finish.
pub data Suits : WatchdogSubjectKind → WatchdogAction → Type 0 where
  watched_on : {kind : WatchdogSubjectKind} → Suits kind continue
  stopped : {kind : WatchdogSubjectKind} → Suits kind cancel
  told_of : {kind : WatchdogSubjectKind} → Suits kind notify_owner
  made_again : {name : Text} → Suits (tool_call name) retry
  advised : {name : Text} → Suits (sub_task name) adjust
  wound_up : {name : Text} → Suits (sub_task name) finalize

-- Guidance of white space counts as none.
pub data Cleans : Option Text → Option Text → Type 0 where
  no_guidance : Cleans none none
  only_spaces : {g : Text} → IsSpaces g → Cleans (some g) none
  says : {g : Text} → ¬ IsSpaces g → Cleans (some g) (some g)

-- Advice and a notice need guidance, the other actions do not.
pub data Guides : WatchdogAction → Option Text → Type 0 where
  guided : {action : WatchdogAction} {g : Text} → Guides action (some g)
  to_continue : Guides continue none
  to_finalize : Guides finalize none
  to_cancel : Guides cancel none
  to_retry : Guides retry none

text_eq-false : (s t : Text) → text_eq s t ≡ false → ¬ (s ≡ t)
text_eq-false s t h e = false≢true (sym h ∙ ap (λ u. text_eq u t) e ∙ text_eq_refl t)

false-text_eq : (s t : Text) → ¬ (s ≡ t) → text_eq s t ≡ false
false-text_eq s t n = elim (Bool-cases (text_eq s t)) [
  | inl e ↦ absurd (n (text_eq→eq s t e))
  | inr e ↦ e
]

pub find_subject-IsFirst :
    (id : Text) (subjects : List (Text × WatchdogSubjectKind)) (kind : WatchdogSubjectKind)
    → find_subject id subjects ≡ some kind
    → IsFirst subjects id kind
unfolding find_subject is_none
find_subject-IsFirst id [] kind h = absurd (false≢true (sym (ap is_none h)))
find_subject-IsFirst id ((other, first) ∷ subjects) kind h = elim (Bool-cases (text_eq other id)) [
  | inl e ↦
      let found : some first ≡ some kind = rw e at h in
      subst (λ i. IsFirst ((other, first) ∷ subjects) i kind) (text_eq→eq other id e)
        (subst (λ k. IsFirst ((other, first) ∷ subjects) other k)
          (ap (λ o. elim o [ none ↦ first | some k ↦ k ]) found) listed_here)
  | inr e ↦
      listed_later (text_eq-false other id e) (find_subject-IsFirst id subjects kind (rw e at h))
]

pub IsFirst-find_subject :
    {subjects : List (Text × WatchdogSubjectKind)} {id : Text} {kind : WatchdogSubjectKind}
    → IsFirst subjects id kind
    → find_subject id subjects ≡ some kind
unfolding find_subject
IsFirst-find_subject {id} listed_here = rw (text_eq_refl id) refl
IsFirst-find_subject {id} (listed_later {other} n f) =
    rw (false-text_eq other id n) (IsFirst-find_subject f)

pub is_allowed-Suits :
    (kind : WatchdogSubjectKind) (action : WatchdogAction)
    → is_allowed kind action ≡ true
    → Suits kind action
unfolding is_allowed
is_allowed-Suits kind continue h = watched_on
is_allowed-Suits kind cancel h = stopped
is_allowed-Suits kind notify_owner h = told_of
is_allowed-Suits (tool_call name) retry h = made_again
is_allowed-Suits (tool_call name) adjust h = absurd (false≢true h)
is_allowed-Suits (tool_call name) finalize h = absurd (false≢true h)
is_allowed-Suits (sub_task name) adjust h = advised
is_allowed-Suits (sub_task name) finalize h = wound_up
is_allowed-Suits (sub_task name) retry h = absurd (false≢true h)

pub Suits-is_allowed :
    (kind : WatchdogSubjectKind) (action : WatchdogAction)
    → Suits kind action
    → is_allowed kind action ≡ true
unfolding is_allowed
Suits-is_allowed (tool_call name) action watched_on = refl
Suits-is_allowed (sub_task name) action watched_on = refl
Suits-is_allowed (tool_call name) action stopped = refl
Suits-is_allowed (sub_task name) action stopped = refl
Suits-is_allowed (tool_call name) action told_of = refl
Suits-is_allowed (sub_task name) action told_of = refl
Suits-is_allowed kind action made_again = refl
Suits-is_allowed kind action advised = refl
Suits-is_allowed kind action wound_up = refl

pub filter_guidance-Cleans : (g : Option Text) → Cleans g (filter_guidance g)
unfolding filter_guidance
filter_guidance-Cleans none = no_guidance
filter_guidance-Cleans (some g) = elim (Bool-cases (is_blank g)) [
  | inl e ↦ rw e (only_spaces ((is_blank-IsSpaces g).0 e))
  | inr e ↦ rw e (says (λ s. false≢true (sym e ∙ (is_blank-IsSpaces g).1 s)))
]

not_blank : (g : Text) → ¬ IsSpaces g → is_blank g ≡ false
not_blank g n = elim (Bool-cases (is_blank g)) [
  | inl e ↦ absurd (n ((is_blank-IsSpaces g).0 e))
  | inr e ↦ e
]

pub Cleans-filter_guidance : {g h : Option Text} → Cleans g h → filter_guidance g ≡ h
unfolding filter_guidance
Cleans-filter_guidance no_guidance = refl
Cleans-filter_guidance (only_spaces {g} s) = rw ((is_blank-IsSpaces g).1 s) refl
Cleans-filter_guidance (says {g} n) = rw (not_blank g n) refl

pub needs-Guides :
    (action : WatchdogAction) (g : Option Text)
    → (needs_guidance action && is_none g) ≡ false
    → Guides action g
unfolding needs_guidance is_none
needs-Guides action (some g) h = guided
needs-Guides continue none h = to_continue
needs-Guides finalize none h = to_finalize
needs-Guides cancel none h = to_cancel
needs-Guides retry none h = to_retry
needs-Guides adjust none h = absurd (false≢true (sym h))
needs-Guides notify_owner none h = absurd (false≢true (sym h))

pub Guides-needs :
    (action : WatchdogAction) (g : Option Text)
    → Guides action g
    → (needs_guidance action && is_none g) ≡ false
unfolding needs_guidance is_none
Guides-needs continue g guided = refl
Guides-needs finalize g guided = refl
Guides-needs cancel g guided = refl
Guides-needs retry g guided = refl
Guides-needs adjust g guided = refl
Guides-needs notify_owner g guided = refl
Guides-needs action g to_continue = refl
Guides-needs action g to_finalize = refl
Guides-needs action g to_cancel = refl
Guides-needs action g to_retry = refl
