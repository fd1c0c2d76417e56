-- ===== src/ModelChain/Fallback.antt =====
-- The model in use after any fallbacks and resets.
use ah.Base.{
  ℕ, zero, suc, ◌+◌, ◌*◌, ◌<◌, ◌≡◌, refl, ap, ◌∙◌, List, [], ◌∷◌, none, some, leb, length,
  get_elem?, arith, All, ◌≤◌, Option, true, false, if◌then◌else◌, Bool-cases, Option-cases, inl,
  inr, ◌⊎◌,
}
use ah.ModelChain.{
  ModelChainEntry, ModelChainState, new_state, current_entry, step_fallback, add_seconds,
  reset_if_cooldown_expired, Event, falls_back, looks, step, run,
}

-- The index is in the chain, and a fallback model has a cooldown that ends.
record Inv (chain : List ModelChainEntry) (s : ModelChainState) : Type 0 where
  same : s.chain ≡ chain
  inside : s.active_index < length chain
  cooling : s.cooldown_until ≡ none → s.active_index ≡ 0

-- The cooldown of a fallback ends at an instant that an Instant can hold.
unfoldable pub Ends : ℕ → Event → Type 0
Ends latest (falls_back cooldown_secs now) = now + cooldown_secs * 1000000000 ≤ latest
Ends latest (looks now) = Unit

add_seconds_lem :
    (latest now secs : ℕ)
    → now + secs * 1000000000 ≤ latest
    → add_seconds latest now secs ≡ some (now + secs * 1000000000)
unfolding add_seconds
add_seconds_lem latest now secs h = ground (arith, h)

-- A look at a cooldown, by what is set.
reset-known :
    (s : ModelChainState) (now : ℕ) (o : Option ℕ)
    → s.cooldown_until ≡ o
    → reset_if_cooldown_expired s now ≡ elim o [
      | none ↦ (s, false)
      | some until ↦
          if leb until now
          then (record s { active_index = 0; cooldown_until = none }, true)
          else (s, false)
    ]
unfolding reset_if_cooldown_expired
reset-known s now o e =
    ap
      (λ o. elim o [
        | none ↦ (s, false)
        | some until ↦
            if leb until now
            then (record s { active_index = 0; cooldown_until = none }, true)
            else (s, false)
      ])
      e

reset-due :
    (s : ModelChainState) (now until : ℕ)
    → s.cooldown_until ≡ some until
    → leb until now ≡ true
    → reset_if_cooldown_expired s now ≡ (record s { active_index = 0; cooldown_until = none }, true)
reset-due s now until e p = reset-known s now (some until) e ∙ rw p refl

reset-early :
    (s : ModelChainState) (now until : ℕ)
    → s.cooldown_until ≡ some until
    → leb until now ≡ false
    → reset_if_cooldown_expired s now ≡ (s, false)
reset-early s now until e p = reset-known s now (some until) e ∙ rw p refl

step-Inv :
    (latest : ℕ) (chain : List ModelChainEntry) (s : ModelChainState) (e : Event)
    → Ends latest e
    → Inv chain s
    → (s' : ModelChainState) × (step latest s e ≡ some s') × Inv chain s'
unfolding step step_fallback reset_if_cooldown_expired Ends
step-Inv latest chain s (falls_back cooldown_secs now) h v =
    elim (Bool-cases (leb (length s.chain) (s.active_index + 1))) [
      | inl e ↦ (s, rw (step, step_fallback, e) refl, v)
      | inr e ↦ (
        record s {
          active_index = s.active_index + 1;
          cooldown_until = some (now + cooldown_secs * 1000000000);
        },
        rw (step, step_fallback, e, add_seconds_lem latest now cooldown_secs h) refl,
        record {
          same = v.same;
          inside = ground (arith, e, ap length v.same);
          cooling = λ c. ground (arith, c);
        },
      )
    ]
step-Inv latest chain s (looks now) h v = elim (Option-cases s.cooldown_until) [
  | inl e ↦ (s, ap (λ r. some r.0) (reset-known s now none e), v)
  | inr (until, e) ↦ elim (Bool-cases (leb until now)) [
    | inl p ↦ (
      record s { active_index = 0; cooldown_until = none },
      ap (λ r. some r.0) (reset-due s now until e p),
      record { same = v.same; inside = omega (arith, v.inside); cooling = λ c. refl },
    )
    | inr p ↦ (s, ap (λ r. some r.0) (reset-early s now until e p), v)
  ]
]

run-Inv :
    (latest : ℕ) (chain : List ModelChainEntry) (s : ModelChainState) (events : List Event)
    → All (Ends latest) events
    → Inv chain s
    → (s' : ModelChainState) × (run latest s events ≡ some s') × Inv chain s'
unfolding run
run-Inv latest chain s [] h v = (s, refl, v)
run-Inv latest chain s (e ∷ events) (h, hs) v =
    let (s', p, w) = step-Inv latest chain s e h v in
    let (t, q, x) = run-Inv latest chain s' events hs w in (t, rw (run, p) q, x)

get_elem?_inside {ℓ} :
    {A : Type ℓ} (xs : List A) (i : ℕ) → i < length xs → (x : A) × (get_elem? xs i ≡ some x)
get_elem?_inside [] i h = ground (arith, h)
get_elem?_inside (x ∷ xs) zero h = (x, refl)
get_elem?_inside (x ∷ xs) (suc i) h = get_elem?_inside xs i (omega (arith, h))

-- The first model is in use, or there is a cooldown after which it will be again.
abbrev pub IsCooling : ModelChainState → Type 0
IsCooling s = (s.active_index ≡ 0) ⊎ ((until : ℕ) × (s.cooldown_until ≡ some until))

-- With a chain that is not empty, whatever fallbacks and resets follow, if every cooldown that a
-- fallback sets ends at an instant that an Instant can hold: the code does not panic, and then there
-- is a model in use, which is the first of the chain unless a cooldown is set.
pub current_entry-run :
    (latest : ℕ) (chain : List ModelChainEntry) (default_cooldown_secs : ℕ) (events : List Event)
    → 0 < length chain
    → All (Ends latest) events
    → (s : ModelChainState) × (run latest (new_state chain default_cooldown_secs) events ≡ some s)
      × ((entry : ModelChainEntry) × (current_entry s ≡ some entry))
      × IsCooling s
unfolding current_entry new_state
current_entry-run latest chain secs events h ends =
    let (s, p, v) =
      run-Inv latest chain (new_state chain secs) events ends
        (record { same = refl; inside = h; cooling = λ c. refl }) in
    (
      s,
      p,
      get_elem?_inside s.chain s.active_index (omega (arith, v.inside, ap length v.same)),
      elim (Option-cases s.cooldown_until) [ inl e ↦ inl (v.cooling e) | inr u ↦ inr u ],
    )
