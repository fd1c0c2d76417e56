-- ===== src/Memory/Groups.antt =====
-- The groups tile the entries: every index once, in order, and no group is empty.
use ah.Base.{
  ℕ, suc, ◌+◌, ◌-◌, ◌≤◌, ◌≡◌, refl, ap, ◌∙◌, subst, Bool, true, false, ◌&&◌, not, List, [], ◌∷◌,
  ◌++◌, append-nil, arith, leb, if◌then◌else◌, length, length-append, take, take-append, concat,
  concat-append, span, span-append, All, All-append, inl, inr, Bool-cases,
}
use ah.Memory.{
  MemoryEntry, is_empty, starts_new_group, Split, place, walk, finish, split_into_groups,
  compressible_group_indices, sum_lengths,
}

pub sum_lengths-append :
    (xss yss : List (List ℕ)) → sum_lengths (xss ++ yss) ≡ sum_lengths xss + sum_lengths yss
unfolding sum_lengths
sum_lengths-append [] yss = omega arith
sum_lengths-append (xs ∷ xss) yss = omega (arith, sum_lengths-append xss yss)

abbrev pub NonEmpty : List ℕ → Type 0
NonEmpty group = 1 ≤ length group

-- After `i` entries: the closed groups, then the open one, hold the indices below `i`.
pub record Tiles (s : Split) (i : ℕ) : Type 0 where
  pub closed : concat s.groups ≡ span 0 (sum_lengths s.groups)
  pub current : s.current ≡ span (sum_lengths s.groups) (length s.current)
  pub reach : sum_lengths s.groups + length s.current ≡ i
  pub full : All NonEmpty s.groups
  pub begun : length s.current ≡ 0 → sum_lengths s.groups ≡ 0

empty-length : (xs : List ℕ) → is_empty xs ≡ true → length xs ≡ 0
unfolding is_empty
empty-length [] h = refl
empty-length (x ∷ xs) h = cc

not_empty-length : (b : Bool) (xs : List ℕ) → b && not (is_empty xs) ≡ true → NonEmpty xs
unfolding is_empty
not_empty-length b [] h = ground arith
not_empty-length b (x ∷ xs) h = omega arith

closed-snoc :
    (xss : List (List ℕ)) (ys : List ℕ)
    → concat xss ≡ span 0 (sum_lengths xss)
    → ys ≡ span (sum_lengths xss) (length ys)
    → concat (xss ++ ys ∷ []) ≡ span 0 (sum_lengths (xss ++ ys ∷ []))
unfolding sum_lengths
closed-snoc xss ys h k =
    let z : length ys + 0 ≡ length ys = omega arith in
    rw (concat-append xss (ys ∷ []), sum_lengths-append xss (ys ∷ []), append-nil ys, z)
      (ap (λ zs. zs ++ ys) h
        ∙ ap (λ zs. span 0 (sum_lengths xss) ++ zs) k
        ∙ span-append 0 (sum_lengths xss) (length ys) (sum_lengths xss) (omega arith))

snoc-span :
    (xs : List ℕ) (a i : ℕ)
    → xs ≡ span a (length xs)
    → a + length xs ≡ i
    → xs ++ i ∷ [] ≡ span a (length (xs ++ i ∷ []))
snoc-span xs a i h e =
    rw (length-append xs (i ∷ [])) (ap (λ ys. ys ++ i ∷ []) h ∙ span-append a (length xs) 1 i e)

place-Tiles : (s : Split) (i : ℕ) (e : MemoryEntry) → Tiles s i → Tiles (place s i e) (suc i)
unfolding place sum_lengths is_empty
place-Tiles s i e t = elim (Bool-cases (starts_new_group e && not (is_empty s.current))) [
  | inl new ↦
      rw (new, place)
        (record {
          closed = closed-snoc s.groups s.current t.closed t.current;
          current =
              ap (λ n. n ∷ [])
                (omega (arith, sum_lengths-append s.groups (s.current ∷ []), t.reach));
          reach = rw (sum_lengths-append s.groups (s.current ∷ [])) (omega (arith, t.reach));
          full =
              All-append NonEmpty s.groups _ t.full
                (not_empty-length (starts_new_group e) s.current new, tt);
          begun = λ h. absurd (omega arith);
        })
  | inr same ↦
      rw (same, place)
        (record {
          closed = t.closed;
          current = snoc-span s.current (sum_lengths s.groups) i t.current t.reach;
          reach = rw (length-append s.current (i ∷ [])) (omega (arith, t.reach));
          full = t.full;
          begun = λ h. absurd (omega (arith, length-append s.current (i ∷ []), h));
        })
]

walk-Tiles :
    (s : Split) (i j : ℕ) (entries : List MemoryEntry)
    → i + length entries ≡ j
    → Tiles s i
    → Tiles (walk s i entries) j
unfolding walk
walk-Tiles s i j [] e t = let p : i ≡ j = omega arith in subst (Tiles s) p t
walk-Tiles s i j (x ∷ entries) e t =
    walk-Tiles (place s i x) (suc i) j entries (omega arith) (place-Tiles s i x t)

abbrev pub empty_split : Split
empty_split = record { groups = []; current = [] }

-- The loop variables when the loop over the entries is done.
abbrev pub walked : List MemoryEntry → Split
walked = walk empty_split 0

pub walked-Tiles : (entries : List MemoryEntry) → Tiles (walked entries) (length entries)
unfolding sum_lengths
walked-Tiles entries =
    walk-Tiles empty_split 0 (length entries) entries (omega arith)
      (record { closed = refl; current = refl; reach = refl; full = tt; begun = λ h. refl })

finish-Tiles :
    (s : Split) (i : ℕ) → Tiles s i → (concat (finish s) ≡ span 0 i) × All NonEmpty (finish s)
unfolding finish sum_lengths is_empty
finish-Tiles s i t = elim (Bool-cases (is_empty s.current)) [
  | inl e ↦
      rw (e, finish)
        (t.closed ∙ ap (span 0) (omega (arith, t.reach, empty-length s.current e)), t.full)
  | inr e ↦
      rw (e, finish)
        (
          closed-snoc s.groups s.current t.closed t.current
              ∙ ap (span 0) (sum_lengths-append s.groups (s.current ∷ []) ∙ omega (arith, t.reach)),
          All-append NonEmpty s.groups _ t.full (not_empty-length true s.current (rw e refl), tt),
        )
]

-- The groups of any entries hold every index from 0 up to their number once and in order, and no
-- group is empty.
pub concat-split_into_groups :
    (entries : List MemoryEntry)
    → (concat (split_into_groups entries) ≡ span 0 (length entries))
      × All NonEmpty (split_into_groups entries)
unfolding split_into_groups
concat-split_into_groups entries =
    finish-Tiles (walked entries) (length entries) (walked-Tiles entries)

no_groups : (groups : List (List ℕ)) → All NonEmpty groups → sum_lengths groups ≡ 0 → groups ≡ []
unfolding sum_lengths
no_groups [] a h = refl
no_groups (group ∷ groups) a h = absurd (omega (arith, a.0))

-- The groups but the last.
abbrev init : List (List ℕ) → List (List ℕ)
init groups = if leb (length groups) 1 then [] else take (length groups - 1) groups

init-snoc : (groups : List (List ℕ)) (last : List ℕ) → init (groups ++ last ∷ []) ≡ groups
init-snoc [] last = refl
init-snoc (group ∷ groups) last =
    let n = suc (length groups) in
    let e : length ((group ∷ groups) ++ last ∷ []) ≡ n + 1 =
      length-append (group ∷ groups) (last ∷ []) in
    let more : leb (n + 1) 1 ≡ false = ground arith in
    let back : n + 1 - 1 ≡ n = omega arith in
    rw (e, more, back) (take-append (group ∷ groups) (last ∷ []))

init-finish : (s : Split) (i : ℕ) → Tiles s i → init (finish s) ≡ s.groups
unfolding finish
init-finish s i t = elim (Bool-cases (is_empty s.current)) [
  | inr e ↦ rw (e, finish) (init-snoc s.groups s.current)
  | inl e ↦
      rw (e, finish)
        (let none_closed : s.groups ≡ [] =
            no_groups s.groups t.full (t.begun (empty-length s.current e)) in
          rw none_closed refl)
]

-- What can be compressed are the groups that the loop has closed.
pub compressible-walked :
    (entries : List MemoryEntry) → compressible_group_indices entries ≡ (walked entries).groups
unfolding compressible_group_indices split_into_groups
compressible-walked entries = init-finish (walked entries) (length entries) (walked-Tiles entries)
