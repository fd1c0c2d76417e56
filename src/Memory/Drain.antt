-- ===== src/Memory/Drain.antt =====
-- What a compression drains is what it summarises, and what stays is the last group.
use ah.Base.{
  ℕ, zero, suc, ◌+◌, ◌≡◌, ◌⊎◌, refl, sym, ap, ◌∙◌, true, false, List, [], ◌∷◌, ◌++◌, arith,
  if◌then◌else◌, length, length-append, drop, any, inl, inr, Bool-cases, false≢true,
}
use ah.Memory.{
  MemoryEntry, is_empty, starts_new_group, Split, place, walk, sum_lengths, drain_count,
  drain_entries,
}
use ah.Memory.Groups.{sum_lengths-append, empty_split, walked, compressible-walked}

-- The entries from the last one that starts a group on: all of them if none but the first may.
pub last_group : List MemoryEntry → List MemoryEntry
last_group [] = []
last_group (e ∷ entries) = if any starts_new_group entries then last_group entries else e ∷ entries

-- The number of entries in closed groups, from the sizes of the closed and of the open groups.
closed_count : ℕ → ℕ → List MemoryEntry → ℕ
closed_count closed open_size [] = closed
closed_count closed open_size (e ∷ entries) =
    closed_count (if starts_new_group e then closed + open_size else closed)
      (if starts_new_group e then 1 else suc open_size) entries

place-new :
    (s : Split) (i : ℕ) (e : MemoryEntry)
    → starts_new_group e ≡ true
    → is_empty s.current ≡ false
    → place s i e ≡ record { groups = s.groups ++ s.current ∷ []; current = i ∷ [] }
unfolding place
place-new s i e new h = rw (new, h, place) refl

place-same :
    (s : Split) (i : ℕ) (e : MemoryEntry)
    → starts_new_group e ≡ false
    → place s i e ≡ record s { current = s.current ++ i ∷ [] }
unfolding place
place-same s i e same = rw (same, place) refl

snoc-not_empty : (xs : List ℕ) (i : ℕ) → is_empty (xs ++ i ∷ []) ≡ false
unfolding is_empty
snoc-not_empty [] i = refl
snoc-not_empty (x ∷ xs) i = refl

walk-closed_count :
    (s : Split) (i : ℕ) (entries : List MemoryEntry)
    → is_empty s.current ≡ false
    → sum_lengths (walk s i entries).groups
      ≡ closed_count (sum_lengths s.groups) (length s.current) entries
unfolding walk closed_count
walk-closed_count s i [] h = refl
walk-closed_count s i (e ∷ entries) h = elim (Bool-cases (starts_new_group e)) [
  | inl new ↦ rw new (
      ap (λ s'. sum_lengths (walk s' (suc i) entries).groups) (place-new s i e new h)
      ∙ walk-closed_count (record { groups = s.groups ++ s.current ∷ []; current = i ∷ [] }) (suc i)
          entries (unfold is_empty in refl)
      ∙ ap (λ n. closed_count n 1 entries)
          (sum_lengths-append s.groups (s.current ∷ []) ∙ unfold sum_lengths in omega arith))
  | inr same ↦ rw same (
      ap (λ s'. sum_lengths (walk s' (suc i) entries).groups) (place-same s i e same)
      ∙ walk-closed_count (record s { current = s.current ++ i ∷ [] }) (suc i) entries
          (snoc-not_empty s.current i)
      ∙ ap (λ n. closed_count (sum_lengths s.groups) n entries)
          (length-append s.current (i ∷ []) ∙ omega arith))
]

-- Either no entry behind the open group starts one, or the last that does is `k` entries on.
LastStart : ℕ → ℕ → List MemoryEntry → Type 0
LastStart closed open_size entries =
    ((any starts_new_group entries ≡ false) × (closed_count closed open_size entries ≡ closed))
    ⊎ ((k : ℕ) × (any starts_new_group entries ≡ true)
        × (closed_count closed open_size entries ≡ closed + open_size + k)
        × (drop k entries ≡ last_group entries))

LastStart-new :
    (closed open_size : ℕ) (e : MemoryEntry) (entries : List MemoryEntry)
    → starts_new_group e ≡ true
    → LastStart (closed + open_size) 1 entries
    → LastStart closed open_size (e ∷ entries)
unfolding LastStart closed_count last_group
LastStart-new closed open_size e entries new (inl (a, c)) =
    inr (0, rw new refl, rw new (c ∙ omega arith), rw a refl)
LastStart-new closed open_size e entries new (inr (k, a, c, d)) =
    inr (suc k, rw new refl, rw new (c ∙ omega arith), rw a d)

LastStart-same :
    (closed open_size : ℕ) (e : MemoryEntry) (entries : List MemoryEntry)
    → starts_new_group e ≡ false
    → LastStart closed (suc open_size) entries
    → LastStart closed open_size (e ∷ entries)
unfolding LastStart closed_count last_group
LastStart-same closed open_size e entries same (inl (a, c)) = inl (rw same a, rw same c)
LastStart-same closed open_size e entries same (inr (k, a, c, d)) =
    inr (suc k, rw same a, rw same (c ∙ omega arith), rw a d)

LastStart-entries :
    (closed open_size : ℕ) (entries : List MemoryEntry) → LastStart closed open_size entries
unfolding LastStart closed_count
LastStart-entries closed open_size [] = inl (refl, refl)
LastStart-entries closed open_size (e ∷ entries) = elim (Bool-cases (starts_new_group e)) [
  | inl new ↦
      LastStart-new closed open_size e entries new
        (LastStart-entries (closed + open_size) 1 entries)
  | inr same ↦
      LastStart-same closed open_size e entries same
        (LastStart-entries closed (suc open_size) entries)
]

drop-nil : (n : ℕ) → drop {A = MemoryEntry} n [] ≡ []
drop-nil zero = refl
drop-nil (suc n) = refl

pub drain_count-walked :
    (entries : List MemoryEntry) → drain_count entries ≡ sum_lengths (walked entries).groups
unfolding drain_count
drain_count-walked entries = ap sum_lengths (compressible-walked entries)

place-first : (e : MemoryEntry) → place empty_split 0 e ≡ record { groups = []; current = 0 ∷ [] }
unfolding place is_empty
place-first e = ground arith

drain_count-closed_count :
    (e : MemoryEntry) (entries : List MemoryEntry)
    → drain_count (e ∷ entries) ≡ closed_count 0 1 entries
unfolding walk
drain_count-closed_count e entries =
    drain_count-walked (e ∷ entries)
    ∙ ap (λ s. sum_lengths (walk s 1 entries).groups) (place-first e)
    ∙ walk-closed_count (record { groups = []; current = 0 ∷ [] }) 1 entries
        (unfold is_empty in refl)
    ∙ unfold sum_lengths in refl

drop-last_group :
    (e : MemoryEntry) (entries : List MemoryEntry) (n : ℕ)
    → n ≡ closed_count 0 1 entries
    → LastStart 0 1 entries
    → drop n (e ∷ entries) ≡ last_group (e ∷ entries)
unfolding LastStart last_group
drop-last_group e entries n h (inl (a, c)) = rw (h ∙ c, a) refl
drop-last_group e entries n h (inr (k, a, c, d)) =
    let p : n ≡ suc k = omega (arith, h, c) in rw (p, a) d

-- A drain leaves the entries from the last one on that starts a group, and all of them if none but
-- the first may start one.
pub drain_entries-last_group :
    (entries : List MemoryEntry) → drain_entries entries ≡ last_group entries
unfolding drain_entries last_group
drain_entries-last_group [] = drop-nil (drain_count [])
drain_entries-last_group (e ∷ entries) =
    drop-last_group e entries (drain_count (e ∷ entries)) (drain_count-closed_count e entries)
      (LastStart-entries 0 1 entries)

closed_count-none :
    (entries : List MemoryEntry)
    → any starts_new_group entries ≡ false
    → closed_count 0 1 entries ≡ 0
unfolding LastStart
closed_count-none entries h = elim (LastStart-entries 0 1 entries) [
  | inl (a, c) ↦ c
  | inr (k, a, c, d) ↦ absurd (false≢true (sym h ∙ a))
]

last_group-drain_count : (entries : List MemoryEntry) → drain_count (last_group entries) ≡ 0
unfolding last_group
last_group-drain_count [] = drain_count-walked [] ∙ unfold walk sum_lengths in refl
last_group-drain_count (e ∷ entries) = elim (Bool-cases (any starts_new_group entries)) [
  | inl later ↦ rw later (last_group-drain_count entries)
  | inr none_later ↦
      rw none_later (drain_count-closed_count e entries ∙ closed_count-none entries none_later)
]

-- A second drain finds nothing more to remove.
pub drain_count-drain_entries :
    (entries : List MemoryEntry) → drain_count (drain_entries entries) ≡ 0
drain_count-drain_entries entries =
    ap drain_count (drain_entries-last_group entries) ∙ last_group-drain_count entries
