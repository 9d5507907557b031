-- ===== src/Trainer/Sparing.antt =====
-- lora-training/checkpoints.py: what `prune` leaves alone.
use local_ai_server.Prelude.{
  Bool, Bool-cases, List, Option-cases, String, [], ap, arith, contains, contains-append, drop,
  false, if◌then◌else◌, inl, inr, keep_if, length, none, not, number_Eq, refl, some, suc, take,
  text_Eq, true, zero, ℕ, ◌++◌, ◌+◌, ◌-◌, ◌<◌, ◌==◌, ◌∙◌, ◌∷◌, ◌≡◌, ◌≤◌, ◌⊎◌,
}
use local_ai_server.Trainer.Checkpoints.{
  Checkpoint, Entry, all_checkpoints, complete_ones, finished, names, place, prune, step_of,
  superseded,
}
use local_ai_server.Trainer.Ranks.{Holds, complete_from, oldest-from}
use local_ai_server.Trainer.Pruning.{
  Holds-split, InDir, all_checkpoints-Holds, complete_ones-Holds, is_checkpoint, kept_by,
}

-- How many entries of a directory have a name.
unfoldable pub count_in : String → List Entry → ℕ
count_in t [] = 0
count_in t (x ∷ xs) = (if x.name == t then 1 else 0) + count_in t xs

unfoldable count_of : String → List Checkpoint → ℕ
count_of t [] = 0
count_of t (c ∷ cs) = (if c.entry.name == t then 1 else 0) + count_of t cs

count_of-place :
    (t : String) (a : Checkpoint) (cs : List Checkpoint)
    → count_of t (place a cs) ≡ (if a.entry.name == t then 1 else 0) + count_of t cs
unfolding count_of place
count_of-place t a [] = refl
count_of-place t a (c ∷ cs) = ground (arith, count_of-place t a cs)

count_of-all_checkpoints-le :
    (t : String) (dir : List Entry) → count_of t (all_checkpoints dir) ≤ count_in t dir
unfolding count_of count_in all_checkpoints
count_of-all_checkpoints-le t [] = omega arith
count_of-all_checkpoints-le t (x ∷ xs) = elim (Option-cases (step_of x.name)) [
  | inl e ↦ rw (e, all_checkpoints) (ground (arith, count_of-all_checkpoints-le t xs))
  | inr (n, e) ↦
      rw (e, all_checkpoints)
        (ground (
          arith,
          count_of-all_checkpoints-le t xs,
          count_of-place t (record { step = n; entry = x }) (all_checkpoints xs),
        ))
]

-- An entry that is no checkpoint takes its name's only place.
other_entry-lt :
    (e : Entry) (dir : List Entry)
    → InDir e dir
    → is_checkpoint e ≡ false
    → count_of e.name (all_checkpoints dir) < count_in e.name dir
unfolding count_of count_in all_checkpoints
other_entry-lt e [] m k = absurd m
other_entry-lt e (x ∷ xs) (inl is) k = elim (Option-cases (step_of x.name)) [
  | inl s ↦
      rw (s, all_checkpoints)
        (ground (arith, count_of-all_checkpoints-le e.name xs, text_Eq.test_iff x.name e.name))
  | inr (n, s) ↦
      rw (s, all_checkpoints)
        (ground (arith, count_of-all_checkpoints-le e.name xs, text_Eq.test_iff x.name e.name))
]
other_entry-lt e (x ∷ xs) (inr rest) k = elim (Option-cases (step_of x.name)) [
  | inl s ↦ rw (s, all_checkpoints) (ground (arith, other_entry-lt e xs rest k))
  | inr (n, s) ↦
      rw (s, all_checkpoints)
        (ground (
          arith,
          other_entry-lt e xs rest k,
          count_of-place e.name (record { step = n; entry = x }) (all_checkpoints xs),
        ))
]

count_of-keep_if :
    (t : String) (p : Checkpoint → Bool) (cs : List Checkpoint)
    → count_of t (keep_if p cs) + count_of t (keep_if (λ c. not (p c)) cs) ≡ count_of t cs
unfolding count_of keep_if
count_of-keep_if t p [] = refl
count_of-keep_if t p (c ∷ cs) = ground (arith, count_of-keep_if t p cs)

count_of-take-drop :
    (t : String) (k : ℕ) (cs : List Checkpoint)
    → count_of t (take k cs) + count_of t (drop k cs) ≡ count_of t cs
unfolding count_of
count_of-take-drop t zero cs = omega arith
count_of-take-drop t (suc k) [] = refl
count_of-take-drop t (suc k) (c ∷ cs) = omega (arith, count_of-take-drop t k cs)

Holds-count_of : (e : Entry) (cs : List Checkpoint) → Holds e cs → 1 ≤ count_of e.name cs
unfolding count_of
Holds-count_of e [] h = absurd h
Holds-count_of e (c ∷ cs) (inl is) = ground (arith, text_Eq.test_iff c.entry.name e.name)
Holds-count_of e (c ∷ cs) (inr rest) = omega (arith, Holds-count_of e cs rest)

absent-names :
    (t : String) (cs : List Checkpoint) → count_of t cs ≡ 0 → contains (names cs) t ≡ false
unfolding count_of contains
absent-names t [] h = refl
absent-names t (c ∷ cs) h = ground (arith, absent-names t cs)

InDir-keep :
    (e : Entry) (p : Entry → Bool) (dir : List Entry)
    → p e ≡ true
    → InDir e dir
    → InDir e (keep_if p dir)
unfolding keep_if
InDir-keep e p [] k m = m
InDir-keep e p (x ∷ xs) k (inl is) = rw (ap p is ∙ k) (inl is)
InDir-keep e p (x ∷ xs) k (inr rest) = elim (Bool-cases (p x)) [
  | inl q ↦ rw q (inr (InDir-keep e p xs k rest))
  | inr q ↦ rw q (InDir-keep e p xs k rest)
]

-- A complete checkpoint with few from its step on is one of the newest.
is_newest :
    (keep : ℕ) (dir : List Entry) (e : Entry) (n : ℕ)
    → InDir e dir
    → e.is_dir ≡ true
    → e.is_complete ≡ true
    → step_of e.name ≡ some n
    → complete_from n dir ≤ keep
    → Holds e (drop (length (complete_ones dir) - keep) (complete_ones dir))
is_newest keep dir e n m is_directory complete named few =
    let here = all_checkpoints-Holds e dir m (rw (named, is_checkpoint) is_directory) in
    let k = length (complete_ones dir) - keep in
    elim (Holds-split e k (complete_ones dir) (complete_ones-Holds dir e here complete)) [
      | inl old ↦ absurd (omega (arith, oldest-from e n named keep dir old))
      | inr new ↦ new
    ]

spares :
    (keep : ℕ) (dir : List Entry) (e : Entry)
    → InDir e dir
    → count_in e.name dir ≤ 1
    → (is_checkpoint e ≡ false)
      ⊎ Holds e (drop (length (complete_ones dir) - keep) (complete_ones dir))
    → InDir e (kept_by keep dir)
unfolding prune superseded complete_ones
spares keep dir e m once why =
    let all = all_checkpoints dir in
    let complete = keep_if finished all in
    let partial = keep_if (λ c. not (finished c)) all in
    let n = length complete - keep in
    let parts = count_of-keep_if e.name finished all in
    let halves = count_of-take-drop e.name n complete in
    let bound = count_of-all_checkpoints-le e.name dir in
    let (no_partial, no_old) : (count_of e.name partial ≡ 0)
        × (count_of e.name (take n complete) ≡ 0) =
      elim why [
        | inl other ↦
            let less = other_entry-lt e dir m other in
            (omega (arith, parts, less), omega (arith, parts, halves, less))
        | inr newest ↦
            let some_new = Holds-count_of e (drop n complete) newest in
            (
              omega (arith, parts, halves, bound, some_new),
              omega (arith, parts, halves, bound, some_new),
            )
      ] in
    InDir-keep e (λ x. not (contains (names partial ++ names (take n complete)) x.name)) dir
      (ground (
        arith,
        contains-append (names partial) (names (take n complete)) e.name,
        absent-names e.name partial no_partial,
        absent-names e.name (take n complete) no_old,
      ))
      m

-- `prune` leaves every entry whose name no other entry has, and that is not a directory with a
-- checkpoint's name, or is complete where at most `keep` complete checkpoint directories, itself
-- among them, have its step or a later one.
pub prune_spares :
    (keep : ℕ) (dir : List Entry) (e : Entry)
    → InDir e dir
    → count_in e.name dir ≤ 1
    → ((e.is_dir ≡ false) ⊎ (step_of e.name ≡ none))
      ⊎ ((e.is_complete ≡ true)
          × (n : ℕ) × (step_of e.name ≡ some n)
          × (complete_from n dir ≤ keep))
    → InDir e (kept_by keep dir)
prune_spares keep dir e m once (inl (inl file)) = spares keep dir e m once (inl (no_directory file))
  where
    no_directory : e.is_dir ≡ false → is_checkpoint e ≡ false
    no_directory file = elim (Option-cases (step_of e.name)) [
      | inl s ↦ rw (s, is_checkpoint) refl
      | inr (n, s) ↦ rw (s, is_checkpoint) file
    ]
prune_spares keep dir e m once (inl (inr unnamed)) =
    spares keep dir e m once (inl (rw (unnamed, is_checkpoint) refl))
prune_spares keep dir e m once (inr (complete, n, named, few)) = elim (Bool-cases e.is_dir) [
  | inl d ↦ spares keep dir e m once (inr (is_newest keep dir e n m d complete named few))
  | inr d ↦ spares keep dir e m once (inl (rw (named, is_checkpoint) d))
]
