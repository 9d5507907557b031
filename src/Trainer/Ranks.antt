-- ===== src/Trainer/Ranks.antt =====
-- lora-training/checkpoints.py: the place of a checkpoint among the complete ones, told by the
-- number of complete checkpoint directories with at least its step.
use local_ai_server.Prelude.{
  All, All-keep_if_of, Bool, Bool-cases, List, Option-cases, [], ap, arith, drop, false,
  if◌then◌else◌, inl, inr, keep_if, leb, length, list_Eq, none, number_Eq, refl, some, subst, suc,
  sym, take, text_Eq, true, zero, ℕ, ◌&&◌, ◌+◌, ◌-◌, ◌<◌, ◌∙◌, ◌∷◌, ◌≡◌, ◌≤◌, ◌⊎◌,
}
use local_ai_server.Trainer.Checkpoints.{
  Checkpoint, Entry, all_checkpoints, complete_ones, finished, not_newer, place, step_of,
}
use local_ai_server.Trainer.Newest.{Ascends, all_checkpoints-Ascends, keep_if-Ascends}

-- An entry is the entry of some element of the list.
abbrev pub Holds : Entry → List Checkpoint → Type 0
Holds e [] = ⊥
Holds e (c ∷ cs) = (c.entry ≡ e) ⊎ Holds e cs

-- Is an entry a complete checkpoint directory of step n or a later one?
abbrev pub is_complete_from : ℕ → Entry → Bool
is_complete_from n e = elim (step_of e.name) [
  | none ↦ false
  | some m ↦ e.is_dir && e.is_complete && leb n m
]

-- The number of complete checkpoint directories of step n or a later one.
unfoldable pub complete_from : ℕ → List Entry → ℕ
unfolding step_of
complete_from n [] = 0
complete_from n (x ∷ xs) = (if is_complete_from n x then 1 else 0) + complete_from n xs

unfoldable finished_from : ℕ → List Checkpoint → ℕ
finished_from n [] = 0
finished_from n (c ∷ cs) = (if finished c && leb n c.step then 1 else 0) + finished_from n cs

unfoldable steps_from : ℕ → List Checkpoint → ℕ
steps_from n [] = 0
steps_from n (c ∷ cs) = (if leb n c.step then 1 else 0) + steps_from n cs

finished_from-place :
    (n : ℕ) (a : Checkpoint) (cs : List Checkpoint)
    → finished_from n (place a cs)
      ≡ (if finished a && leb n a.step then 1 else 0) + finished_from n cs
unfolding finished_from place
finished_from-place n a [] = refl
finished_from-place n a (c ∷ cs) = ground (arith, finished_from-place n a cs)

finished_from-all_checkpoints :
    (n : ℕ) (dir : List Entry) → finished_from n (all_checkpoints dir) ≡ complete_from n dir
unfolding finished_from complete_from all_checkpoints
finished_from-all_checkpoints n [] = refl
finished_from-all_checkpoints n (x ∷ xs) = elim (Option-cases (step_of x.name)) [
  | inl e ↦
      rw (e, all_checkpoints, complete_from, is_complete_from)
        (omega (arith, finished_from-all_checkpoints n xs))
  | inr (m, e) ↦
      rw (e, all_checkpoints, complete_from, is_complete_from)
        (ground (
          arith,
          finished_from-all_checkpoints n xs,
          finished_from-place n (record { step = m; entry = x }) (all_checkpoints xs),
        ))
]

steps_from-keep_if :
    (n : ℕ) (cs : List Checkpoint) → steps_from n (keep_if finished cs) ≡ finished_from n cs
unfolding steps_from finished_from keep_if
steps_from-keep_if n [] = refl
steps_from-keep_if n (c ∷ cs) = ground (arith, steps_from-keep_if n cs)

steps_from-complete_ones :
    (n : ℕ) (dir : List Entry) → steps_from n (complete_ones dir) ≡ complete_from n dir
unfolding complete_ones
steps_from-complete_ones n dir =
    steps_from-keep_if n (all_checkpoints dir) ∙ finished_from-all_checkpoints n dir

-- The step of a checkpoint is the one in its name.
abbrev pub HasSteps : List Checkpoint → Type 0
HasSteps cs = All (λ c. step_of c.entry.name ≡ some c.step) cs

place-HasSteps :
    (a : Checkpoint) (cs : List Checkpoint)
    → step_of a.entry.name ≡ some a.step
    → HasSteps cs
    → HasSteps (place a cs)
unfolding place
place-HasSteps a [] h all = (h, tt)
place-HasSteps a (c ∷ cs) h all = elim (Bool-cases (not_newer a c)) [
  | inl e ↦ rw e (h, all)
  | inr e ↦ rw e (all.0, place-HasSteps a cs h all.1)
]

place_if-HasSteps :
    (b : Bool) (a : Checkpoint) (cs : List Checkpoint)
    → step_of a.entry.name ≡ some a.step
    → HasSteps cs
    → HasSteps (if b then place a cs else cs)
place_if-HasSteps true a cs h all = place-HasSteps a cs h all
place_if-HasSteps false a cs h all = all

all_checkpoints-HasSteps : (dir : List Entry) → HasSteps (all_checkpoints dir)
unfolding all_checkpoints
all_checkpoints-HasSteps [] = tt
all_checkpoints-HasSteps (x ∷ xs) = elim (Option-cases (step_of x.name)) [
  | inl e ↦ rw (e, all_checkpoints) (all_checkpoints-HasSteps xs)
  | inr (m, e) ↦
      rw (e, all_checkpoints)
        (place_if-HasSteps x.is_dir (record { step = m; entry = x }) (all_checkpoints xs) e
          (all_checkpoints-HasSteps xs))
]

complete_ones-HasSteps : (dir : List Entry) → HasSteps (complete_ones dir)
unfolding complete_ones
complete_ones-HasSteps dir =
    All-keep_if_of (λ c. step_of c.entry.name ≡ some c.step) finished (all_checkpoints dir)
      (all_checkpoints-HasSteps dir)

complete_ones-Ascends : (dir : List Entry) → Ascends (complete_ones dir)
unfolding complete_ones
complete_ones-Ascends dir =
    keep_if-Ascends finished (all_checkpoints dir) (all_checkpoints-Ascends dir)

steps_from-le : (n : ℕ) (cs : List Checkpoint) → steps_from n cs ≤ length cs
unfolding steps_from
steps_from-le n [] = omega arith
steps_from-le n (c ∷ cs) = ground (arith, steps_from-le n cs)

steps_from-All :
    (n : ℕ) (cs : List Checkpoint) → All (λ d. n ≤ d.step) cs → steps_from n cs ≡ length cs
unfolding steps_from
steps_from-All n [] all = refl
steps_from-All n (c ∷ cs) all = ground (arith, steps_from-All n cs all.1)

module _ (e : Entry) (n : ℕ) (named : step_of e.name ≡ some n) where
  its_step : (c : Checkpoint) → step_of c.entry.name ≡ some c.step → c.entry ≡ e → c.step ≡ n
  its_step c s is = ground (arith, sym s ∙ ap (λ x. step_of x.name) is ∙ named)

  Holds-le :
      (m : ℕ) (cs : List Checkpoint) → HasSteps cs → All (λ d. m ≤ d.step) cs → Holds e cs → m ≤ n
  Holds-le m [] s all h = absurd h
  Holds-le m (c ∷ cs) s all (inl is) = omega (arith, its_step c s.0 is, all.0)
  Holds-le m (c ∷ cs) s all (inr rest) = Holds-le m cs s.1 all.1 rest

  Holds-drop : (k : ℕ) (cs : List Checkpoint) → Holds e (drop k cs) → Holds e cs
  Holds-drop zero cs h = h
  Holds-drop (suc k) [] h = absurd h
  Holds-drop (suc k) (c ∷ cs) h = inr (Holds-drop k cs h)

  not_all_later :
      (cs : List Checkpoint) → HasSteps cs → Holds e cs → steps_from (n + 1) cs < length cs
  unfolding steps_from
  not_all_later [] s h = absurd h
  not_all_later (c ∷ cs) s (inl is) = ground (arith, its_step c s.0 is, steps_from-le (n + 1) cs)
  not_all_later (c ∷ cs) s (inr rest) = ground (arith, not_all_later cs s.1 rest)

  -- Behind the first k there are few later ones.
  later-drop :
      (k : ℕ) (cs : List Checkpoint)
      → HasSteps cs
      → Ascends cs
      → Holds e (drop k cs)
      → steps_from (n + 1) cs + k < length cs
  unfolding steps_from
  later-drop zero cs s up h = omega (arith, not_all_later cs s h)
  later-drop (suc k) [] s up h = absurd h
  later-drop (suc k) (c ∷ cs) s up h =
      ground (arith, Holds-le c.step cs s.1 up.0 (Holds-drop k cs h), later-drop k cs s.1 up.1 h)

  -- From one of the first k on there are many.
  from-take :
      (k : ℕ) (cs : List Checkpoint)
      → HasSteps cs
      → Ascends cs
      → Holds e (take k cs)
      → (1 ≤ k) × (length cs < steps_from n cs + k)
  unfolding steps_from
  from-take zero cs s up h = absurd h
  from-take (suc k) [] s up h = absurd h
  from-take (suc k) (c ∷ cs) s up (inl is) =
      let same = its_step c s.0 is in
      (
        omega arith,
        ground (arith, same, steps_from-All n cs (subst (λ m. All (λ d. m ≤ d.step) cs) same up.0)),
      )
  from-take (suc k) (c ∷ cs) s up (inr rest) =
      (omega arith, ground (arith, (from-take k cs s.1 up.1 rest).1))

  pub newest-later :
      (keep : ℕ) (dir : List Entry)
      → Holds e (drop (length (complete_ones dir) - keep) (complete_ones dir))
      → complete_from (n + 1) dir < keep
  newest-later keep dir h = omega (
    arith,
    steps_from-complete_ones (n + 1) dir,
    later-drop (length (complete_ones dir) - keep) (complete_ones dir) (complete_ones-HasSteps dir)
        (complete_ones-Ascends dir) h,
  )

  pub oldest-from :
      (keep : ℕ) (dir : List Entry)
      → Holds e (take (length (complete_ones dir) - keep) (complete_ones dir))
      → keep < complete_from n dir
  oldest-from keep dir h = omega (
    arith,
    steps_from-complete_ones n dir,
    from-take (length (complete_ones dir) - keep) (complete_ones dir) (complete_ones-HasSteps dir)
        (complete_ones-Ascends dir) h,
  )
