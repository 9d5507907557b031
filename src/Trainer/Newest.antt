-- ===== src/Trainer/Newest.antt =====
-- lora-training/checkpoints.py: what `latest` finds.
use local_ai_server.Prelude.{
  All, All-keep_if, All-keep_if_of, Bool, Bool-cases, List, Option-cases, [], arith, false,
  if◌then◌else◌, inl, inr, keep_if, number_Eq, some, subst, text_Eq, true, ℕ, ◌∷◌, ◌≡◌, ◌≤◌,
}
use local_ai_server.Trainer.Checkpoints.{
  Checkpoint, Entry, all_checkpoints, complete_ones, finished, last, latest, not_newer, place,
  step_of,
}

-- The steps do not fall along the list.
abbrev pub Ascends : List Checkpoint → Type 0
Ascends [] = Unit
Ascends (c ∷ cs) = All (λ d. c.step ≤ d.step) cs × Ascends cs

not_newer-le : (a b : Checkpoint) → not_newer a b ≡ true → a.step ≤ b.step
unfolding not_newer
not_newer-le a b h = ground arith

newer-le : (a b : Checkpoint) → not_newer a b ≡ false → b.step ≤ a.step
unfolding not_newer
newer-le a b h = ground arith

All-le :
    (m n : ℕ) (cs : List Checkpoint) → m ≤ n → All (λ d. n ≤ d.step) cs → All (λ d. m ≤ d.step) cs
All-le m n [] h all = tt
All-le m n (c ∷ cs) h all = (omega arith, All-le m n cs h all.1)

All-place :
    (n : ℕ) (a : Checkpoint) (cs : List Checkpoint)
    → n ≤ a.step
    → All (λ d. n ≤ d.step) cs
    → All (λ d. n ≤ d.step) (place a cs)
unfolding place
All-place n a [] h all = (h, tt)
All-place n a (c ∷ cs) h all = elim (Bool-cases (not_newer a c)) [
  | inl e ↦ rw e (h, all)
  | inr e ↦ rw e (all.0, All-place n a cs h all.1)
]

place-Ascends : (a : Checkpoint) (cs : List Checkpoint) → Ascends cs → Ascends (place a cs)
unfolding place
place-Ascends a [] s = (tt, tt)
place-Ascends a (c ∷ cs) s = elim (Bool-cases (not_newer a c)) [
  | inl e ↦ rw e ((not_newer-le a c e, All-le a.step c.step cs (not_newer-le a c e) s.0), s)
  | inr e ↦ rw e (All-place c.step a cs (newer-le a c e) s.0, place-Ascends a cs s.1)
]

place_if-Ascends :
    (b : Bool) (a : Checkpoint) (cs : List Checkpoint)
    → Ascends cs
    → Ascends (if b then place a cs else cs)
place_if-Ascends true a cs s = place-Ascends a cs s
place_if-Ascends false a cs s = s

pub all_checkpoints-Ascends : (dir : List Entry) → Ascends (all_checkpoints dir)
unfolding all_checkpoints
all_checkpoints-Ascends [] = tt
all_checkpoints-Ascends (e ∷ es) =
    let rest = all_checkpoints-Ascends es in
    elim (Option-cases (step_of e.name)) [
      | inl s ↦ rw (s, all_checkpoints) rest
      | inr (n, s) ↦
          rw (s, all_checkpoints)
            (place_if-Ascends e.is_dir (record { step = n; entry = e }) (all_checkpoints es) rest)
    ]

pub keep_if-Ascends :
    (p : Checkpoint → Bool) (cs : List Checkpoint) → Ascends cs → Ascends (keep_if p cs)
unfolding keep_if
keep_if-Ascends p [] s = tt
keep_if-Ascends p (c ∷ cs) s = elim (Bool-cases (p c)) [
  | inl e ↦ rw e (All-keep_if_of (λ d. c.step ≤ d.step) p cs s.0, keep_if-Ascends p cs s.1)
  | inr e ↦ rw e (keep_if-Ascends p cs s.1)
]

some-eq : (a b : Checkpoint) → some a ≡ some b → a ≡ b
some-eq a b h = cc

last-All :
    (P : Checkpoint → Type 0) (cs : List Checkpoint) (l : Checkpoint)
    → last cs ≡ some l
    → All P cs
    → P l
unfolding last
last-All P [] l h all = absurd (cc)
last-All P (c ∷ []) l h all = subst P (some-eq c l h) all.0
last-All P (c ∷ d ∷ cs) l h all = last-All P (d ∷ cs) l h all.1

last-max :
    (cs : List Checkpoint) (l : Checkpoint)
    → last cs ≡ some l
    → Ascends cs
    → All (λ d. d.step ≤ l.step) cs
unfolding last
last-max [] l h s = tt
last-max (c ∷ []) l h s = (ground arith, tt)
last-max (c ∷ d ∷ cs) l h s =
    (last-All (λ x. c.step ≤ x.step) (d ∷ cs) l h s.0, last-max (d ∷ cs) l h s.1)

-- The checkpoint that a run resumes from is complete, and no complete checkpoint of the
-- directory has a later step.
pub latest_newest :
    (dir : List Entry) (l : Checkpoint)
    → latest dir ≡ some l
    → (l.entry.is_complete ≡ true)
      × All (λ c. c.step ≤ l.step) (keep_if finished (all_checkpoints dir))
unfolding latest
latest_newest dir l h = (
  last-All (λ c. finished c ≡ true) (complete_ones dir) l h
      (All-keep_if finished (all_checkpoints dir)),
  last-max (complete_ones dir) l h
      (keep_if-Ascends finished (all_checkpoints dir) (all_checkpoints-Ascends dir)),
)
