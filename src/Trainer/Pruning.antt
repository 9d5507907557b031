-- ===== src/Trainer/Pruning.antt =====
-- What `prune` leaves in the directory.
use local_ai_server.Prelude.{
  ==_refl, Bool, Bool-cases, List, Option-cases, [], ap, arith, contains, contains-append, drop,
  false, if◌then◌else◌, inl, inr, keep_if, length, none, not, some, suc, take, text_Eq, true, zero,
  ℕ, ◌++◌, ◌+◌, ◌-◌, ◌<◌, ◌∙◌, ◌∷◌, ◌≡◌, ◌⊎◌,
}
use local_ai_server.Trainer.Checkpoints.{
  Checkpoint, Entry, all_checkpoints, complete_ones, finished, names, not_newer, place, prune,
  step_of, superseded,
}
use local_ai_server.Trainer.Ranks.{Holds, complete_from, newest-later}

-- What is still in the directory after `prune`.
abbrev pub kept_by : ℕ → List Entry → List Entry
kept_by keep dir = (prune keep dir).1

Holds-place :
    (e : Entry) (a : Checkpoint) (cs : List Checkpoint) → Holds e (a ∷ cs) → Holds e (place a cs)
unfolding place
Holds-place e a [] h = h
Holds-place e a (c ∷ cs) h = elim (Bool-cases (not_newer a c)) [
  | inl n ↦ rw n h
  | inr n ↦ rw n (elim h [
    | inl is ↦ inr (Holds-place e a cs (inl is))
    | inr (inl is) ↦ inl is
    | inr (inr rest) ↦ inr (Holds-place e a cs (inr rest))
  ])
]

abbrev pub InDir : Entry → List Entry → Type 0
InDir e [] = ⊥
InDir e (x ∷ xs) = (x ≡ e) ⊎ InDir e xs

-- Is an entry a checkpoint directory?
abbrev pub is_checkpoint : Entry → Bool
is_checkpoint e = elim (step_of e.name) [ none ↦ false | some n ↦ e.is_dir ]

Holds-place_if :
    (e : Entry) (b : Bool) (a : Checkpoint) (cs : List Checkpoint)
    → (b ≡ true) × (a.entry ≡ e) ⊎ Holds e cs
    → Holds e (if b then place a cs else cs)
Holds-place_if e true a cs (inl (d, is)) = Holds-place e a cs (inl is)
Holds-place_if e true a cs (inr rest) = Holds-place e a cs (inr rest)
Holds-place_if e false a cs (inl (d, is)) = absurd (cc)
Holds-place_if e false a cs (inr rest) = rest

pub all_checkpoints-Holds :
    (e : Entry) (dir : List Entry)
    → InDir e dir
    → is_checkpoint e ≡ true
    → Holds e (all_checkpoints dir)
unfolding all_checkpoints
all_checkpoints-Holds e [] m k = m
all_checkpoints-Holds e (x ∷ xs) m k = elim (Option-cases (step_of x.name)) [
  | inl s ↦
      rw (s, all_checkpoints)
        (elim m [ inl is ↦ absurd (ground arith) | inr rest ↦ all_checkpoints-Holds e xs rest k ])
  | inr (n, s) ↦
      rw (s, all_checkpoints)
        (Holds-place_if e x.is_dir (record { step = n; entry = x }) (all_checkpoints xs)
          (elim m [
            | inl is ↦ inl (ground arith, is)
            | inr rest ↦ inr (all_checkpoints-Holds e xs rest k)
          ]))
]

Holds-keep_if :
    (e : Entry) (p : Checkpoint → Bool) (cs : List Checkpoint)
    → ((c : Checkpoint) → c.entry ≡ e → p c ≡ true)
    → Holds e cs
    → Holds e (keep_if p cs)
unfolding keep_if
Holds-keep_if e p [] yes_p h = h
Holds-keep_if e p (c ∷ cs) yes_p (inl is) = rw (yes_p c is) (inl is)
Holds-keep_if e p (c ∷ cs) yes_p (inr rest) = elim (Bool-cases (p c)) [
  | inl k ↦ rw k (inr (Holds-keep_if e p cs yes_p rest))
  | inr k ↦ rw k (Holds-keep_if e p cs yes_p rest)
]

Holds-names : (e : Entry) (cs : List Checkpoint) → Holds e cs → contains (names cs) e.name ≡ true
unfolding contains
Holds-names e (c ∷ cs) (inl is) = ground (arith, ==_refl e.name)
Holds-names e (c ∷ cs) (inr rest) = ground (arith, Holds-names e cs rest)
Holds-names e [] h = absurd h

pub Holds-split :
    (e : Entry) (k : ℕ) (cs : List Checkpoint)
    → Holds e cs
    → Holds e (take k cs) ⊎ Holds e (drop k cs)
Holds-split e zero cs h = inr h
Holds-split e (suc k) [] h = absurd h
Holds-split e (suc k) (c ∷ cs) (inl is) = inl (inl is)
Holds-split e (suc k) (c ∷ cs) (inr rest) = elim (Holds-split e k cs rest) [
  | inl l ↦ inl (inr l)
  | inr r ↦ inr r
]

InDir-keep_if :
    (e : Entry) (p : Entry → Bool) (dir : List Entry)
    → InDir e (keep_if p dir)
    → InDir e dir × (p e ≡ true)
unfolding keep_if
InDir-keep_if e p [] h = absurd h
InDir-keep_if e p (x ∷ xs) h = elim (Bool-cases (p x)) [
  | inl k ↦ elim (kept_head k h) [
    | inl is ↦ (inl is, cc)
    | inr rest ↦ let (m, q) = InDir-keep_if e p xs rest in (inr m, q)
  ]
  | inr k ↦ let (m, q) = InDir-keep_if e p xs (rw k at h) in (inr m, q)
]
  where
    kept_head :
        p x ≡ true
        → InDir e (if p x then x ∷ keep_if p xs else keep_if p xs)
        → (x ≡ e) ⊎ InDir e (keep_if p xs)
    kept_head k h = rw k at h

pub complete_ones-Holds :
    (dir : List Entry) (e : Entry)
    → Holds e (all_checkpoints dir)
    → e.is_complete ≡ true
    → Holds e (complete_ones dir)
unfolding complete_ones
complete_ones-Holds dir e here complete =
    Holds-keep_if e finished (all_checkpoints dir) (λ c is. ap (λ x. x.is_complete) is ∙ complete)
      here

recent :
    (keep : ℕ) (dir : List Entry) (e : Entry)
    → Holds e (all_checkpoints dir)
    → e.is_complete ≡ true
    → contains (names (superseded keep (complete_ones dir))) e.name ≡ false
    → Holds e (drop (length (complete_ones dir) - keep) (complete_ones dir))
unfolding superseded
recent keep dir e here complete stays =
    let n = length (complete_ones dir) - keep in
    elim (Holds-split e n (complete_ones dir) (complete_ones-Holds dir e here complete)) [
      | inl old ↦ absurd (cc (Holds-names e (take n (complete_ones dir)) old, stays))
      | inr new ↦ new
    ]

-- After `prune`, each directory that is left whose name is a checkpoint's is complete, and fewer
-- than `keep` complete checkpoint directories of the directory had a later step.
pub prune_keeps :
    (keep : ℕ) (dir : List Entry) (e : Entry) (n : ℕ)
    → InDir e (kept_by keep dir)
    → e.is_dir ≡ true
    → step_of e.name ≡ some n
    → (e.is_complete ≡ true) × (complete_from (n + 1) dir < keep)
unfolding prune
prune_keeps keep dir e n m is_directory named =
    let all = all_checkpoints dir in
    let partial = keep_if (λ c. not (finished c)) all in
    let old = superseded keep (complete_ones dir) in
    let (there, stays) =
      InDir-keep_if e (λ x. not (contains (names partial ++ names old) x.name)) dir m in
    let here = all_checkpoints-Holds e dir there (rw (named, is_checkpoint) is_directory) in
    let apart = contains-append (names partial) (names old) e.name in
    let complete : e.is_complete ≡ true = elim (Bool-cases e.is_complete) [
      | inl c ↦ c
      | inr c ↦ absurd (
          ground (
            arith,
            apart,
            Holds-names e partial
                (Holds-keep_if e (λ c. not (finished c)) all (λ x is. ground arith) here),
          ))
    ] in
    (
      complete,
      newest-later e n named keep dir (recent keep dir e here complete (ground (arith, apart))),
    )
