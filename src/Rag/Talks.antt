-- ===== src/Rag/Talks.antt =====
-- rag/ingest.py: the shape of a chunk.
use local_ai_server.Prelude.{
  All, All-append, All-keep_if, All-keep_if_of, Bool-cases, List, [], arith, false, inl, inr,
  is_empty, keep_if, leb, leb→le, length, ltb, not, number_Eq, refl, subst, sym, text_Eq, true, ℕ,
  ◌&&◌, ◌++◌, ◌+◌, ◌∙◌, ◌∷◌, ◌≡◌, ◌≤◌, ◌⊎◌,
}
use local_ai_server.Rag.Pieces.{flatten, flatten-chunk_by_conversation}
use local_ai_server.Rag.Chunking.{
  Chunk, Message, chunk_by_conversation, estimate_tokens, group_from, last_of, split_all,
  split_from, starts_new,
}
use mathlib.Core.List.{append_assoc}

-- Within a chunk: one channel, and no silence longer than the gap.
abbrev pub IsTalk : ℕ → Chunk → Type 0
IsTalk gap [] = Unit
IsTalk gap (m ∷ []) = Unit
IsTalk gap (m ∷ n ∷ ms) =
    (m.channel_id ≡ n.channel_id) × (n.timestamp ≤ m.timestamp + gap) × IsTalk gap (n ∷ ms)

-- A chunk above the limit holds one message alone.
abbrev pub FitsOrSingle : ℕ → Chunk → Type 0
FitsOrSingle max_tokens c = (estimate_tokens c ≤ max_tokens) ⊎ (length c ≡ 1)

last_of-snoc : (m n : Message) (ms : List Message) → last_of m (ms ++ n ∷ []) ≡ n
unfolding last_of
last_of-snoc m n [] = refl
last_of-snoc m n (x ∷ xs) = last_of-snoc x n xs

talk_channel :
    (gap : ℕ) (m : Message) (ms : List Message)
    → IsTalk gap (m ∷ ms)
    → m.channel_id ≡ (last_of m ms).channel_id
unfolding last_of
talk_channel gap m [] t = refl
talk_channel gap m (n ∷ ms) t = t.0 ∙ talk_channel gap n ms t.2

IsTalk-snoc :
    (gap : ℕ) (m n : Message) (ms : List Message)
    → IsTalk gap (m ∷ ms)
    → (last_of m ms).channel_id ≡ n.channel_id
    → n.timestamp ≤ (last_of m ms).timestamp + gap
    → IsTalk gap (m ∷ ms ++ n ∷ [])
unfolding last_of
IsTalk-snoc gap m n [] t same soon = (same, soon, tt)
IsTalk-snoc gap m n (x ∷ xs) t same soon = (t.0, t.1, IsTalk-snoc gap x n xs t.2 same soon)

group_from-IsTalk :
    (gap : ℕ) (current : Chunk) (ms : List Message)
    → IsTalk gap current
    → All (IsTalk gap) (group_from gap current ms)
unfolding group_from
group_from-IsTalk gap current [] t = (t, tt)
group_from-IsTalk gap [] (m ∷ ms) t = unfold starts_new in group_from-IsTalk gap (m ∷ []) ms tt
group_from-IsTalk gap (c ∷ cs) (m ∷ ms) t = elim (Bool-cases (starts_new gap (c ∷ cs) m)) [
  | inl e ↦ rw (e, group_from) (t, group_from-IsTalk gap (m ∷ []) ms tt)
  | inr e ↦
      rw (e, group_from)
        (group_from-IsTalk gap (c ∷ cs ++ m ∷ []) ms (
          IsTalk-snoc gap c m cs t (sym (talk_channel gap c cs t) ∙ stays_channel e)
            (stays_soon e)))
]
  where
    stays_channel : starts_new gap (c ∷ cs) m ≡ false → c.channel_id ≡ m.channel_id
    stays_channel e =
        unfold starts_new in ground (arith, text_Eq.test_iff c.channel_id m.channel_id)

    stays_soon : starts_new gap (c ∷ cs) m ≡ false → m.timestamp ≤ (last_of c cs).timestamp + gap
    stays_soon e = unfold starts_new in ground arith

IsTalk-parts : (gap : ℕ) (xs ys : Chunk) → IsTalk gap (xs ++ ys) → IsTalk gap xs × IsTalk gap ys
IsTalk-parts gap [] ys t = (tt, t)
IsTalk-parts gap (x ∷ []) [] t = (tt, tt)
IsTalk-parts gap (x ∷ []) (y ∷ ys) t = (tt, t.2)
IsTalk-parts gap (x ∷ x' ∷ xs) ys t =
    let (l, r) = IsTalk-parts gap (x' ∷ xs) ys t.2 in ((t.0, t.1, l), r)

split_from-IsTalk :
    (gap max_tokens : ℕ) (current : Chunk) (ms : List Message)
    → IsTalk gap (current ++ ms)
    → All (IsTalk gap) (split_from max_tokens current ms)
unfolding split_from
split_from-IsTalk gap max_tokens [] [] t = tt
split_from-IsTalk gap max_tokens (c ∷ cs) [] t = ((IsTalk-parts gap (c ∷ cs) [] t).0, tt)
split_from-IsTalk gap max_tokens current (m ∷ ms) t =
    let (l, r) = IsTalk-parts gap current (m ∷ ms) t in
    elim (ltb max_tokens (estimate_tokens (current ++ m ∷ [])) && not (is_empty current))
      as (λ b. All (IsTalk gap) (elim b [
        | true ↦ current ∷ split_from max_tokens (m ∷ []) ms
        | false ↦ split_from max_tokens (current ++ m ∷ []) ms
      ])) [
        | true ↦ (l, split_from-IsTalk gap max_tokens (m ∷ []) ms r)
        | false ↦
            split_from-IsTalk gap max_tokens (current ++ m ∷ []) ms
              (subst (IsTalk gap) (sym (append_assoc current (m ∷ []) ms)) t)
      ]

-- What a chunk may be while it is filled.
abbrev IsOpen : ℕ → Chunk → Type 0
IsOpen max_tokens c = (c ≡ []) ⊎ FitsOrSingle max_tokens c

extend_open :
    (max_tokens : ℕ) (current : Chunk) (m : Message)
    → (ltb max_tokens (estimate_tokens (current ++ m ∷ [])) && not (is_empty current)) ≡ false
    → FitsOrSingle max_tokens (current ++ m ∷ [])
extend_open max_tokens [] m e = inr refl
extend_open max_tokens (c ∷ cs) m e = inl (ground arith)

split_from-FitsOrSingle :
    (max_tokens : ℕ) (current : Chunk) (ms : List Message)
    → IsOpen max_tokens current
    → All (FitsOrSingle max_tokens) (split_from max_tokens current ms)
unfolding split_from
split_from-FitsOrSingle max_tokens [] [] o = tt
split_from-FitsOrSingle max_tokens (c ∷ cs) [] o = (closed o, tt)
  where
    closed : IsOpen max_tokens (c ∷ cs) → FitsOrSingle max_tokens (c ∷ cs)
    closed (inl e) = absurd (cc)
    closed (inr f) = f
split_from-FitsOrSingle max_tokens current (m ∷ ms) o =
    elim (Bool-cases
      (ltb max_tokens (estimate_tokens (current ++ m ∷ [])) && not (is_empty current))) [
        | inl e ↦
            rw (e, split_from)
              (
                closed current o (ground arith),
                split_from-FitsOrSingle max_tokens (m ∷ []) ms (inr (inr refl)),
              )
        | inr e ↦
            rw (e, split_from)
              (split_from-FitsOrSingle max_tokens (current ++ m ∷ []) ms
                (inr (extend_open max_tokens current m e)))
      ]
  where
    closed : (c : Chunk) → IsOpen max_tokens c → is_empty c ≡ false → FitsOrSingle max_tokens c
    closed [] o e = absurd (cc)
    closed (x ∷ xs) (inl e) k = absurd (cc)
    closed (x ∷ xs) (inr f) k = f

abbrev pub IsCut : ℕ → ℕ → Chunk → Type 0
IsCut gap max_tokens c = (is_empty c ≡ false) × IsTalk gap c × FitsOrSingle max_tokens c

abbrev IsSplit : ℕ → ℕ → Chunk → Type 0
IsSplit gap max_tokens c = IsTalk gap c × FitsOrSingle max_tokens c

All-zip : (P Q : Chunk → Type 0) (cs : List Chunk) → All P cs → All Q cs → All (λ c. P c × Q c) cs
All-zip P Q [] h k = tt
All-zip P Q (c ∷ cs) h k = ((h.0, k.0), All-zip P Q cs h.1 k.1)

split_all-IsSplit :
    (gap max_tokens : ℕ) (cs : List Chunk)
    → All (IsTalk gap) cs
    → All (IsSplit gap max_tokens) (split_all max_tokens cs)
unfolding split_all
split_all-IsSplit gap max_tokens [] t = tt
split_all-IsSplit gap max_tokens (c ∷ cs) t =
    let rest = split_all-IsSplit gap max_tokens cs t.1 in
    elim (Bool-cases (leb (estimate_tokens c) max_tokens)) [
      | inl e ↦ rw e ((t.0, inl (leb→le _ _ e)), rest)
      | inr e ↦ rw e (
          All-append (IsSplit gap max_tokens) (split_from max_tokens [] c) (split_all max_tokens cs)
            (All-zip (IsTalk gap) (FitsOrSingle max_tokens) (split_from max_tokens [] c)
              (split_from-IsTalk gap max_tokens [] c t.0)
              (split_from-FitsOrSingle max_tokens [] c (inl refl)))
            rest)
    ]

-- Every chunk has messages, all of one channel, with no silence longer than the gap between two
-- neighbours, and is within the token limit unless it is a single message.
pub chunk_by_conversation-IsCut :
    (gap max_tokens : ℕ) (ms : List Message)
    → All (IsCut gap max_tokens) (chunk_by_conversation gap max_tokens ms)
unfolding chunk_by_conversation
chunk_by_conversation-IsCut gap max_tokens [] = tt
chunk_by_conversation-IsCut gap max_tokens (m ∷ ms) =
    let cs = split_all max_tokens (group_from gap [] (m ∷ ms)) in
    let split =
      split_all-IsSplit gap max_tokens (group_from gap [] (m ∷ ms))
        (group_from-IsTalk gap [] (m ∷ ms) tt) in
    joined (keep_if (λ c. not (is_empty c)) cs) (All-keep_if (λ c. not (is_empty c)) cs)
      (All-keep_if_of (IsSplit gap max_tokens) (λ c. not (is_empty c)) cs split)
  where
    joined :
        (cs : List Chunk)
        → All (λ c. not (is_empty c) ≡ true) cs
        → All (IsSplit gap max_tokens) cs
        → All (IsCut gap max_tokens) cs
    joined [] h k = tt
    joined (c ∷ cs) h k = ((ground arith, k.0.0, k.0.1), joined cs h.1 k.1)

abbrev pub IsCutOf : ℕ → ℕ → List Message → List Chunk → Type 0
IsCutOf gap max_tokens ms cs = (flatten cs ≡ ms) × All (IsCut gap max_tokens) cs

-- The chunks in their order are exactly the messages in their order. Every chunk has messages, all
-- of one channel, with no silence longer than the gap between two neighbours, and is within the
-- token limit unless it is a single message.
pub chunk_by_conversation-IsCutOf :
    (gap max_tokens : ℕ) (ms : List Message)
    → IsCutOf gap max_tokens ms (chunk_by_conversation gap max_tokens ms)
chunk_by_conversation-IsCutOf gap max_tokens ms =
    (flatten-chunk_by_conversation gap max_tokens ms, chunk_by_conversation-IsCut gap max_tokens ms)
