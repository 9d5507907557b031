-- ===== src/Rag/Pieces.antt =====
-- rag/ingest.py: the chunks beside the messages that were cut.
use local_ai_server.Prelude.{
  Bool-cases, List, [], ap, false, inl, inr, is_empty, keep_if, leb, ltb, not, number_Eq, refl, sym,
  text_Eq, true, ℕ, ◌&&◌, ◌++◌, ◌∙◌, ◌∷◌, ◌≡◌,
}
use local_ai_server.Rag.Chunking.{
  Chunk, Message, chunk_by_conversation, estimate_tokens, group_from, split_all, split_from,
  starts_new,
}
use mathlib.Core.List.{append_assoc}

abbrev pub flatten : List Chunk → List Message
flatten [] = []
flatten (c ∷ cs) = c ++ flatten cs

flatten-append : (xs ys : List Chunk) → flatten (xs ++ ys) ≡ flatten xs ++ flatten ys
flatten-append [] ys = refl
flatten-append (x ∷ xs) ys =
    rw (flatten-append xs ys) (sym (append_assoc x (flatten xs) (flatten ys)))

flatten-group_from :
    (gap : ℕ) (current : Chunk) (ms : List Message)
    → flatten (group_from gap current ms) ≡ current ++ ms
unfolding group_from
flatten-group_from gap current [] = refl
flatten-group_from gap current (m ∷ ms) =
    elim (starts_new gap current m)
      as (λ b.
        flatten (elim b [
          | true ↦ current ∷ group_from gap (m ∷ []) ms
          | false ↦ group_from gap (current ++ m ∷ []) ms
        ])
        ≡ current ++ m ∷ ms) [
          | true ↦ ap (λ l. current ++ l) (flatten-group_from gap (m ∷ []) ms)
          | false ↦ flatten-group_from gap (current ++ m ∷ []) ms ∙ append_assoc current (m ∷ []) ms
        ]

flatten-split_from :
    (max_tokens : ℕ) (current : Chunk) (ms : List Message)
    → flatten (split_from max_tokens current ms) ≡ current ++ ms
unfolding split_from
flatten-split_from max_tokens [] [] = refl
flatten-split_from max_tokens (c ∷ cs) [] = refl
flatten-split_from max_tokens current (m ∷ ms) =
    elim (ltb max_tokens (estimate_tokens (current ++ m ∷ [])) && not (is_empty current))
      as (λ b.
        flatten (elim b [
          | true ↦ current ∷ split_from max_tokens (m ∷ []) ms
          | false ↦ split_from max_tokens (current ++ m ∷ []) ms
        ])
        ≡ current ++ m ∷ ms) [
          | true ↦ ap (λ l. current ++ l) (flatten-split_from max_tokens (m ∷ []) ms)
          | false ↦
              flatten-split_from max_tokens (current ++ m ∷ []) ms
              ∙ append_assoc current (m ∷ []) ms
        ]

flatten-split_all :
    (max_tokens : ℕ) (cs : List Chunk) → flatten (split_all max_tokens cs) ≡ flatten cs
unfolding split_all
flatten-split_all max_tokens [] = refl
flatten-split_all max_tokens (c ∷ cs) = elim (Bool-cases (leb (estimate_tokens c) max_tokens)) [
  | inl e ↦ rw e (ap (λ l. c ++ l) (flatten-split_all max_tokens cs))
  | inr e ↦ rw (
    e,
    flatten-append (split_from max_tokens [] c) (split_all max_tokens cs),
    flatten-split_from max_tokens [] c,
    flatten-split_all max_tokens cs,
  )
]

flatten-keep_if : (cs : List Chunk) → flatten (keep_if (λ c. not (is_empty c)) cs) ≡ flatten cs
unfolding keep_if
flatten-keep_if [] = refl
flatten-keep_if ([] ∷ cs) = flatten-keep_if cs
flatten-keep_if ((m ∷ ms) ∷ cs) = ap (λ l. m ∷ ms ++ l) (flatten-keep_if cs)

-- The chunks in their order are exactly the messages in their order.
pub flatten-chunk_by_conversation :
    (gap max_tokens : ℕ) (ms : List Message)
    → flatten (chunk_by_conversation gap max_tokens ms) ≡ ms
unfolding chunk_by_conversation
flatten-chunk_by_conversation gap max_tokens [] = refl
flatten-chunk_by_conversation gap max_tokens (m ∷ ms) =
    flatten-keep_if (split_all max_tokens (group_from gap [] (m ∷ ms)))
    ∙ flatten-split_all max_tokens (group_from gap [] (m ∷ ms))
    ∙ flatten-group_from gap [] (m ∷ ms)
