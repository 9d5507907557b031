-- ===== src/Bot/Agent/Pairing.antt =====
-- discord-bot/lore/compaction.py: calls with their results, and victims that are whole pairs.
use local_ai_server.Prelude.{
  Bool-cases, List, Option, [], arith, contains, inl, inr, number_Eq, refl, some, subst, suc, sym,
  text_Eq, zero, ℕ, ◌*◌, ◌++◌, ◌+◌, ◌∙◌, ◌∷◌, ◌≡◌,
}
use local_ai_server.Bot.Agent.Messages.{
  AgentMessage, Entry, ToolCall, call, condensed, plain, result,
}
use local_ai_server.Bot.Agent.Condensing.{idents, put_for, victims_from, without}

-- The message with the identity `j` is the result of the call with the identity `i`.
abbrev pub IsAnswer : ℕ → ToolCall → ℕ → AgentMessage → Type 0
IsAnswer i tc j (plain role text) = ⊥
IsAnswer i tc j (condensed text) = ⊥
IsAnswer i tc j (call tc' reasoning) = ⊥
IsAnswer i tc j (result name text id) = (k : ℕ) × (i ≡ 2 * k) × (j ≡ 2 * k + 1) × (id ≡ tc.id)

-- Every call is directly followed by its result, and every result follows its call.
abbrev pub IsPaired : List Entry → Type 0
IsPaired [] = Unit
IsPaired ((i, plain role text) ∷ es) = IsPaired es
IsPaired ((i, condensed text) ∷ es) = IsPaired es
IsPaired ((i, result name text id) ∷ es) = ⊥
IsPaired ((i, call tc reasoning) ∷ []) = ⊥
IsPaired ((i, call tc reasoning) ∷ (j, m) ∷ es) = IsAnswer i tc j m × IsPaired es

pub append-IsPaired : (xs ys : List Entry) → IsPaired xs → IsPaired ys → IsPaired (xs ++ ys)
append-IsPaired [] ys h k = k
append-IsPaired ((i, plain role text) ∷ xs) ys h k = append-IsPaired xs ys h k
append-IsPaired ((i, condensed text) ∷ xs) ys h k = append-IsPaired xs ys h k
append-IsPaired ((i, result name text id) ∷ xs) ys h k = absurd h
append-IsPaired ((i, call tc reasoning) ∷ []) ys h k = absurd h
append-IsPaired ((i, call tc reasoning) ∷ (j, m) ∷ xs) ys h k = (h.0, append-IsPaired xs ys h.1 k)

-- With a call its result is in the list, and with a result its call.
abbrev pub IsClosed : List ℕ → Type 0
IsClosed ids = (k : ℕ) → contains ids (2 * k) ≡ contains ids (2 * k + 1)

IsClosed-pair : (k : ℕ) (ids : List ℕ) → IsClosed ids → IsClosed (2 * k ∷ (2 * k + 1) ∷ ids)
unfolding contains
IsClosed-pair k ids h j = ground (arith, h j)

pub victims_from-IsClosed :
    (n : ℕ) (previous : Option Entry) (es : List Entry)
    → IsPaired es
    → IsClosed (idents (victims_from n previous es))
unfolding victims_from contains
victims_from-IsClosed zero previous es h = λ k. refl
victims_from-IsClosed (suc n) previous [] h = λ k. refl
victims_from-IsClosed (suc n) previous ((i, plain role text) ∷ es) h =
    victims_from-IsClosed (suc n) (some (i, plain role text)) es h
victims_from-IsClosed (suc n) previous ((i, condensed text) ∷ es) h =
    victims_from-IsClosed (suc n) (some (i, condensed text)) es h
victims_from-IsClosed (suc n) previous ((i, result name text id) ∷ es) h = absurd h
victims_from-IsClosed (suc n) previous ((i, call tc reasoning) ∷ []) h = absurd h
victims_from-IsClosed (suc n) previous ((i, call tc r) ∷ (j, plain role text) ∷ es) h = absurd h.0
victims_from-IsClosed (suc n) previous ((i, call tc r) ∷ (j, condensed text) ∷ es) h = absurd h.0
victims_from-IsClosed (suc n) previous ((i, call tc r) ∷ (j, call tc' r') ∷ es) h = absurd h.0
victims_from-IsClosed (suc n) previous ((i, call tc r) ∷ (j, result name text id) ∷ es) h =
    let (k, i_is, j_is, same) = h.0 in
    let rest = victims_from n (some (j, result name text id)) es in
    subst (λ a. IsClosed (a ∷ j ∷ idents rest)) (sym i_is)
      (subst (λ b. IsClosed (2 * k ∷ b ∷ idents rest)) (sym j_is)
        (IsClosed-pair k (idents rest)
          (victims_from-IsClosed n (some (j, result name text id)) es h.1)))

-- Both messages of a pair are victims, or neither is.
together :
    (ids : List ℕ) (i j k : ℕ)
    → IsClosed ids
    → i ≡ 2 * k
    → j ≡ 2 * k + 1
    → contains ids i ≡ contains ids j
together ids i j k closed i_is j_is = rw (i_is, j_is) (closed k)

pub without-IsPaired :
    (ids : List ℕ) (es : List Entry) → IsClosed ids → IsPaired es → IsPaired (without ids es)
unfolding without
without-IsPaired ids [] c h = h
without-IsPaired ids ((i, plain role text) ∷ es) c h = elim (Bool-cases (contains ids i)) [
  | inl e ↦ rw e (without-IsPaired ids es c h)
  | inr e ↦ rw e (without-IsPaired ids es c h)
]
without-IsPaired ids ((i, condensed text) ∷ es) c h = elim (Bool-cases (contains ids i)) [
  | inl e ↦ rw e (without-IsPaired ids es c h)
  | inr e ↦ rw e (without-IsPaired ids es c h)
]
without-IsPaired ids ((i, result name text id) ∷ es) c h = absurd h
without-IsPaired ids ((i, call tc r) ∷ []) c h = absurd h
without-IsPaired ids ((i, call tc r) ∷ (j, plain role text) ∷ es) c h = absurd h.0
without-IsPaired ids ((i, call tc r) ∷ (j, condensed text) ∷ es) c h = absurd h.0
without-IsPaired ids ((i, call tc r) ∷ (j, call tc' r') ∷ es) c h = absurd h.0
without-IsPaired ids ((i, call tc r) ∷ (j, result name text id) ∷ es) c h =
    let (k, i_is, j_is, same) = h.0 in
    let both = together ids i j k c i_is j_is in
    elim (Bool-cases (contains ids i)) [
      | inl e ↦ rw (e, sym both ∙ e) (without-IsPaired ids es c h.1)
      | inr e ↦ rw (e, sym both ∙ e) (h.0, without-IsPaired ids es c h.1)
    ]

pub put_for-IsPaired :
    (ids : List ℕ) (new es : List Entry)
    → IsClosed ids
    → IsPaired new
    → IsPaired es
    → IsPaired (put_for ids new es)
unfolding put_for without
put_for-IsPaired ids new [] c p h = h
put_for-IsPaired ids new ((i, plain role text) ∷ es) c p h = elim (Bool-cases (contains ids i)) [
  | inl e ↦ rw e (append-IsPaired new (without ids es) p (without-IsPaired ids es c h))
  | inr e ↦ rw e (put_for-IsPaired ids new es c p h)
]
put_for-IsPaired ids new ((i, condensed text) ∷ es) c p h = elim (Bool-cases (contains ids i)) [
  | inl e ↦ rw e (append-IsPaired new (without ids es) p (without-IsPaired ids es c h))
  | inr e ↦ rw e (put_for-IsPaired ids new es c p h)
]
put_for-IsPaired ids new ((i, result name text id) ∷ es) c p h = absurd h
put_for-IsPaired ids new ((i, call tc r) ∷ []) c p h = absurd h
put_for-IsPaired ids new ((i, call tc r) ∷ (j, plain role text) ∷ es) c p h = absurd h.0
put_for-IsPaired ids new ((i, call tc r) ∷ (j, condensed text) ∷ es) c p h = absurd h.0
put_for-IsPaired ids new ((i, call tc r) ∷ (j, call tc' r') ∷ es) c p h = absurd h.0
put_for-IsPaired ids new ((i, call tc r) ∷ (j, result name text id) ∷ es) c p h =
    let (k, i_is, j_is, same) = h.0 in
    let both = together ids i j k c i_is j_is in
    elim (Bool-cases (contains ids i)) [
      | inl e ↦
          rw (e, sym both ∙ e)
            (append-IsPaired new (without ids es) p (without-IsPaired ids es c h.1))
      | inr e ↦ rw (e, sym both ∙ e) (h.0, put_for-IsPaired ids new es c p h.1)
    ]
