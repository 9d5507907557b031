-- ===== src/Trainer/Dataset/Contexts.antt =====
-- lora-training/build_dataset.py, build_examples: the context of an example.
use local_ai_server.Prelude.{
  Bool, Bool-cases, List, [], ap, arith, contains, false, if◌then◌else◌, inl, inr, is_empty, length,
  list_Eq, ltb, ltb→lt, number_Eq, refl, suc, take, text_Eq, true, zero, ℕ, ◌++◌, ◌+◌, ◌<◌, ◌==◌,
  ◌∷◌, ◌≡◌, ◌≢◌, ◌≤◌, ◌⊎◌,
}
use local_ai_server.Trainer.Dataset.Turns.{SpokenTurn, turn_text, without_mentions}
use local_ai_server.Trainer.Dataset.Targets.{
  Fate, Settings, attachment_only, context_before, context_from, example_of, has_long_number,
  judge_turn, judge_turns, keep_with, kept, link_only, long_number, mention_only, no_context,
  not_target, too_short,
}
use local_ai_server.Prelude.Words.{length_of}

-- No silence longer than the gap before `later`, nor between two turns of the context.
abbrev pub IsConversation : ℕ → SpokenTurn → List SpokenTurn → Type 0
IsConversation gap later [] = Unit
IsConversation gap later (p ∷ ps) = (later.start ≤ p.end + gap) × IsConversation gap p ps

-- Behind a silence longer than the gap.
abbrev pub IsSilent : ℕ → SpokenTurn → List SpokenTurn → Type 0
IsSilent gap later [] = Unit
IsSilent gap later (p ∷ ps) = p.end + gap < later.start

abbrev pub farthest : SpokenTurn → List SpokenTurn → SpokenTurn
farthest t [] = t
farthest t (p ∷ ps) = farthest p ps

-- A context, nearest first, of the turns before a turn: those directly before it, at most
-- `context_n`, with no long silence, and as many as there are under these conditions.
abbrev pub IsContext : ℕ → ℕ → SpokenTurn → List SpokenTurn → List SpokenTurn → Type 0
IsContext context_n gap turn before context =
    (rest : List SpokenTurn) × (before ≡ context ++ rest)
    × IsConversation gap turn context
    × (length context ≤ context_n)
    × ((length context ≡ context_n) ⊎ IsSilent gap (farthest turn context) rest)

context_from-IsContext :
    (n gap : ℕ) (turn : SpokenTurn) (before : List SpokenTurn)
    → IsContext n gap turn before (context_from gap turn (take n before))
unfolding context_from
context_from-IsContext zero gap turn before = (before, refl, tt, omega arith, inl refl)
context_from-IsContext (suc n) gap turn [] = ([], refl, tt, omega arith, inr tt)
context_from-IsContext (suc n) gap turn (p ∷ ps) =
    elim (Bool-cases (ltb (p.end + gap) turn.start)) [
      | inl e ↦ rw (e, context_from) (p ∷ ps, refl, tt, omega arith, inr (ltb→lt _ _ e))
      | inr e ↦
          let (rest, same, talk, few, full) = context_from-IsContext n gap p ps in
          rw (e, context_from)
            (
              rest,
              ap (λ l. p ∷ l) same,
              (ground arith, talk),
              omega arith,
              elim full [ inl f ↦ inl (ap suc f) | inr silent ↦ inr silent ],
            )
    ]

-- No reason but a missing context speaks against a turn.
abbrev pub IsUsable : Settings → SpokenTurn → Type 0
IsUsable s turn =
    (turn.attachment_only ≡ false)
    × (s.without_urls (turn_text turn) ≢ "")
    × (s.min_chars ≤ length_of (s.without_urls (turn_text turn)))
    × (s.min_chars ≤ length_of (s.without_urls (without_mentions (turn_text turn) s.mentions)))
    × (has_long_number (turn_text turn) ≡ false)

-- Why a turn of the member is judged as it is.
abbrev pub IsReason : Settings → List SpokenTurn → SpokenTurn → Fate → Type 0
IsReason s before turn not_target = ⊥
IsReason s before turn attachment_only = turn.attachment_only ≡ true
IsReason s before turn link_only = s.without_urls (turn_text turn) ≡ ""
IsReason s before turn too_short = length_of (s.without_urls (turn_text turn)) < s.min_chars
IsReason s before turn mention_only =
    length_of (s.without_urls (without_mentions (turn_text turn) s.mentions)) < s.min_chars
IsReason s before turn long_number = has_long_number (turn_text turn) ≡ true
IsReason s before turn no_context = IsUsable s turn × IsContext s.context_n s.gap turn before []
IsReason s before turn (kept e) =
    IsUsable s turn
    × (context : List SpokenTurn) × (is_empty context ≡ false)
    × IsContext s.context_n s.gap turn before context
    × (e ≡ example_of s turn (turn_text turn) context)

-- What a verdict says of its turn: it is of another user, or it is of the member and the reason
-- of its verdict holds.
abbrev pub IsJudged : Settings → List SpokenTurn → SpokenTurn → Fate → Type 0
IsJudged s before turn not_target = contains s.user_ids turn.user_id ≡ false
IsJudged s before turn v = (contains s.user_ids turn.user_id ≡ true) × IsReason s before turn v

module _ (s : Settings) where
  keep_with-IsReason :
      (before : List SpokenTurn) (turn : SpokenTurn) (context : List SpokenTurn)
      → IsUsable s turn
      → contains s.user_ids turn.user_id ≡ true
      → IsContext s.context_n s.gap turn before context
      → IsJudged s before turn (keep_with s turn (turn_text turn) context)
  keep_with-IsReason before turn [] fine mine c = (mine, (fine, c))
  keep_with-IsReason before turn (p ∷ ps) fine mine c = (mine, (fine, p ∷ ps, refl, c, refl))

  past_checks :
      (P : Fate → Type 0) (a b c d e : Bool) (v : Fate)
      → (a ≡ true → P attachment_only)
      → (b ≡ true → P link_only)
      → (c ≡ true → P too_short)
      → (d ≡ true → P mention_only)
      → (e ≡ true → P long_number)
      → (a ≡ false → b ≡ false → c ≡ false → d ≡ false → e ≡ false → P v)
      → P (
          if a
          then attachment_only
          else if b
          then link_only
          else if c
          then too_short
          else if d
          then mention_only
          else if e
          then long_number
          else v)
  past_checks P true b c d e v ha hb hc hd he hv = ha refl
  past_checks P false true c d e v ha hb hc hd he hv = hb refl
  past_checks P false false true d e v ha hb hc hd he hv = hc refl
  past_checks P false false false true e v ha hb hc hd he hv = hd refl
  past_checks P false false false false true v ha hb hc hd he hv = he refl
  past_checks P false false false false false v ha hb hc hd he hv = hv refl refl refl refl refl

  judge_turn-IsJudged :
      (before : List SpokenTurn) (turn : SpokenTurn)
      → IsJudged s before turn (judge_turn s before turn)
  unfolding judge_turn context_before
  judge_turn-IsJudged before turn = elim (Bool-cases (contains s.user_ids turn.user_id)) [
    | inl mine ↦
        let reply = turn_text turn in
        let context = context_from s.gap turn (take s.context_n before) in
        let same = text_Eq.test_iff (s.without_urls reply) "" in
        rw (mine, judge_turn)
          (past_checks (IsJudged s before turn) turn.attachment_only (s.without_urls reply == "")
            (ltb (length_of (s.without_urls reply)) s.min_chars)
            (ltb (length_of (s.without_urls (without_mentions reply s.mentions))) s.min_chars)
            (has_long_number reply) (keep_with s turn reply context) (λ h. (mine, h))
            (λ h. (mine, same.0 h)) (λ h. (mine, ltb→lt _ _ h)) (λ h. (mine, ltb→lt _ _ h))
            (λ h. (mine, h))
            (λ ha hb hc hd he.
              keep_with-IsReason before turn context
                (ha, (λ e. cc (same.1 e)), ground arith, ground arith, he) mine
                (context_from-IsContext s.context_n s.gap turn before)))
    | inr other ↦ rw (other, judge_turn) other
  ]

  abbrev pub AreJudged : List SpokenTurn → List SpokenTurn → List Fate → Type 0
  AreJudged before (t ∷ ts) (v ∷ vs) = IsJudged s before t v × AreJudged (t ∷ before) ts vs
  AreJudged before [] [] = Unit
  AreJudged before ts vs = ⊥

  pub judge_turns-AreJudged :
      (before ts : List SpokenTurn) → AreJudged before ts (judge_turns s before ts)
  unfolding judge_turns
  judge_turns-AreJudged before [] = tt
  judge_turns-AreJudged before (t ∷ ts) =
      (judge_turn-IsJudged before t, judge_turns-AreJudged (t ∷ before) ts)
