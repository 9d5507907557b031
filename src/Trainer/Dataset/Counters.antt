-- ===== src/Trainer/Dataset/Counters.antt =====
-- lora-training/build_dataset.py, build_examples: the counters of the turns.
use local_ai_server.Prelude.{
  Bool, List, String, [], arith, contains, false, if◌then◌else◌, keep_if, length, list_Eq,
  number_Eq, occurrences, refl, text_Eq, true, ℕ, ◌+◌, ◌∙◌, ◌∷◌, ◌≡◌,
}
use local_ai_server.Prelude.Dict.{Dict, count_up, lookup, or_zero, or_zero-count_up}
use local_ai_server.Trainer.Dataset.Turns.{SpokenTurn}
use local_ai_server.Trainer.Dataset.Targets.{
  Fate, Settings, attachment_only, count_each, count_verdicts, counters_of, examples_of,
  judge_turns, kept, link_only, long_number, mention_only, no_context, not_target, too_short,
}
use local_ai_server.Trainer.Dataset.Contexts.{AreJudged, IsJudged, judge_turns-AreJudged}

-- How often a counter is raised.
abbrev raised : String → List Fate → ℕ
raised name [] = 0
raised name (v ∷ vs) = occurrences name (counters_of v) + raised name vs

or_zero-count_each :
    (k : String) (names : List String) (d : Dict String ℕ)
    → or_zero (lookup k (count_each names d)) ≡ or_zero (lookup k d) + occurrences k names
unfolding count_each occurrences
or_zero-count_each k [] d = omega arith
or_zero-count_each k (n ∷ names) d =
    omega (arith, or_zero-count_each k names (count_up n d), or_zero-count_up n k d)

or_zero-count_verdicts :
    (k : String) (vs : List Fate) (d : Dict String ℕ)
    → or_zero (lookup k (count_verdicts vs d)) ≡ or_zero (lookup k d) + raised k vs
unfolding count_verdicts
or_zero-count_verdicts k [] d = omega arith
or_zero-count_verdicts k (v ∷ vs) d = omega (
  arith,
  or_zero-count_verdicts k vs (count_each (counters_of v) d),
  or_zero-count_each k (counters_of v) d,
)

raised-targets :
    (vs : List Fate)
    → raised "target_turns" vs
      ≡ raised "examples" vs
        + raised "dropped_attachment_only" vs
        + raised "dropped_link_only" vs
        + raised "dropped_too_short" vs
        + raised "dropped_mention_only" vs
        + raised "dropped_long_number" vs
        + raised "dropped_no_context" vs
unfolding occurrences
raised-targets [] = refl
raised-targets (not_target ∷ vs) = omega (arith, raised-targets vs)
raised-targets (attachment_only ∷ vs) = omega (arith, raised-targets vs)
raised-targets (link_only ∷ vs) = omega (arith, raised-targets vs)
raised-targets (too_short ∷ vs) = omega (arith, raised-targets vs)
raised-targets (mention_only ∷ vs) = omega (arith, raised-targets vs)
raised-targets (long_number ∷ vs) = omega (arith, raised-targets vs)
raised-targets (no_context ∷ vs) = omega (arith, raised-targets vs)
raised-targets (kept e ∷ vs) = omega (arith, raised-targets vs)

raised-examples : (vs : List Fate) → raised "examples" vs ≡ length (examples_of vs)
unfolding occurrences
raised-examples [] = refl
raised-examples (not_target ∷ vs) = omega (arith, raised-examples vs)
raised-examples (attachment_only ∷ vs) = omega (arith, raised-examples vs)
raised-examples (link_only ∷ vs) = omega (arith, raised-examples vs)
raised-examples (too_short ∷ vs) = omega (arith, raised-examples vs)
raised-examples (mention_only ∷ vs) = omega (arith, raised-examples vs)
raised-examples (long_number ∷ vs) = omega (arith, raised-examples vs)
raised-examples (no_context ∷ vs) = omega (arith, raised-examples vs)
raised-examples (kept e ∷ vs) = omega (arith, raised-examples vs)

abbrev pub counted : List Fate → String → ℕ
counted vs name = or_zero (lookup name (count_verdicts vs []))

counted-raised : (vs : List Fate) (name : String) → counted vs name ≡ raised name vs
unfolding lookup
counted-raised vs name = omega (arith, or_zero-count_verdicts name vs [])

abbrev pub is_mine : Settings → SpokenTurn → Bool
is_mine s turn = contains s.user_ids turn.user_id

abbrev is_target : Fate → Bool
is_target not_target = false
is_target v = true

raised-target :
    (v : Fate) → occurrences "target_turns" (counters_of v) ≡ (if is_target v then 1 else 0)
unfolding occurrences
raised-target not_target = refl
raised-target attachment_only = refl
raised-target link_only = refl
raised-target too_short = refl
raised-target mention_only = refl
raised-target long_number = refl
raised-target no_context = refl
raised-target (kept e) = refl

IsJudged-is_mine :
    (s : Settings) (before : List SpokenTurn) (turn : SpokenTurn) (v : Fate)
    → IsJudged s before turn v
    → is_mine s turn ≡ is_target v
IsJudged-is_mine s before turn not_target h = h
IsJudged-is_mine s before turn attachment_only h = h.0
IsJudged-is_mine s before turn link_only h = h.0
IsJudged-is_mine s before turn too_short h = h.0
IsJudged-is_mine s before turn mention_only h = h.0
IsJudged-is_mine s before turn long_number h = h.0
IsJudged-is_mine s before turn no_context h = h.0
IsJudged-is_mine s before turn (kept e) h = h.0

raised-is_mine :
    (s : Settings) (before ts : List SpokenTurn) (vs : List Fate)
    → AreJudged s before ts vs
    → raised "target_turns" vs ≡ length (keep_if (is_mine s) ts)
unfolding keep_if
raised-is_mine s before [] [] h = refl
raised-is_mine s before [] (v ∷ vs) h = absurd h
raised-is_mine s before (t ∷ ts) [] h = absurd h
raised-is_mine s before (t ∷ ts) (v ∷ vs) h = ground (
  arith,
  raised-target v,
  IsJudged-is_mine s before t v h.0,
  raised-is_mine s (t ∷ before) ts vs h.1,
)

-- Of the turns of a channel, an example is made of a turn of the member and of its context: the
-- turns directly before it, as many as there are, at most `context_n` and without a silence longer
-- than the gap, and at least one; a turn that is dropped for want of a context has none, a turn
-- that is dropped for another reason is the member's and the reason holds of it, and none of those
-- reasons holds of an example. The turns of the member are counted, and each of them as an example
-- or under one reason why it was dropped.
pub judge_turns-IsDataset :
    (s : Settings) (ts : List SpokenTurn)
    → AreJudged s [] ts (judge_turns s [] ts)
      × (counted (judge_turns s [] ts) "examples" ≡ length (examples_of (judge_turns s [] ts)))
      × (counted (judge_turns s [] ts) "target_turns" ≡ length (keep_if (is_mine s) ts))
      × (counted (judge_turns s [] ts) "target_turns"
          ≡ counted (judge_turns s [] ts) "examples"
            + counted (judge_turns s [] ts) "dropped_attachment_only"
            + counted (judge_turns s [] ts) "dropped_link_only"
            + counted (judge_turns s [] ts) "dropped_too_short"
            + counted (judge_turns s [] ts) "dropped_mention_only"
            + counted (judge_turns s [] ts) "dropped_long_number"
            + counted (judge_turns s [] ts) "dropped_no_context")
judge_turns-IsDataset s ts =
    let vs = judge_turns s [] ts in
    (
      judge_turns-AreJudged s [] ts,
      counted-raised vs "examples" ∙ raised-examples vs,
      counted-raised vs "target_turns" ∙ raised-is_mine s [] ts vs (judge_turns-AreJudged s [] ts),
      omega (
        arith,
        raised-targets vs,
        counted-raised vs "target_turns",
        counted-raised vs "examples",
        counted-raised vs "dropped_attachment_only",
        counted-raised vs "dropped_link_only",
        counted-raised vs "dropped_too_short",
        counted-raised vs "dropped_mention_only",
        counted-raised vs "dropped_long_number",
        counted-raised vs "dropped_no_context",
      ),
    )
