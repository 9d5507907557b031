-- ===== src/Trainer/Dataset/Targets.antt =====
-- lora-training/build_dataset.py, the inner loop of build_examples: what becomes of a turn of the
-- member, and its context.
use local_ai_server.Prelude.{
  Bool, List, Option, String, [], contains, false, if◌then◌else◌, length, ltb, none, not, number_Eq,
  some, take, text_Eq, true, ℕ, ◌++◌, ◌+◌, ◌==◌, ◌∷◌,
}
use local_ai_server.Prelude.Words.{concat, join, length_of, split}
use local_ai_server.Prelude.Dict.{Dict, count_up}
use local_ai_server.Trainer.Dataset.Turns.{SpokenTurn, turn_text, without_mentions}

-- A message of a prompt, and an example.
pub record ChatMessage : Type 0 where
  pub role : String
  pub content : String

pub record TrainingExample : Type 0 where
  pub prompt : List ChatMessage
  pub completion : List ChatMessage
  pub timestamp : String

-- What becomes of a turn, named as the counters are.
pub data Fate : Type 0 where
  not_target : Fate
  attachment_only : Fate
  link_only : Fate
  too_short : Fate
  mention_only : Fate
  long_number : Fate
  no_context : Fate
  kept : TrainingExample → Fate

-- The context, nearest turn first, out of the turns before, nearest first; `later` is the turn
-- that follows.
unfoldable pub context_from : ℕ → SpokenTurn → List SpokenTurn → List SpokenTurn
context_from gap later [] = []
context_from gap later (p ∷ ps) = elim (ltb (p.end + gap) later.start) [
  | true ↦ []
  | false ↦ p ∷ context_from gap p ps
]

-- `turns[max(0, i - context_n):i]`, nearest first, up to the first silence
unfoldable pub context_before : ℕ → ℕ → SpokenTurn → List SpokenTurn → List SpokenTurn
unfolding context_from
context_before context_n gap turn before = context_from gap turn (take context_n before)

-- _context_line
unfoldable pub context_line : SpokenTurn → String
unfolding turn_text concat
context_line t =
    let text = turn_text t in
    concat ("[" ∷ t.username ∷ "]: " ∷ (if text == "" then "[attachment]" else text) ∷ [])

-- The lines, the nearest last.
unfoldable pub context_lines : List SpokenTurn → List String
unfolding context_line
context_lines [] = []
context_lines (t ∷ ts) = context_lines ts ++ context_line t ∷ []

-- LONG_NUMBER in text
unfoldable pub has_long_number : String → Bool
unfolding split
has_long_number text = ltb 1 (length (split "[long number]" text))

abbrev pub system_part : Option String → List ChatMessage
system_part none = []
system_part (some text) = record { role = "system"; content = text } ∷ []

-- The options that the loop reads, and what it computes before.
pub record Settings : Type 0 where
  pub user_ids : List String
  pub context_n : ℕ
  pub gap : ℕ
  pub min_chars : ℕ
  pub mentions : List String
  pub system_prompt : Option String
  pub without_urls : String → String
  pub isoformat : ℕ → String

module _ (s : Settings) where
  abbrev pub example_of : SpokenTurn → String → List SpokenTurn → TrainingExample
  example_of turn reply context = record {
    prompt =
        system_part s.system_prompt
        ++ record { role = "user"; content = join "\n" (context_lines context) } ∷ [];
    completion = record { role = "assistant"; content = reply } ∷ [];
    timestamp = s.isoformat turn.start;
  }

  abbrev pub keep_with : SpokenTurn → String → List SpokenTurn → Fate
  keep_with turn reply [] = no_context
  keep_with turn reply (c ∷ cs) = kept (example_of turn reply (c ∷ cs))

  -- One turn, with the turns before it, nearest first.
  unfoldable pub judge_turn : List SpokenTurn → SpokenTurn → Fate
  unfolding contains turn_text without_mentions has_long_number context_before context_lines join
  judge_turn before turn =
      let reply = turn_text turn in
      if not (contains s.user_ids turn.user_id)
      then not_target
      else if turn.attachment_only
      then attachment_only
      else if s.without_urls reply == ""
      then link_only
      else if ltb (length_of (s.without_urls reply)) s.min_chars
      then too_short
      else if ltb (length_of (s.without_urls (without_mentions reply s.mentions))) s.min_chars
      then mention_only
      else if has_long_number reply
      then long_number
      else keep_with turn reply (context_before s.context_n s.gap turn before)

  -- The turns of a channel, with those before them, nearest first.
  unfoldable pub judge_turns : List SpokenTurn → List SpokenTurn → List Fate
  unfolding judge_turn
  judge_turns before [] = []
  judge_turns before (t ∷ ts) = judge_turn before t ∷ judge_turns (t ∷ before) ts

-- The counters that a verdict raises.
abbrev pub counters_of : Fate → List String
counters_of not_target = []
counters_of attachment_only = "target_turns" ∷ "dropped_attachment_only" ∷ []
counters_of link_only = "target_turns" ∷ "dropped_link_only" ∷ []
counters_of too_short = "target_turns" ∷ "dropped_too_short" ∷ []
counters_of mention_only = "target_turns" ∷ "dropped_mention_only" ∷ []
counters_of long_number = "target_turns" ∷ "dropped_long_number" ∷ []
counters_of no_context = "target_turns" ∷ "dropped_no_context" ∷ []
counters_of (kept e) = "target_turns" ∷ "examples" ∷ []

abbrev pub examples_of : List Fate → List TrainingExample
examples_of [] = []
examples_of (kept e ∷ vs) = e ∷ examples_of vs
examples_of (v ∷ vs) = examples_of vs

-- `stats[name] += 1`, for each name
unfoldable pub count_each : List String → Dict String ℕ → Dict String ℕ
unfolding count_up
count_each [] stats = stats
count_each (name ∷ names) stats = count_each names (count_up name stats)

unfoldable pub count_verdicts : List Fate → Dict String ℕ → Dict String ℕ
unfolding count_each
count_verdicts [] stats = stats
count_verdicts (v ∷ vs) stats = count_verdicts vs (count_each (counters_of v) stats)
