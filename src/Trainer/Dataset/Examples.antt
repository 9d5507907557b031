-- ===== src/Trainer/Dataset/Examples.antt =====
-- A short channel, its turns and the example that is made of it.
use local_ai_server.Prelude.{
  List, String, [], false, keep_if, length, list_Eq, none, number_Eq, refl, some, text_Eq, ℕ, ◌+◌,
  ◌==◌, ◌∷◌, ◌≡◌,
}
use local_ai_server.Trainer.Dataset.Merging.{AreMerged, concat_records, turns_of-AreMerged}
use local_ai_server.Prelude.Words.{length_of}
use local_ai_server.Trainer.Dataset.Turns.{
  ArchiveRecord, IsSeparated, SpokenTurn, Substitutions, turns_of,
}
use local_ai_server.Trainer.Dataset.Targets.{Settings, TrainingExample, examples_of, judge_turns}
use local_ai_server.Trainer.Dataset.Contexts.{AreJudged}
use local_ai_server.Trainer.Dataset.Counters.{counted, is_mine, judge_turns-IsDataset}
use local_ai_server.Trainer.Dataset.Timelines.{build_examples, split_by_time}

abbrev same : String → String
same s = s

abbrev unchanged : Substitutions
unchanged = record {
  replace_links = same;
  user_mentions = same;
  channel_mentions = same;
  role_mentions = same;
  custom_emoji = same;
  long_numbers = same;
  scrub_pii = same;
}

-- The timestamps are numbers of strokes.
abbrev strokes : String → ℕ
strokes s = length_of s

abbrev wrote : String → String → String → String → ArchiveRecord
wrote id user time content = record {
  message_id = id;
  user_id = user;
  channel_id = "c";
  channel_name = some "lore";
  timestamp = time;
  content = content;
  type = none;
  is_bot = false;
  has_attachments = false;
  mentions = [];
}

-- In the archive the answer stands first; a command is dropped.
abbrev archive : List ArchiveRecord
archive =
    wrote "3" "bob" "iiii" "I was asleep"
    ∷ wrote "1" "ann" "i" "where were you "
    ∷ wrote "2" "ann" "ii" "yesterday"
    ∷ wrote "4" "ann" "iiii" "!play"
    ∷ []

abbrev channel : List ArchiveRecord
channel =
    wrote "1" "ann" "i" "where were you "
    ∷ wrote "2" "ann" "ii" "yesterday"
    ∷ wrote "3" "bob" "iiii" "I was asleep"
    ∷ []

abbrev settings : Settings
settings = record {
  user_ids = "bob" ∷ [];
  context_n = 4;
  gap = 3;
  min_chars = 5;
  mentions = [];
  system_prompt = none;
  without_urls = same;
  isoformat = λ t. "then";
}

abbrev answered : TrainingExample
answered = record {
  prompt = record { role = "user"; content = "[ann]: where were you\nyesterday" } ∷ [];
  completion = record { role = "assistant"; content = "I was asleep" } ∷ [];
  timestamp = "then";
}

built :
    build_examples settings unchanged strokes same 2 (λ s. s == "!play") [] archive
    ≡ (answered ∷ [], ("dropped_command", 1) ∷ ("target_turns", 1) ∷ ("examples", 1) ∷ [])
unfolding build_examples
built = refl

-- At least one example is kept for the evaluation.
parted : split_by_time (some (λ n. 0)) (answered ∷ answered ∷ []) ≡ (answered ∷ [], answered ∷ [])
unfolding split_by_time
parted = refl

turns_of-AreMerged_example :
    (groups : List (List ArchiveRecord)) × (concat_records groups ≡ channel)
    × AreMerged unchanged strokes same 2 (turns_of unchanged strokes same 2 channel) groups
    × IsSeparated unchanged strokes same 2 (turns_of unchanged strokes same 2 channel)
turns_of-AreMerged_example = turns_of-AreMerged unchanged strokes same 2 channel

abbrev turns : List SpokenTurn
turns = turns_of unchanged strokes same 2 channel

judge_turns-IsDataset_example :
    AreJudged settings [] turns (judge_turns settings [] turns)
    × (counted (judge_turns settings [] turns) "examples"
        ≡ length (examples_of (judge_turns settings [] turns)))
    × (counted (judge_turns settings [] turns) "target_turns"
        ≡ length (keep_if (is_mine settings) turns))
    × (counted (judge_turns settings [] turns) "target_turns"
        ≡ counted (judge_turns settings [] turns) "examples"
          + counted (judge_turns settings [] turns) "dropped_attachment_only"
          + counted (judge_turns settings [] turns) "dropped_link_only"
          + counted (judge_turns settings [] turns) "dropped_too_short"
          + counted (judge_turns settings [] turns) "dropped_mention_only"
          + counted (judge_turns settings [] turns) "dropped_long_number"
          + counted (judge_turns settings [] turns) "dropped_no_context")
judge_turns-IsDataset_example = judge_turns-IsDataset settings turns
