-- ===== src/Trainer/Dataset/Timelines.antt =====
-- lora-training/build_dataset.py: _channel_timelines, build_examples over the channels, and
-- split_by_time.
use local_ai_server.Prelude.{
  Bool, List, Option, String, [], contains, drop, false, if◌then◌else◌, length, max, none, not,
  number_Eq, some, take, text_Eq, true, ℕ, ◌&&◌, ◌++◌, ◌-◌, ◌==◌, ◌||◌, ◌∷◌,
}
use local_ai_server.Prelude.Words.{strip}
use local_ai_server.Prelude.Texts.{codes, codes_leb}
use local_ai_server.Prelude.Sorting.{sort_by}
use local_ai_server.Prelude.Dict.{Dict, append_under, count_up}
use local_ai_server.Trainer.Dataset.Turns.{ArchiveRecord, Substitutions, turns_of}
use local_ai_server.Trainer.Dataset.Targets.{
  Fate, Settings, TrainingExample, count_verdicts, examples_of, judge_turns,
}

-- _CONVERSATION_TYPES
abbrev pub is_conversation : Option String → Bool
is_conversation none = true
is_conversation (some t) = contains ("Default" ∷ "Reply" ∷ "0" ∷ "19" ∷ []) t

abbrev pub is_excluded : List String → ArchiveRecord → Bool
is_excluded excluded r =
    contains excluded r.channel_id
    || elim r.channel_name [ none ↦ false | some name ↦ contains excluded name ]

-- The counter of a record that is dropped; `is_command` is _COMMAND_RE.match.
unfoldable pub drop_reason : (String → Bool) → List String → ArchiveRecord → Option String
unfolding contains strip
drop_reason is_command excluded r =
    if r.is_bot
    then some "dropped_bot_message"
    else if is_excluded excluded r
    then some "dropped_excluded_channel"
    else if is_command (strip r.content)
    then some "dropped_command"
    else if not (is_conversation r.type)
    then some "dropped_system_message"
    else if strip r.content == "" && not r.has_attachments
    then some "dropped_empty"
    else none

-- The channels and the counters.
pub record Timelines : Type 0 where
  pub by_channel : Dict String (List ArchiveRecord)
  pub stats : Dict String ℕ

abbrev pub file_record : Option String → ArchiveRecord → Timelines → Timelines
file_record none r t = record t { by_channel = append_under r.channel_id r t.by_channel }
file_record (some name) r t = record t { stats = count_up name t.stats }

module _ (is_command : String → Bool) (excluded : List String) where
  unfoldable pub collect : List ArchiveRecord → Timelines → Timelines
  unfolding drop_reason append_under count_up
  collect [] t = t
  collect (r ∷ rs) t = collect rs (file_record (drop_reason is_command excluded r) r t)

-- The order of a channel: by the texts of the timestamp and the id.
unfoldable pub said_before : ArchiveRecord → ArchiveRecord → Bool
unfolding codes_leb
said_before a b =
    if a.timestamp == b.timestamp
    then codes_leb (codes a.message_id) (codes b.message_id)
    else codes_leb (codes a.timestamp) (codes b.timestamp)

abbrev pub sort_channels : Dict String (List ArchiveRecord) → List (List ArchiveRecord)
sort_channels [] = []
sort_channels ((channel, rs) ∷ rest) = sort_by said_before rs ∷ sort_channels rest

module _ (s : Settings) (subs : Substitutions) (parse_ts : String → ℕ)
    (username_of : String → String) (merge_seconds : ℕ) where
  -- What becomes of the turns of every channel.
  unfoldable pub judge_channels : List (List ArchiveRecord) → List Fate
  unfolding judge_turns turns_of
  judge_channels [] = []
  judge_channels (rs ∷ rest) =
      judge_turns s [] (turns_of subs parse_ts username_of merge_seconds rs) ++ judge_channels rest

  abbrev pub is_older : TrainingExample → TrainingExample → Bool
  is_older a b = codes_leb (codes a.timestamp) (codes b.timestamp)

  -- build_examples
  unfoldable pub build_examples :
      (String → Bool) → List String → List ArchiveRecord → List TrainingExample × Dict String ℕ
  unfolding collect said_before sort_by judge_channels count_verdicts codes_leb
  build_examples is_command excluded records =
      let t = collect is_command excluded records (record { by_channel = []; stats = [] }) in
      let verdicts = judge_channels (sort_channels t.by_channel) in
      (sort_by is_older (examples_of verdicts), count_verdicts verdicts t.stats)

-- split_by_time, with int(n * eval_fraction) of a number of examples n; none where the fraction is
-- not above 0. Training examples come first.
unfoldable pub split_by_time :
    Option (ℕ → ℕ) → List TrainingExample → List TrainingExample × List TrainingExample
split_by_time none examples = (examples, [])
split_by_time (some share) [] = ([], [])
split_by_time (some share) (e ∷ es) =
    let n_eval = max 1 (share (length (e ∷ es))) in
    (take (length (e ∷ es) - n_eval) (e ∷ es), drop (length (e ∷ es) - n_eval) (e ∷ es))
