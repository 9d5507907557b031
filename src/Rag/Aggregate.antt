-- ===== src/Rag/Aggregate.antt =====
-- rag/retrieve.py: aggregate_stats. `top_n` is not negative.
use local_ai_server.Prelude.{
  Bool, List, Option, [], if◌then◌else◌, leb, length, list_Eq, ltb, none, number_Eq, some, take,
  text_Eq, ℕ, ◌&&◌, ◌++◌, ◌+◌, ◌-◌, ◌==◌, ◌||◌, ◌∷◌,
}
use local_ai_server.Prelude.Texts.{codes, codes_leb}
use local_ai_server.Prelude.Result.{Result, ok, ◌>>=◌}
use local_ai_server.Prelude.Sorting.{sort_by}
use local_ai_server.Prelude.Dict.{Dict, count_up}
use local_ai_server.Rag.Chunking.{Text}
use local_ai_server.Rag.Lines.{join_with, line_feed, strip_char, strip_text}
use local_ai_server.Rag.Rendering.{Metadata}
use local_ai_server.Rag.Parsing.{Said, parse_chunk_messages}
use local_ai_server.Rag.Filters.{
  Raised, build_document_filter, build_where_clause, given, pattern_of, term_regex,
}
use local_ai_server.Rag.Context.{Collection, Found, Library}
use local_ai_server.Rag.Search.{
  Query, fetch, is_match, messages_of, metadata_or, term_pattern, want_author,
}

pub data GroupBy : Type 0 where
  by_author : GroupBy
  by_channel : GroupBy
  by_month : GroupBy

abbrev pub group_name : GroupBy → Text
group_name by_author = codes "author"
group_name by_channel = codes "channel"
group_name by_month = codes "month"

-- The channel of a chunk, or "unknown", and its month, or "unknown" without a time.
abbrev pub channel_key : Option Text → Text
channel_key none = codes "#unknown"
channel_key (some name) = 35 ∷ name

abbrev pub month_key : (ℕ → Text) → Option ℕ → Text
month_key month none = codes "unknown"
month_key month (some t) = if t == 0 then codes "unknown" else month t

-- Under which key a message counts.
unfoldable pub key_of : (ℕ → Text) → GroupBy → Metadata → Said → Text
key_of month by_author meta m = m.speaker
key_of month by_channel meta m = channel_key meta.channel_name
key_of month by_month meta m = month_key month meta.timestamp_start

-- `counts` and `total`
pub record Tally : Type 0 where
  pub counts : Dict Text ℕ
  pub total : ℕ

abbrev pub empty_tally : Tally
empty_tally = record { counts = []; total = 0 }

-- `counts[key] = counts.get(key, 0) + 1`, and one more in total
unfoldable pub bump : Text → Tally → Tally
unfolding count_up
bump key t = record { counts = count_up key t.counts; total = t.total + 1 }

module _ (lib : Library) (pattern want : Option Text) (group_by : GroupBy) where
  -- The inner loop, over the messages of a chunk.
  unfoldable pub tally_messages : Metadata → List Said → Tally → Tally
  unfolding bump key_of
  tally_messages meta [] t = t
  tally_messages meta (m ∷ ms) t =
      tally_messages meta ms
        (if is_match lib pattern want m then bump (key_of lib.month group_by meta m) t else t)

  -- The outer loop.
  unfoldable pub tally_chunks : List Text → List (Option Metadata) → Tally → Tally
  unfolding tally_messages parse_chunk_messages
  tally_chunks (doc ∷ docs) (meta ∷ metas) t =
      tally_chunks docs metas
        (tally_messages (metadata_or meta) (messages_of lib doc (metadata_or meta)) t)
  tally_chunks docs metas t = t

-- The orders of the report: by falling count and then by key, or by key and then by count.
unfoldable pub more_counted : Text × ℕ → Text × ℕ → Bool
unfolding codes_leb
more_counted (j, v) (k, w) = ltb w v || v == w && codes_leb j k

unfoldable pub earlier_key : Text × ℕ → Text × ℕ → Bool
unfolding codes_leb
earlier_key (j, v) (k, w) = if j == k then leb v w else codes_leb j k

unfoldable pub ordered : GroupBy → Dict Text ℕ → List (Text × ℕ)
unfolding sort_by more_counted earlier_key
ordered by_author counts = sort_by more_counted counts
ordered by_channel counts = sort_by more_counted counts
ordered by_month counts = sort_by earlier_key counts

abbrev pub date_or_any : Option Text → Text
date_or_any none = codes "any"
date_or_any (some s) = s

abbrev pub hashed_each : List Text → List Text
hashed_each [] = []
hashed_each (c ∷ cs) = (35 ∷ strip_text (strip_char 35 c)) ∷ hashed_each cs

abbrev pub excluding : List Text → List Text
excluding [] = []
excluding (c ∷ cs) = (codes "excluding " ++ join_with (codes ", ") (hashed_each (c ∷ cs))) ∷ []

abbrev pub between : Option Text → Option Text → List Text
between none none = []
between start end =
    (codes "between " ++ (date_or_any start ++ (codes " and " ++ date_or_any end))) ∷ []

-- The parts of `scope`.
unfoldable pub scope_of : (Text → Text) → Query → List Text → List Text
unfolding join_with strip_text strip_char
scope_of repr q excluded =
    (elim (given q.term) [
      | none ↦ codes "messages"
      | some t ↦ codes "messages containing " ++ repr t
    ]
      ∷ pattern_of (λ a. codes "by " ++ a) (given q.author))
    ++ (pattern_of (λ c. codes "in " ++ c) (given q.channel_name)
        ++ (excluding excluded ++ between (given q.start_date) (given q.end_date)))

module _ (lib : Library) (q : Query) (excluded : List Text) (group_by : GroupBy) (top_n : ℕ) where
  abbrev pub group_lines : List (Text × ℕ) → List Text
  group_lines [] = []
  group_lines ((k, n) ∷ rest) =
      (codes "  " ++ (k ++ (codes ": " ++ lib.decimal n))) ∷ group_lines rest

  abbrev pub more_line : ℕ → ℕ → List Text
  more_line all listed =
      if ltb listed all
      then (codes "  ... and "
          ++ (lib.decimal (all - listed) ++ (32 ∷ (group_name group_by ++ codes "(s)"))))
        ∷ []
      else []

  -- The first line of the report.
  unfoldable pub heading_of : ℕ → Text
  unfolding scope_of join_with
  heading_of total =
      codes "Counts of "
      ++ (join_with (codes " ") (scope_of lib.repr q excluded)
          ++ (codes " — grouped by "
              ++ (group_name group_by ++ (codes ", " ++ (lib.decimal total ++ codes " total:\n")))))

  -- The report of the ordered counts.
  unfoldable pub report_of : List (Text × ℕ) → ℕ → Text
  unfolding heading_of join_with
  report_of all total =
      heading_of total
      ++ join_with line_feed
          (group_lines (take top_n all) ++ more_line (length all) (length (take top_n all)))

  abbrev pub render_tally : Tally → Text × ℕ
  render_tally t =
      if t.total == 0 then ([], 0) else (report_of (ordered group_by t.counts) t.total, t.total)

  abbrev pub tally_answer : Option Found → Text × ℕ
  tally_answer none = ([], 0)
  tally_answer (some a) = render_tally (
      tally_chunks lib (term_pattern lib (given q.term) q.whole_word)
        (want_author lib (given q.author)) group_by a.documents a.metadatas empty_tally)

  -- aggregate_stats
  unfoldable pub aggregate_stats : Collection → Result Raised (Text × ℕ)
  unfolding build_where_clause build_document_filter term_regex strip_char tally_chunks report_of
      ordered
  aggregate_stats collection = fetch lib collection q excluded >>= λ a. ok (tally_answer a)
