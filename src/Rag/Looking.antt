-- ===== src/Rag/Looking.antt =====
-- A rendered chunk read back, searched and counted, and the theorems at it.
use local_ai_server.Prelude.{
  All, Bool, List, Option, String, [], contains, false, if◌then◌else◌, inl, keep_if, length,
  list_Eq, none, number_Eq, occurrences, refl, some, take, text_Eq, true, ℕ, ◌++◌, ◌==◌, ◌∷◌, ◌≡◌,
  ◌≤◌,
}
use local_ai_server.Prelude.Result.{ok}
use local_ai_server.Prelude.Texts.{codes}
use local_ai_server.Rag.Chunking.{Message, Text}
use local_ai_server.Rag.Lines.{is_break, join_with, line_feed, split_on, strip_text}
use local_ai_server.Rag.Rendering.{Metadata, authors_of, format_chunk_text}
use local_ai_server.Rag.Parsing.{known_of, parse_chunk_messages, starts}
use local_ai_server.Rag.Filters.{Clause, Where, all_of, build_where_clause, only}
use local_ai_server.Rag.RoundTrip.{IsWritable, parse_chunk_messages-format_chunk_text, spoken}
use local_ai_server.Rag.Scope.{
  IsAccepted, build_where_clause-selects, in_scope, meets, meets_all, selected,
}
use local_ai_server.Rag.Context.{Collection, Found, Library, separator}
use local_ai_server.Rag.Search.{KeptChunk, Query, blocks_of, fetch, search_literal}
use local_ai_server.Rag.Aggregate.{aggregate_stats, by_author, group_lines, heading_of, more_line}
use local_ai_server.Rag.Ranking.{IsRanked, chunks_with_meant, has_hit, search_literal-ranks}
use local_ai_server.Rag.Tallying.{sum_counts}
use local_ai_server.Rag.Tally.{IsListed, aggregate_stats-counts, keys_for}
use mathlib.Core.List.{Perm}

abbrev spoke : String → Text → Option Text → Message
spoke name content caption = record {
  message_id = "1";
  username = codes name;
  channel_id = "a";
  channel_name = codes "lore";
  timestamp = 100;
  content = content;
  caption = caption;
}

abbrev folded : Text → Text
folded s = s

abbrev hour_text : ℕ → Text
hour_text t = codes "2024-05-01 10"

abbrev minute_text : ℕ → Text
minute_text t = codes "07"

-- A message of two lines, and one with an image.
abbrev first_said : Message
first_said = spoke "ann" (codes "hello\nnote: old") none

abbrev then_said : List Message
then_said = spoke "bob" (codes "look") (some (codes "a hat")) ∷ []

read_back :
    parse_chunk_messages folded
      (format_chunk_text hour_text minute_text (first_said ∷ then_said))
      (some (codes "ann,bob"))
    ≡ record { speaker = codes "ann"; text = codes "hello\nnote: old" }
      ∷ record { speaker = codes "bob"; text = codes "look [image: a hat]" }
      ∷ []
unfolding parse_chunk_messages format_chunk_text
read_back = refl

talk-IsWritable : IsWritable folded hour_text minute_text first_said then_said
unfolding is_break contains strip_text split_on known_of starts authors_of join_with
talk-IsWritable = (
  (refl, refl, refl, refl, refl, refl),
  ((refl, refl, refl, refl, refl), ((refl, refl, refl, refl, refl), tt)),
  (((refl, (refl, tt)), (refl, tt), refl), (((refl, tt), tt, refl), tt)),
)

parse_chunk_messages-format_chunk_text_example :
    parse_chunk_messages folded
      (format_chunk_text hour_text minute_text (first_said ∷ then_said))
      (some (join_with (codes ",") (authors_of (first_said ∷ then_said))))
    ≡ spoken (first_said ∷ then_said)
parse_chunk_messages-format_chunk_text_example =
    parse_chunk_messages-format_chunk_text folded hour_text minute_text first_said then_said
      talk-IsWritable

-- A database that evaluates the operators.
abbrev chooses : Metadata → Where Clause → Bool
chooses m (only c) = meets m c
chooses m (all_of cs) = meets_all m cs

-- Reads every date as the second 60.
abbrev minute_one : Text → Option ℕ
minute_one s = some 60

build_where_clause-selects_example :
    (w : Option (Where Clause)) × (build_where_clause minute_one
        (some (codes "lore"))
        (some (codes "Z"))
        none
        (codes "#log" ∷ [])
      ≡ ok w)
    × IsAccepted w
    × ((m : Metadata)
        → selected chooses (λ m c. refl) (λ m cs. refl) m w
          ≡ in_scope (some (codes "lore")) (some 60) none (codes "#log" ∷ []) m)
build_where_clause-selects_example =
    build_where_clause-selects chooses (λ m c. refl) (λ m cs. refl) minute_one (some (codes "lore"))
      (some (codes "Z")) none (codes "#log" ∷ []) (some 60) none (60, refl, refl) refl

-- Chunks of different times, the later one first; both are found.
abbrev meta_at : ℕ → Metadata
meta_at t = record {
  chunk_id = none;
  channel_id = none;
  channel_name = some (codes "lore");
  timestamp_start = some t;
  timestamp_end = some t;
  authors = some (codes "ann,bob");
  message_count = none;
  message_ids = none;
}

abbrev two_chunks : Found
two_chunks = record {
  documents = codes "ann: hi\nbob: hey" ∷ codes "bob: oh\nann: no" ∷ [];
  metadatas = some (meta_at 200) ∷ some (meta_at 100) ∷ [];
}

abbrev stored : Collection
stored = record { connects = true; get = λ w d. some two_chunks }

-- Searches for the letter h, and cannot read dates.
abbrev letters : Library
letters = record {
  casefold = folded;
  escape = folded;
  search = λ p s. contains s 104;
  fromisoformat = λ s. none;
  decimal = λ n. codes "n";
  repr = folded;
  month = λ t. codes "2024-05";
}

abbrev about_h : Option Text → Query
about_h start = record {
  term = some (codes "h");
  author = some (codes "@bob");
  channel_name = none;
  start_date = start;
  end_date = none;
  whole_word = false;
}

-- The second chunk is the earlier one.
searched :
    search_literal letters stored (about_h none) false 1
    ≡ ok (codes ">>> MATCH — bob: oh\n--- full conversation ---\nbob: oh\nann: no", 2)
unfolding search_literal contains
searched = refl

counted :
    aggregate_stats letters (about_h none) (codes "#log" ∷ []) by_author 5 stored
    ≡ ok (
      codes
          "Counts of messages containing h by @bob excluding #log — grouped by author, n total:\n  bob: n",
      2,
    )
unfolding aggregate_stats contains
counted = refl

fetched : fetch letters stored (about_h none) [] ≡ ok (some two_chunks)
unfolding build_where_clause
fetched = refl

search_literal-ranks_example :
    (r : List KeptChunk) × Perm r (
      keep_if has_hit
        (chunks_with_meant letters (about_h none) two_chunks.documents two_chunks.metadatas))
    × IsRanked true r
    × (search_literal letters stored (about_h none) true 1
        ≡ ok (join_with separator (blocks_of letters.decimal (take 1 r)), length r))
search_literal-ranks_example =
    search_literal-ranks letters stored (about_h none) true 1 two_chunks fetched
      (inl (104, [], refl))

aggregate_stats-counts_example :
    let keys = keys_for letters stored (about_h none) [] by_author 5 two_chunks in
    (all : List (Text × ℕ)) × All (λ p. (p.1 ≡ occurrences p.0 keys) × (1 ≤ p.1)) all
    × (sum_counts all ≡ length keys)
    × IsListed by_author all
    × (aggregate_stats letters (about_h none) [] by_author 5 stored
        ≡ ok (
            if length keys == 0 then ([], 0) else (
              heading_of letters (about_h none) [] by_author 5 (length keys)
                  ++ join_with line_feed (
                      group_lines letters (about_h none) [] by_author 5 (take 5 all)
                      ++ more_line letters
                          (about_h none)
                          []
                          by_author
                          5
                          (length all)
                          (length (take 5 all))),
              length keys,
            )))
aggregate_stats-counts_example =
    aggregate_stats-counts letters stored (about_h none) [] by_author 5 two_chunks fetched
