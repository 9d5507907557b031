-- ===== src/Rag/Parsing.antt =====
-- rag/retrieve.py: _LINE_RE and _parse_chunk_messages. A line has no line feed. Python's casefold
-- is an argument.
use local_ai_server.Prelude.{
  List, Option, [], contains, false, if◌then◌else◌, is_empty, list_Eq, none, number_Eq, some,
  text_Eq, true, ◌++◌, ◌==◌, ◌||◌, ◌∷◌,
}
use local_ai_server.Rag.Chunking.{Text}
use local_ai_server.Rag.Lines.{split_on, splitlines, strip_text}

-- A message as it is read back: `[speaker, text]`.
pub record Said : Type 0 where
  pub speaker : Text
  pub text : Text

-- A line before its first colon, and from there.
unfoldable pub before_colon : Text → Text
before_colon [] = []
before_colon (c ∷ cs) = elim (c == 58) [ true ↦ [] | false ↦ c ∷ before_colon cs ]

unfoldable pub from_colon : Text → Text
from_colon [] = []
from_colon (c ∷ cs) = elim (c == 58) [ true ↦ c ∷ cs | false ↦ from_colon cs ]

-- The groups `user`, which is not empty, and `text`, behind a colon and a space.
abbrev pub groups : Text → Text → Option Said
groups (c ∷ cs) (colon ∷ space ∷ text) =
    if space == 32 then some (record { speaker = c ∷ cs; text = text }) else none
groups user rest = none

-- _LINE_RE.match(line)
unfoldable pub match_line : Text → Option Said
unfolding before_colon from_colon
match_line line = groups (before_colon line) (from_colon line)

-- `messages[-1][1] += "\n" + line`, where there are messages
unfoldable pub continue_last : Text → List Said → List Said
continue_last line [] = []
continue_last line (m ∷ []) = record { speaker = m.speaker; text = m.text ++ 10 ∷ line } ∷ []
continue_last line (m ∷ n ∷ ms) = m ∷ continue_last line (n ∷ ms)

abbrev pub add_line : Option Said → Text → List Said → List Said
add_line (some m) line messages = messages ++ m ∷ []
add_line none line messages = continue_last line messages

module _ (casefold : Text → Text) where
  abbrev pub known_names : List Text → List Text
  known_names [] = []
  known_names (a ∷ names) =
      if is_empty (strip_text a)
      then known_names names
      else casefold (strip_text a) ∷ known_names names

  -- The set `known`, of the metadata's authors.
  unfoldable pub known_of : Option Text → List Text
  unfolding split_on strip_text
  known_of none = []
  known_of (some names) = known_names (split_on 44 names)

  -- A match whose speaker is one of the known ones.
  unfoldable pub accept_match : List Text → Option Said → Option Said
  unfolding strip_text contains
  accept_match known none = none
  accept_match known (some m) =
      if is_empty known || contains known (casefold (strip_text m.speaker))
      then some (record { speaker = strip_text m.speaker; text = m.text })
      else none

  -- A line that starts a message.
  unfoldable pub starts : List Text → Text → Option Said
  unfolding match_line accept_match
  starts known line = accept_match known (match_line line)

  -- The loop over the lines.
  unfoldable pub read_lines : List Text → List Said → List Text → List Said
  unfolding starts continue_last
  read_lines known messages [] = messages
  read_lines known messages (line ∷ lines) =
      read_lines known (add_line (starts known line) line messages) lines

  -- _parse_chunk_messages(doc, meta), of the metadata's authors
  unfoldable pub parse_chunk_messages : Text → Option Text → List Said
  unfolding splitlines known_of read_lines
  parse_chunk_messages doc names = read_lines (known_of names) [] (splitlines doc)
