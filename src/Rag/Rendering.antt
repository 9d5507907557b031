-- ===== src/Rag/Rendering.antt =====
-- rag/ingest.py: format_chunk_text, the properties of Chunk and _build_metadata. The date of the
-- header is what strftime gives for "%Y-%m-%d %H" and for "%M".
use local_ai_server.Prelude.{
  List, Option, String, [], ap, arith, length, length-append, list_Eq, none, number_Eq, refl, some,
  text_Eq, ℕ, ◌++◌, ◌+◌, ◌∙◌, ◌∷◌, ◌≡◌,
}
use local_ai_server.Prelude.Dict.{Dict, insert, keys}
use local_ai_server.Prelude.Words.{concat, join}
use local_ai_server.Prelude.Texts.{codes}
use local_ai_server.Rag.Chunking.{
  Chunk, Message, Text, caption_size, last_of, line_size, lines_size, text_size,
}
use local_ai_server.Rag.Lines.{join_with, line_feed}

-- A message's text with the caption of its image.
abbrev pub captioned : Text → Option Text → Text
captioned content none = content
captioned content (some []) = content
captioned content (some (c ∷ cs)) = content ++ (codes " [image: " ++ ((c ∷ cs) ++ codes "]"))

abbrev pub body_of : Message → Text
body_of m = captioned m.content m.caption

unfoldable pub line_of : Message → Text
line_of m = m.username ++ (codes ": " ++ body_of m)

unfoldable pub lines_of_messages : List Message → List Text
unfolding line_of
lines_of_messages [] = []
lines_of_messages (m ∷ ms) = line_of m ∷ lines_of_messages ms

module _ (hour minute : ℕ → Text) where
  -- "[#channel | date]", of the first message
  unfoldable pub header_of : Message → Text
  header_of m =
      codes "[#"
      ++ (m.channel_name
          ++ (codes " | " ++ (hour m.timestamp ++ 58 ∷ (minute m.timestamp ++ codes "]"))))

  unfoldable pub format_chunk_text : Chunk → Text
  unfolding header_of lines_of_messages join_with
  format_chunk_text [] = []
  format_chunk_text (m ∷ ms) = join_with line_feed (header_of m ∷ lines_of_messages (m ∷ ms))

-- `dict.fromkeys(names)`, onto a dictionary
unfoldable pub from_keys : Dict Text Unit → List Text → Dict Text Unit
unfolding insert
from_keys d [] = d
from_keys d (name ∷ names) = from_keys (insert name tt d) names

abbrev pub usernames_of : List Message → List Text
usernames_of [] = []
usernames_of (m ∷ ms) = m.username ∷ usernames_of ms

-- The property `authors`
unfoldable pub authors_of : Chunk → List Text
unfolding from_keys keys
authors_of chunk = keys (from_keys [] (usernames_of chunk))

-- The property `message_ids`
unfoldable pub ids_in : Chunk → List String
ids_in [] = []
ids_in (m ∷ ms) = m.message_id ∷ ids_in ms

-- The property `chunk_id`, with the digest of a text.
unfoldable pub id_of : (String → String) → Chunk → String
unfolding concat
id_of sha256 [] = sha256 ""
id_of sha256 (m ∷ ms) = sha256 (concat (m.channel_id ∷ ":" ∷ m.message_id ∷ []))

-- What the collection keeps of a chunk beside its text; a field may be missing there.
pub record Metadata : Type 0 where
  pub chunk_id : Option String
  pub channel_id : Option String
  pub channel_name : Option Text
  pub timestamp_start : Option ℕ
  pub timestamp_end : Option ℕ
  pub authors : Option Text
  pub message_count : Option String
  pub message_ids : Option String

module _ (sha256 : String → String) (decimal : ℕ → String) where
  -- _build_metadata, of a chunk with messages
  unfoldable pub build_metadata : Message → List Message → Metadata
  unfolding authors_of ids_in id_of last_of join join_with
  build_metadata m ms = record {
    chunk_id = some (id_of sha256 (m ∷ ms));
    channel_id = some m.channel_id;
    channel_name = some m.channel_name;
    timestamp_start = some m.timestamp;
    timestamp_end = some (last_of m ms).timestamp;
    authors = some (join_with (codes ",") (authors_of (m ∷ ms)));
    message_count = some (decimal (length (m ∷ ms)));
    message_ids = some (join "," (ids_in (m ∷ ms)));
  }

module _ (hour minute : ℕ → Text) (hour_length : (t : ℕ) → length (hour t) ≡ 13)
    (minute_length : (t : ℕ) → length (minute t) ≡ 2) where
  length-captioned :
      (content : Text) (caption : Option Text)
      → length (captioned content caption) ≡ length content + caption_size caption
  length-captioned content none = omega arith
  length-captioned content (some []) = omega arith
  length-captioned content (some (c ∷ cs)) =
      rw
        (
          length-append content (codes " [image: " ++ ((c ∷ cs) ++ codes "]")),
          length-append cs (codes "]"),
        )
        (omega arith)

  length-line_of : (m : Message) → 1 + length (line_of m) ≡ line_size m
  unfolding line_of
  length-line_of m =
      rw (length-append m.username (codes ": " ++ body_of m), length-captioned m.content m.caption)
        (omega arith)

  length-join_lines :
      (l : Text) (ms : List Message)
      → length (join_with line_feed (l ∷ lines_of_messages ms)) ≡ length l + lines_size ms
  unfolding join_with lines_of_messages lines_size
  length-join_lines l [] = omega arith
  length-join_lines l (m ∷ ms) =
      rw (length-append l (line_feed ++ join_with line_feed (line_of m ∷ lines_of_messages ms)))
        (omega (arith, length-join_lines (line_of m) ms, length-line_of m))

  length-header_of : (m : Message) → length (header_of hour minute m) ≡ 22 + length m.channel_name
  unfolding header_of
  length-header_of m = omega (
    arith,
    length-append m.channel_name
        (codes " | " ++ (hour m.timestamp ++ 58 ∷ (minute m.timestamp ++ codes "]"))),
    length-append (hour m.timestamp) (58 ∷ (minute m.timestamp ++ codes "]")),
    length-append (minute m.timestamp) (codes "]"),
    hour_length m.timestamp,
    minute_length m.timestamp,
  )

  -- Where strftime gives a date of 13 characters with the hour, and a minute of two, the size by
  -- which chunks are split is the length of the rendered text.
  pub length-format_chunk_text :
      (chunk : Chunk) → length (format_chunk_text hour minute chunk) ≡ text_size chunk
  unfolding format_chunk_text text_size
  length-format_chunk_text [] = refl
  length-format_chunk_text (m ∷ ms) =
      length-join_lines (header_of hour minute m) (m ∷ ms)
      ∙ ap (λ n. n + lines_size (m ∷ ms)) (length-header_of m)
