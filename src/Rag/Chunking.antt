-- ===== src/Rag/Chunking.antt =====
-- rag/ingest.py, chunk_by_conversation, _split_chunk and the size of a rendered chunk.
-- A text is the list of its characters, a timestamp is in seconds, and a chunk is its messages.
use local_ai_server.Prelude.{
  Bool, List, Option, String, [], false, if◌then◌else◌, is_empty, keep_if, leb, length, ltb, none,
  not, number_Eq, some, text_Eq, true, ℕ, ◌&&◌, ◌++◌, ◌+◌, ◌/◌, ◌==◌, ◌||◌, ◌∷◌,
}

abbrev pub Text : Type 0
Text = List ℕ

pub record Message : Type 0 where
  pub message_id : String
  pub username : Text
  pub channel_id : String
  pub channel_name : Text
  pub timestamp : ℕ
  pub content : Text
  pub caption : Option Text

abbrev pub Chunk : Type 0
Chunk = List Message

-- The property `channel_id`, of the first message.
abbrev pub channel_of : Chunk → Option String
channel_of [] = none
channel_of (m ∷ ms) = some m.channel_id

-- `messages[-1]`
unfoldable pub last_of : Message → List Message → Message
last_of m [] = m
last_of m (n ∷ ns) = last_of n ns

-- Does a message start a new chunk behind the current one?
unfoldable pub starts_new : ℕ → Chunk → Message → Bool
unfolding last_of
starts_new gap [] msg = false
starts_new gap (m ∷ ms) msg =
    not (m.channel_id == msg.channel_id) || ltb ((last_of m ms).timestamp + gap) msg.timestamp

-- The loop of chunk_by_conversation, from the chunk that it fills.
unfoldable pub group_from : ℕ → Chunk → List Message → List Chunk
unfolding starts_new
group_from gap current [] = current ∷ []
group_from gap current (m ∷ ms) = elim (starts_new gap current m) [
  | true ↦ current ∷ group_from gap (m ∷ []) ms
  | false ↦ group_from gap (current ++ m ∷ []) ms
]

abbrev pub caption_size : Option Text → ℕ
caption_size none = 0
caption_size (some []) = 0
caption_size (some (c ∷ cs)) = 10 + length (c ∷ cs)

-- The line "username: content [image: caption]" with the line break before it.
abbrev pub line_size : Message → ℕ
line_size m = 1 + (length m.username + 2 + (length m.content + caption_size m.caption))

unfoldable pub lines_size : List Message → ℕ
lines_size [] = 0
lines_size (m ∷ ms) = line_size m + lines_size ms

-- len(format_chunk_text(chunk)): the header "[#channel | YYYY-MM-DD HH:MM]" and the lines.
unfoldable pub text_size : Chunk → ℕ
unfolding lines_size
text_size [] = 0
text_size (m ∷ ms) = 22 + length m.channel_name + lines_size (m ∷ ms)

-- _estimate_tokens
unfoldable pub estimate_tokens : Chunk → ℕ
unfolding text_size
estimate_tokens chunk = text_size chunk / 4

-- The loop of _split_chunk.
unfoldable pub split_from : ℕ → Chunk → List Message → List Chunk
unfolding estimate_tokens
split_from max_tokens current [] = if is_empty current then [] else current ∷ []
split_from max_tokens current (m ∷ ms) =
    elim (ltb max_tokens (estimate_tokens (current ++ m ∷ [])) && not (is_empty current)) [
      | true ↦ current ∷ split_from max_tokens (m ∷ []) ms
      | false ↦ split_from max_tokens (current ++ m ∷ []) ms
    ]

-- The second pass: oversized chunks are split.
unfoldable pub split_all : ℕ → List Chunk → List Chunk
unfolding split_from estimate_tokens
split_all max_tokens [] = []
split_all max_tokens (c ∷ cs) =
    (if leb (estimate_tokens c) max_tokens then c ∷ [] else split_from max_tokens [] c)
    ++ split_all max_tokens cs

-- chunk_by_conversation, with the gap in seconds
unfoldable pub chunk_by_conversation : ℕ → ℕ → List Message → List Chunk
unfolding group_from split_all keep_if
chunk_by_conversation gap max_tokens [] = []
chunk_by_conversation gap max_tokens (m ∷ ms) =
    keep_if (λ c. not (is_empty c)) (split_all max_tokens (group_from gap [] (m ∷ ms)))
