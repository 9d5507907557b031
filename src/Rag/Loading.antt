-- ===== src/Rag/Loading.antt =====
-- rag/ingest.py: _parse_timestamp, _extract_caption, _record_to_message, load_archive, the batches
-- of embed_and_upsert, and run_ingest. The .jsonl files are given in the order of their names, and
-- datetime.fromisoformat is an argument.
use local_ai_server.Prelude.{
  Bool, List, Option, String, [], drop, false, if◌then◌else◌, is_empty, keep_if, leb, length, none,
  number_Eq, some, suc, take, text_Eq, true, zero, ℕ, ◌&&◌, ◌++◌, ◌+◌, ◌==◌, ◌∷◌,
}
use local_ai_server.Prelude.Sorting.{sort_by}
use local_ai_server.Prelude.Texts.{codes, codes_leb}
use local_ai_server.Rag.Chunking.{Chunk, Message, Text, chunk_by_conversation}
use local_ai_server.Rag.Lines.{strip_text}
use local_ai_server.Rag.Filters.{given, replace_z}

pub record IngestAttachment : Type 0 where
  pub caption_status : Option String
  pub caption : Option Text

-- A line of the archive, parsed.
pub record RawRecord : Type 0 where
  pub message_id : String
  pub username : Text
  pub channel_id : String
  pub channel_name : Text
  pub timestamp : Text
  pub content : Option Text
  pub attachments : List IngestAttachment

-- Blank, no JSON, or a record.
pub data ArchiveLine : Type 0 where
  blank : ArchiveLine
  no_json : ArchiveLine
  entry : RawRecord → ArchiveLine

abbrev pub done_caption : Option String → Option Text → Option Text
done_caption none caption = none
done_caption (some status) caption = if status == "done" then given caption else none

-- _extract_caption
unfoldable pub extract_caption : List IngestAttachment → Option Text
extract_caption [] = none
extract_caption (a ∷ rest) = elim (done_caption a.caption_status a.caption) [
  | none ↦ extract_caption rest
  | some caption ↦ some caption
]

abbrev pub or_no_text : Option Text → Text
or_no_text none = []
or_no_text (some s) = s

abbrev pub has_no_text : Option Text → Bool
has_no_text none = true
has_no_text (some s) = false

-- The batches of at most `size` chunks, with a fuel of one for each chunk.
unfoldable pub batches_from : ℕ → ℕ → List Chunk → List (List Chunk)
batches_from zero size chunks = []
batches_from (suc fuel) size [] = []
batches_from (suc fuel) size (c ∷ cs) =
    take size (c ∷ cs) ∷ batches_from fuel size (drop size (c ∷ cs))

-- CHROMA_MAX_BATCH_SIZE
abbrev pub batch_size : ℕ
batch_size = 5000

-- The upserts of embed_and_upsert; each batch takes a chunk, so that there are at most as many.
unfoldable pub upserts_of : List Chunk → List (List Chunk)
unfolding batches_from
upserts_of chunks = batches_from (length chunks) batch_size chunks

abbrev pub upserted : List (List Chunk) → ℕ
upserted [] = 0
upserted (batch ∷ rest) = length batch + upserted rest

-- The order of `messages.sort`.
unfoldable pub stands_before : Message → Message → Bool
unfolding codes_leb
stands_before a b =
    if a.channel_id == b.channel_id
    then leb a.timestamp b.timestamp
    else codes_leb (codes a.channel_id) (codes b.channel_id)

-- The result of run_ingest, and the upserts that it made.
pub record IngestRun : Type 0 where
  pub messages_loaded : ℕ
  pub chunks_created : ℕ
  pub chunks_upserted : ℕ
  pub upserts : List (List Chunk)

module _ (fromisoformat : Text → Option ℕ) where
  -- _parse_timestamp
  unfoldable pub parse_timestamp : Text → Option ℕ
  unfolding replace_z
  parse_timestamp [] = none
  parse_timestamp (c ∷ cs) = fromisoformat (replace_z (c ∷ cs))

  abbrev pub message_at : RawRecord → Option ℕ → List Message
  message_at r none = []
  message_at r (some t) =
      if is_empty (strip_text (or_no_text r.content)) && has_no_text (extract_caption r.attachments)
      then []
      else record {
        message_id = r.message_id;
        username = r.username;
        channel_id = r.channel_id;
        channel_name = r.channel_name;
        timestamp = t;
        content = or_no_text r.content;
        caption = extract_caption r.attachments;
      }
        ∷ []

  -- _record_to_message: no message or one
  unfoldable pub record_to_message : RawRecord → List Message
  unfolding parse_timestamp extract_caption strip_text
  record_to_message r = message_at r (parse_timestamp r.timestamp)

  abbrev pub line_message : ArchiveLine → List Message
  line_message blank = []
  line_message no_json = []
  line_message (entry r) = record_to_message r

  unfoldable pub load_lines : List ArchiveLine → List Message
  unfolding record_to_message
  load_lines [] = []
  load_lines (l ∷ ls) = line_message l ++ load_lines ls

  -- `since_dt and msg.timestamp < since_dt` drops a message.
  abbrev pub since_of : Option Text → Option ℕ
  since_of none = none
  since_of (some s) = parse_timestamp s

  abbrev pub is_since : Option ℕ → Message → Bool
  is_since none m = true
  is_since (some t) m = leb t m.timestamp

  abbrev pub all_lines : List (List ArchiveLine) → List ArchiveLine
  all_lines [] = []
  all_lines (f ∷ fs) = f ++ all_lines fs

  -- load_archive, of the lines of the files
  unfoldable pub load_archive : List (List ArchiveLine) → Option Text → List Message
  unfolding load_lines keep_if sort_by stands_before
  load_archive files since =
      sort_by stands_before (keep_if (is_since (since_of since)) (load_lines (all_lines files)))

  -- run_ingest, with the gap in seconds
  unfoldable pub run_ingest : List (List ArchiveLine) → Option Text → ℕ → ℕ → IngestRun
  unfolding load_archive chunk_by_conversation upserts_of
  run_ingest files since gap max_tokens =
      let messages = load_archive files since in
      let chunks = chunk_by_conversation gap max_tokens messages in
      record {
        messages_loaded = length messages;
        chunks_created = length chunks;
        chunks_upserted = upserted (upserts_of chunks);
        upserts = upserts_of chunks;
      }
