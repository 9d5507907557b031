-- ===== src/Rag/Examples.antt =====
-- A small archive, cut into chunks, and the theorems at it.
use local_ai_server.Prelude.{
  List, Option, String, [], length, list_Eq, none, number_Eq, refl, some, text_Eq, ℕ, ◌∷◌, ◌≡◌,
}
use local_ai_server.Prelude.Texts.{codes}
use local_ai_server.Rag.Chunking.{Chunk, Message, Text, chunk_by_conversation}
use local_ai_server.Rag.Loading.{ArchiveLine, blank, entry, load_archive, no_json}

abbrev said : String → String → ℕ → String → Message
said id channel time content = record {
  message_id = id;
  username = codes "ann";
  channel_id = channel;
  channel_name = codes "general";
  timestamp = time;
  content = codes content;
  caption = none;
}

-- Two in a row, one after an hour, one in another channel.
abbrev talk : List Message
talk =
    said "1" "a" 100 "hello there"
    ∷ said "2" "a" 160 "hi"
    ∷ said "3" "a" 4000 "back again"
    ∷ said "4" "b" 4010 "elsewhere"
    ∷ []

lengths : List Chunk → List ℕ
lengths [] = []
lengths (c ∷ cs) = length c ∷ lengths cs

talk_chunks : lengths (chunk_by_conversation 1800 512 talk) ≡ 2 ∷ 1 ∷ 1 ∷ []
unfolding chunk_by_conversation lengths
talk_chunks = refl

-- With room for one message only, each oversized chunk is split.
talk_split : lengths (chunk_by_conversation 1800 12 talk) ≡ 1 ∷ 1 ∷ 1 ∷ 1 ∷ []
unfolding chunk_by_conversation lengths
talk_split = refl

-- Every date is the second of its number of characters; two files, one line of blanks.
abbrev seconds : Text → Option ℕ
seconds s = some (length s)

abbrev line_at : String → String → Text → ArchiveLine
line_at id channel content = entry (record {
  message_id = id;
  username = codes "ann";
  channel_id = channel;
  channel_name = codes "general";
  timestamp = codes id;
  content = some content;
  attachments = [];
})

abbrev archive_files : List (List ArchiveLine)
archive_files =
    (line_at "22" "b" (codes "two") ∷ blank ∷ no_json ∷ line_at "333" "a" (codes "three") ∷ [])
    ∷ (line_at "1" "a" (codes "one") ∷ line_at "4444" "a" (codes "  ") ∷ [])
    ∷ []

abbrev ids_in_order : List Message → List String
ids_in_order [] = []
ids_in_order (m ∷ ms) = m.message_id ∷ ids_in_order ms

loaded : ids_in_order (load_archive seconds archive_files none) ≡ "1" ∷ "333" ∷ "22" ∷ []
unfolding load_archive
loaded = refl
