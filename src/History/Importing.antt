-- ===== src/History/Importing.antt =====
-- An export with a reply, an image, a bot and a message without an id, and the theorem at it.
use local_ai_server.Prelude.{
  All, Bool, List, Option, String, [], false, length, list_Eq, none, number_Eq, refl, some, text_Eq,
  true, ℕ, ◌∷◌, ◌≡◌,
}
use local_ai_server.Prelude.Dict.{lookup, or_nil}
use local_ai_server.History.Exports.{
  ExportFile, ParsedRecord, RawMessage, export, parse_dce_export_directory, plain, unreadable,
}
use local_ai_server.History.Grouping.{
  IsArchivable, lookup-parse_dce_export_directory, meant_of_all, parts_of,
}

abbrev raw_by : Option String → String → Bool → String → RawMessage
raw_by id user bot content = record {
  id = id;
  author = some (record { id = some user; name = none; is_bot = bot });
  timestamp = some "2024-05-01";
  content = some content;
  attachments = [];
  reference = none;
  type = none;
  is_pinned = false;
  mentions = record { id = some "9"; name = some "ann"; nickname = some "Sir Ann" } ∷ [];
}

abbrev files : List ExportFile
files =
    export (some "5") (some "lore") [] (
      raw_by (some "1") "7" false "hi @Sir Ann!"
      ∷ raw_by (some "2") "8" true "beep"
      ∷ raw_by none "7" false "lost"
      ∷ [])
    ∷ unreadable
    ∷ plain (raw_by (some "3") "7" false "more" ∷ [])
    ∷ []

abbrev ids_and_mentions : List ParsedRecord → List (String × ℕ)
ids_and_mentions [] = []
ids_and_mentions (r ∷ rs) = (r.message_id, length r.mentions) ∷ ids_and_mentions rs

-- The older key "Messages" is read, the nickname is found in the text of the first message only.
imported :
    ids_and_mentions (or_nil (lookup "7" (parse_dce_export_directory files)))
    ≡ ("1", 1) ∷ ("3", 0) ∷ []
unfolding parse_dce_export_directory lookup
imported = refl

lookup-parse_dce_export_directory_example :
    (parts_of (or_nil (lookup "7" (parse_dce_export_directory files))) ≡ meant_of_all "7" files)
    × All IsArchivable (or_nil (lookup "7" (parse_dce_export_directory files)))
lookup-parse_dce_export_directory_example = lookup-parse_dce_export_directory "7" files
