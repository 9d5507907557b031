-- ===== src/History/Exports.antt =====
-- history-service/dce_parser.py: the parser of exports, on the parsed JSON of a file. Ids in it are
-- texts, as DiscordChatExporter writes them.
use local_ai_server.Prelude.{
  Bool, List, Option, String, [], false, if◌then◌else◌, length, ltb, none, not, number_Eq, some,
  text_Eq, true, ℕ, ◌&&◌, ◌==◌, ◌∷◌,
}
use local_ai_server.Prelude.Words.{concat, split, starts_with}
use local_ai_server.Prelude.Dict.{Dict, append_under, or_zero}

pub record RawAuthor : Type 0 where
  pub id : Option String
  pub name : Option String
  pub is_bot : Bool

pub record RawMention : Type 0 where
  pub id : Option String
  pub name : Option String
  pub nickname : Option String

-- `url` or `URL`, and `content_type` or `ContentType`
pub record RawAttachment : Type 0 where
  pub url : Option String
  pub upper_url : Option String
  pub content_type : Option String
  pub upper_content_type : Option String
  pub filename : Option String
  pub size : Option ℕ

pub record RawReference : Type 0 where
  pub message_id : Option String
  pub channel_id : Option String
  pub type : Option String

pub record RawMessage : Type 0 where
  pub id : Option String
  pub author : Option RawAuthor
  pub timestamp : Option String
  pub content : Option String
  pub attachments : List RawAttachment
  pub reference : Option RawReference
  pub type : Option String
  pub is_pinned : Bool
  pub mentions : List RawMention

pub record ParsedAttachment : Type 0 where
  pub url : String
  pub content_type : String
  pub filename : String
  pub file_size_bytes : ℕ
  pub caption_status : String
  pub caption_excluded_from_training : Bool

pub record ParsedMention : Type 0 where
  pub user_id : String
  pub username : String
  pub display : String

-- A record of the archive; an empty list, no reference and a false flag are left out of it.
pub record ParsedRecord : Type 0 where
  pub message_id : String
  pub user_id : String
  pub username : String
  pub channel_id : String
  pub channel_name : String
  pub timestamp : String
  pub content : String
  pub is_bot : Bool
  pub type : String
  pub attachments : List ParsedAttachment
  pub reference : Option RawReference
  pub is_pinned : Bool
  pub mentions : List ParsedMention

-- d.get(k, "")
abbrev pub or_blank : Option String → String
or_blank none = ""
or_blank (some s) = s

-- `a or b`
abbrev pub or_else : String → String → String
or_else a b = if a == "" then b else a

-- Only values that are not empty are kept.
abbrev pub filled : Option String → Option String
filled none = none
filled (some s) = if s == "" then none else some s

abbrev pub reference_of : Option String → Option String → Option String → Option RawReference
reference_of none none type = none
reference_of message_id channel_id type =
    some (record { message_id = message_id; channel_id = channel_id; type = type })

unfoldable pub parse_reference : Option RawReference → Option RawReference
parse_reference none = none
parse_reference (some r) = reference_of (filled r.message_id) (filled r.channel_id) (filled r.type)

abbrev pub display_of : RawMention → String
display_of m = or_else (or_blank m.nickname) (or_blank m.name)

-- f"@{display}" in content
unfoldable pub is_named : String → String → Bool
unfolding split concat
is_named display content =
    not (display == "") && ltb 1 (length (split (concat ("@" ∷ display ∷ [])) content))

unfoldable pub parse_mentions : List RawMention → String → List ParsedMention
unfolding is_named
parse_mentions [] content = []
parse_mentions (m ∷ ms) content =
    let rest = parse_mentions ms content in
    if is_named (display_of m) content
    then record { user_id = or_blank m.id; username = or_blank m.name; display = display_of m }
      ∷ rest
    else rest

abbrev pub is_image : String → Bool
is_image content_type = starts_with content_type "image/"

unfoldable pub parse_attachments : List RawAttachment → List ParsedAttachment
parse_attachments [] = []
parse_attachments (a ∷ as_left) =
    let content_type = or_else (or_blank a.content_type) (or_blank a.upper_content_type) in
    record {
      url = or_else (or_blank a.url) (or_blank a.upper_url);
      content_type = content_type;
      filename = or_blank a.filename;
      file_size_bytes = or_zero a.size;
      caption_status = if is_image content_type then "pending" else "skipped";
      caption_excluded_from_training = true;
    }
    ∷ parse_attachments as_left

abbrev pub no_author : RawAuthor
no_author = record { id = none; name = none; is_bot = false }

abbrev pub author_or : Option RawAuthor → RawAuthor
author_or none = no_author
author_or (some a) = a

abbrev pub type_or : Option String → String
type_or none = "Default"
type_or (some t) = t

-- parse_dce_message
unfoldable pub parse_dce_message : String → String → RawMessage → Option ParsedRecord
unfolding parse_reference parse_mentions parse_attachments
parse_dce_message channel_id channel_name raw =
    let author = author_or raw.author in
    let user_id = or_blank author.id in
    let content = or_blank raw.content in
    if or_blank raw.id == ""
    then none
    else if author.is_bot
    then none
    else some (record {
      message_id = or_blank raw.id;
      user_id = user_id;
      username = or_else (or_blank author.name) user_id;
      channel_id = channel_id;
      channel_name = channel_name;
      timestamp = or_blank raw.timestamp;
      content = content;
      is_bot = author.is_bot;
      type = type_or raw.type;
      attachments = parse_attachments raw.attachments;
      reference = parse_reference raw.reference;
      is_pinned = raw.is_pinned;
      mentions = parse_mentions raw.mentions content;
    })

unfoldable pub parse_each : String → String → List RawMessage → List ParsedRecord
unfolding parse_dce_message
parse_each channel_id channel_name [] = []
parse_each channel_id channel_name (raw ∷ raws) =
    let rest = parse_each channel_id channel_name raws in
    elim (parse_dce_message channel_id channel_name raw) [ none ↦ rest | some r ↦ r ∷ rest ]

-- What a file holds: an object with its channel and its messages under "messages" or "Messages", a
-- list of messages, other JSON, or what cannot be read.
pub data ExportFile : Type 0 where
  export : Option String → Option String → List RawMessage → List RawMessage → ExportFile
  plain : List RawMessage → ExportFile
  unexpected : ExportFile
  unreadable : ExportFile

-- parse_dce_export_file
unfoldable pub parse_dce_export_file : ExportFile → List ParsedRecord
unfolding parse_each
parse_dce_export_file (export id name [] older) = parse_each (or_blank id) (or_blank name) older
parse_dce_export_file (export id name (raw ∷ raws) older) =
    parse_each (or_blank id) (or_blank name) (raw ∷ raws)
parse_dce_export_file (plain raws) = parse_each "" "" raws
parse_dce_export_file unexpected = []
parse_dce_export_file unreadable = []

unfoldable pub file_by_user :
    List ParsedRecord → Dict String (List ParsedRecord) → Dict String (List ParsedRecord)
unfolding append_under
file_by_user [] users = users
file_by_user (r ∷ rs) users = file_by_user rs (append_under r.user_id r users)

-- The loop of parse_dce_export_directory, over the files in the order of their names.
unfoldable pub parse_files :
    List ExportFile → Dict String (List ParsedRecord) → Dict String (List ParsedRecord)
unfolding file_by_user parse_dce_export_file
parse_files [] users = users
parse_files (f ∷ fs) users = parse_files fs (file_by_user (parse_dce_export_file f) users)

-- parse_dce_export_directory
unfoldable pub parse_dce_export_directory : List ExportFile → Dict String (List ParsedRecord)
unfolding parse_files
parse_dce_export_directory files = parse_files files []
