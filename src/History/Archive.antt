-- ===== src/History/Archive.antt =====
-- history-service/jsonl_store.py: the archive files, the cache of message ids, and appending.
-- A file is its lines, in which a line that is blank or no JSON may stand. `decimal` is Python's
-- `str` on numbers.
use local_ai_server.Prelude.{
  Bool, List, Option, String, [], contains, false, if◌then◌else◌, length, none, not, number_Eq,
  some, suc, text_Eq, true, ℕ, ◌++◌, ◌==◌, ◌∷◌,
}
use local_ai_server.Prelude.Dict.{Dict, insert, lookup}

-- A message id as JSON gives it.
pub data MessageId : Type 0 where
  text : String → MessageId
  number : ℕ → MessageId

pub record Attachment : Type 0 where
  pub url : String
  pub caption_status : String

-- An archived message. `fields` are its other text fields.
pub record Message : Type 0 where
  pub message_id : Option MessageId
  pub fields : Dict String String
  pub attachments : List Attachment

pub data Line : Type 0 where
  blank : Line
  broken : Line
  message : Message → Line

pub record Archive : Type 0 where
  pub files : Dict String (List Line)
  -- _user_id_cache
  pub cache : Dict String (List String)

-- `if msg_id`
unfoldable pub is_truthy : MessageId → Bool
is_truthy (text t) = not (t == "")
is_truthy (number n) = not (n == 0)

module _ (decimal : ℕ → String) where
  -- str(msg_id)
  unfoldable pub id_text : MessageId → String
  id_text (text t) = t
  id_text (number n) = decimal n

-- `msg_id in existing_ids`: the set holds texts, and a number equals none of them.
unfoldable pub is_known : List String → MessageId → Bool
unfolding contains
is_known ids (text t) = contains ids t
is_known ids (number n) = false

abbrev pub lines_of : Option (List Line) → List Line
lines_of none = []
lines_of (some ls) = ls

-- What stands in a user's file; a file that does not exist has no lines.
unfoldable pub file_of : String → Archive → List Line
unfolding lookup
file_of user a = lines_of (lookup user a.files)

module _ (decimal : ℕ → String) where
  abbrev pub ids_with : Option MessageId → List String → List String
  ids_with none ids = ids
  ids_with (some i) ids = if is_truthy i then id_text decimal i ∷ ids else ids

  -- The loop of _load_existing_ids.
  unfoldable pub ids_of : List Line → List String
  unfolding is_truthy id_text
  ids_of [] = []
  ids_of (blank ∷ ls) = ids_of ls
  ids_of (broken ∷ ls) = ids_of ls
  ids_of (message m ∷ ls) = ids_with m.message_id (ids_of ls)

  -- _load_existing_ids: the set, and the cache that then holds it
  unfoldable pub load_existing_ids : String → Archive → List String × Archive
  unfolding ids_of file_of lookup insert
  load_existing_ids user a = elim (lookup user a.cache) [
    | some ids ↦ (ids, a)
    | none ↦
        let ids = ids_of (file_of user a) in (ids, record a { cache = insert user ids a.cache })
  ]

  abbrev pub known_ids : Option (List String) → List String
  known_ids none = []
  known_ids (some ids) = ids

  -- _add_to_cache, for one id
  unfoldable pub add_to_cache : String → String → Archive → Archive
  unfolding lookup insert
  add_to_cache user id a = record a {
    cache = insert user (id ∷ known_ids (lookup user a.cache)) a.cache;
  }

  -- `f.write(json.dumps(record) + "\n")` at the end of the user's file
  unfoldable pub write_line : String → Message → Archive → Archive
  unfolding file_of insert
  write_line user m a = record a { files = insert user (file_of user a ++ message m ∷ []) a.files }

  unfoldable pub append_new : Bool → String → Message → MessageId → Archive → Bool × Archive
  unfolding load_existing_ids is_known write_line add_to_cache id_text
  append_new writable user m i a =
      let (ids, a') = load_existing_ids user a in
      if is_known ids i
      then (false, a')
      else if writable
      then (true, add_to_cache user (id_text decimal i) (write_line user m a'))
      else (false, a')

  -- append_message(user_id, record); `writable` says whether the file can be written
  unfoldable pub append_message : Bool → String → Message → Archive → Bool × Archive
  unfolding append_new is_truthy
  append_message writable user m a = elim m.message_id [
    | none ↦ (false, a)
    | some i ↦ if is_truthy i then append_new writable user m i a else (false, a)
  ]

  -- The loop of append_messages, in which the set of known ids is the one in the cache.
  unfoldable pub append_each : String → List Message → Archive → ℕ × Archive
  unfolding append_message
  append_each user [] a = (0, a)
  append_each user (m ∷ ms) a =
      let (done, a') = append_message true user m a in
      let (count, a'') = append_each user ms a' in ((if done then suc count else count), a'')

  -- append_messages(user_id, records)
  unfoldable pub append_messages : Bool → String → List Message → Archive → ℕ × Archive
  unfolding append_each load_existing_ids
  append_messages writable user [] a = (0, a)
  append_messages writable user (m ∷ ms) a =
      let (ids, a') = load_existing_ids user a in
      if writable then append_each user (m ∷ ms) a' else (0, a')

-- get_message_count: the lines that are not blank
unfoldable pub count_lines : List Line → ℕ
count_lines [] = 0
count_lines (blank ∷ ls) = count_lines ls
count_lines (broken ∷ ls) = suc (count_lines ls)
count_lines (message m ∷ ls) = suc (count_lines ls)

-- load_all_records
unfoldable pub records_of : List Line → List Message
records_of [] = []
records_of (blank ∷ ls) = records_of ls
records_of (broken ∷ ls) = records_of ls
records_of (message m ∷ ls) = m ∷ records_of ls

-- clear_all: every file goes, and the cache
unfoldable pub clear_all : Archive → ℕ × Archive
clear_all a = (length a.files, record { files = []; cache = [] })
