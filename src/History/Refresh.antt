-- ===== src/History/Refresh.antt =====
-- history-service/jsonl_store.py: update_records and refresh_fields, which bring fields of
-- archived messages in line with freshly parsed ones, and get_pending_captions.
use local_ai_server.Prelude.{
  Bool, List, Option, String, [], false, if◌then◌else◌, max, none, number_Eq, some, suc, take,
  text_Eq, true, ℕ, ◌&&◌, ◌++◌, ◌+◌, ◌==◌, ◌∷◌,
}
use local_ai_server.Prelude.Dict.{Dict, insert, lookup, remove}
use local_ai_server.History.Archive.{
  Archive, Attachment, Line, Message, MessageId, file_of, id_text, is_truthy, message, records_of,
}

module _ (decimal : ℕ → String) where
  -- str(rec.get("message_id"))
  abbrev pub key_text : Option MessageId → String
  key_text none = "None"
  key_text (some i) = id_text decimal i

  abbrev pub with_fresh : Option MessageId → Message → Dict String Message → Dict String Message
  with_fresh none m d = d
  with_fresh (some i) m d = if is_truthy i then insert (id_text decimal i) m d else d

  -- fresh = {str(r["message_id"]): r for r in parsed if r.get("message_id")}
  unfoldable pub fresh_from : List Message → Dict String Message → Dict String Message
  unfolding insert is_truthy id_text
  fresh_from [] d = d
  fresh_from (m ∷ ms) d = fresh_from ms (with_fresh m.message_id m d)

abbrev pub put_field : String → Option String → Dict String String → Dict String String
put_field f none d = remove f d
put_field f (some v) d = insert f v d

-- for f in fields: if f in new: rec[f] = new[f] else: rec.pop(f, None)
unfoldable pub set_fields :
    List String → Dict String String → Dict String String → Dict String String
unfolding lookup insert remove
set_fields [] new d = d
set_fields (f ∷ fs) new d = set_fields fs new (put_field f (lookup f new) d)

abbrev pub same_value : Option String → Option String → Bool
same_value none none = true
same_value none (some v) = false
same_value (some v) none = false
same_value (some v) (some w) = v == w

-- before == {f: rec.get(f) for f in fields}
unfoldable pub same_fields : List String → Dict String String → Dict String String → Bool
unfolding lookup
same_fields [] d d' = true
same_fields (f ∷ fs) d d' = same_value (lookup f d) (lookup f d') && same_fields fs d d'

-- What the loop makes of a record for which there is a fresh one, or none.
unfoldable pub refresh_with : List String → Option Message → Message → Message
unfolding set_fields
refresh_with fields none m = m
refresh_with fields (some new) m = record m { fields = set_fields fields new.fields m.fields }

module _ (decimal : ℕ → String) where
  unfoldable pub refresh_record : List String → Dict String Message → Message → Message
  unfolding refresh_with lookup id_text
  refresh_record fields fresh m =
      refresh_with fields (lookup (key_text decimal m.message_id) fresh) m

  -- `apply`: how many records changed, and the records after it
  unfoldable pub refresh_each : List String → Dict String Message → List Message → ℕ × List Message
  unfolding refresh_record same_fields
  refresh_each fields fresh [] = (0, [])
  refresh_each fields fresh (m ∷ ms) =
      let new = refresh_record fields fresh m in
      let (count, rest) = refresh_each fields fresh ms in
      ((if same_fields fields m.fields new.fields then count else suc count), new ∷ rest)

abbrev pub lines_for : List Message → List Line
lines_for [] = []
lines_for (m ∷ ms) = message m ∷ lines_for ms

-- rewrite_archive(user_id, records): an error while writing leaves the file as it was
unfoldable pub rewrite_archive : Bool → String → List Message → Archive → Archive
unfolding insert
rewrite_archive writable user ms a =
    if writable then record a { files = insert user (lines_for ms) a.files } else a

module _ (decimal : ℕ → String) where
  -- refresh_fields(user_id, parsed, fields), with update_records in it
  unfoldable pub refresh_fields : Bool → String → List Message → List String → Archive → ℕ × Archive
  unfolding refresh_each fresh_from rewrite_archive records_of file_of
  refresh_fields writable user parsed fields a =
      let (changed, new) =
        refresh_each decimal fields (fresh_from decimal parsed []) (records_of (file_of user a)) in
      (changed, if changed == 0 then a else rewrite_archive writable user new a)

-- A pending caption: the user, the record, the position and the attachment.
pub record PendingCaption : Type 0 where
  pub user : String
  pub of_message : Message
  pub index : ℕ
  pub attachment : Attachment

unfoldable pub pending_in : String → Message → ℕ → List Attachment → List PendingCaption
pending_in user m i [] = []
pending_in user m i (x ∷ xs) =
    let rest = pending_in user m (i + 1) xs in
    if x.caption_status == "pending"
    then record { user = user; of_message = m; index = i; attachment = x } ∷ rest
    else rest

unfoldable pub pending_of : String → List Message → List PendingCaption
unfolding pending_in
pending_of user [] = []
pending_of user (m ∷ ms) = pending_in user m 0 m.attachments ++ pending_of user ms

unfoldable pub pending_of_users : Dict String (List Line) → List PendingCaption
unfolding pending_of records_of
pending_of_users [] = []
pending_of_users ((user, ls) ∷ d) = pending_of user (records_of ls) ++ pending_of_users d

-- get_pending_captions(limit): the test for the limit follows each entry, so one is returned
-- even for the limit 0.
unfoldable pub get_pending_captions : ℕ → Archive → List PendingCaption
unfolding pending_of_users
get_pending_captions limit a = take (max 1 limit) (pending_of_users a.files)
