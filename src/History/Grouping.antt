-- ===== src/History/Grouping.antt =====
-- history-service/dce_parser.py, parse_dce_export_directory: the records of a user.
use local_ai_server.Prelude.{
  ==→≡, All, All-append, All-keep_if_of, Bool, Bool-cases, List, Option, String, [], ap, false,
  if◌then◌else◌, inl, inr, keep_if, list_Eq, none, not, number_Eq, refl, some, subst, sym, text_Eq,
  ◌&&◌, ◌++◌, ◌==◌, ◌∙◌, ◌∷◌, ◌≡◌,
}
use local_ai_server.Prelude.Dict.{Dict, append_under, lookup, lookup-append_under, or_nil}
use local_ai_server.History.Exports.{
  ExportFile, ParsedRecord, RawAuthor, RawMessage, author_or, export, file_by_user, or_blank,
  parse_dce_export_directory, parse_dce_export_file, parse_dce_message, parse_each, parse_files,
  plain, unexpected, unreadable,
}
use mathlib.Core.List.{append-nil, append_assoc}

-- The records of all files, one file behind the other.
abbrev pub all_records : List ExportFile → List ParsedRecord
all_records [] = []
all_records (f ∷ fs) = parse_dce_export_file f ++ all_records fs

abbrev pub is_by : String → ParsedRecord → Bool
is_by user r = r.user_id == user

keep_if-append :
    (p : ParsedRecord → Bool) (xs ys : List ParsedRecord)
    → keep_if p (xs ++ ys) ≡ keep_if p xs ++ keep_if p ys
unfolding keep_if
keep_if-append p [] ys = refl
keep_if-append p (x ∷ xs) ys = elim (Bool-cases (p x)) [
  | inl e ↦ rw (e, keep_if) (ap (λ l. x ∷ l) (keep_if-append p xs ys))
  | inr e ↦ rw (e, keep_if) (keep_if-append p xs ys)
]

lookup-file_by_user :
    (user : String) (rs : List ParsedRecord) (users : Dict String (List ParsedRecord))
    → or_nil (lookup user (file_by_user rs users))
      ≡ or_nil (lookup user users) ++ keep_if (is_by user) rs
unfolding file_by_user keep_if
lookup-file_by_user user [] users = sym (append-nil (or_nil (lookup user users)))
lookup-file_by_user user (r ∷ rs) users =
    lookup-file_by_user user rs (append_under r.user_id r users)
    ∙ rw (lookup-append_under r.user_id user r users) (elim (Bool-cases (r.user_id == user)) [
      | inl e ↦
          rw (e, keep_if)
            (append_assoc (or_nil (lookup user users)) (r ∷ []) (keep_if (is_by user) rs))
      | inr e ↦ rw (e, keep_if) refl
    ])

lookup-parse_files :
    (user : String) (fs : List ExportFile) (users : Dict String (List ParsedRecord))
    → or_nil (lookup user (parse_files fs users))
      ≡ or_nil (lookup user users) ++ keep_if (is_by user) (all_records fs)
unfolding parse_files
lookup-parse_files user [] users = unfold keep_if in sym (append-nil (or_nil (lookup user users)))
lookup-parse_files user (f ∷ fs) users =
    lookup-parse_files user fs (file_by_user (parse_dce_export_file f) users)
    ∙ rw
        (
          lookup-file_by_user user (parse_dce_export_file f) users,
          keep_if-append (is_by user) (parse_dce_export_file f) (all_records fs),
        )
        (append_assoc (or_nil (lookup user users)) (keep_if (is_by user) (parse_dce_export_file f))
          (keep_if (is_by user) (all_records fs)))

-- A record that may be archived: with an id, and by no bot.
abbrev pub IsArchivable : ParsedRecord → Type 0
IsArchivable r = ((r.message_id == "") ≡ false) × (r.is_bot ≡ false)

parse_each-IsArchivable :
    (channel_id channel_name : String) (raws : List RawMessage)
    → All IsArchivable (parse_each channel_id channel_name raws)
unfolding parse_each parse_dce_message
parse_each-IsArchivable channel_id channel_name [] = tt
parse_each-IsArchivable channel_id channel_name (raw ∷ raws) =
    let rest = parse_each-IsArchivable channel_id channel_name raws in
    elim (Bool-cases (or_blank raw.id == "")) [
      | inl e ↦ rw (e, parse_each, parse_dce_message) rest
      | inr e ↦ elim (Bool-cases (author_or raw.author).is_bot) [
        | inl b ↦ rw (e, b, parse_each, parse_dce_message) rest
        | inr b ↦ rw (e, b, parse_each, parse_dce_message) ((e, refl), rest)
      ]
    ]

parse_dce_export_file-IsArchivable : (f : ExportFile) → All IsArchivable (parse_dce_export_file f)
unfolding parse_dce_export_file
parse_dce_export_file-IsArchivable (export id name [] older) =
    parse_each-IsArchivable (or_blank id) (or_blank name) older
parse_dce_export_file-IsArchivable (export id name (raw ∷ raws) older) =
    parse_each-IsArchivable (or_blank id) (or_blank name) (raw ∷ raws)
parse_dce_export_file-IsArchivable (plain raws) = parse_each-IsArchivable "" "" raws
parse_dce_export_file-IsArchivable unexpected = tt
parse_dce_export_file-IsArchivable unreadable = tt

all_records-IsArchivable : (fs : List ExportFile) → All IsArchivable (all_records fs)
all_records-IsArchivable [] = tt
all_records-IsArchivable (f ∷ fs) =
    All-append IsArchivable (parse_dce_export_file f) (all_records fs)
      (parse_dce_export_file-IsArchivable f) (all_records-IsArchivable fs)

-- What a record says: message, user, channel, time and content.
abbrev pub Parts : Type 0
Parts = String × String × String × String × String

abbrev pub parts_of : List ParsedRecord → List Parts
parts_of [] = []
parts_of (r ∷ rs) = (r.message_id, r.user_id, r.channel_id, r.timestamp, r.content) ∷ parts_of rs

parts_of-append : (xs ys : List ParsedRecord) → parts_of (xs ++ ys) ≡ parts_of xs ++ parts_of ys
parts_of-append [] ys = refl
parts_of-append (x ∷ xs) ys = rw (parts_of-append xs ys) refl

-- The text, or an empty one where it is missing.
abbrev pub text_of : Option String → String
text_of none = ""
text_of (some s) = s

-- Is the author the user, and no bot? A missing author or id has an empty id.
abbrev pub is_author : String → Option RawAuthor → Bool
is_author user none = "" == user
is_author user (some a) = not a.is_bot && text_of a.id == user

-- The messages of a list with an id and by the user, who is no bot, in their order.
abbrev pub meant_in : String → String → List RawMessage → List Parts
meant_in user channel [] = []
meant_in user channel (raw ∷ raws) =
    if not (text_of raw.id == "") && is_author user raw.author
    then (text_of raw.id, user, channel, text_of raw.timestamp, text_of raw.content)
      ∷ meant_in user channel raws
    else meant_in user channel raws

-- The same of a file: under the older key only where the newer one has no messages.
abbrev pub meant_of : String → ExportFile → List Parts
meant_of user (export channel name [] older) = meant_in user (text_of channel) older
meant_of user (export channel name (raw ∷ raws) older) =
    meant_in user (text_of channel) (raw ∷ raws)
meant_of user (plain raws) = meant_in user "" raws
meant_of user unexpected = []
meant_of user unreadable = []

abbrev pub meant_of_all : String → List ExportFile → List Parts
meant_of_all user [] = []
meant_of_all user (f ∷ fs) = meant_of user f ++ meant_of_all user fs

or_blank-text_of : (o : Option String) → or_blank o ≡ text_of o
or_blank-text_of none = refl
or_blank-text_of (some s) = refl

author_lem :
    (user : String) (o : Option RawAuthor)
    → (not (author_or o).is_bot && or_blank (author_or o).id == user) ≡ is_author user o
author_lem user none = refl
author_lem user (some a) = rw (or_blank-text_of a.id) refl

parse_each-meant_in :
    (user channel name : String) (raws : List RawMessage)
    → parts_of (keep_if (is_by user) (parse_each channel name raws)) ≡ meant_in user channel raws
unfolding parse_each parse_dce_message keep_if
parse_each-meant_in user channel name [] = refl
parse_each-meant_in user channel name (raw ∷ raws) =
    let rest = parse_each-meant_in user channel name raws in
    rw
      (
        sym (author_lem user raw.author),
        sym (or_blank-text_of raw.id),
        sym (or_blank-text_of raw.timestamp),
        sym (or_blank-text_of raw.content),
      )
      (elim (Bool-cases (or_blank raw.id == "")) [
        | inl e ↦ rw (e, parse_each, parse_dce_message) rest
        | inr e ↦ elim (Bool-cases (author_or raw.author).is_bot) [
          | inl b ↦ rw (e, b, parse_each, parse_dce_message) rest
          | inr b ↦ elim (Bool-cases (or_blank (author_or raw.author).id == user)) [
            | inl u ↦
                rw (e, b, u, parse_each, parse_dce_message, keep_if, rest)
                  (rw (==→≡ (or_blank (author_or raw.author).id) user u) refl)
            | inr u ↦ rw (e, b, u, parse_each, parse_dce_message, keep_if) rest
          ]
        ]
      ])

parse_file-meant_of :
    (user : String) (f : ExportFile)
    → parts_of (keep_if (is_by user) (parse_dce_export_file f)) ≡ meant_of user f
unfolding parse_dce_export_file
parse_file-meant_of user (export id name [] older) =
    rw (or_blank-text_of id) (parse_each-meant_in user (text_of id) (or_blank name) older)
parse_file-meant_of user (export id name (raw ∷ raws) older) =
    rw (or_blank-text_of id) (parse_each-meant_in user (text_of id) (or_blank name) (raw ∷ raws))
parse_file-meant_of user (plain raws) = parse_each-meant_in user "" "" raws
parse_file-meant_of user unexpected = unfold keep_if in refl
parse_file-meant_of user unreadable = unfold keep_if in refl

all_records-meant_of_all :
    (user : String) (fs : List ExportFile)
    → parts_of (keep_if (is_by user) (all_records fs)) ≡ meant_of_all user fs
all_records-meant_of_all user [] = unfold keep_if in refl
all_records-meant_of_all user (f ∷ fs) =
    ap parts_of (keep_if-append (is_by user) (parse_dce_export_file f) (all_records fs))
    ∙ parts_of-append (keep_if (is_by user) (parse_dce_export_file f))
        (keep_if (is_by user) (all_records fs))
    ∙ rw (parse_file-meant_of user f, all_records-meant_of_all user fs) refl

-- The records that an import has for a user are, with their ids, channels, times and contents, the
-- messages of all files that have an id and are by the user, who is no bot, each once and in the
-- order of the files and of the messages in them; none is marked as a bot's.
pub lookup-parse_dce_export_directory :
    (user : String) (files : List ExportFile)
    → (parts_of (or_nil (lookup user (parse_dce_export_directory files))) ≡ meant_of_all user files)
      × All IsArchivable (or_nil (lookup user (parse_dce_export_directory files)))
unfolding parse_dce_export_directory
lookup-parse_dce_export_directory user files =
    let same : or_nil (lookup user (parse_dce_export_directory files))
        ≡ keep_if (is_by user) (all_records files) =
      lookup-parse_files user files [] ∙ (unfold lookup in refl) in
    (
      ap parts_of same ∙ all_records-meant_of_all user files,
      subst (All IsArchivable) (sym same) (
          All-keep_if_of IsArchivable (is_by user) (all_records files)
            (all_records-IsArchivable files)),
    )
