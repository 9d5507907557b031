-- ===== src/History/Examples.antt =====
-- Runs of the archive and the channel state, and the theorems at them.
use local_ai_server.Prelude.{
  ==→≡, Bool-cases, List, Option, String, [], arith, contains, false, if◌then◌else◌, inl, inr,
  keep_if, list_Eq, none, not, number_Eq, occurrences, refl, some, subst, text_Eq, true, ℕ, ◌&&◌,
  ◌++◌, ◌+◌, ◌==◌, ◌∷◌, ◌≡◌, ◌≤◌,
}
use local_ai_server.Prelude.Dict.{insert, lookup}
use local_ai_server.History.Archive.{
  Archive, Message, MessageId, append_message, append_messages, broken, count_lines, file_of,
  ids_of, is_truthy, message, number, records_of, text,
}
use local_ai_server.History.Appending.{
  HasTextId, IsSynced, IsUnique, append_message-archives, archived,
}
use local_ai_server.History.Refresh.{fresh_from, refresh_each, refresh_fields, rewrite_archive}
use local_ai_server.History.Refreshing.{AreUpdated, refresh_fields-AreUpdated}
use local_ai_server.History.Channels.{
  Channel, ChannelState, channel_ids, channels_needing_export,
  channels_needing_export-update_channel, is_due, is_later, needed_ids, update_channel,
}

-- One way to write a number.
abbrev strokes : ℕ → String
strokes n = if n == 7 then "7" else "n"

abbrev with_id : MessageId → Message
with_id i = record { message_id = some i; fields = []; attachments = [] }

-- Ann's file holds message 5, a broken line and message 6; nothing is cached.
abbrev archive : Archive
archive = record {
  files = ("ann", message (with_id (text "5")) ∷ broken ∷ message (with_id (text "6")) ∷ []) ∷ [];
  cache = [];
}

archive-IsSynced : IsSynced strokes archive
unfolding lookup
archive-IsSynced = record { same = λ u ids l t. absurd (cc) }

text_id : HasTextId (with_id (text "8")) "8"
text_id = (refl, refl)

append_message-archives_example :
    ((append_message strokes true "ann" (with_id (text "8")) archive).0
      ≡ not (contains (archived strokes "ann" archive) "8"))
    × IsSynced strokes (append_message strokes true "ann" (with_id (text "8")) archive).1
    × (occurrences "8" (
          archived strokes "ann" (append_message strokes true "ann" (with_id (text "8")) archive).1)
        ≡ occurrences "8" (archived strokes "ann" archive)
          + (if not (contains (archived strokes "ann" archive) "8") && ◌==◌ {K = String} "8" "8"
              then 1
              else 0))
    × (file_of "ann" (append_message strokes true "ann" (with_id (text "8")) archive).1 ≡ (
        if contains (archived strokes "ann" archive) "8"
        then file_of "ann" archive
        else file_of "ann" archive ++ message (with_id (text "8")) ∷ []))
append_message-archives_example =
    append_message-archives strokes "ann" (with_id (text "8")) "8" "8" archive archive-IsSynced
      text_id

-- A known message is refused, a new one is written.
appends : Unit {0}
unfolding append_message lookup insert append_messages count_lines records_of contains
appends = tt

known_refused : (append_message strokes true "ann" (with_id (text "5")) archive).0 ≡ false
unfolding appends
known_refused = refl

new_written : (append_message strokes true "ann" (with_id (text "8")) archive).0 ≡ true
unfolding appends
new_written = refl

-- An id that is a number equals no text of the set: the second of two equal messages is written.
number_twice :
    (append_messages strokes true "ann" (with_id (number 7) ∷ with_id (number 7) ∷ []) archive).0
    ≡ 2
unfolding appends
number_twice = refl

text_once :
    (append_messages strokes true "ann" (with_id (text "7") ∷ with_id (text "7") ∷ []) archive).0
    ≡ 1
unfolding appends
text_once = refl

archive-IsUnique : IsUnique strokes "ann" archive
unfolding occurrences file_of lookup ids_of is_truthy
archive-IsUnique t = elim (Bool-cases ("5" == t)) [
  | inl e ↦
      let five = ==→≡ "5" t e in subst (λ v. occurrences v ("5" ∷ "6" ∷ []) ≤ 1) five (ground arith)
  | inr e ↦ ground arith
]

-- Channel 1 was exported on the second of May; 2 is new.
abbrev channel_state : ChannelState
channel_state = update_channel [] "1" "general" "2024-05-02" none 10

abbrev channel : String → Option String → Channel
channel id time = record { id = id; name = none; last_message_timestamp = time }

abbrev listed : List Channel
listed = channel "1" (some "2024-05-01") ∷ channel "2" none ∷ channel "1" (some "2024-05-03") ∷ []

listed_due : needed_ids (channels_needing_export channel_state listed) ≡ "2" ∷ "1" ∷ []
unfolding channels_needing_export update_channel
listed_due = refl

abbrev exported_on : String
exported_on = "2024-05-04"

abbrev with_caption : String → Option String → Message
with_caption id caption = record {
  message_id = some (text id);
  fields = elim caption [ none ↦ [] | some c ↦ ("content", c) ∷ [] ];
  attachments = [];
}

-- Ann's file holds messages 5 and 6, of which 5 was edited and 6 lost its text.
abbrev edited : Archive
edited = record {
  files =
      (
        "ann",
        message (with_caption "5" (some "old")) ∷ message (with_caption "6" (some "gone")) ∷ [],
      )
      ∷ ("bob", broken ∷ [])
      ∷ [];
  cache = [];
}

abbrev parsed : List Message
parsed = with_caption "5" (some "new") ∷ with_caption "6" none ∷ []

edited_records :
    records_of (file_of "ann" (refresh_fields strokes true "ann" parsed ("content" ∷ []) edited).1)
    ≡ parsed
unfolding refresh_fields fresh_from file_of records_of refresh_each rewrite_archive
edited_records = refl

refresh_fields-AreUpdated_example :
    AreUpdated strokes ("content" ∷ []) parsed (records_of (file_of "ann" edited)) (
      records_of
        (file_of "ann" (refresh_fields strokes true "ann" parsed ("content" ∷ []) edited).1))
    × (file_of "bob" (refresh_fields strokes true "ann" parsed ("content" ∷ []) edited).1
        ≡ file_of "bob" edited)
refresh_fields-AreUpdated_example =
    refresh_fields-AreUpdated strokes "ann" parsed ("content" ∷ []) edited "bob" refl

channels_needing_export-update_channel_example :
    (needed_ids (channels_needing_export channel_state listed)
      ≡ channel_ids (keep_if (is_due channel_state) listed))
    × (needed_ids (
          channels_needing_export
            (update_channel channel_state "1" "general" exported_on none 12)
            listed)
        ≡ channel_ids (
            keep_if
              (λ c.
                if ◌==◌ {K = String} "1" c.id
                then is_later c.last_message_timestamp exported_on
                else is_due channel_state c)
              listed))
channels_needing_export-update_channel_example =
    channels_needing_export-update_channel channel_state "1" "general" exported_on none 12 listed
