-- ===== src/History/Channels.antt =====
-- history-service/channel_state.py: what was exported of each channel, and which channels need
-- an export. Times are ISO 8601 texts, compared as texts; the file that `save_state` writes holds
-- what the dictionary holds, and writing it is not modelled.
use local_ai_server.Prelude.{
  Bool, Bool-cases, List, Option, Option-cases, String, [], ap, arith, false, fun_ext,
  if◌then◌else◌, inl, inr, keep_if, list_Eq, ltb, none, not, number_Eq, refl, some, sym, text_Eq,
  true, ℕ, ◌&&◌, ◌++◌, ◌==◌, ◌||◌, ◌∙◌, ◌∷◌, ◌≡◌,
}
use local_ai_server.Prelude.Dict.{Dict, insert, lookup, lookup-insert}
use local_ai_server.Prelude.Texts.{codes, codes_leb}

pub record ChannelRecord : Type 0 where
  pub channel_id : String
  pub channel_name : String
  pub last_export_at : String
  pub last_message_at : String
  pub total_messages_exported : ℕ

abbrev pub ChannelState : Type 0
ChannelState = Dict String ChannelRecord

-- get_channel
unfoldable pub get_channel : ChannelState → String → Option ChannelRecord
unfolding lookup
get_channel state id = lookup id state

-- `last_message_at or last_export_at`
abbrev pub message_time : Option String → String → String
message_time none exported = exported
message_time (some t) exported = if t == "" then exported else t

-- update_channel(state, channel_id, …)
unfoldable pub update_channel :
    ChannelState → String → String → String → Option String → ℕ → ChannelState
unfolding insert
update_channel state id name exported last_message total =
    insert id
      (record {
        channel_id = id;
        channel_name = name;
        last_export_at = exported;
        last_message_at = message_time last_message exported;
        total_messages_exported = total;
      })
      state

-- A channel as Discord lists it.
pub record Channel : Type 0 where
  pub id : String
  pub name : Option String
  pub last_message_timestamp : Option String

pub data Reason : Type 0 where
  new_channel : Reason
  activity_since : String → Reason

pub record Needed : Type 0 where
  pub channel_id : String
  pub channel_name : String
  pub last_export_at : Option String
  pub last_message_at : Option String
  pub reason : Reason

abbrev pub name_or : Option String → String → String
name_or none id = id
name_or (some name) id = name

-- `last_message_at and last_message_at > exported`
unfoldable pub is_after : Option String → String → Bool
unfolding codes_leb
is_after none exported = false
is_after (some t) exported = not (t == "") && not (codes_leb (codes t) (codes exported))

-- What the loop adds for a channel, given its record.
unfoldable pub needed_for : Channel → Option ChannelRecord → List Needed
unfolding is_after
needed_for c none =
    record {
      channel_id = c.id;
      channel_name = name_or c.name c.id;
      last_export_at = none;
      last_message_at = c.last_message_timestamp;
      reason = new_channel;
    }
    ∷ []
needed_for c (some r) =
    if is_after c.last_message_timestamp r.last_export_at
    then record {
      channel_id = c.id;
      channel_name = name_or c.name c.id;
      last_export_at = some r.last_export_at;
      last_message_at = c.last_message_timestamp;
      reason = activity_since r.last_export_at;
    }
      ∷ []
    else []

-- channels_needing_export(state, channels)
unfoldable pub channels_needing_export : ChannelState → List Channel → List Needed
unfolding needed_for get_channel
channels_needing_export state [] = []
channels_needing_export state (c ∷ cs) =
    needed_for c (get_channel state c.id) ++ channels_needing_export state cs

-- reset_state
unfoldable pub reset_state : ChannelState → ChannelState
reset_state state = []

abbrev pub needed_ids : List Needed → List String
needed_ids [] = []
needed_ids (n ∷ ns) = n.channel_id ∷ needed_ids ns

abbrev pub channel_ids : List Channel → List String
channel_ids [] = []
channel_ids (c ∷ cs) = c.id ∷ channel_ids cs

-- Does a text stand before another, by its code points?
unfoldable pub codes_ltb : List ℕ → List ℕ → Bool
codes_ltb xs [] = false
codes_ltb [] (y ∷ ys) = true
codes_ltb (x ∷ xs) (y ∷ ys) = ltb x y || x == y && codes_ltb xs ys

codes_leb-codes_ltb : (xs ys : List ℕ) → not (codes_leb ys xs) ≡ codes_ltb xs ys
unfolding codes_leb codes_ltb
codes_leb-codes_ltb xs [] = refl
codes_leb-codes_ltb [] (y ∷ ys) = refl
codes_leb-codes_ltb (x ∷ xs) (y ∷ ys) = ground (arith, codes_leb-codes_ltb xs ys)

-- Is there a time, and is it after the export?
abbrev pub is_later : Option String → String → Bool
is_later none exported = false
is_later (some t) exported = codes_ltb (codes exported) (codes t)

is_after-is_later :
    (last : Option String) (exported : String) → is_after last exported ≡ is_later last exported
unfolding is_after
is_after-is_later none exported = refl
is_after-is_later (some t) exported = elim (Bool-cases (t == "")) [
  | inl e ↦ rw ((text_Eq.test_iff t "").0 e) (unfold codes_ltb in refl)
  | inr e ↦ rw (e, sym (codes_leb-codes_ltb (codes exported) (codes t))) refl
]

-- A channel that was never exported, or has a message after its export.
abbrev pub due_for : Channel → Option ChannelRecord → Bool
due_for c none = true
due_for c (some r) = is_later c.last_message_timestamp r.last_export_at

abbrev pub is_due : ChannelState → Channel → Bool
is_due state c = due_for c (lookup c.id state)

needed_ids-append : (xs ys : List Needed) → needed_ids (xs ++ ys) ≡ needed_ids xs ++ needed_ids ys
needed_ids-append [] ys = refl
needed_ids-append (x ∷ xs) ys = ap (λ l. x.channel_id ∷ l) (needed_ids-append xs ys)

-- The channels that need an export are, in their order, those without a record and those with a
-- message after their last export.
pub channels_needing_export_lem :
    (state : ChannelState) (cs : List Channel)
    → needed_ids (channels_needing_export state cs) ≡ channel_ids (keep_if (is_due state) cs)
unfolding channels_needing_export keep_if
channels_needing_export_lem state [] = refl
channels_needing_export_lem state (c ∷ cs) =
    rw
      (
        needed_ids-append (needed_for c (lookup c.id state)) (channels_needing_export state cs),
        channels_needing_export_lem state cs,
      )
      (elim (Option-cases (lookup c.id state)) [
        | inl e ↦ rw e refl
        | inr (r, e) ↦
            let same = is_after-is_later c.last_message_timestamp r.last_export_at in
            elim (Bool-cases (is_later c.last_message_timestamp r.last_export_at)) [
              | inl b ↦ rw (e, same, b) refl
              | inr b ↦ rw (e, same, b) refl
            ]
      ])

-- After an export has been recorded, its channel needs none until a message is later than it, and
-- the other channels need one as before.
pub is_due-update_channel :
    (state : ChannelState) (id name exported : String) (last : Option String) (total : ℕ)
    (c : Channel)
    → is_due (update_channel state id name exported last total) c
      ≡ (if id == c.id then is_later c.last_message_timestamp exported else is_due state c)
unfolding update_channel
is_due-update_channel state id name exported last total c =
    let new : ChannelRecord = record {
      channel_id = id;
      channel_name = name;
      last_export_at = exported;
      last_message_at = message_time last exported;
      total_messages_exported = total;
    } in
    elim (Bool-cases (id == c.id)) [
      | inl e ↦ rw (lookup-insert id c.id new state, e) refl
      | inr e ↦ rw (lookup-insert id c.id new state, e) refl
    ]

-- The channels that need an export are, in their order, those without a record and those with a
-- `last_message_timestamp` after their last export. Once an export has been recorded, its channel is
-- one of them exactly where that time is later than it, and the other channels are as before.
pub channels_needing_export-update_channel :
    (state : ChannelState) (id name exported : String) (last : Option String) (total : ℕ)
    (cs : List Channel)
    → (needed_ids (channels_needing_export state cs) ≡ channel_ids (keep_if (is_due state) cs))
      × (needed_ids (channels_needing_export (update_channel state id name exported last total) cs)
          ≡ channel_ids (
              keep_if
                (λ c.
                  if id == c.id then is_later c.last_message_timestamp exported else is_due state c)
                cs))
channels_needing_export-update_channel state id name exported last total cs = (
  channels_needing_export_lem state cs,
  channels_needing_export_lem (update_channel state id name exported last total) cs
      ∙ ap (λ p. channel_ids (keep_if p cs))
          (fun_ext (is_due-update_channel state id name exported last total)),
)
