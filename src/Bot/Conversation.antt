-- ===== src/Bot/Conversation.antt =====
-- discord-bot/history.py: the rolling window of messages for each channel and persona.
use local_ai_server.Prelude.{
  Bool, Eq, List, Option, String, [], ap, arith, drop, if◌then◌else◌, length, none, not, number_Eq,
  some, text_Eq, true, ℕ, ◌&&◌, ◌++◌, ◌-◌, ◌==◌, ◌↔◌, ◌∙◌, ◌∷◌, ◌≡◌,
}
use local_ai_server.Prelude.Dict.{Dict, insert, lookup}
use local_ai_server.Bot.Session.{Sent, assistant, user}

-- (channel_id, model_name)
abbrev pub HistoryKey : Type 0
HistoryKey = ℕ × String

abbrev pub same_key : HistoryKey → HistoryKey → Bool
same_key (c, n) (d, m) = c == d && n == m

pub same_key_iff : (j k : HistoryKey) → (same_key j k ≡ true) ↔ (j ≡ k)
same_key_iff (c, n) (d, m) = (
  λ h.
      ap (λ x. (x, n)) ((number_Eq.test_iff c d).0 (ground (arith, h)))
      ∙ ap (λ y. (d, y)) ((text_Eq.test_iff n m).0 (ground (arith, h))),
  λ e. ground (
    arith,
    (number_Eq.test_iff c d).1 (ap (λ k. k.0) e),
    (text_Eq.test_iff n m).1 (ap (λ k. k.1) e),
  ),
)

instance abbrev pub key_Eq : Eq HistoryKey
key_Eq = record { test = same_key; test_iff = same_key_iff }

-- _store; a key that is missing has an empty deque.
abbrev pub HistoryStore : Type 0
HistoryStore = Dict HistoryKey (List Sent)

-- The last `n` of a list, which are all if it is not longer.
abbrev pub newest_of : ℕ → List Sent → List Sent
newest_of n xs = drop (length xs - n) xs

-- deque.append with maxlen
unfoldable pub push : ℕ → Sent → List Sent → List Sent
push max_turns m xs = newest_of max_turns (xs ++ m ∷ [])

abbrev pub or_empty : Option (List Sent) → List Sent
or_empty none = []
or_empty (some xs) = xs

-- get_history(channel_id, model_name), which puts a missing key into the store
unfoldable pub get_history : HistoryKey → HistoryStore → List Sent × HistoryStore
unfolding lookup insert
get_history k d = let xs = or_empty (lookup k d) in (xs, insert k xs d)

-- add_turn
unfoldable pub add_turn : ℕ → HistoryKey → String → String → HistoryStore → HistoryStore
unfolding get_history push insert
add_turn max_turns k said replied d =
    let xs = or_empty (lookup k d) in
    insert k
      (push max_turns (record { role = assistant; content = replied })
        (push max_turns (record { role = user; content = said }) xs))
      d

-- The entries whose key passes a test.
unfoldable pub keep_keys : (HistoryKey → Bool) → HistoryStore → HistoryStore
keep_keys p [] = []
keep_keys p ((k, xs) ∷ d) = if p k then (k, xs) ∷ keep_keys p d else keep_keys p d

unfoldable pub clear_channel : ℕ → HistoryStore → HistoryStore
unfolding keep_keys
clear_channel channel d = keep_keys (λ k. not (k.0 == channel)) d

unfoldable pub clear_persona : String → HistoryStore → HistoryStore
unfolding keep_keys
clear_persona name d = keep_keys (λ k. not (k.1 == name)) d

-- clear_all
abbrev pub clear_store : HistoryStore → HistoryStore
clear_store d = []
