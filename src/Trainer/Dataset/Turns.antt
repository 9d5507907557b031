-- ===== src/Trainer/Dataset/Turns.antt =====
-- lora-training/build_dataset.py: resolve_mentions, without_mentions, Turn and _turns. The
-- substitutions by regular expressions in `normalise` and the reading of a timestamp are arguments.
use local_ai_server.Prelude.{
  Bool, Bool-cases, List, Option, String, [], false, inl, inr, keep_if, leb, list_Eq, not,
  number_Eq, text_Eq, true, ℕ, ◌&&◌, ◌++◌, ◌+◌, ◌==◌, ◌∷◌, ◌≡◌,
}
use local_ai_server.Prelude.Words.{concat, join, length_of, split, strip}
use local_ai_server.Prelude.Sorting.{sort_by}

pub record Mention : Type 0 where
  pub user_id : String
  pub display : String

-- A record of the archive.
pub record ArchiveRecord : Type 0 where
  pub message_id : String
  pub user_id : String
  pub channel_id : String
  pub channel_name : Option String
  pub timestamp : String
  pub content : String
  pub type : Option String
  pub is_bot : Bool
  pub has_attachments : Bool
  pub mentions : List Mention

-- s.replace(old, new), for an `old` that is not empty
unfoldable pub replace : String → String → String → String
unfolding split join
replace old new s = join new (split old s)

abbrev pub longer_display : Mention → Mention → Bool
longer_display a b = leb (length_of b.display) (length_of a.display)

unfoldable pub resolve_each : List Mention → String → String
unfolding replace concat
resolve_each [] text = text
resolve_each (m ∷ ms) text =
    resolve_each ms
      (replace (concat ("@" ∷ m.display ∷ [])) (concat ("<@" ∷ m.user_id ∷ ">" ∷ [])) text)

-- resolve_mentions
unfoldable pub resolve_mentions : ArchiveRecord → String
unfolding resolve_each sort_by
resolve_mentions r = resolve_each (sort_by longer_display r.mentions) r.content

unfoldable pub remove_each : List String → String → String
unfolding replace
remove_each [] text = text
remove_each (token ∷ tokens) text = remove_each tokens (replace token "" text)

-- without_mentions
unfoldable pub without_mentions : String → List String → String
unfolding remove_each strip
without_mentions text tokens = strip (remove_each tokens text)

-- The substitutions of normalise, in its order.
pub record Substitutions : Type 0 where
  pub replace_links : String → String
  pub user_mentions : String → String
  pub channel_mentions : String → String
  pub role_mentions : String → String
  pub custom_emoji : String → String
  pub long_numbers : String → String
  pub scrub_pii : String → String

unfoldable pub normalise : Substitutions → String → String
unfolding strip
normalise subs text = strip (
    subs.scrub_pii (
      subs.long_numbers (
        subs.custom_emoji (
          subs.role_mentions
            (subs.channel_mentions (subs.user_mentions (subs.replace_links text)))))))

-- Consecutive messages from one author.
pub record SpokenTurn : Type 0 where
  pub user_id : String
  pub username : String
  pub start : ℕ
  pub end : ℕ
  pub texts : List String
  pub attachment_only : Bool

-- The property `text`
unfoldable pub turn_text : SpokenTurn → String
unfolding join keep_if
turn_text t = join "\n" (keep_if (λ s. not (s == "")) t.texts)

module _ (subs : Substitutions) (parse_ts : String → ℕ) (username_of : String → String)
    (merge_seconds : ℕ) where
  abbrev pub message_body : ArchiveRecord → String
  message_body r = normalise subs (resolve_mentions r)

  abbrev pub is_attachment : ArchiveRecord → Bool
  is_attachment r = message_body r == "" && r.has_attachments

  abbrev pub open_turn : ArchiveRecord → SpokenTurn
  open_turn r = record {
    user_id = r.user_id;
    username = username_of r.user_id;
    start = parse_ts r.timestamp;
    end = parse_ts r.timestamp;
    texts = message_body r ∷ [];
    attachment_only = is_attachment r;
  }

  -- Does a message go on with a turn?
  unfoldable pub goes_on : SpokenTurn → ArchiveRecord → Bool
  goes_on t r = t.user_id == r.user_id && leb (parse_ts r.timestamp) (t.end + merge_seconds)

  abbrev pub extended : SpokenTurn → ArchiveRecord → SpokenTurn
  extended t r = record t {
    texts = t.texts ++ message_body r ∷ [];
    end = parse_ts r.timestamp;
    attachment_only = t.attachment_only && is_attachment r;
  }

  -- The loop of _turns, from its last turn.
  unfoldable pub turns_from : SpokenTurn → List ArchiveRecord → List SpokenTurn
  unfolding goes_on resolve_mentions normalise
  turns_from t [] = t ∷ []
  turns_from t (r ∷ rs) = elim (goes_on t r) [
    | true ↦ turns_from (extended t r) rs
    | false ↦ t ∷ turns_from (open_turn r) rs
  ]

  -- _turns
  unfoldable pub turns_of : List ArchiveRecord → List SpokenTurn
  unfolding turns_from
  turns_of [] = []
  turns_of (r ∷ rs) = turns_from (open_turn r) rs

  abbrev pub bodies_of : List ArchiveRecord → List String
  bodies_of [] = []
  bodies_of (r ∷ rs) = message_body r ∷ bodies_of rs

  -- Two turns in a row are of two authors, or the second starts too late to go on with the first.
  abbrev pub AreApart : SpokenTurn → List SpokenTurn → Type 0
  AreApart t [] = Unit
  AreApart t (u ∷ us) =
      ((t.user_id == u.user_id && leb u.start (t.end + merge_seconds)) ≡ false) × AreApart u us

  abbrev pub IsSeparated : List SpokenTurn → Type 0
  IsSeparated [] = Unit
  IsSeparated (t ∷ ts) = AreApart t ts

  -- The head of the loop's turns is its current turn, perhaps longer.
  turns_from-apart :
      (s t : SpokenTurn) (rs : List ArchiveRecord)
      → (s.user_id == t.user_id && leb t.start (s.end + merge_seconds)) ≡ false
      → AreApart s (turns_from t rs)
  unfolding turns_from goes_on
  turns_from-apart s t [] h = (h, tt)
  turns_from-apart s t (r ∷ rs) h = elim (Bool-cases (goes_on t r)) [
    | inl e ↦ rw (e, turns_from) (turns_from-apart s (extended t r) rs h)
    | inr e ↦ rw (e, turns_from) (h, turns_from-apart t (open_turn r) rs e)
  ]

  turns_from-IsSeparated :
      (t : SpokenTurn) (rs : List ArchiveRecord) → IsSeparated (turns_from t rs)
  unfolding turns_from goes_on
  turns_from-IsSeparated t [] = tt
  turns_from-IsSeparated t (r ∷ rs) = elim (Bool-cases (goes_on t r)) [
    | inl e ↦ rw (e, turns_from) (turns_from-IsSeparated (extended t r) rs)
    | inr e ↦ rw (e, turns_from) (turns_from-apart t (open_turn r) rs e)
  ]

  pub turns_of-IsSeparated : (rs : List ArchiveRecord) → IsSeparated (turns_of rs)
  unfolding turns_of
  turns_of-IsSeparated [] = tt
  turns_of-IsSeparated (r ∷ rs) = turns_from-IsSeparated (open_turn r) rs
