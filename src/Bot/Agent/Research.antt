-- ===== src/Bot/Agent/Research.antt =====
-- discord-bot/lore/research.py: chunks of tool results, and research as plain text.
use local_ai_server.Prelude.{
  Bool, List, Option, String, [], contains, false, if◌then◌else◌, is_empty, keep_if, length, none,
  not, number_Eq, some, text_Eq, true, ℕ, ◌++◌, ◌+◌, ◌-◌, ◌==◌, ◌||◌, ◌∷◌,
}
use local_ai_server.Prelude.Dict.{Dict, insert, lookup}
use local_ai_server.Prelude.Words.{concat, is_blank, join, split, starts_with, strip}
use local_ai_server.Bot.Agent.Messages.{
  AgentMessage, Args, Library, args_of, call, condensed, plain, result,
}

-- _RAG_CHUNK_SEPARATOR
abbrev pub chunk_separator : String
chunk_separator = "\n\n---\n\n"

-- SEARCH_NOTE_PREFIX
abbrev pub search_note_prefix : String
search_note_prefix = "[Search note]"

unfoldable pub strip_each : List String → List String
unfolding strip
strip_each [] = []
strip_each (x ∷ xs) =
    let rest = strip_each xs in let s = strip x in if is_blank s then rest else s ∷ rest

unfoldable pub split_chunks : String → List String
unfolding split strip_each
split_chunks text = strip_each (split chunk_separator text)

-- chunk_key
unfoldable pub chunk_key : Library → String → String
unfolding strip
chunk_key lib chunk = lib.digest (strip chunk)

-- The loop over the chunks of a result: the chunks whose key is new, and the keys after it.
unfoldable pub fresh_of : Library → List String → List String → List String × List String
unfolding chunk_key contains
fresh_of lib seen [] = ([], seen)
fresh_of lib seen (c ∷ cs) = elim (contains seen (chunk_key lib c)) [
  | true ↦ fresh_of lib seen cs
  | false ↦ let (fresh, seen') = fresh_of lib (chunk_key lib c ∷ seen) cs in (c ∷ fresh, seen')
]

unfoldable pub nothing_new_note : Library → ℕ → String
unfolding concat
nothing_new_note lib n = concat (
    search_note_prefix
    ∷ " All "
    ∷ lib.decimal n
    ∷ " excerpt(s) this search returned were already shown earlier in this conversation — it found nothing new. Change the wording, the tool or the scope, or answer from what you have."
    ∷ [])

unfoldable pub omitted_note : Library → ℕ → ℕ → String
unfolding concat
omitted_note lib dropped n = concat (
    search_note_prefix
    ∷ " "
    ∷ lib.decimal dropped
    ∷ " of "
    ∷ lib.decimal n
    ∷ " excerpt(s) omitted — already shown earlier in this conversation."
    ∷ [])

-- drop_seen_chunks(result, seen): the text, and the keys after it
unfoldable pub drop_seen_chunks : Library → String → List String → String × List String
unfolding split_chunks fresh_of nothing_new_note omitted_note join
drop_seen_chunks lib text seen =
    let chunks = split_chunks text in
    let (fresh, seen') = fresh_of lib seen chunks in
    let dropped = length chunks - length fresh in
    (
      if dropped == 0
          then text
          else if is_empty fresh
          then nothing_new_note lib (length chunks)
          else join chunk_separator (fresh ++ omitted_note lib dropped (length chunks) ∷ []),
      seen',
    )

-- args.get(key), "" for none
abbrev pub text_of : Option String → String
text_of none = ""
text_of (some s) = s

unfoldable pub arg : String → Args → String
unfolding lookup
arg key args = text_of (lookup key args)

abbrev pub or_any : String → String
or_any s = if is_blank s then "any" else s

abbrev pub part_if : Bool → String → List String → List String
part_if b part parts = if b then part ∷ parts else parts

-- The description of a search.
unfoldable pub describe_search : Args → String
unfolding arg concat join
describe_search args =
    let query = arg "query" args in
    let channel = arg "channel_name" args in
    let start = arg "start_date" args in
    let end = arg "end_date" args in
    let parts = part_if (not (is_blank query)) (concat ("\"" ∷ query ∷ "\"" ∷ [])) (
      part_if (not (is_blank channel)) (concat ("in " ∷ channel ∷ [])) (
        part_if (not (is_blank start) || not (is_blank end))
          (concat ("between " ∷ or_any start ∷ " and " ∷ or_any end ∷ [])) [])) in
    if is_empty parts then "(unlabelled search)" else join " " parts

-- search_labels
unfoldable pub labels_from : Library → List AgentMessage → Dict String String → Dict String String
unfolding args_of describe_search insert
labels_from lib [] d = d
labels_from lib (plain role text ∷ ms) d = labels_from lib ms d
labels_from lib (condensed text ∷ ms) d = labels_from lib ms d
labels_from lib (result name text id ∷ ms) d = labels_from lib ms d
labels_from lib (call tc reasoning ∷ ms) d =
    labels_from lib ms (insert tc.id (describe_search (args_of lib tc)) d)

abbrev pub label_or : Option String → String
label_or none = "(unlabelled search)"
label_or (some s) = if is_blank s then "(unlabelled search)" else s

-- A rendered block: a summary kept whole, or a search's number, label and new chunks.
pub data Block : Type 0 where
  whole : String → Block
  search : ℕ → String → List String → Block

unfoldable pub block_text : Library → Block → String
unfolding concat join
block_text lib (whole text) = text
block_text lib (search n label chunks) =
    concat ("[Search " ∷ lib.decimal n ∷ "] " ∷ label ∷ "\n" ∷ join chunk_separator chunks ∷ [])

abbrev pub is_note : String → Bool
is_note chunk = starts_with chunk search_note_prefix

-- The chunks of a result that are no notes.
unfoldable pub excerpts : String → List String
unfolding strip split_chunks keep_if
excerpts text = keep_if (λ c. not (is_note c)) (split_chunks (strip text))

pub record Rendered : Type 0 where
  pub blocks : List Block
  pub keys : List String
  pub dropped : ℕ

-- The loop of render_research_blocks; `n` is the number of the next block.
unfoldable pub render_from :
    Library → Dict String String → ℕ → List String → List AgentMessage → Rendered
unfolding excerpts fresh_of lookup
render_from lib labels n keys [] = record { blocks = []; keys = keys; dropped = 0 }
render_from lib labels n keys (plain role text ∷ ms) = render_from lib labels n keys ms
render_from lib labels n keys (call tc reasoning ∷ ms) = render_from lib labels n keys ms
render_from lib labels n keys (condensed text ∷ ms) =
    let rest = render_from lib labels (n + 1) keys ms in
    record rest { blocks = whole text ∷ rest.blocks }
render_from lib labels n keys (result name text id ∷ ms) =
    let chunks = excerpts text in
    let (fresh, keys') = fresh_of lib keys chunks in
    let rest = render_from lib labels (if is_empty fresh then n else n + 1) keys' ms in
    record {
      blocks =
          if is_empty fresh
          then rest.blocks
          else search n (label_or (lookup id labels)) fresh ∷ rest.blocks;
      keys = rest.keys;
      dropped = (length chunks - length fresh) + rest.dropped;
    }

-- render_research_blocks(messages, seen_keys, start_index)
unfoldable pub render_research_blocks : Library → List AgentMessage → List String → ℕ → Rendered
unfolding labels_from render_from
render_research_blocks lib ms seen start =
    render_from lib (labels_from lib ms []) (start + 1) seen ms

abbrev pub texts_of_blocks : Library → List Block → List String
texts_of_blocks lib [] = []
texts_of_blocks lib (b ∷ bs) = block_text lib b ∷ texts_of_blocks lib bs

-- _flatten_research_for_synthesis: the user turn, under the synthesis prompt
unfoldable pub flatten_research : Library → List AgentMessage → String → String
unfolding render_research_blocks concat join
flatten_research lib ms question =
    let r = render_research_blocks lib ms [] 0 in
    if is_empty r.blocks
    then concat (
        "Question: " ∷ question
        ∷ "\n\nNo usable results came back from the Discord archive. Tell the user plainly that you could not find this information."
        ∷ [])
    else concat (
        "Question: "
        ∷ question
        ∷ "\n\nBelow is everything already retrieved from the Discord archive to answer it. No further searching is possible — write the final answer using only what appears here.\n\n"
        ∷ join "\n\n" (texts_of_blocks lib r.blocks)
        ∷ [])
