-- ===== src/Bot/Agent/Condensing.antt =====
-- discord-bot/lore/compaction.py, `compact_tool_rounds`, on the state of the tool loop.
use local_ai_server.Prelude.{
  Bool, List, Option, String, [], contains, false, if◌then◌else◌, is_empty, keep_if, ltb, none, not,
  number_Eq, some, suc, text_Eq, true, zero, ℕ, ◌&&◌, ◌*◌, ◌++◌, ◌+◌, ◌-◌, ◌/◌, ◌==◌, ◌||◌, ◌∷◌,
}
use local_ai_server.Prelude.Dict.{Dict}
use local_ai_server.Prelude.Words.{concat, is_blank, length_of, strip}
use local_ai_server.Bot.Session.{user}
use local_ai_server.Bot.Agent.Messages.{
  AgentMessage, Entry, Library, call, condensed, plain, result,
}
use local_ai_server.Bot.Agent.Research.{chunk_key, render_research_blocks, split_chunks}
use local_ai_server.Bot.Agent.Metrics.{AgentMetrics, Usage, record_usage}

-- The variables of _run_tool_rounds. Both lists hold the same message objects: a call and its
-- result have the identities 2 * k and 2 * k + 1, any other message has 2 * k, and `next` is the
-- next k. `executed` is the trace of the searches that were run.
pub record Rounds : Type 0 where
  pub messages : List Entry
  pub tool_messages : List Entry
  pub shown : List String
  pub ran : Dict String ℕ
  pub repeats : ℕ
  pub compactions : ℕ
  pub next : ℕ
  pub executed : List String
  pub metrics : AgentMetrics

abbrev pub is_result : AgentMessage → Bool
is_result (plain role text) = false
is_result (condensed text) = false
is_result (call tc reasoning) = false
is_result (result name text id) = true

unfoldable pub count_results : List Entry → ℕ
count_results [] = 0
count_results ((i, m) ∷ es) = if is_result m then suc (count_results es) else count_results es

abbrev pub with_previous : Option Entry → Entry → List Entry → List Entry
with_previous none e rest = rest
with_previous (some p) e rest = p ∷ e ∷ rest

-- The first `n` results, each with the entry before it: tool_messages[i - 1 : i + 1], which is
-- empty at i = 0.
unfoldable pub victims_from : ℕ → Option Entry → List Entry → List Entry
victims_from zero previous es = []
victims_from (suc n) previous [] = []
victims_from (suc n) previous ((i, m) ∷ es) = elim (is_result m) [
  | true ↦ with_previous previous (i, m) (victims_from n (some (i, m)) es)
  | false ↦ victims_from (suc n) (some (i, m)) es
]

abbrev pub idents : List Entry → List ℕ
idents [] = []
idents ((i, m) ∷ es) = i ∷ idents es

abbrev pub bodies : List Entry → List AgentMessage
bodies [] = []
bodies ((i, m) ∷ es) = m ∷ bodies es

-- len(m.get("content") or "") + len(m.get("reasoning_content") or "")
abbrev pub chars_in : AgentMessage → ℕ
chars_in (plain role text) = length_of text
chars_in (condensed text) = length_of text
chars_in (call tc reasoning) = length_of reasoning
chars_in (result name text id) = length_of text

unfoldable pub chars_of : List Entry → ℕ
chars_of [] = 0
chars_of ((i, m) ∷ es) = chars_in m + chars_of es

unfoldable pub discard_keys : Library → List String → List String → List String
unfolding chunk_key keep_if
discard_keys lib [] shown = shown
discard_keys lib (c ∷ cs) shown =
    discard_keys lib cs (keep_if (λ k. not (k == chunk_key lib c)) shown)

-- The chunks of the victims are taken from the keys shown.
unfoldable pub forget_shown : Library → List Entry → List String → List String
unfolding discard_keys split_chunks
forget_shown lib [] shown = shown
forget_shown lib ((i, result name text id) ∷ es) shown =
    forget_shown lib es (discard_keys lib (split_chunks text) shown)
forget_shown lib ((i, m) ∷ es) shown = forget_shown lib es shown

-- [m for m in target if id(m) not in victim_ids]
unfoldable pub without : List ℕ → List Entry → List Entry
unfolding contains
without ids [] = []
without ids ((i, m) ∷ es) = if contains ids i then without ids es else (i, m) ∷ without ids es

-- The target without the victims, and with `new` where the first of them was.
unfoldable pub put_for : List ℕ → List Entry → List Entry → List Entry
unfolding without contains
put_for ids new [] = []
put_for ids new ((i, m) ∷ es) =
    if contains ids i then new ++ without ids es else (i, m) ∷ put_for ids new es

-- Is there a first victim? `next(…)` raises StopIteration if not.
unfoldable pub has_victim : List ℕ → List Entry → Bool
unfolding contains
has_victim ids [] = false
has_victim ids ((i, m) ∷ es) = contains ids i || has_victim ids es

abbrev pub new_entry : ℕ → AgentMessage → String → List Entry
new_entry k m text = if is_blank text then [] else (2 * k, m) ∷ []

-- The rewrite of both lists; `none` is StopIteration.
unfoldable pub replace_victims : Library → List Entry → String → Rounds → Option (ℕ × Rounds)
unfolding put_for has_victim forget_shown chars_of
replace_victims lib victims text s =
    let ids = idents victims in
    if has_victim ids s.messages && has_victim ids s.tool_messages
    then some (
      (chars_of victims - length_of text) / 3,
      record s {
        messages = put_for ids (new_entry s.next (plain user text) text) s.messages;
        tool_messages = put_for ids (new_entry (s.next + 1) (condensed text) text) s.tool_messages;
        shown = forget_shown lib victims s.shown;
        next = s.next + 2;
      },
    )
    else none

unfoldable pub condensed_rounds : Library → ℕ → String → String
unfolding concat
condensed_rounds lib n summary = concat (
    "[Condensed research "
    ∷ lib.decimal n
    ∷ "] earlier searches from this run, summarised to save context\n"
    ∷ summary
    ∷ [])

-- What follows _summarise: nothing for a ProxyError or an empty summary.
unfoldable pub condense_with :
    Library → ℕ → List Entry → Option (String × Option Usage) → Rounds → Option (ℕ × Rounds)
unfolding replace_victims condensed_rounds record_usage strip
condense_with lib n victims none s = some (0, s)
condense_with lib n victims (some (text, usage)) s =
    let summary = strip text in
    if is_blank summary
    then some (0, s)
    else replace_victims lib victims (condensed_rounds lib n summary)
        (record s { metrics = record_usage usage 0 0 s.metrics })

-- compact_tool_rounds: the tokens reclaimed and the state after it
unfoldable pub compact_tool_rounds :
    Library → Option (String × Option Usage) → ℕ → Rounds → Option (ℕ × Rounds)
unfolding count_results victims_from render_research_blocks condense_with replace_victims
compact_tool_rounds lib summary n s =
    let results = count_results s.tool_messages in
    let victims = victims_from (results / 2) none s.tool_messages in
    if ltb results 2
    then some (0, s)
    else if is_empty (render_research_blocks lib (bodies victims) [] 0).blocks
    then replace_victims lib victims "" s
    else condense_with lib n victims summary s
