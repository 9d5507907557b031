-- ===== src/Bot/Agent/Ends.antt =====
-- discord-bot/lore/agent.py: how the tool loop ends.
use local_ai_server.Prelude.{
  List, Option, Option-cases, String, [], arith, contains, inl, inr, none, number_Eq, refl, some,
  text_Eq, true, ℕ, ◌&&◌, ◌*◌, ◌+◌, ◌/◌, ◌∷◌, ◌≡◌,
}
use local_ai_server.Prelude.Dict.{lookup}
use local_ai_server.Prelude.Words.{strip}
use local_ai_server.Bot.Session.{Sent, user}
use local_ai_server.Bot.Agent.Messages.{Entry, Library, ToolCall, args_of, call, plain, result}
use local_ai_server.Bot.Agent.Research.{text_of}
use local_ai_server.Bot.Agent.Metrics.{Usage}
use local_ai_server.Bot.Agent.Condensing.{
  Rounds, compact_tool_rounds, count_results, has_victim, idents, new_entry, replace_victims,
  victims_from,
}
use local_ai_server.Bot.Agent.Rounds.{
  Finish, Limits, Reply, World, answered, append_pair, call_tool, exhausted, failed, first_state,
  nudge, raised, replied, run_tool_rounds, stuck,
}
use local_ai_server.Bot.Agent.Keeping.{IsKept, IsProse, Kept, do_call, rounds_from-keeps}
use local_ai_server.Bot.Agent.Compacted.{compact_tool_rounds-Kept}
use local_ai_server.Bot.Agent.Shared.{
  IsIn, IsIn-grow, append-IsIn, has_victim-contains, put_for-IsLeft, put_for-idents, tool_idents,
  tool_idents-idents, victims_from-some,
}
use local_ai_server.Bot.Agent.Sound.{BothPaired, BothPaired-IsKept, number_from-IsPaired}

-- The pairs of both lists are whole, and those of the tool messages stand in the conversation.
abbrev pub IsShared : Rounds → Type 0
IsShared s = BothPaired s × IsIn s.tool_messages s.messages

-- Why the loop ended.
abbrev pub IsCaused : World → Finish → Type 0
IsCaused w exhausted = Unit
IsCaused w (answered text) =
    (round : ℕ) × (r : Reply) × (w.reply round ≡ replied r)
    × IsProse r
    × (text ≡ strip (text_of r.content))
IsCaused w (raised error) = (round : ℕ) × (w.reply round ≡ failed error)
IsCaused w stuck = ⊥

append_pair-IsIn :
    (tc : ToolCall) (reasoning text : String) (s : Rounds)
    → IsIn s.tool_messages s.messages
    → IsIn
        (append_pair tc reasoning text s).tool_messages
        (append_pair tc reasoning text s).messages
unfolding append_pair
append_pair-IsIn tc reasoning text s h =
    let pair : List Entry =
      (2 * s.next, call tc reasoning) ∷ (2 * s.next + 1, result tc.name text tc.id) ∷ [] in
    append-IsIn s.tool_messages s.messages pair pair h (tool_idents-idents pair)

call-IsIn :
    (lib : Library) (w : World) (round : ℕ) (reasoning : String) (tc : ToolCall) (s : Rounds)
    → IsIn s.tool_messages s.messages
    → IsIn
        (do_call lib w round reasoning tc s).tool_messages
        (do_call lib w round reasoning tc s).messages
unfolding call_tool
call-IsIn lib w round reasoning tc s h =
    let called = call_tool lib w round tc s in
    append_pair-IsIn tc reasoning called.0 called.1
      (elim (Option-cases (lookup (lib.dump tc.name (args_of lib tc)) s.ran)) [
        | inl e ↦ rw (e, call_tool) h
        | inr (first, e) ↦ rw (e, call_tool) h
      ])

-- Replacing victims that both lists have succeeds.
replace_victims-IsIn :
    (lib : Library) (w : World) (victims : List Entry) (text : String) (s : Rounds) (i : ℕ)
    → contains (idents victims) i ≡ true
    → contains (tool_idents s.tool_messages) i ≡ true
    → IsIn s.tool_messages s.messages
    → Kept
        (λ s'. IsIn s'.tool_messages s'.messages)
        (IsCaused w)
        (replace_victims lib victims text s)
unfolding replace_victims
replace_victims-IsIn lib w victims text s i is_victim is_tool h =
    let ids = idents victims in
    let in_both : (has_victim ids s.messages && has_victim ids s.tool_messages) ≡ true = ground (
      arith,
      has_victim-contains ids s.messages i is_victim (h i is_tool),
      has_victim-contains ids s.tool_messages i is_victim
          (tool_idents-idents s.tool_messages i is_tool),
    ) in
    rw in_both (λ j found.
      let left = put_for-IsLeft ids (s.next + 1) text text s.tool_messages j found in
      put_for-idents ids (new_entry s.next (plain user text) text) s.messages j left.0 (h j left.1))

compact_tool_rounds-IsIn :
    (lib : Library) (w : World) (summary : Option (String × Option Usage)) (n : ℕ) (s : Rounds)
    → IsShared s
    → Kept
        (λ s'. IsIn s'.tool_messages s'.messages)
        (IsCaused w)
        (compact_tool_rounds lib summary n s)
compact_tool_rounds-IsIn lib w summary n s (paired, shared) =
    compact_tool_rounds-Kept lib (λ s'. IsIn s'.tool_messages s'.messages) (IsCaused w) summary n s
      shared
      (λ text m few same same'.
        let some_victim =
          victims_from-some (count_results s.tool_messages / 2) none s.tool_messages paired.1
            (ground (arith, few)) (ground (arith, few)) in
        replace_victims-IsIn lib w
          (victims_from (count_results s.tool_messages / 2) none s.tool_messages) text
          (record s { metrics = m }) some_victim.0 some_victim.1 some_victim.2 shared)

both_Kept :
    (w : World) (done : Option (ℕ × Rounds))
    → Kept BothPaired (λ finish. Unit) done
    → Kept (λ s'. IsIn s'.tool_messages s'.messages) (IsCaused w) done
    → Kept IsShared (IsCaused w) done
both_Kept w none h k = k
both_Kept w (some (reclaimed, s)) h k = (h, k)

IsShared-IsKept : (lib : Library) (w : World) → IsKept lib w IsShared (IsCaused w)
unfolding nudge
IsShared-IsKept lib w =
    let pairs = BothPaired-IsKept lib w in
    record {
      by_call = λ round reasoning tc s h.
          (pairs.by_call round reasoning tc s h.0, call-IsIn lib w round reasoning tc s h.1);
      by_nudge = λ s h. (pairs.by_nudge s h.0, IsIn-grow s.tool_messages s.messages _ h.1);
      by_compaction = λ summary n s h.
          both_Kept w (compact_tool_rounds lib summary n (record s { compactions = n }))
            (pairs.by_compaction summary n s h.0)
            (compact_tool_rounds-IsIn lib w summary n (record s { compactions = n }) h);
      by_count = λ n s h. h;
      by_limit = tt;
      by_answer = λ round r e p. (round, r, e, p, refl);
      by_failure = λ round error e. (round, e);
    }

-- The loop ended for a reason, and left whole pairs.
abbrev pub IsSound : World → Finish × Rounds → Type 0
IsSound w (finish, s) = IsCaused w finish × BothPaired s

-- However the model, the tools and the summariser answer, where the arguments of each tool call are
-- a JSON object or no JSON at all and a request raises nothing but a ProxyError: in the
-- conversation and in the list of tool messages each call is directly followed by its own result, and each result follows its
-- call, also after compactions. The loop returns an answer only if it is the prose, without
-- blanks at its ends, of a reply that calls no tool, and raises only the error that a request
-- raised; a compaction never fails to find what it is to replace.
pub run_tool_rounds-IsSound :
    (lib : Library) (w : World) (limits : Limits) (max_rounds : ℕ) (messages : List Sent)
    (seen : List String)
    → IsSound w (run_tool_rounds lib w limits max_rounds messages seen)
unfolding run_tool_rounds contains
run_tool_rounds-IsSound lib w limits max_rounds messages seen =
    let (cause, shared) =
      rounds_from-keeps lib w IsShared (IsCaused w) limits max_rounds 0 (first_state messages seen)
        (IsShared-IsKept lib w) (λ s h. h) (λ usage s h. h)
        ((number_from-IsPaired 0 messages, tt), λ i k. absurd (ground (arith, k))) in
    (cause, shared.0)
