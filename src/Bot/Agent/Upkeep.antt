-- ===== src/Bot/Agent/Upkeep.antt =====
-- discord-bot/lore/compaction.py, `maybe_compact_session`: what follows a turn that was posted.
use local_ai_server.Prelude.{
  Bool, Option, String, false, if◌then◌else◌, none, number_Eq, some, text_Eq, ℕ,
}
use local_ai_server.Prelude.Words.{is_blank, strip}
use local_ai_server.Bot.Session.{LoreSession, compact_session}
use local_ai_server.Bot.Agent.Rounds.{Limits}
use local_ai_server.Bot.Agent.Run.{Streamed, cut, streamed}
use local_ai_server.Bot.Agent.Turn.{reaches}

-- _summarise: nothing for a ProxyError or an empty summary. The metrics are the caller's own.
unfoldable pub summarise : Streamed → Option String
unfolding strip
summarise (cut e) = none
summarise (streamed text usage) =
    let summary = strip text in if is_blank summary then none else some summary

-- maybe_compact_session(session, …), with the answer to the request for a summary
unfoldable pub maybe_compact_session :
    (ℕ → String) → Limits → Streamed → LoreSession → Bool × LoreSession
unfolding reaches compact_session summarise
maybe_compact_session decimal limits stream s =
    if reaches limits.compact_percent limits.context s
    then compact_session decimal (summarise stream) s
    else (false, s)
