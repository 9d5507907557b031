-- ===== src/Bot/SessionStore.antt =====
-- discord-bot/lore/session.py, `LoreSessionStore`: live threads and pending offers. The file that
-- `save` writes holds what the two dictionaries hold; writing it is not modelled.
use local_ai_server.Prelude.{
  Bool, List, Option, [], if◌then◌else◌, length, ltb, none, number_Eq, some, true, ℕ, ◌-◌, ◌==◌,
  ◌∷◌,
}
use local_ai_server.Prelude.Dict.{Dict, has, insert, lookup, remove}
use local_ai_server.Bot.Session.{LoreSession, exceeds, idle_seconds}

pub record LoreSessionStore : Type 0 where
  pub sessions : Dict ℕ LoreSession
  pub pending : Dict ℕ LoreSession

-- get(thread_id)
unfoldable pub get : ℕ → LoreSessionStore → Option LoreSession
unfolding lookup
get id st = lookup id st.sessions

-- put(session)
unfoldable pub put : LoreSession → LoreSessionStore → LoreSessionStore
unfolding insert
put s st = record st { sessions = insert s.thread_id s st.sessions }

-- remove(thread_id)
unfoldable pub remove_thread : ℕ → LoreSessionStore → LoreSessionStore
unfolding remove
remove_thread id st = record st { sessions = remove id st.sessions }

-- expired_threads(ttl), at the time `now`
unfoldable pub expired_in : ℕ → ℕ → Dict ℕ LoreSession → List ℕ
unfolding idle_seconds
expired_in now ttl [] = []
expired_in now ttl ((id, s) ∷ d) =
    if exceeds (idle_seconds now s) ttl then id ∷ expired_in now ttl d else expired_in now ttl d

unfoldable pub expired_threads : ℕ → ℕ → LoreSessionStore → List ℕ
unfolding expired_in
expired_threads now ttl st = expired_in now ttl st.sessions

-- Is an offer older than `ttl`, or of an age that cannot be read?
unfoldable pub is_stale_offer : ℕ → ℕ → LoreSession → Bool
is_stale_offer now ttl s = elim s.created_at [ none ↦ true | some t ↦ ltb ttl (now - t) ]

unfoldable pub stale_offers : ℕ → ℕ → Dict ℕ LoreSession → List ℕ
unfolding is_stale_offer
stale_offers now ttl [] = []
stale_offers now ttl ((id, s) ∷ d) =
    if is_stale_offer now ttl s then id ∷ stale_offers now ttl d else stale_offers now ttl d

unfoldable pub remove_all : List ℕ → Dict ℕ LoreSession → Dict ℕ LoreSession
unfolding remove
remove_all [] d = d
remove_all (id ∷ ids) d = remove_all ids (remove id d)

-- sweep_offers(ttl): how many were dropped, and the store after it
unfoldable pub sweep_offers : ℕ → ℕ → LoreSessionStore → ℕ × LoreSessionStore
unfolding stale_offers remove_all
sweep_offers now ttl st =
    let stale = stale_offers now ttl st.pending in
    (length stale, record st { pending = remove_all stale st.pending })

-- offer(message_id, session, ttl)
unfoldable pub offer : ℕ → ℕ → LoreSession → ℕ → LoreSessionStore → LoreSessionStore
unfolding sweep_offers insert
offer now id s ttl st =
    let swept = if ttl == 0 then st else (sweep_offers now ttl st).1 in
    record swept { pending = insert id (record s { offer_message_id = id }) swept.pending }

unfoldable pub has_offer : ℕ → LoreSessionStore → Bool
unfolding has
has_offer id st = has id st.pending

unfoldable pub peek_offer : ℕ → LoreSessionStore → Option LoreSession
unfolding lookup
peek_offer id st = lookup id st.pending

-- claim(message_id, thread_id)
unfoldable pub claim : ℕ → ℕ → LoreSessionStore → Option LoreSession × LoreSessionStore
unfolding lookup insert remove
claim message_id thread_id st = elim (lookup message_id st.pending) [
  | none ↦ (none, st)
  | some s ↦
      let live = record s { thread_id = thread_id } in
      (
        some live,
        record st {
          sessions = insert thread_id live st.sessions;
          pending = remove message_id st.pending;
        },
      )
]
