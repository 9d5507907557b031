-- ===== src/Proxy/Examples.antt =====
-- Runs of the proxy, and the theorems at them.
use local_ai_server.Prelude.{
  All, List, Option, [], arith, false, list_Eq, ltb, none, number_Eq, refl, some, subst, text_Eq,
  true, ℕ, ◌&&◌, ◌++◌, ◌+◌, ◌-◌, ◌<◌, ◌==◌, ◌↔◌, ◌∷◌, ◌≡◌, ◌≢◌, ◌≤◌,
}
use local_ai_server.Prelude.Dict.{insert, lookup}
use local_ai_server.Proxy.Client.{Body, Reply, reply}
use local_ai_server.Proxy.State.{initial}
use local_ai_server.Proxy.Requests.{
  Event, Proxy, answered, arrives, empty, ended, locked, run, step,
}
use local_ai_server.Proxy.Counting.{count, is_live, one_if}
use local_ai_server.Proxy.Accounting.{IsCounted}
use local_ai_server.Proxy.Leaks.{loses_at, lost_in, run-IsCounted}
use local_ai_server.Proxy.Idle.{raised-run, step-releases}
use local_ai_server.Proxy.Evictor.{Router, SeesNone, evictor_turn, evicts, evicts_iff, resident_of}

runs : Unit {0}
unfolding run lookup insert lost_in evictor_turn count
runs = tt

abbrev yes_reply : Reply
yes_reply = reply 200 (some (record { reason = none; detail = some "nothing was running" }))

-- Two requests for two models, one after the other in the slot.
abbrev two_requests : List Event
two_requests =
    arrives 1 10 "qwen"
    ∷ answered 1 yes_reply
    ∷ arrives 2 11 "gemma"
    ∷ locked 1 12
    ∷ answered 2 yes_reply
    ∷ ended 1 false
    ∷ locked 2 13
    ∷ []

two_requests_model : (run two_requests empty).state.current_model ≡ some "gemma"
unfolding runs
two_requests_model = refl

two_requests_release : (run (two_requests ++ ended 2 true ∷ []) empty).releases ≡ 1
unfolding runs
two_requests_release = refl

run-IsCounted_example : IsCounted (lost_in two_requests empty) (run two_requests empty)
run-IsCounted_example = run-IsCounted two_requests

none_lost : lost_in two_requests empty ≡ 0
unfolding runs
none_lost = refl

last_loses_none : loses_at (ended 2 false) (run two_requests empty) ≡ 0
unfolding loses_at runs
last_loses_none = refl

step-releases_example :
    (step (ended 2 false) (run two_requests empty)).releases
    ≡ (run two_requests empty).releases
      + one_if (
          ltb 0 (count is_live (run two_requests empty).requests)
          && count is_live (step (ended 2 false) (run two_requests empty)).requests == 0)
step-releases_example =
    step-releases (run two_requests empty) (ended 2 false)
      (subst (λ n. IsCounted n (run two_requests empty)) none_lost (run-IsCounted two_requests))
      last_loses_none

-- The arbiter's answer is 200 with a body that is not JSON.
abbrev garbled : List Event
garbled = arrives 1 10 "qwen" ∷ answered 1 (reply 200 none) ∷ []

garbled_loses : lost_in garbled empty ≢ 0
unfolding runs
garbled_loses e = ground arith

raised-run_example :
    ((run two_requests (run garbled empty)).releases ≡ (run garbled empty).releases)
    × (0 < (run two_requests (run garbled empty)).state.queue_depth)
raised-run_example = raised-run garbled two_requests garbled_loses

abbrev no_body : Option Body
no_body = none

abbrev unavailable : ℕ
unavailable = 503

-- A router that unloads, and a proxy that has been idle since 10.
abbrev router : Router
router = record {
  first = some ("qwen" ∷ []);
  unload = λ m. some 200;
  polls = some ("qwen" ∷ []) ∷ some [] ∷ [];
}

abbrev quiet : Proxy
quiet = record empty {
  state = record initial { last_request_at = some 10; current_model = some "qwen" };
}

quiet_evicts : evicts 700 600 router quiet.state ≡ true
unfolding evicts
quiet_evicts = refl

evicts_iff_example : (evicts 700 600 router quiet.state ≡ true) ↔ (
    ((quiet.state.llm_inflight ≡ 0)
      × (quiet.state.queue_depth ≡ 0)
      × (t : ℕ) × (quiet.state.last_request_at ≡ some t)
      × (600 ≤ 700 - t))
    × (resident_of router.first ≢ [])
    × All (λ m. router.unload m ≡ some 200) (resident_of router.first)
    × SeesNone router.polls)
evicts_iff_example = evicts_iff 700 600 router quiet.state

-- A request arrives and streams while the evictor waits for the router; the release is sent.
released_in_flight :
    let p =
      evictor_turn 700 600 router
        (arrives 1 700 "qwen" ∷ answered 1 yes_reply ∷ locked 1 701 ∷ [])
        quiet in
    (p.releases ≡ 1) × (p.state.llm_inflight ≡ 1)
unfolding runs
released_in_flight = (refl, refl)
