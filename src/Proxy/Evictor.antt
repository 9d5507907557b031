-- ===== src/Proxy/Evictor.antt =====
-- proxy/main.py, `_idle_evictor` and `_unload_resident_models`: unload the models after a quiet
-- time, check that they are gone, and tell the arbiter. Between the test of the counters and the
-- release it waits for the router, and requests go on meanwhile.
use local_ai_server.Prelude.{
  ==→≡, All, Bool, Bool-cases, List, Option, Option-cases, String, [], ap, arith, false,
  if◌then◌else◌, inl, inr, is_empty, list_Eq, ltb, none, not, number_Eq, refl, some, text_Eq, true,
  ℕ, ◌&&◌, ◌+◌, ◌-◌, ◌==◌, ◌||◌, ◌↔◌, ◌∷◌, ◌≡◌, ◌≢◌, ◌≤◌,
}
use local_ai_server.Proxy.State.{OrchestratorState, recently_used}
use local_ai_server.Proxy.Requests.{Event, Proxy, empty, run, with_state}

-- What the router answers in one turn, `none` for a request that fails: the first list of
-- resident models, the status of each unload, and the lists until the deadline.
pub record Router : Type 0 where
  pub first : Option (List String)
  pub unload : String → Option ℕ
  pub polls : List (Option (List String))

abbrev pub is_success : Option ℕ → Bool
is_success none = false
is_success (some status) = status == 200

-- The loop that asks for each unload: the models that were asked for, and whether all went well.
unfoldable pub unload_each : Router → List String → List String × Bool
unload_each router [] = ([], true)
unload_each router (model ∷ rest) =
    let (asked, fine) = unload_each router rest in
    if is_success (router.unload model) then (model ∷ asked, fine) else (model ∷ [], false)

-- The loop that waits until nothing is resident.
unfoldable pub wait_unloaded : List (Option (List String)) → Bool
wait_unloaded [] = false
wait_unloaded (none ∷ rest) = false
wait_unloaded (some [] ∷ rest) = true
wait_unloaded (some (m ∷ ms) ∷ rest) = wait_unloaded rest

-- _unload_resident_models(resident), without its write to `current_model`.
unfoldable pub unload_resident_models : Router → List String → Bool
unfolding unload_each wait_unloaded
unload_resident_models router resident =
    (unload_each router resident).1 && wait_unloaded router.polls

-- `llm_inflight > 0 or queue_depth > 0`, or not idle for long enough: `continue`
unfoldable pub is_busy : ℕ → ℕ → OrchestratorState → Bool
unfolding recently_used
is_busy now threshold s =
    ltb 0 s.llm_inflight || ltb 0 s.queue_depth || recently_used now threshold s

abbrev pub resident_of : Option (List String) → List String
resident_of none = []
resident_of (some ms) = ms

-- Does this turn unload everything and then call `arbiter.release()`?
unfoldable pub evicts : ℕ → ℕ → Router → OrchestratorState → Bool
unfolding is_busy unload_resident_models
evicts now threshold router s =
    not (is_busy now threshold s)
    && not (is_empty (resident_of router.first))
    && unload_resident_models router (resident_of router.first)

-- One turn of the evictor with the events of the requests that come while it waits.
unfoldable pub evictor_turn : ℕ → ℕ → Router → List Event → Proxy → Proxy
unfolding evicts run with_state
evictor_turn now threshold router meanwhile p =
    let later = run meanwhile p in
    if evicts now threshold router p.state
    then record (with_state (λ s. record s { current_model = none }) later) {
      releases = later.releases + 1;
    }
    else later

-- Some reading of the list says that nothing is resident, and all before it succeeded.
abbrev pub SeesNone : List (Option (List String)) → Type 0
SeesNone [] = ⊥
SeesNone (none ∷ rest) = ⊥
SeesNone (some [] ∷ rest) = Unit
SeesNone (some (m ∷ ms) ∷ rest) = SeesNone rest

wait_unloaded-SeesNone :
    (polls : List (Option (List String))) → (wait_unloaded polls ≡ true) ↔ SeesNone polls
unfolding wait_unloaded
wait_unloaded-SeesNone [] = (λ h. cc, λ h. absurd h)
wait_unloaded-SeesNone (none ∷ rest) = (λ h. cc, λ h. absurd h)
wait_unloaded-SeesNone (some [] ∷ rest) = (λ h. tt, λ h. refl)
wait_unloaded-SeesNone (some (m ∷ ms) ∷ rest) = wait_unloaded-SeesNone rest

unload_each-All :
    (router : Router) (ms : List String)
    → ((unload_each router ms).1 ≡ true) ↔ All (λ m. router.unload m ≡ some 200) ms
unfolding unload_each
unload_each-All router [] = (λ h. tt, λ h. refl)
unload_each-All router (m ∷ ms) =
    let (there, back) = unload_each-All router ms in
    elim (Option-cases (router.unload m)) [
      | inl e ↦ (λ h. absurd (ground arith), λ h. absurd (ground arith))
      | inr (status, e) ↦ elim (Bool-cases (status == 200)) [
        | inl good ↦
            let is : status ≡ 200 = ==→≡ status 200 good in
            (λ h. (cc, there (ground arith)), λ h. ground (arith, back h.1))
        | inr bad ↦ (λ h. absurd (ground arith), λ h. absurd (ground arith))
      ]
    ]

-- Nothing is in flight or queued, and there was a request, the last one the threshold or more ago.
not_busy_iff :
    (now threshold : ℕ) (s : OrchestratorState)
    → (is_busy now threshold s ≡ false) ↔ (
        (s.llm_inflight ≡ 0)
        × (s.queue_depth ≡ 0)
        × (t : ℕ) × (s.last_request_at ≡ some t)
        × (threshold ≤ now - t))
unfolding is_busy recently_used
not_busy_iff now threshold s = elim (Option-cases s.last_request_at) [
  | inl e ↦ (λ h. absurd (ground arith), λ (_, _, t, is, _). absurd (cc))
  | inr (t, e) ↦ (
    λ h. (ground arith, ground arith, t, e, ground arith),
    λ (calm, empty, u, is, long). ground arith,
  )
]

evicts_lem :
    (now threshold : ℕ) (router : Router) (s : OrchestratorState)
    → (evicts now threshold router s ≡ true) ↔ (
        (is_busy now threshold s ≡ false)
        × (resident_of router.first ≢ [])
        × All (λ m. router.unload m ≡ some 200) (resident_of router.first)
        × SeesNone router.polls)
unfolding evicts
evicts_lem now threshold router s =
    let ms = resident_of router.first in
    let (all_there, all_back) = unload_each-All router ms in
    let (sees_there, sees_back) = wait_unloaded-SeesNone router.polls in
    (
      λ h. (
        ground arith,
        λ none_resident. cc (ap is_empty none_resident, some_resident h),
        all_there (ground arith),
        sees_there (ground arith),
      ),
      λ (idle, some_there, all, sees).
          let e : is_empty ms ≡ false = nonempty ms some_there in
          ground (arith, all_back all, sees_back sees),
    )
  where
    some_resident :
        evicts now threshold router s ≡ true → is_empty (resident_of router.first) ≡ false
    some_resident h = ground arith

    nonempty : (ms : List String) → ms ≢ [] → is_empty ms ≡ false
    nonempty [] h = absurd (h refl)
    nonempty (m ∷ ms) h = refl

-- A turn evicts exactly when nothing was in flight or queued at its start, there was a request
-- and the last one was at least the threshold ago, some model was resident, the router accepted
-- the unload of each of them, and a later list was empty with none failing before it.
pub evicts_iff :
    (now threshold : ℕ) (router : Router) (s : OrchestratorState)
    → (evicts now threshold router s ≡ true) ↔ (
        ((s.llm_inflight ≡ 0)
          × (s.queue_depth ≡ 0)
          × (t : ℕ) × (s.last_request_at ≡ some t)
          × (threshold ≤ now - t))
        × (resident_of router.first ≢ [])
        × All (λ m. router.unload m ≡ some 200) (resident_of router.first)
        × SeesNone router.polls)
evicts_iff now threshold router s =
    let (idle, busy) = not_busy_iff now threshold s in
    let (there, back) = evicts_lem now threshold router s in
    (
      λ h. let (free, some_there, all, sees) = there h in (idle free, some_there, all, sees),
      λ (quiet, some_there, all, sees). back (busy quiet, some_there, all, sees),
    )
