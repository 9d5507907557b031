-- ===== src/Proxy/Idle.antt =====
-- proxy/main.py: when the proxy tells the arbiter that it is idle.
use local_ai_server.Proxy.Requests.{
  Event, Pending, Phase, Proxy, after_acquire, answered, arrive, arrives, asking, cancelled, empty,
  ended, enter, finish, leave, locked, on_new, queued, react, run, step, streaming, subject,
  with_state,
}
use local_ai_server.Proxy.Client.{Answer, denied, granted, raises, read_reply}
use local_ai_server.Proxy.State.{decrement_queue}
use local_ai_server.Proxy.Accounting.{IsCounted, released_twice}
use local_ai_server.Proxy.Leaks.{
  loses_at, lost_in, run-IsCounted, run_from-IsCounted, step-IsCounted,
}
use local_ai_server.Prelude.{
  Bool, Bool-cases, List, Option-cases, [], ap, arith, false, inl, inr, ltb, none, number_Eq, refl,
  some, subst, suc, text_Eq, true, ℕ, ◌&&◌, ◌+◌, ◌-◌, ◌<◌, ◌==◌, ◌∙◌, ◌∷◌, ◌≡◌, ◌≢◌, ◌≤◌, ◌⊎◌,
}
use local_ai_server.Prelude.Dict.{Dict, lookup}
use local_ai_server.Proxy.Counting.{
  count, count-insert_new, count-insert_old, is_live, is_waiting, one_if,
}

waiting-le-live : (d : Dict ℕ Pending) → count is_waiting d ≤ count is_live d
unfolding count
waiting-le-live [] = omega arith
waiting-le-live ((id, r) ∷ d) = ground (arith, waiting-le-live d)

-- The test of `announce_idle`.
abbrev is_idle : Proxy → Bool
is_idle p = p.state.llm_inflight == 0 && p.state.queue_depth == 0

live : Proxy → ℕ
live p = count is_live p.requests

-- A step that ends no request starts no release; one that does, starts it if the test passes.
abbrev Announces : Proxy → Proxy → Type 0
Announces p p' =
    (p'.releases ≡ p.releases) × (live p ≤ live p')
    ⊎ (p'.releases ≡ p.releases + one_if (is_idle p')) × (0 < live p)

finish-releases :
    (id : ℕ) (r : Pending) (q : Proxy)
    → r.released ≡ false
    → (finish id r q).releases ≡ q.releases + one_if (is_idle (finish id r q))
unfolding finish
finish-releases id r q fresh = ground arith

live-pos :
    (id : ℕ) (r : Pending) (d : Dict ℕ Pending)
    → lookup id d ≡ some r
    → is_live r ≡ true
    → 0 < count is_live d
unfolding lookup count
live-pos id r [] l h = ground arith
live-pos id r ((j, q) ∷ d) l h = ground (arith, live-pos id r d)

module _ (lost : ℕ) (p : Proxy) (c : IsCounted lost p) where
  finish-Announces :
      (id : ℕ) (r : Pending) (q : Proxy)
      → q.releases ≡ p.releases
      → lookup id p.requests ≡ some r
      → is_live r ≡ true
      → Announces p (finish id r q)
  unfolding live
  finish-Announces id r q same l h = inr (
    finish-releases id r q (ground (arith, c.settled id r l))
        ∙ ap (λ (n : ℕ). n + one_if (is_idle (finish id r q))) same,
    live-pos id r p.requests l h,
  )

  answered-Announces :
      (id : ℕ) (r : Pending) (answer : Answer)
      → r.phase ≡ asking
      → lookup id p.requests ≡ some r
      → Announces p (after_acquire id r answer p)
  unfolding after_acquire live
  answered-Announces id r (granted d) ph l =
      let r' : Pending = record r { phase = queued } in
      inl (refl, ground (arith, count-insert_old is_live id r' r p.requests l))
  answered-Announces id r (denied d) ph l =
      finish-Announces id r (with_state decrement_queue p) refl l (ground arith)
  answered-Announces id r raises ph l = finish-Announces id r p refl l (ground arith)

  leave-Announces :
      (id : ℕ) (r : Pending) (failed : Bool)
      → r.phase ≡ streaming
      → lookup id p.requests ≡ some r
      → Announces p (leave id r failed p)
  unfolding leave
  leave-Announces id r failed ph l =
      let unlocked = with_state (λ s. record s { lock = none }) p in
      let once = finish-Announces id r unlocked refl l (ground arith) in
      elim (Bool-cases failed) [
        | inl e ↦ rw (e, released_twice lost p c id r l) once
        | inr e ↦ rw e once
      ]

  enter-Announces :
      (id now : ℕ) (r : Pending)
      → r.phase ≡ queued
      → lookup id p.requests ≡ some r
      → Announces p (enter id now r p)
  unfolding enter live
  enter-Announces id now r ph l =
      let r' : Pending = record r { phase = streaming } in
      inl (refl, ground (arith, count-insert_old is_live id r' r p.requests l))

  react-Announces :
      (e : Event) (r : Pending) (ph : Phase)
      → r.phase ≡ ph
      → lookup (subject e) p.requests ≡ some r
      → Announces p (react e r ph p)
  unfolding react
  react-Announces (answered id answer) r asking ph l =
      answered-Announces id r (read_reply answer) ph l
  react-Announces (cancelled id) r asking ph l = answered-Announces id r raises ph l
  react-Announces (cancelled id) r queued ph l =
      finish-Announces id r (with_state decrement_queue p) refl l (ground arith)
  react-Announces (locked id now) r queued ph l =
      elim p.state.lock
        as (λ o. Announces p (elim o [ none ↦ enter id now r p | some other ↦ p ])) [
          | none ↦ enter-Announces id now r ph l
          | some other ↦ inl (refl, omega arith)
        ]
  react-Announces (ended id failed) r streaming ph l = leave-Announces id r failed ph l
  react-Announces _ r _ ph l = inl (refl, omega arith)

  on_new-Announces : (e : Event) → lookup (subject e) p.requests ≡ none → Announces p (on_new e p)
  unfolding arrive live
  on_new-Announces (arrives id now model) l =
      let r : Pending = record { model = model; phase = asking; released = false } in
      inl (refl, ground (arith, count-insert_new is_live id r p.requests l))
  on_new-Announces (answered id answer) l = inl (refl, omega arith)
  on_new-Announces (cancelled id) l = inl (refl, omega arith)
  on_new-Announces (locked id now) l = inl (refl, omega arith)
  on_new-Announces (ended id failed) l = inl (refl, omega arith)

  step-Announces : (e : Event) → Announces p (step e p)
  unfolding step
  step-Announces e = elim (Option-cases (lookup (subject e) p.requests)) [
    | inl l ↦ rw (l, step) (on_new-Announces e l)
    | inr (r, l) ↦ rw (l, step) (react-Announces e r r.phase refl l)
  ]

-- While no request was lost, an event starts exactly one release if it ends the last request
-- that was not over, and none otherwise.
pub step-releases :
    (p : Proxy) (e : Event)
    → IsCounted 0 p
    → loses_at e p ≡ 0
    → (step e p).releases
      ≡ p.releases
        + one_if (ltb 0 (count is_live p.requests) && count is_live (step e p).requests == 0)
unfolding live
step-releases p e c none_lost =
    let after : IsCounted 0 (step e p) =
      subst (λ n. IsCounted n (step e p)) (omega arith) (step-IsCounted 0 p c e) in
    elim (step-Announces 0 p c e) [
      | inl (same, more) ↦ ground arith
      | inr (told, some_live) ↦
          ground (arith, after.inflight, after.depth, waiting-le-live (step e p).requests)
    ]

run-silent :
    (es : List Event) (lost : ℕ) (p : Proxy)
    → IsCounted (suc lost) p
    → (run es p).releases ≡ p.releases
unfolding run
run-silent [] lost p c = refl
run-silent (e ∷ es) lost p c =
    let after = step-IsCounted (suc lost) p c e in
    let one : (step e p).releases ≡ p.releases = elim (step-Announces (suc lost) p c e) [
      | inl (same, more) ↦ same
      | inr (told, some_live) ↦ ground (arith, after.depth)
    ] in
    run-silent es (lost + loses_at e p) (step e p)
      (subst (λ n. IsCounted n (step e p)) (omega arith) after)
    ∙ one

-- Once `arbiter.acquire()` has raised in some request, no later event makes the proxy tell the
-- arbiter that it is idle, and `queue_depth` never comes back to 0.
pub raised-run :
    (before after : List Event)
    → lost_in before empty ≢ 0
    → ((run after (run before empty)).releases ≡ (run before empty).releases)
      × (0 < (run after (run before empty)).state.queue_depth)
raised-run before after lost =
    let k = lost_in before empty in
    let c : IsCounted (suc (k - 1)) (run before empty) =
      subst (λ n. IsCounted n (run before empty)) (omega arith) (run-IsCounted before) in
    let d = run_from-IsCounted after (suc (k - 1)) (run before empty) c in
    (run-silent after (k - 1) (run before empty) c, omega (arith, d.depth))
