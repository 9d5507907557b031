-- ===== src/Proxy/Leaks.antt =====
-- proxy/main.py: the counters over whole sequences of events.
use local_ai_server.Proxy.Requests.{
  Event, Pending, Phase, Proxy, after_acquire, answered, arrives, asking, cancel_wait, cancelled,
  empty, ended, enter, finish, leave, locked, on_new, queued, react, run, step, streaming, subject,
  with_state,
}
use local_ai_server.Proxy.Accounting.{
  IsCounted, arrive-IsCounted, dequeued-IsCounted, enter-IsCounted, granted-IsCounted,
  leave-IsCounted, raised-IsCounted,
}
use local_ai_server.Proxy.Counting.{count}
use local_ai_server.Prelude.{
  List, Option-cases, [], arith, inl, inr, none, number_Eq, refl, some, subst, suc, text_Eq, ℕ, ◌+◌,
  ◌∷◌, ◌≡◌,
}
use local_ai_server.Prelude.Dict.{lookup}
use local_ai_server.Proxy.Client.{Answer, denied, granted, raises, read_reply}
use local_ai_server.Proxy.State.{decrement_queue}

abbrev is_raise : Answer → ℕ
is_raise (granted d) = 0
is_raise (denied d) = 0
is_raise raises = 1

-- How many requests an event lets leave the queue uncounted: one where `arbiter.acquire()` raises, also by
-- a cancellation.
unfoldable pub loses : Event → Phase → ℕ
loses (answered id answer) asking = is_raise (read_reply answer)
loses (cancelled id) asking = 1
loses _ _ = 0

unfoldable pub loses_at : Event → Proxy → ℕ
unfolding loses lookup
loses_at e p = elim (lookup (subject e) p.requests) [ none ↦ 0 | some r ↦ loses e r.phase ]

unfoldable pub lost_in : List Event → Proxy → ℕ
unfolding loses_at step
lost_in [] p = 0
lost_in (e ∷ es) p = loses_at e p + lost_in es (step e p)

plus_zero : (lost : ℕ) (p : Proxy) → IsCounted lost p → IsCounted (lost + 0) p
plus_zero lost p c = subst (λ n. IsCounted n p) (omega arith) c

plus_one : (lost : ℕ) (p : Proxy) → IsCounted (suc lost) p → IsCounted (lost + 1) p
plus_one lost p c = subst (λ n. IsCounted n p) (omega arith) c

module _ (lost : ℕ) (p : Proxy) (c : IsCounted lost p) where
  answered-IsCounted :
      (id : ℕ) (r : Pending) (answer : Answer)
      → r.phase ≡ asking
      → lookup id p.requests ≡ some r
      → IsCounted (lost + is_raise answer) (after_acquire id r answer p)
  unfolding after_acquire
  answered-IsCounted id r (granted d) ph l =
      plus_zero lost (after_acquire id r (granted d) p) (granted-IsCounted lost p c id r l d ph)
  answered-IsCounted id r (denied d) ph l =
      plus_zero lost (finish id r (with_state decrement_queue p))
        (dequeued-IsCounted lost p c id r l (ground arith))
  answered-IsCounted id r raises ph l =
      plus_one lost (finish id r p) (raised-IsCounted lost p c id r l ph)

  react-IsCounted :
      (e : Event) (r : Pending) (ph : Phase)
      → r.phase ≡ ph
      → lookup (subject e) p.requests ≡ some r
      → IsCounted (lost + loses e ph) (react e r ph p)
  unfolding react loses
  react-IsCounted (answered id answer) r asking ph l =
      answered-IsCounted id r (read_reply answer) ph l
  react-IsCounted (cancelled id) r asking ph l = answered-IsCounted id r raises ph l
  react-IsCounted (cancelled id) r queued ph l =
      plus_zero lost (cancel_wait id r p) (dequeued-IsCounted lost p c id r l (ground arith))
  react-IsCounted (locked id now) r queued ph l = elim (Option-cases p.state.lock) [
    | inl free ↦
        rw (free, react)
          (plus_zero lost (enter id now r p) (enter-IsCounted lost p c id r l now ph free))
    | inr (other, taken) ↦ rw (taken, react) (plus_zero lost p c)
  ]
  react-IsCounted (ended id failed) r streaming ph l =
      plus_zero lost (leave id r failed p) (leave-IsCounted lost p c id r l failed ph)
  react-IsCounted _ r _ ph l = plus_zero lost p c

  on_new-IsCounted :
      (e : Event) → lookup (subject e) p.requests ≡ none → IsCounted lost (on_new e p)
  on_new-IsCounted (arrives id now model) l = arrive-IsCounted lost p c id now model l
  on_new-IsCounted (answered id answer) l = c
  on_new-IsCounted (cancelled id) l = c
  on_new-IsCounted (locked id now) l = c
  on_new-IsCounted (ended id failed) l = c

  pub step-IsCounted : (e : Event) → IsCounted (lost + loses_at e p) (step e p)
  unfolding step loses_at
  step-IsCounted e = elim (Option-cases (lookup (subject e) p.requests)) [
    | inl l ↦ rw (l, step, loses_at) (plus_zero lost (on_new e p) (on_new-IsCounted e l))
    | inr (r, l) ↦ rw (l, step, loses_at) (react-IsCounted e r r.phase refl l)
  ]

pub run_from-IsCounted :
    (es : List Event) (lost : ℕ) (p : Proxy)
    → IsCounted lost p
    → IsCounted (lost + lost_in es p) (run es p)
unfolding run lost_in
run_from-IsCounted [] lost p c = plus_zero lost p c
run_from-IsCounted (e ∷ es) lost p c =
    subst (λ n. IsCounted n (run es (step e p))) (omega arith)
      (run_from-IsCounted es (lost + loses_at e p) (step e p) (step-IsCounted lost p c e))

empty-IsCounted : IsCounted 0 empty
unfolding count lookup
empty-IsCounted = record { inflight = refl; depth = refl; slot = refl; settled = λ id r l. cc }

-- After any sequence of events `llm_inflight` is the number of requests that are not over, one
-- request streams while the lock is held and none otherwise, and `queue_depth` is the number of
-- requests that wait plus the number of times that `arbiter.acquire()` raised.
pub run-IsCounted : (es : List Event) → IsCounted (lost_in es empty) (run es empty)
run-IsCounted es =
    subst (λ n. IsCounted n (run es empty)) (omega arith)
      (run_from-IsCounted es 0 empty empty-IsCounted)
