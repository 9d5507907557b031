-- ===== src/Proxy/Accounting.antt =====
-- proxy/main.py and proxy/state.py: what the counters count.
use local_ai_server.Prelude.{
  Bool, Bool-cases, Option, String, arith, false, inl, inr, none, not, number_Eq, refl, some, suc,
  sym, text_Eq, true, ℕ, ◌&&◌, ◌+◌, ◌==◌, ◌≡◌,
}
use local_ai_server.Prelude.Dict.{Dict, insert, lookup, lookup-insert}
use local_ai_server.Proxy.Requests.{
  Pending, Proxy, after_acquire, announce_idle, arrive, asking, enter, finish, leave, over, queued,
  set_request, streaming, with_state,
}
use local_ai_server.Proxy.Client.{granted}
use local_ai_server.Proxy.State.{decrement_queue, llm_request_finished}
use local_ai_server.Proxy.Counting.{
  count, count-insert_new, count-insert_old, is_live, is_streaming, is_waiting,
}

-- Who is over has run `_finish`, and nobody else.
abbrev pub IsSettled : Dict ℕ Pending → Type 0
IsSettled d = (id : ℕ) (r : Pending) → lookup id d ≡ some r → r.released ≡ not (is_live r)

abbrev pub held_slots : Option ℕ → ℕ
held_slots none = 0
held_slots (some id) = 1

-- Each counter counts its requests, but that `lost` of them left the queue uncounted; one request
-- streams while the lock is held, and none otherwise.
pub record IsCounted (lost : ℕ) (p : Proxy) : Type 0 where
  pub inflight : p.state.llm_inflight ≡ count is_live p.requests
  pub depth : p.state.queue_depth ≡ count is_waiting p.requests + lost
  pub slot : held_slots p.state.lock ≡ count is_streaming p.requests
  pub settled : IsSettled p.requests

insert-IsSettled :
    (id : ℕ) (r : Pending) (d : Dict ℕ Pending)
    → r.released ≡ not (is_live r)
    → IsSettled d
    → IsSettled (insert id r d)
insert-IsSettled id r d e h j q l = ground (arith, lookup-insert id j r d, h j q)

announce_idle-IsCounted :
    (lost : ℕ) (p : Proxy) → IsCounted lost p → IsCounted lost (announce_idle p)
unfolding announce_idle
announce_idle-IsCounted lost p c =
    elim (Bool-cases (p.state.llm_inflight == 0 && p.state.queue_depth == 0)) [
      | inl e ↦
          rw e
            (record { inflight = c.inflight; depth = c.depth; slot = c.slot; settled = c.settled })
      | inr e ↦ rw e c
    ]

abbrev ended_as : Pending → Pending
ended_as r = record r { phase = over; released = true }

-- `_finish` of a live request, where the queue and the lock already do not count it.
finish-IsCounted :
    (lost id : ℕ) (r : Pending) (p : Proxy)
    → lookup id p.requests ≡ some r
    → r.released ≡ false
    → is_live r ≡ true
    → p.state.llm_inflight ≡ count is_live p.requests
    → p.state.queue_depth ≡ count is_waiting (insert id (ended_as r) p.requests) + lost
    → held_slots p.state.lock ≡ count is_streaming (insert id (ended_as r) p.requests)
    → IsSettled p.requests
    → IsCounted lost (finish id r p)
unfolding finish
finish-IsCounted lost id r p l fresh live inflight depth slot settled = rw fresh (
    announce_idle-IsCounted lost (with_state llm_request_finished (set_request id (ended_as r) p))
      (record {
        inflight = ground (arith, count-insert_old is_live id (ended_as r) r p.requests l);
        depth = depth;
        slot = slot;
        settled = insert-IsSettled id (ended_as r) p.requests refl settled;
      }))

module _ (lost : ℕ) (p : Proxy) (c : IsCounted lost p) where
  pub arrive-IsCounted :
      (id now : ℕ) (model : String)
      → lookup id p.requests ≡ none
      → IsCounted lost (arrive id now model p)
  unfolding arrive
  arrive-IsCounted id now model new =
      let r : Pending = record { model = model; phase = asking; released = false } in
      record {
        inflight = ground (arith, c.inflight, count-insert_new is_live id r p.requests);
        depth = ground (arith, c.depth, count-insert_new is_waiting id r p.requests);
        slot = ground (arith, c.slot, count-insert_new is_streaming id r p.requests);
        settled = insert-IsSettled id r p.requests refl c.settled;
      }

  module _ (id : ℕ) (r : Pending) (l : lookup id p.requests ≡ some r) where
    -- The arbiter granted the card, or refused it.
    pub granted-IsCounted :
        (detail : String)
        → r.phase ≡ asking
        → IsCounted lost (after_acquire id r (granted detail) p)
    unfolding after_acquire
    granted-IsCounted detail ph =
        let r' : Pending = record r { phase = queued } in
        record {
          inflight = ground (arith, c.inflight, count-insert_old is_live id r' r p.requests l);
          depth = ground (arith, c.depth, count-insert_old is_waiting id r' r p.requests l);
          slot = ground (arith, c.slot, count-insert_old is_streaming id r' r p.requests l);
          settled = insert-IsSettled id r' p.requests (ground (arith, c.settled id r l)) c.settled;
        }

    -- It leaves the queue, and is over.
    pub dequeued-IsCounted :
        is_waiting r ≡ true → IsCounted lost (finish id r (with_state decrement_queue p))
    unfolding with_state decrement_queue
    dequeued-IsCounted w =
        finish-IsCounted lost id r (with_state decrement_queue p) l
          (ground (arith, c.settled id r l)) (ground arith) c.inflight
          (ground (arith, c.depth, count-insert_old is_waiting id (ended_as r) r p.requests l))
          (ground (arith, c.slot, count-insert_old is_streaming id (ended_as r) r p.requests l))
          c.settled

    -- It is over without having left the queue: one more is lost.
    pub raised-IsCounted : r.phase ≡ asking → IsCounted (suc lost) (finish id r p)
    raised-IsCounted ph =
        finish-IsCounted (suc lost) id r p l (ground (arith, c.settled id r l)) (ground arith)
          c.inflight
          (ground (arith, c.depth, count-insert_old is_waiting id (ended_as r) r p.requests l))
          (ground (arith, c.slot, count-insert_old is_streaming id (ended_as r) r p.requests l))
          c.settled

    pub enter-IsCounted :
        (now : ℕ) → r.phase ≡ queued → p.state.lock ≡ none → IsCounted lost (enter id now r p)
    unfolding enter
    enter-IsCounted now ph free =
        let r' : Pending = record r { phase = streaming } in
        record {
          inflight = ground (arith, c.inflight, count-insert_old is_live id r' r p.requests l);
          depth = ground (arith, c.depth, count-insert_old is_waiting id r' r p.requests l);
          slot = ground (arith, c.slot, count-insert_old is_streaming id r' r p.requests l);
          settled = insert-IsSettled id r' p.requests (ground (arith, c.settled id r l)) c.settled;
        }

    pub released_twice : (q : Proxy) → finish id (ended_as r) q ≡ q
    unfolding finish
    released_twice q = refl

    held_by_one : r.phase ≡ streaming → count is_streaming (insert id (ended_as r) p.requests) ≡ 0
    held_by_one ph =
        ground (arith, c.slot, count-insert_old is_streaming id (ended_as r) r p.requests l)

    pub leave-IsCounted :
        (failed : Bool) → r.phase ≡ streaming → IsCounted lost (leave id r failed p)
    unfolding leave
    leave-IsCounted failed ph =
        let unlocked = with_state (λ s. record s { lock = none }) p in
        let ended =
          finish-IsCounted lost id r unlocked l (ground (arith, c.settled id r l)) (ground arith)
            c.inflight
            (ground (arith, c.depth, count-insert_old is_waiting id (ended_as r) r p.requests l))
            (sym (held_by_one ph)) c.settled in
        elim (Bool-cases failed) [ inl e ↦ rw (e, released_twice) ended | inr e ↦ rw e ended ]
