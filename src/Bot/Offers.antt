-- ===== src/Bot/Offers.antt =====
-- discord-bot/lore/session.py, `LoreSessionStore`: claims and sweeps of offers.
use local_ai_server.Prelude.{
  List, Option, Option-cases, [], arith, contains, false, if◌then◌else◌, inl, inr, none, number_Eq,
  refl, some, ℕ, ◌∙◌, ◌∷◌, ◌≡◌, ◌≢◌,
}
use local_ai_server.Prelude.Dict.{Dict, lookup, lookup-insert, lookup-remove, remove}
use local_ai_server.Bot.Session.{LoreSession}
use local_ai_server.Bot.SessionStore.{
  LoreSessionStore, claim, get, is_stale_offer, peek_offer, remove_all, stale_offers, sweep_offers,
}

-- A claim of an offer that is there makes its session a thread, uses the offer up, so that a
-- second claim finds nothing, and leaves all other offers and threads as they were; a claim of
-- an offer that is not there changes nothing.
pub record IsClaimed (message_id thread_id : ℕ) (st : LoreSessionStore) : Type 0 where
  pub once : (other : ℕ) → (claim message_id other (claim message_id thread_id st).1).0 ≡ none
  pub live :
      (s : LoreSession)
      → peek_offer message_id st ≡ some s
      → get thread_id (claim message_id thread_id st).1 ≡ some (record s { thread_id = thread_id })
  pub absent : peek_offer message_id st ≡ none → claim message_id thread_id st ≡ (none, st)
  pub other_offers :
      (m : ℕ) → m ≢ message_id → peek_offer m (claim message_id thread_id st).1 ≡ peek_offer m st
  pub other_threads : (t : ℕ) → t ≢ thread_id → get t (claim message_id thread_id st).1 ≡ get t st

pub claim-IsClaimed :
    (message_id thread_id : ℕ) (st : LoreSessionStore) → IsClaimed message_id thread_id st
unfolding claim peek_offer get
claim-IsClaimed m t st = elim (Option-cases (lookup m st.pending)) [
  | inl e ↦ record {
    once = λ other. ground arith;
    live = λ s h. ground arith;
    absent = λ h. ground arith;
    other_offers = λ k ne. ground arith;
    other_threads = λ k ne. ground arith;
  }
  | inr (s, e) ↦
      let gone = lookup-remove m m st.pending in
      record {
        once = λ other. ground (arith, gone);
        live = λ q h. ground (arith, lookup-insert t t (record s { thread_id = t }) st.sessions);
        absent = λ h. ground arith;
        other_offers = λ k ne. ground (arith, lookup-remove m k st.pending);
        other_threads =
            λ k ne. ground (arith, lookup-insert t k (record s { thread_id = t }) st.sessions);
      }
]

-- No key stands twice.
abbrev pub IsDistinct : Dict ℕ LoreSession → Type 0
IsDistinct [] = Unit
IsDistinct ((id, s) ∷ d) = (lookup id d ≡ none) × IsDistinct d

lookup-remove_all :
    (ids : List ℕ) (id : ℕ) (d : Dict ℕ LoreSession)
    → lookup id (remove_all ids d) ≡ (if contains ids id then none else lookup id d)
unfolding remove_all contains
lookup-remove_all [] id d = refl
lookup-remove_all (x ∷ xs) id d =
    ground (arith, lookup-remove_all xs id (remove x d), lookup-remove x id d)

stale_offers-absent :
    (now ttl id : ℕ) (d : Dict ℕ LoreSession)
    → lookup id d ≡ none
    → contains (stale_offers now ttl d) id ≡ false
unfolding lookup stale_offers contains
stale_offers-absent now ttl id [] h = refl
stale_offers-absent now ttl id ((j, s) ∷ d) h = ground (arith, stale_offers-absent now ttl id d)

abbrev pub keep_fresh : ℕ → ℕ → Option LoreSession → Option LoreSession
keep_fresh now ttl none = none
keep_fresh now ttl (some s) = if is_stale_offer now ttl s then none else some s

stale_offers-swept :
    (now ttl id : ℕ) (d : Dict ℕ LoreSession)
    → IsDistinct d
    → (if contains (stale_offers now ttl d) id then none else lookup id d)
      ≡ keep_fresh now ttl (lookup id d)
unfolding lookup stale_offers contains
stale_offers-swept now ttl id [] h = refl
stale_offers-swept now ttl id ((j, s) ∷ d) h =
    ground (arith, stale_offers-swept now ttl id d h.1, stale_offers-absent now ttl j d h.0)

-- After a sweep each offer is as before if it can be aged and is not older than the limit, and
-- gone otherwise; threads are untouched.
pub sweep_offers_lem :
    (now ttl id : ℕ) (st : LoreSessionStore)
    → IsDistinct st.pending
    → (peek_offer id (sweep_offers now ttl st).1 ≡ keep_fresh now ttl (peek_offer id st))
      × (get id (sweep_offers now ttl st).1 ≡ get id st)
unfolding sweep_offers peek_offer get
sweep_offers_lem now ttl id st h = (
  lookup-remove_all (stale_offers now ttl st.pending) id st.pending
      ∙ stale_offers-swept now ttl id st.pending h,
  refl,
)
