-- ===== src/Bot/Window.antt =====
-- The rate limiter against a specification that remembers every request ever allowed.
use local_ai_server.Prelude.{
  ==→≡, Bool, Bool-cases, List, [], ap, arith, false, if◌then◌else◌, inl, inr, keep_if, leb, length,
  ltb, max, number_Eq, refl, subst, sym, true, ℕ, ◌++◌, ◌==◌, ◌∙◌, ◌∷◌, ◌≡◌, ◌≤◌,
}
use local_ai_server.Prelude.Dict.{lookup-insert}
use local_ai_server.Bot.RateLimiter.{Call, RateLimiter, answers, is_recent, store, timestamps}

-- The times at which each user's requests were allowed.
abbrev pub History : Type 0
History = ℕ → List ℕ

abbrev pub noted : ℕ → ℕ → History → History
noted now user h u = if user == u then h u ++ now ∷ [] else h u

-- How many requests of the user were allowed within the window that ends now.
abbrev pub used : ℕ → ℕ → ℕ → History → ℕ
used window now user h = length (keep_if (is_recent window now) (h user))

-- A request is allowed if fewer than `max` were within the window that ends with it.
unfoldable pub spec_answers : ℕ → ℕ → List Call → History → List Bool
spec_answers max window [] h = []
spec_answers max window (c ∷ cs) h =
    if ltb (used window c.now c.user h) max
    then true ∷ spec_answers max window cs (noted c.now c.user h)
    else false ∷ spec_answers max window cs h

-- Times do not go back.
abbrev pub Forward : ℕ → List Call → Type 0
Forward last [] = Unit
Forward last (c ∷ cs) = (last ≤ c.now) × Forward c.now cs

keep_if_twice :
    (window last now : ℕ) (ts : List ℕ)
    → last ≤ now
    → keep_if (is_recent window now) (keep_if (is_recent window last) ts)
      ≡ keep_if (is_recent window now) ts
unfolding keep_if
keep_if_twice window last now [] h = refl
keep_if_twice window last now (t ∷ ts) h = ground (arith, keep_if_twice window last now ts)

keep_if-append :
    (p : ℕ → Bool) (xs ys : List ℕ) → keep_if p (xs ++ ys) ≡ keep_if p xs ++ keep_if p ys
unfolding keep_if
keep_if-append p [] ys = refl
keep_if-append p (x ∷ xs) ys = ground (arith, keep_if-append p xs ys)

-- For each user, what the limiter stores and what the history holds agree on every window that
-- ends at `last` or later.
pub record Agrees (last : ℕ) (l : RateLimiter) (h : History) : Type 0 where
  pub same :
      (u now : ℕ)
      → last ≤ now
      → keep_if (is_recent l.window now) (timestamps u l) ≡ keep_if (is_recent l.window now) (h u)

module _ (last : ℕ) (l : RateLimiter) (h : History) (agrees : Agrees last l h) (c : Call)
    (forward : last ≤ c.now) where
  active : List ℕ
  active = keep_if (is_recent l.window c.now) (timestamps c.user l)

  refused-Agrees : Agrees c.now (store c.user active l) h
  unfolding timestamps store active
  refused-Agrees = record {
    same = λ u now later. elim (Bool-cases (c.user == u)) [
      | inl e ↦
          rw (lookup-insert c.user u active l.user_timestamps, e)
            (keep_if_twice l.window c.now now (timestamps c.user l) later
              ∙ subst
                  (λ v.
                    keep_if (is_recent l.window now) (timestamps v l)
                    ≡ keep_if (is_recent l.window now) (h u))
                  (sym (==→≡ c.user u e)) (agrees.same u now (omega arith)))
      | inr e ↦
          rw (lookup-insert c.user u active l.user_timestamps, e) (agrees.same u now (omega arith))
    ];
  }

  allowed-Agrees : Agrees c.now (store c.user (active ++ c.now ∷ []) l) (noted c.now c.user h)
  unfolding timestamps store active
  allowed-Agrees = record {
    same = λ u now later. elim (Bool-cases (c.user == u)) [
      | inl e ↦
          rw
            (
              lookup-insert c.user u (active ++ c.now ∷ []) l.user_timestamps,
              e,
              keep_if-append (is_recent l.window now) active (c.now ∷ []),
              keep_if-append (is_recent l.window now) (h u) (c.now ∷ []),
              keep_if_twice l.window c.now now (timestamps c.user l) later,
            )
            (ap (λ xs. xs ++ keep_if (is_recent l.window now) (c.now ∷ []))
              (subst
                (λ v.
                  keep_if (is_recent l.window now) (timestamps v l)
                  ≡ keep_if (is_recent l.window now) (h u))
                (sym (==→≡ c.user u e)) (agrees.same u now (omega arith))))
      | inr e ↦
          rw (lookup-insert c.user u (active ++ c.now ∷ []) l.user_timestamps, e)
            (agrees.same u now (omega arith))
    ];
  }

answers-eq-spec_from :
    (cs : List Call) (last : ℕ) (l : RateLimiter) (h : History)
    → Agrees last l h
    → Forward last cs
    → answers cs l ≡ spec_answers l.max_requests l.window cs h
unfolding answers spec_answers store active
answers-eq-spec_from [] last l h a f = refl
answers-eq-spec_from (c ∷ cs) last l h a f =
    let kept = keep_if (is_recent l.window c.now) (timestamps c.user l) in
    let same : length kept ≡ used l.window c.now c.user h = ap length (a.same c.user c.now f.0) in
    elim (Bool-cases (leb l.max_requests (length kept))) [
      | inl full ↦
          let over : ltb (used l.window c.now c.user h) l.max_requests ≡ false = ground arith in
          rw (full, over)
            (ap (λ bs. false ∷ bs)
              (answers-eq-spec_from cs c.now (store c.user kept l) h
                (refused-Agrees last l h a c f.0) f.1))
      | inr free ↦
          let under : ltb (used l.window c.now c.user h) l.max_requests ≡ true = ground arith in
          rw (free, under)
            (ap (λ bs. true ∷ bs)
              (answers-eq-spec_from cs c.now (store c.user (kept ++ c.now ∷ []) l)
                (noted c.now c.user h) (allowed-Agrees last l h a c f.0) f.1))
    ]

abbrev pub fresh : ℕ → ℕ → RateLimiter
fresh max window = record { max_requests = max; window = window; user_timestamps = [] }

-- For any calls of any users at times that do not go back, a new limiter answers as the
-- specification that remembers every allowed request, though it drops old timestamps.
pub answers-eq-spec :
    (max window : ℕ) (cs : List Call)
    → Forward 0 cs
    → answers cs (fresh max window) ≡ spec_answers max window cs (λ u. [])
unfolding timestamps
answers-eq-spec max window cs f =
    answers-eq-spec_from cs 0 (fresh max window) (λ u. []) (record { same = λ u now h. refl }) f
