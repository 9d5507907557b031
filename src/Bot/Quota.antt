-- ===== src/Bot/Quota.antt =====
-- discord-bot/rate_limiter.py: the requests allowed in a window of time.
use local_ai_server.Prelude.{
  ==→≡, Bool, Bool-cases, List, [], arith, false, inl, inr, keep_if, length, ltb, ltb→lt, max,
  number_Eq, subst, true, ℕ, ◌++◌, ◌+◌, ◌<◌, ◌==◌, ◌∷◌, ◌≤◌,
}
use local_ai_server.Bot.RateLimiter.{Call, answers, is_recent}
use local_ai_server.Bot.Window.{Forward, History, answers-eq-spec, fresh, noted, spec_answers, used}

-- The requests that a sequence of answers allowed, added to a history.
abbrev pub allowed_by : List Call → List Bool → History → History
allowed_by [] bs h = h
allowed_by (c ∷ cs) [] h = h
allowed_by (c ∷ cs) (true ∷ bs) h = allowed_by cs bs (noted c.now c.user h)
allowed_by (c ∷ cs) (false ∷ bs) h = allowed_by cs bs h

-- The time of the last call.
abbrev pub last_time : ℕ → List Call → ℕ
last_time t [] = t
last_time t (c ∷ cs) = last_time c.now cs

length-recent-le :
    (window now later : ℕ) (ts : List ℕ)
    → now ≤ later
    → length (keep_if (is_recent window later) ts) ≤ length (keep_if (is_recent window now) ts)
unfolding keep_if
length-recent-le window now later [] h = omega arith
length-recent-le window now later (t ∷ ts) h = ground (arith, length-recent-le window now later ts)

length-recent-snoc :
    (window now t : ℕ) (ts : List ℕ)
    → length (keep_if (is_recent window now) (ts ++ t ∷ []))
      ≤ length (keep_if (is_recent window now) ts) + 1
unfolding keep_if
length-recent-snoc window now t [] = ground arith
length-recent-snoc window now t (x ∷ ts) = ground (arith, length-recent-snoc window now t ts)

abbrev IsWithin : ℕ → ℕ → ℕ → History → Type 0
IsWithin max window last h = (u now : ℕ) → last ≤ now → used window now u h ≤ max

noted-IsWithin :
    (max window last now user : ℕ) (h : History)
    → last ≤ now
    → used window now user h < max
    → IsWithin max window last h
    → IsWithin max window now (noted now user h)
noted-IsWithin max window last now user h f room w u later le = elim (Bool-cases (user == u)) [
  | inl e ↦ rw e (
      omega (
        arith,
        length-recent-snoc window later now (h u),
        length-recent-le window now later (h u) le,
        subst (λ v. used window now v h < max) (==→≡ user u e) room,
      ))
  | inr e ↦ rw e (w u later (omega arith))
]

spec-IsWithin :
    (max window : ℕ) (cs : List Call) (last : ℕ) (h : History)
    → Forward last cs
    → IsWithin max window last h
    → IsWithin max window (last_time last cs) (allowed_by cs (spec_answers max window cs h) h)
unfolding spec_answers
spec-IsWithin max window [] last h f w = w
spec-IsWithin max window (c ∷ cs) last h f w =
    elim (Bool-cases (ltb (used window c.now c.user h) max)) [
      | inl e ↦ rw e (
          spec-IsWithin max window cs c.now (noted c.now c.user h) f.1
            (noted-IsWithin max window last c.now c.user h f.0 (ltb→lt _ _ e) w))
      | inr e ↦
          rw e (spec-IsWithin max window cs c.now h f.1 (λ u now le. w u now (omega (arith, f.0))))
    ]

-- After any calls at times that do not go back, in every window that ends at the last call or
-- later no user has more than `max` allowed requests.
pub answers-IsWithin :
    (max window : ℕ) (cs : List Call) (u now : ℕ)
    → Forward 0 cs
    → last_time 0 cs ≤ now
    → used window now u (allowed_by cs (answers cs (fresh max window)) (λ u. [])) ≤ max
answers-IsWithin max window cs u now f le =
    rw (answers-eq-spec max window cs f)
      (spec-IsWithin max window cs 0 (λ u. []) f (λ v t h. none_used v t) u now le)
  where
    none_used : (v t : ℕ) → used window t v (λ u. []) ≤ max
    none_used v t = unfold keep_if in omega arith
