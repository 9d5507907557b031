-- ===== src/Bot/RateLimiter.antt =====
-- discord-bot/rate_limiter.py: a sliding window for each user. Times are ticks of the monotonic
-- clock; `t > now - window` reads `now < t + window` here, as ℕ has no negative cutoff.
use local_ai_server.Prelude.{
  Bool, List, Option, [], false, if◌then◌else◌, keep_if, leb, length, ltb, none, number_Eq, some,
  true, ℕ, ◌++◌, ◌+◌, ◌-◌, ◌∷◌,
}
use local_ai_server.Prelude.Dict.{Dict, insert, lookup}

pub record RateLimiter : Type 0 where
  pub max_requests : ℕ
  pub window : ℕ
  pub user_timestamps : Dict ℕ (List ℕ)

-- `t > cutoff`
abbrev pub is_recent : ℕ → ℕ → ℕ → Bool
is_recent window now t = ltb now (t + window)

abbrev pub stamps_of : Option (List ℕ) → List ℕ
stamps_of none = []
stamps_of (some ts) = ts

-- self.user_timestamps[user_id], of a defaultdict
unfoldable pub timestamps : ℕ → RateLimiter → List ℕ
unfolding lookup
timestamps user l = stamps_of (lookup user l.user_timestamps)

unfoldable pub store : ℕ → List ℕ → RateLimiter → RateLimiter
unfolding insert
store user ts l = record l { user_timestamps = insert user ts l.user_timestamps }

-- is_allowed(user_id) at the time `now`
unfoldable pub is_allowed : ℕ → ℕ → RateLimiter → Bool × RateLimiter
unfolding timestamps store keep_if
is_allowed now user l =
    let active = keep_if (is_recent l.window now) (timestamps user l) in
    if leb l.max_requests (length active)
    then (false, store user active l)
    else (true, store user (active ++ now ∷ []) l)

-- remaining_requests(user_id); the subtraction is max(0, …)
unfoldable pub remaining_requests : ℕ → ℕ → RateLimiter → ℕ
unfolding timestamps keep_if
remaining_requests now user l =
    l.max_requests - length (keep_if (is_recent l.window now) (timestamps user l))

-- reset(user_id)
unfoldable pub reset : ℕ → RateLimiter → RateLimiter
unfolding store
reset user l = store user [] l

pub record Call : Type 0 where
  pub now : ℕ
  pub user : ℕ

-- The answers to a sequence of calls.
unfoldable pub answers : List Call → RateLimiter → List Bool
unfolding is_allowed
answers [] l = []
answers (c ∷ cs) l = let (b, l') = is_allowed c.now c.user l in b ∷ answers cs l'
