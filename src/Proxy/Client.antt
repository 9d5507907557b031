-- ===== src/Proxy/Client.antt =====
-- proxy/arbiter.py, `ArbiterClient.acquire`: what each answer of the arbiter means.
use local_ai_server.Prelude.{
  Bool, Option, String, arith, false, if◌then◌else◌, none, not, number_Eq, some, text_Eq, true, ℕ,
  ◌==◌, ◌↔◌, ◌≡◌, ◌≢◌,
}

-- What the HTTP client gives: an httpx.HTTPError, or a status with its body, `none` where the
-- body is not JSON. A JSON object has the keys `reason` and `detail`, or not.
pub record Body : Type 0 where
  pub reason : Option String
  pub detail : Option String

pub data Reply : Type 0 where
  unreachable : Reply
  reply : ℕ → Option Body → Reply

-- `raises` is the ValueError of `resp.json()` on the path that grants.
pub data Answer : Type 0 where
  granted : String → Answer
  denied : String → Answer
  raises : Answer

abbrev pub or_text : Option String → String → String
or_text none d = d
or_text (some t) d = t

abbrev pub refusal_of : Option Body → Answer
refusal_of none = denied "refused"
refusal_of (some b) = denied (or_text b.reason "refused")

abbrev pub grant_of : Option Body → Answer
grant_of none = raises
grant_of (some b) = granted (or_text b.detail "")

-- ArbiterClient.acquire
unfoldable pub read_reply : Reply → Answer
read_reply unreachable = denied "arbiter unreachable"
read_reply (reply status body) =
    if status == 503
    then refusal_of body
    else if not (status == 200)
    then denied "arbiter returned HTTP"
    else grant_of body

abbrev pub is_grant : Answer → Bool
is_grant (granted d) = true
is_grant (denied d) = false
is_grant raises = false

-- Only a reply 200 with a JSON body is read as a grant; the one reply that raises is a 200
-- without one.
pub read_reply_cases :
    (status : ℕ) (body : Option Body)
    → ((is_grant (read_reply (reply status body)) ≡ true) ↔ ((status ≡ 200) × (body ≢ none)))
      × ((read_reply (reply status body) ≡ raises) ↔ ((status ≡ 200) × (body ≡ none)))
unfolding read_reply
read_reply_cases status none =
    ((λ h. ground arith, λ h. ground arith), (λ h. ground arith, λ h. ground arith))
read_reply_cases status (some b) =
    ((λ h. (ground arith, λ e. cc), λ h. ground arith), (λ h. ground arith, λ h. ground arith))
