-- ===== src/Proxy/Counting.antt =====
-- How the number of requests in a class changes when one of them moves on.
use local_ai_server.Prelude.{
  Bool, [], arith, false, none, number_Eq, some, text_Eq, true, ℕ, ◌+◌, ◌∷◌, ◌≡◌,
}
use local_ai_server.Prelude.Dict.{Dict, insert, lookup}
use local_ai_server.Proxy.Requests.{Pending, asking, over, queued, streaming}

abbrev pub one_if : Bool → ℕ
one_if true = 1
one_if false = 0

unfoldable pub count : (Pending → Bool) → Dict ℕ Pending → ℕ
count p [] = 0
count p ((id, r) ∷ d) = one_if (p r) + count p d

module _ (p : Pending → Bool) where
  pub count-insert_new :
      (id : ℕ) (r : Pending) (d : Dict ℕ Pending)
      → lookup id d ≡ none
      → count p (insert id r d) ≡ count p d + one_if (p r)
  unfolding lookup insert count
  count-insert_new id r [] h = omega arith
  count-insert_new id r ((j, q) ∷ d) h = ground (arith, count-insert_new id r d)

  pub count-insert_old :
      (id : ℕ) (r old : Pending) (d : Dict ℕ Pending)
      → lookup id d ≡ some old
      → count p (insert id r d) + one_if (p old) ≡ count p d + one_if (p r)
  unfolding lookup insert count
  count-insert_old id r old [] h = ground arith
  count-insert_old id r old ((j, q) ∷ d) h = ground (arith, count-insert_old id r old d)

-- Not over yet.
abbrev pub is_live : Pending → Bool
is_live r = elim r.phase [ over ↦ false | _ ↦ true ]

-- Waiting for the arbiter or for the lock.
abbrev pub is_waiting : Pending → Bool
is_waiting r = elim r.phase [ asking ↦ true | queued ↦ true | _ ↦ false ]

abbrev pub is_streaming : Pending → Bool
is_streaming r = elim r.phase [ streaming ↦ true | _ ↦ false ]
