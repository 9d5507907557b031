-- ===== src/Bot/Recent.antt =====
-- discord-bot/history.py: the rolling window beside all that was said.
use local_ai_server.Prelude.{
  ==→≡, Bool, Bool-cases, List, Option, String, [], ap, arith, drop, false, if◌then◌else◌, inl, inr,
  length, length-append, none, not, number_Eq, refl, some, suc, sym, text_Eq, true, zero, ℕ, ◌++◌,
  ◌+◌, ◌-◌, ◌==◌, ◌∙◌, ◌∷◌, ◌≡◌, ◌≤◌,
}
use local_ai_server.Bot.Session.{Sent, assistant, user}
use mathlib.Core.List.{append_assoc}
use local_ai_server.Bot.Conversation.{
  HistoryKey, HistoryStore, add_turn, clear_channel, clear_persona, clear_store, get_history,
  keep_keys, key_Eq, newest_of, or_empty, push,
}
use local_ai_server.Prelude.Dict.{insert, lookup, lookup-insert}

-- A call of a method.
pub data Act : Type 0 where
  exchange : HistoryKey → String → String → Act
  look : HistoryKey → Act
  forget_channel : ℕ → Act
  forget_persona : String → Act
  forget_all : Act

unfoldable pub act : ℕ → Act → HistoryStore → HistoryStore
unfolding add_turn get_history clear_channel clear_persona
act n (exchange k said answered) d = add_turn n k said answered d
act n (look k) d = (get_history k d).1
act n (forget_channel c) d = clear_channel c d
act n (forget_persona name) d = clear_persona name d
act n forget_all d = clear_store d

unfoldable pub act_all : ℕ → List Act → HistoryStore → HistoryStore
unfolding act
act_all n [] d = d
act_all n (a ∷ acts) d = act_all n acts (act n a d)

-- All messages of a key since it was last cleared, without a limit.
abbrev pub say : HistoryKey → Act → List Sent → List Sent
say k (exchange j said answered) xs =
    if j == k
    then xs
      ++ record { role = user; content = said }
        ∷ record { role = assistant; content = answered }
        ∷ []
    else xs
say k (look j) xs = xs
say k (forget_channel c) xs = if k.0 == c then [] else xs
say k (forget_persona name) xs = if k.1 == name then [] else xs
say k forget_all xs = []

unfoldable pub say_all : HistoryKey → List Act → List Sent → List Sent
say_all k [] xs = xs
say_all k (a ∷ acts) xs = say_all k acts (say k a xs)

drop-append : (n : ℕ) (xs ys : List Sent) → n ≤ length xs → drop n (xs ++ ys) ≡ drop n xs ++ ys
drop-append zero xs ys h = refl
drop-append (suc n) [] ys h = absurd (omega (arith, h))
drop-append (suc n) (x ∷ xs) ys h = drop-append n xs ys (omega (arith, h))

drop-nil : (i : ℕ) → drop {A = Sent} i [] ≡ []
drop-nil zero = refl
drop-nil (suc i) = refl

drop_twice : (n m : ℕ) (xs : List Sent) → drop n (drop m xs) ≡ drop (m + n) xs
drop_twice n zero xs = ap (λ i. drop i xs) (omega arith)
drop_twice n (suc m) [] = drop-nil n ∙ sym (drop-nil (suc m + n))
drop_twice n (suc m) (x ∷ xs) =
    let more : suc (m + n) ≡ suc m + n = omega arith in
    drop_twice n m xs ∙ ap (λ i. drop i (x ∷ xs)) more

length-drop_sent : (n : ℕ) (xs : List Sent) → length (drop n xs) ≡ length xs - n
length-drop_sent zero xs = omega arith
length-drop_sent (suc n) [] = omega arith
length-drop_sent (suc n) (x ∷ xs) = omega (arith, length-drop_sent n xs)

-- A window that is cut and appended to is the window of all.
push-newest_of :
    (n : ℕ) (m : Sent) (xs : List Sent) → push n m (newest_of n xs) ≡ newest_of n (xs ++ m ∷ [])
unfolding push
push-newest_of n m xs =
    let cut = length xs - n in
    let whole = xs ++ m ∷ [] in
    let joined : newest_of n xs ++ m ∷ [] ≡ drop cut whole =
      sym (drop-append cut xs (m ∷ []) (omega arith)) in
    let all : length whole ≡ length xs + 1 = omega (arith, length-append xs (m ∷ [])) in
    let left : length (drop cut whole) ≡ length whole - cut = length-drop_sent cut whole in
    ap (newest_of n) joined
    ∙ drop_twice (length (drop cut whole) - n) cut whole
    ∙ ap (λ i. drop i whole) (omega (arith, all, left))

lookup-keep_keys :
    (p : HistoryKey → Bool) (k : HistoryKey) (d : HistoryStore)
    → lookup k (keep_keys p d) ≡ (if p k then lookup k d else none)
unfolding lookup keep_keys
lookup-keep_keys p k [] = ground arith
lookup-keep_keys p k ((j, xs) ∷ d) =
    let same : (j == k) ≡ true → p j ≡ p k = λ e. ap p (==→≡ j k e) in
    elim (p j)
        as (λ b.
          p j ≡ b
          → lookup k (if b then (j, xs) ∷ keep_keys p d else keep_keys p d)
            ≡ (if p k then (if j == k then some xs else lookup k d) else none)) [
              | true ↦ λ t. ground (arith, lookup-keep_keys p k d, same, t)
              | false ↦ λ t. ground (arith, lookup-keep_keys p k d, same, t)
            ]
      refl

-- The window of a key.
abbrev pub window : HistoryKey → HistoryStore → List Sent
window k d = (get_history k d).0

or_empty-if :
    (b : Bool) (n : ℕ) (o : Option (List Sent)) (xs : List Sent)
    → or_empty o ≡ newest_of n xs
    → or_empty (if not b then o else none) ≡ newest_of n (if b then [] else xs)
or_empty-if true n o xs h = sym (drop-nil (0 - n))
or_empty-if false n o xs h = h

window-insert :
    (k j : HistoryKey) (v : List Sent) (d : HistoryStore)
    → or_empty (lookup k (insert j v d)) ≡ (if j == k then v else or_empty (lookup k d))
window-insert k j v d = elim (Bool-cases (j == k)) [
  | inl e ↦ ap or_empty (lookup-insert j k v d) ∙ (rw e refl)
  | inr e ↦ ap or_empty (lookup-insert j k v d) ∙ (rw e refl)
]

act-window :
    (n : ℕ) (k : HistoryKey) (a : Act) (d : HistoryStore) (xs : List Sent)
    → window k d ≡ newest_of n xs
    → window k (act n a d) ≡ newest_of n (say k a xs)
unfolding act get_history add_turn clear_channel clear_persona lookup
act-window n k (exchange j said answered) d xs h =
    let asked : Sent = record { role = user; content = said } in
    let told : Sent = record { role = assistant; content = answered } in
    let pushed = push n told (push n asked (or_empty (lookup j d))) in
    window-insert k j pushed d ∙ elim (Bool-cases (j == k)) [
      | inl e ↦ rw e (
          ap (λ x. push n told (push n asked (window x d))) (==→≡ j k e)
          ∙ ap (λ x. push n told (push n asked x)) h
          ∙ ap (push n told) (push-newest_of n asked xs)
          ∙ push-newest_of n told (xs ++ asked ∷ [])
          ∙ ap (newest_of n) (append_assoc xs (asked ∷ []) (told ∷ [])))
      | inr e ↦ rw e h
    ]
act-window n k (look j) d xs h =
    window-insert k j (or_empty (lookup j d)) d ∙ elim (Bool-cases (j == k)) [
      | inl e ↦ rw e (ap (λ x. window x d) (==→≡ j k e) ∙ h)
      | inr e ↦ rw e h
    ]
act-window n k (forget_channel c) d xs h =
    ap or_empty (lookup-keep_keys (λ j. not (j.0 == c)) k d)
    ∙ or_empty-if (k.0 == c) n (lookup k d) xs h
act-window n k (forget_persona name) d xs h =
    ap or_empty (lookup-keep_keys (λ j. not (j.1 == name)) k d)
    ∙ or_empty-if (k.1 == name) n (lookup k d) xs h
act-window n k forget_all d xs h = sym (drop-nil (0 - n))

act_all-window :
    (n : ℕ) (k : HistoryKey) (acts : List Act) (d : HistoryStore) (xs : List Sent)
    → window k d ≡ newest_of n xs
    → window k (act_all n acts d) ≡ newest_of n (say_all k acts xs)
unfolding act_all say_all
act_all-window n k [] d xs h = h
act_all-window n k (a ∷ acts) d xs h =
    act_all-window n k acts (act n a d) (say k a xs) (act-window n k a d xs h)

-- After any exchanges, reads and clears of any channels and personas, the history of a channel
-- and persona is the end, of at most the limit's length, of all messages exchanged there since it
-- was last cleared.
pub act_all-newest_of :
    (n : ℕ) (k : HistoryKey) (acts : List Act)
    → (get_history k (act_all n acts [])).0 ≡ newest_of n (say_all k acts [])
unfolding get_history lookup
act_all-newest_of n k acts = act_all-window n k acts [] [] (sym (drop-nil (0 - n)))
