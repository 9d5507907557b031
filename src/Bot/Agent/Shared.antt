-- ===== src/Bot/Agent/Shared.antt =====
-- discord-bot/lore/compaction.py: the calls and results that both lists of the tool loop share.
use local_ai_server.Prelude.{
  Bool-cases, List, Option, String, [], arith, contains, false, inl, inr, ltb, nat_eq_iff,
  number_Eq, refl, some, subst, suc, sym, text_Eq, true, zero, ℕ, ◌++◌, ◌<◌, ◌==◌, ◌||◌, ◌∷◌, ◌≡◌,
}
use local_ai_server.Bot.Agent.Messages.{AgentMessage, Entry, call, condensed, plain, result}
use local_ai_server.Bot.Agent.Condensing.{
  count_results, has_victim, idents, new_entry, put_for, victims_from, without,
}
use local_ai_server.Bot.Agent.Pairing.{IsPaired}
use local_ai_server.Prelude.Words.{is_blank}

-- The identities of the calls and results.
abbrev pub tool_idents : List Entry → List ℕ
tool_idents [] = []
tool_idents ((i, plain role text) ∷ es) = tool_idents es
tool_idents ((i, condensed text) ∷ es) = tool_idents es
tool_idents ((i, call tc reasoning) ∷ es) = i ∷ tool_idents es
tool_idents ((i, result name text id) ∷ es) = i ∷ tool_idents es

-- The calls and results of the first list stand in the second.
abbrev pub IsIn : List Entry → List Entry → Type 0
IsIn tool es = (i : ℕ) → contains (tool_idents tool) i ≡ true → contains (idents es) i ≡ true

tool_idents-append :
    (xs ys : List Entry) (i : ℕ)
    → contains (tool_idents (xs ++ ys)) i
      ≡ (contains (tool_idents xs) i || contains (tool_idents ys) i)
unfolding contains
tool_idents-append [] ys i = refl
tool_idents-append ((j, plain role text) ∷ xs) ys i = tool_idents-append xs ys i
tool_idents-append ((j, condensed text) ∷ xs) ys i = tool_idents-append xs ys i
tool_idents-append ((j, call tc reasoning) ∷ xs) ys i = ground (arith, tool_idents-append xs ys i)
tool_idents-append ((j, result name text id) ∷ xs) ys i = ground (arith, tool_idents-append xs ys i)

idents-append :
    (xs ys : List Entry) (i : ℕ)
    → contains (idents (xs ++ ys)) i ≡ (contains (idents xs) i || contains (idents ys) i)
unfolding contains
idents-append [] ys i = refl
idents-append ((j, m) ∷ xs) ys i = ground (arith, idents-append xs ys i)

pub tool_idents-idents : (es : List Entry) → IsIn es es
unfolding contains
tool_idents-idents [] i h = h
tool_idents-idents ((j, plain role text) ∷ es) i h = ground (arith, tool_idents-idents es i)
tool_idents-idents ((j, condensed text) ∷ es) i h = ground (arith, tool_idents-idents es i)
tool_idents-idents ((j, call tc reasoning) ∷ es) i h = ground (arith, tool_idents-idents es i)
tool_idents-idents ((j, result name text id) ∷ es) i h = ground (arith, tool_idents-idents es i)

pub append-IsIn :
    (tool es new new' : List Entry) → IsIn tool es → IsIn new new' → IsIn (tool ++ new) (es ++ new')
append-IsIn tool es new new' h k i found =
    ground (arith, tool_idents-append tool new i, idents-append es new' i, h i, k i)

-- Of at least one result, the oldest have a call or result.
pub victims_from-some :
    (n : ℕ) (previous : Option Entry) (es : List Entry)
    → IsPaired es
    → 0 < n
    → ltb 0 (count_results es) ≡ true
    → (i : ℕ) × (contains (idents (victims_from n previous es)) i ≡ true)
      × (contains (tool_idents es) i ≡ true)
unfolding victims_from contains count_results
victims_from-some zero previous es h pos few = absurd (omega (arith, pos))
victims_from-some (suc n) previous [] h pos few = absurd (ground (arith, few))
victims_from-some (suc n) previous ((i, plain role text) ∷ es) h pos few =
    victims_from-some (suc n) (some (i, plain role text)) es h pos few
victims_from-some (suc n) previous ((i, condensed text) ∷ es) h pos few =
    victims_from-some (suc n) (some (i, condensed text)) es h pos few
victims_from-some (suc n) previous ((i, result name text id) ∷ es) h pos few = absurd h
victims_from-some (suc n) previous ((i, call tc r) ∷ []) h pos few = absurd h
victims_from-some (suc n) previous ((i, call tc r) ∷ (j, plain role text) ∷ es) h pos few =
    absurd h.0
victims_from-some (suc n) previous ((i, call tc r) ∷ (j, condensed text) ∷ es) h pos few =
    absurd h.0
victims_from-some (suc n) previous ((i, call tc r) ∷ (j, call tc' r') ∷ es) h pos few = absurd h.0
victims_from-some (suc n) previous ((i, call tc r) ∷ (j, result name text id) ∷ es) h pos few =
    (i, ground (arith, nat_eq_iff i i), ground (arith, nat_eq_iff i i))

pub has_victim-contains :
    (ids : List ℕ) (es : List Entry) (i : ℕ)
    → contains ids i ≡ true
    → contains (idents es) i ≡ true
    → has_victim ids es ≡ true
unfolding has_victim contains
has_victim-contains ids [] i h k = absurd (ground (arith, k))
has_victim-contains ids ((j, m) ∷ es) i h k = elim (Bool-cases (j == i)) [
  | inl same ↦
      rw (subst (λ x. contains ids x ≡ true) (sym ((nat_eq_iff j i).0 same)) h) (ground arith)
  | inr other ↦ ground (arith, has_victim-contains ids es i h (ground (arith, k, other)))
]

-- What is in a list differs from what is not.
differ :
    (ids : List ℕ) (j i : ℕ) → contains ids j ≡ true → contains ids i ≡ false → (j == i) ≡ false
differ ids j i found missed = elim (Bool-cases (j == i)) [
  | inl same ↦
      absurd
        (ground (arith, subst (λ x. contains ids x ≡ true) ((nat_eq_iff j i).0 same) found, missed))
  | inr other ↦ other
]

without-idents :
    (ids : List ℕ) (es : List Entry) (i : ℕ)
    → contains ids i ≡ false
    → contains (idents (without ids es)) i ≡ contains (idents es) i
unfolding without contains
without-idents ids [] i h = refl
without-idents ids ((j, m) ∷ es) i h = elim (Bool-cases (contains ids j)) [
  | inl e ↦ rw (e, differ ids j i e h) (without-idents ids es i h)
  | inr e ↦ rw e (ground (arith, without-idents ids es i h))
]

pub put_for-idents :
    (ids : List ℕ) (new es : List Entry) (i : ℕ)
    → contains ids i ≡ false
    → contains (idents es) i ≡ true
    → contains (idents (put_for ids new es)) i ≡ true
unfolding put_for contains
put_for-idents ids new [] i h k = k
put_for-idents ids new ((j, m) ∷ es) i h k = elim (Bool-cases (contains ids j)) [
  | inl e ↦ rw e (
      ground (
        arith,
        idents-append new (without ids es) i,
        without-idents ids es i h,
        differ ids j i e h,
        k,
      ))
  | inr e ↦ rw e (ground (arith, put_for-idents ids new es i h, k))
]

-- A list of which a call or result is a part of another list, and no victim.
abbrev pub IsLeft : List ℕ → List Entry → List Entry → Type 0
IsLeft ids left es =
    (i : ℕ)
    → contains (tool_idents left) i ≡ true
    → (contains ids i ≡ false) × (contains (tool_idents es) i ≡ true)

IsLeft-skip :
    (ids : List ℕ) (left es : List Entry) (e : Entry)
    → IsLeft ids left es
    → IsLeft ids left (e ∷ es)
unfolding contains
IsLeft-skip ids left es (j, plain role text) h i k = h i k
IsLeft-skip ids left es (j, condensed text) h i k = h i k
IsLeft-skip ids left es (j, call tc reasoning) h i k = ground (arith, h i k)
IsLeft-skip ids left es (j, result name text id) h i k = ground (arith, h i k)

IsLeft-keep :
    (ids : List ℕ) (left es : List Entry) (j : ℕ) (m : AgentMessage)
    → contains ids j ≡ false
    → IsLeft ids left es
    → IsLeft ids ((j, m) ∷ left) ((j, m) ∷ es)
unfolding contains
IsLeft-keep ids left es j (plain role text) e h i k = h i k
IsLeft-keep ids left es j (condensed text) e h i k = h i k
IsLeft-keep ids left es j (call tc reasoning) e h i k = elim (Bool-cases (j == i)) [
  | inl same ↦
      (subst (λ x. contains ids x ≡ false) ((nat_eq_iff j i).0 same) e, ground (arith, same))
  | inr other ↦ ground (arith, h i, k, other)
]
IsLeft-keep ids left es j (result name text id) e h i k = elim (Bool-cases (j == i)) [
  | inl same ↦
      (subst (λ x. contains ids x ≡ false) ((nat_eq_iff j i).0 same) e, ground (arith, same))
  | inr other ↦ ground (arith, h i, k, other)
]

without-IsLeft : (ids : List ℕ) (es : List Entry) → IsLeft ids (without ids es) es
unfolding without contains
without-IsLeft ids [] = λ i k. absurd (ground (arith, k))
without-IsLeft ids ((j, m) ∷ es) = elim (Bool-cases (contains ids j)) [
  | inl e ↦ rw e (IsLeft-skip ids (without ids es) es (j, m) (without-IsLeft ids es))
  | inr e ↦ rw e (IsLeft-keep ids (without ids es) es j m e (without-IsLeft ids es))
]

-- A compaction puts in nothing that is a call or result.
pub put_for-IsLeft :
    (ids : List ℕ) (n : ℕ) (text text' : String) (es : List Entry)
    → IsLeft ids (put_for ids (new_entry n (condensed text) text') es) es
unfolding put_for contains
put_for-IsLeft ids n text text' [] = λ i k. absurd (ground (arith, k))
put_for-IsLeft ids n text text' ((j, m) ∷ es) = elim (Bool-cases (contains ids j)) [
  | inl e ↦ rw e (
      IsLeft-skip ids (new_entry n (condensed text) text' ++ without ids es) es (j, m)
        (elim (Bool-cases (is_blank text')) [
          | inl b ↦ rw b (without-IsLeft ids es)
          | inr b ↦ rw b (without-IsLeft ids es)
        ]))
  | inr e ↦ rw e (
      IsLeft-keep ids (put_for ids (new_entry n (condensed text) text') es) es j m e
        (put_for-IsLeft ids n text text' es))
]

-- The conversation may grow alone.
pub IsIn-grow : (tool es new : List Entry) → IsIn tool es → IsIn tool (es ++ new)
IsIn-grow tool es new h i k = ground (arith, idents-append es new i, h i, k)
