-- ===== src/Bot/Agent/Shown.antt =====
-- discord-bot/lore/research.py: how often an excerpt is shown.
use local_ai_server.Prelude.{
  Bool-cases, List, String, [], arith, contains, contains-append, if◌then◌else◌, inl, inr, is_empty,
  number_Eq, occurrences, occurrences-append, refl, text_Eq, ℕ, ◌++◌, ◌+◌, ◌||◌, ◌∷◌, ◌≡◌,
}
use local_ai_server.Prelude.Dict.{Dict, keys, lookup}
use local_ai_server.Bot.Agent.Messages.{AgentMessage, Library, call, condensed, plain, result}
use local_ai_server.Bot.Agent.Research.{
  Block, chunk_key, excerpts, fresh_of, label_or, labels_from, render_from, render_research_blocks,
  search, whole,
}

module _ (lib : Library) where
  abbrev pub keys_of : List String → List String
  keys_of [] = []
  keys_of (c ∷ cs) = chunk_key lib c ∷ keys_of cs

  -- How often a key is to be shown, if the keys `seen` were shown before and `found` come now.
  abbrev pub due : List String → List String → String → ℕ
  due seen found k = if contains seen k then 0 else if contains found k then 1 else 0

  pub fresh_of-due :
      (seen cs : List String) (k : String)
      → occurrences k (keys_of (fresh_of lib seen cs).0) ≡ due seen (keys_of cs) k
  unfolding fresh_of contains occurrences
  fresh_of-due seen [] k = ground arith
  fresh_of-due seen (c ∷ cs) k = elim (Bool-cases (contains seen (chunk_key lib c))) [
    | inl e ↦
        rw (e, fresh_of)
          (ground (arith, fresh_of-due seen cs k, text_Eq.test_iff (chunk_key lib c) k))
    | inr e ↦
        rw (e, fresh_of)
          (ground (
            arith,
            fresh_of-due (chunk_key lib c ∷ seen) cs k,
            text_Eq.test_iff (chunk_key lib c) k,
          ))
  ]

  pub fresh_of-keys :
      (seen cs : List String) (k : String)
      → contains (fresh_of lib seen cs).1 k ≡ (contains seen k || contains (keys_of cs) k)
  unfolding fresh_of contains
  fresh_of-keys seen [] k = ground arith
  fresh_of-keys seen (c ∷ cs) k = elim (Bool-cases (contains seen (chunk_key lib c))) [
    | inl e ↦
        rw (e, fresh_of)
          (ground (arith, fresh_of-keys seen cs k, text_Eq.test_iff (chunk_key lib c) k))
    | inr e ↦ rw (e, fresh_of) (ground (arith, fresh_of-keys (chunk_key lib c ∷ seen) cs k))
  ]

  -- The keys of the excerpts in the results of a conversation, and of those in rendered blocks.
  unfoldable pub found_keys : List AgentMessage → List String
  found_keys [] = []
  found_keys (plain role text ∷ ms) = found_keys ms
  found_keys (condensed text ∷ ms) = found_keys ms
  found_keys (call tc reasoning ∷ ms) = found_keys ms
  found_keys (result name text id ∷ ms) = keys_of (excerpts text) ++ found_keys ms

  unfoldable pub shown_keys : List Block → List String
  shown_keys [] = []
  shown_keys (whole text ∷ bs) = shown_keys bs
  shown_keys (search n label chunks ∷ bs) = keys_of chunks ++ shown_keys bs

  -- A block is added only for new excerpts; without them nothing is shown.
  shown_keys-block :
      (n : ℕ) (label : String) (fresh : List String) (bs : List Block)
      → shown_keys (if is_empty fresh then bs else search n label fresh ∷ bs)
        ≡ keys_of fresh ++ shown_keys bs
  unfolding shown_keys
  shown_keys-block n label [] bs = refl
  shown_keys-block n label (c ∷ cs) bs = refl

  render_from-due :
      (labels : Dict String String) (n : ℕ) (keys : List String) (ms : List AgentMessage)
      (k : String)
      → (occurrences k (shown_keys (render_from lib labels n keys ms).blocks)
          ≡ due keys (found_keys ms) k)
        × (contains (render_from lib labels n keys ms).keys k
            ≡ (contains keys k || contains (found_keys ms) k))
  unfolding render_from shown_keys found_keys contains occurrences
  render_from-due labels n keys [] k = (ground arith, ground arith)
  render_from-due labels n keys (plain role text ∷ ms) k = render_from-due labels n keys ms k
  render_from-due labels n keys (call tc reasoning ∷ ms) k = render_from-due labels n keys ms k
  render_from-due labels n keys (condensed text ∷ ms) k = render_from-due labels (n + 1) keys ms k
  render_from-due labels n keys (result name text id ∷ ms) k =
      let chunks = excerpts text in
      let fresh = (fresh_of lib keys chunks).0 in
      let keys' = (fresh_of lib keys chunks).1 in
      let n' = if is_empty fresh then n else n + 1 in
      let rest = render_from lib labels n' keys' ms in
      let (ih, ih_keys) = render_from-due labels n' keys' ms k in
      (
        rw
            (
              shown_keys-block n (label_or (lookup id labels)) fresh rest.blocks,
              occurrences-append k (keys_of fresh) (shown_keys rest.blocks),
              fresh_of-due keys chunks k,
              ih,
              contains-append (keys_of chunks) (found_keys ms) k,
            )
            (rw (fresh_of-keys keys chunks k) (ground arith)),
        rw
            (
              ih_keys,
              fresh_of-keys keys chunks k,
              contains-append (keys_of chunks) (found_keys ms) k,
            )
            (ground arith),
      )

  -- Of the excerpts in the results of a conversation, each key that was not shown before is
  -- shown in exactly one place of the rendered blocks, however often it was found, and one that
  -- was shown before in none. Afterwards the keys are those before and those found.
  pub render_research_blocks-due :
      (ms : List AgentMessage) (seen : List String) (start : ℕ) (k : String)
      → (occurrences k (shown_keys (render_research_blocks lib ms seen start).blocks)
          ≡ due seen (found_keys ms) k)
        × (contains (render_research_blocks lib ms seen start).keys k
            ≡ (contains seen k || contains (found_keys ms) k))
  unfolding render_research_blocks
  render_research_blocks-due ms seen start k =
      render_from-due (labels_from lib ms []) (start + 1) seen ms k
