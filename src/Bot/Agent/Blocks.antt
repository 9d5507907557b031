-- ===== src/Bot/Agent/Blocks.antt =====
-- discord-bot/lore/agent.py: the research blocks of a thread and the keys they show.
use local_ai_server.Prelude.{
  Bool-cases, List, String, [], ap, arith, contains, false, if◌then◌else◌, inl, inr, number_Eq,
  occurrences, occurrences-append, refl, text_Eq, ℕ, ◌++◌, ◌+◌, ◌∷◌, ◌≡◌,
}
use local_ai_server.Prelude.Words.{join}
use local_ai_server.Bot.Session.{LoreSession, Turn, append_research, is_research}
use local_ai_server.Bot.Agent.Messages.{AgentMessage, Library}
use local_ai_server.Bot.Agent.Research.{Block, render_research_blocks, texts_of_blocks}
use local_ai_server.Bot.Agent.Shown.{render_research_blocks-due, shown_keys}
use local_ai_server.Bot.Agent.Turn.{add_blocks, add_research}
use mathlib.Core.List.{append-nil}

-- The texts of the research blocks of a transcript.
abbrev pub research_texts : List Turn → List String
research_texts [] = []
research_texts (t ∷ ts) = if is_research t then t.content ∷ research_texts ts else research_texts ts

research_texts-append :
    (xs ys : List Turn) → research_texts (xs ++ ys) ≡ research_texts xs ++ research_texts ys
research_texts-append [] ys = refl
research_texts-append (x ∷ xs) ys = elim (Bool-cases (is_research x)) [
  | inl e ↦ rw e (ap (λ l. x.content ∷ l) (research_texts-append xs ys))
  | inr e ↦ rw e (research_texts-append xs ys)
]

-- The rendered blocks of each research block of a thread: their texts, and the keys they show.
abbrev pub texts_of : Library → List (List Block) → List String
texts_of lib [] = []
texts_of lib (bs ∷ bss) = join "\n\n" (texts_of_blocks lib bs) ∷ texts_of lib bss

unfoldable pub thread_keys : Library → List (List Block) → List String
thread_keys lib [] = []
thread_keys lib (bs ∷ bss) = shown_keys lib bs ++ thread_keys lib bss

texts_of-append :
    (lib : Library) (xs ys : List (List Block))
    → texts_of lib (xs ++ ys) ≡ texts_of lib xs ++ texts_of lib ys
texts_of-append lib [] ys = refl
texts_of-append lib (x ∷ xs) ys =
    ap (λ l. join "\n\n" (texts_of_blocks lib x) ∷ l) (texts_of-append lib xs ys)

occurrences-thread :
    (lib : Library) (k : String) (xs ys : List (List Block))
    → occurrences k (thread_keys lib (xs ++ ys))
      ≡ occurrences k (thread_keys lib xs) + occurrences k (thread_keys lib ys)
unfolding thread_keys occurrences
occurrences-thread lib k [] ys = omega arith
occurrences-thread lib k (x ∷ xs) ys =
    rw
      (
        occurrences-append k (shown_keys lib x) (thread_keys lib (xs ++ ys)),
        occurrences-append k (shown_keys lib x) (thread_keys lib xs),
        occurrences-thread lib k xs ys,
      )
      (omega arith)

-- The research of the session is these blocks, and they show each of its seen keys once, and no
-- other key.
abbrev pub IsThread : Library → LoreSession → List (List Block) → Type 0
IsThread lib s bss =
    (research_texts s.transcript ≡ texts_of lib bss)
    × ((k : String)
        → occurrences k (thread_keys lib bss) ≡ (if contains s.seen_keys k then 1 else 0))

-- The thread goes on with more blocks.
abbrev pub GoesOn : Library → List (List Block) → LoreSession → Type 0
GoesOn lib bss s = (more : List (List Block)) × IsThread lib s (bss ++ more)

GoesOn-add_blocks :
    (lib : Library) (blocks : List Block) (keys : List String) (s : LoreSession)
    (bss : List (List Block))
    → ((k : String)
        → (if contains keys k then 1 else 0)
          ≡ (if contains s.seen_keys k then 1 else 0) + occurrences k (shown_keys lib blocks))
    → IsThread lib s bss
    → GoesOn lib bss (add_blocks lib blocks (record s { seen_keys = keys }))
unfolding append_research thread_keys occurrences shown_keys
GoesOn-add_blocks lib [] keys s bss due_now (texts, once) =
    ([], (rw (append-nil bss) texts, λ k. rw (append-nil bss) (omega (arith, once k, due_now k))))
GoesOn-add_blocks lib (b ∷ bs) keys s bss due_now (texts, once) = (
  (b ∷ bs) ∷ [],
  (
    rw (research_texts-append s.transcript _, texts, texts_of-append lib bss ((b ∷ bs) ∷ [])) refl,
    λ k.
        rw (occurrences-thread lib k bss ((b ∷ bs) ∷ []))
          (omega (arith, once k, due_now k, occurrences-append k (shown_keys lib (b ∷ bs)) [])),
  ),
)

pub GoesOn-add_research :
    (lib : Library) (ms : List AgentMessage) (start : ℕ) (s : LoreSession) (bss : List (List Block))
    → IsThread lib s bss
    → GoesOn lib bss (add_research lib ms start s)
unfolding add_research
GoesOn-add_research lib ms start s bss h =
    let r = render_research_blocks lib ms s.seen_keys start in
    GoesOn-add_blocks lib r.blocks r.keys s bss
      (λ k.
        let (shown, kept) = render_research_blocks-due lib ms s.seen_keys start k in
        rw (shown, kept) (ground arith))
      h

-- What is no research leaves the blocks.
pub IsThread-other :
    (lib : Library) (t : Turn) (s s' : LoreSession) (bss : List (List Block))
    → is_research t ≡ false
    → s'.transcript ≡ s.transcript ++ t ∷ []
    → s'.seen_keys ≡ s.seen_keys
    → IsThread lib s bss
    → IsThread lib s' bss
IsThread-other lib t s s' bss other adds same (texts, once) = (
  rw (adds, research_texts-append s.transcript (t ∷ []), other, append-nil) texts,
  λ k. rw same (once k),
)
