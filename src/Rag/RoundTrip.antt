-- ===== src/Rag/RoundTrip.antt =====
-- rag/retrieve.py, _parse_chunk_messages, behind rag/ingest.py, format_chunk_text: reading a
-- rendered chunk back.
use local_ai_server.Prelude.{
  ==_refl, All, All-append, List, Option, [], ap, contains, false, is_empty, list_Eq, none,
  number_Eq, refl, some, subst, sym, text_Eq, true, ℕ, ◌++◌, ◌∙◌, ◌∷◌, ◌≡◌,
}
use local_ai_server.Prelude.Texts.{codes}
use local_ai_server.Rag.Chunking.{Chunk, Message, Text}
use local_ai_server.Rag.Lines.{
  concat_lines, has_break, join_with, last_line, line_feed, splitlines, splitlines-join,
}
use local_ai_server.Rag.Rendering.{
  authors_of, body_of, captioned, format_chunk_text, header_of, lines_of_messages, usernames_of,
}
use local_ai_server.Rag.Parsing.{
  Said, continue_last, known_of, parse_chunk_messages, read_lines, starts,
}
use local_ai_server.Rag.Known.{IsName, contains-known_of, either, first_of}
use local_ai_server.Rag.Reading.{
  IsBody, all_said, body_lines, put_name, read_lines-message, said_by, split_on-cons,
}
use local_ai_server.Rag.Written.{
  All-put_name, IsHeader, has_break-header, header-starts_nothing, join-written, last_line-append,
  written,
}
use mathlib.Core.List.{append-nil, append_assoc}

module _ (casefold : Text → Text) (known : List Text) where
  -- What the format carries of each message.
  abbrev pub IsCarried : Message → Type 0
  IsCarried m =
      IsName m.username × (contains known (casefold m.username) ≡ true) × IsBody casefold known m

  written-unbroken :
      (ms : List Message)
      → All IsCarried ms
      → All (λ l. has_break l ≡ false) (concat_lines (written ms))
  written-unbroken [] h = tt
  written-unbroken (m ∷ ms) h =
      All-append (λ l. has_break l ≡ false) (put_name m.username (body_lines m))
        (concat_lines (written ms)) (All-put_name m.username (body_lines m) h.0.0.1 h.0.2.0)
        (written-unbroken ms h.1)

  written-ends :
      (l : Text) (ls : List Text) (ms : List Message)
      → is_empty (last_line (l ∷ ls)) ≡ false
      → All IsCarried ms
      → is_empty (last_line ((l ∷ ls) ++ concat_lines (written ms))) ≡ false
  written-ends l ls [] e h =
      subst (λ x. is_empty (last_line x) ≡ false) (sym (append-nil (l ∷ ls))) e
  written-ends l ls (m ∷ ms) e h =
      let (k, ks, split) = split_on-cons 10 (body_of m) in
      rw split (
        ap is_empty (
          last_line-append (l ∷ ls) (m.username ++ (codes ": " ++ k))
            (ks ++ concat_lines (written ms)))
        ∙ written-ends (m.username ++ (codes ": " ++ k)) ks ms
            (subst (λ x. is_empty (last_line (put_name m.username x)) ≡ false) split h.0.2.2) h.1)

  read_lines-written :
      (messages : List Said) (ms : List Message)
      → All IsCarried ms
      → read_lines casefold known messages (concat_lines (written ms)) ≡ messages ++ all_said ms
  read_lines-written messages [] h = unfold read_lines in sym (append-nil messages)
  read_lines-written messages (m ∷ ms) h =
      read_lines-message casefold known messages m (concat_lines (written ms)) h.0.0 h.0.1 h.0.2.1
      ∙ read_lines-written (messages ++ said_by m ∷ []) ms h.1
      ∙ append_assoc messages (said_by m ∷ []) (all_said ms)

  read_lines-document :
      (header : Text) (ms : List Message)
      → is_empty header ≡ false
      → has_break header ≡ false
      → starts casefold known header ≡ none
      → All IsCarried ms
      → read_lines casefold known []
          (splitlines (join_with line_feed (header ∷ lines_of_messages ms)))
        ≡ all_said ms
  read_lines-document header ms some_text unbroken_header nothing h =
      rw
        (
          join-written header ms,
          splitlines-join (header ∷ concat_lines (written ms))
              (unbroken_header, written-unbroken ms h) (written-ends header [] ms some_text h),
        )
        (unfold read_lines continue_last in rw (nothing, read_lines) (read_lines-written [] ms h))

-- What a message says: its content and the caption of its image, if there is one.
abbrev pub with_caption : Text → Option Text → Text
with_caption content none = content
with_caption content (some []) = content
with_caption content (some (c ∷ cs)) = content ++ (codes " [image: " ++ ((c ∷ cs) ++ codes "]"))

-- What the messages say, in their order.
abbrev pub spoken : List Message → List Said
spoken [] = []
spoken (m ∷ ms) =
    record { speaker = m.username; text = with_caption m.content m.caption } ∷ spoken ms

captioned-with_caption :
    (content : Text) (caption : Option Text)
    → captioned content caption ≡ with_caption content caption
captioned-with_caption content none = refl
captioned-with_caption content (some []) = refl
captioned-with_caption content (some (c ∷ cs)) = refl

all_said-spoken : (ms : List Message) → all_said ms ≡ spoken ms
all_said-spoken [] = refl
all_said-spoken (m ∷ ms) = rw (captioned-with_caption m.content m.caption, all_said-spoken ms) refl

-- The names of a chunk's messages that reading its metadata makes known.
abbrev pub known_to : (Text → Text) → Chunk → List Text
known_to casefold chunk = known_of casefold (some (join_with (codes ",") (authors_of chunk)))

module _ (casefold : Text → Text) (hour minute : ℕ → Text) where
  -- What the format carries of a chunk: the names of its users and its header, and texts whose
  -- lines behind the first do not look like a message of one of these users.
  abbrev pub IsWritable : Message → List Message → Type 0
  IsWritable m ms =
      IsHeader hour minute m
      × All (λ n. IsName n.username) (m ∷ ms)
      × All (IsBody casefold (known_to casefold (m ∷ ms))) (m ∷ ms)

  names-usernames_of :
      (ms : List Message) → All (λ n. IsName n.username) ms → All IsName (usernames_of ms)
  names-usernames_of [] h = tt
  names-usernames_of (m ∷ ms) h = (h.0, names-usernames_of ms h.1)

  carry_each :
      (chunk ms : List Message)
      → All (λ n. IsName n.username) chunk
      → ((u : Text) → contains (usernames_of ms) u ≡ true → contains (usernames_of chunk) u ≡ true)
      → All (λ n. IsName n.username) ms
      → All (IsBody casefold (known_to casefold chunk)) ms
      → All (IsCarried casefold (known_to casefold chunk)) ms
  unfolding authors_of
  carry_each chunk [] all sub h k = tt
  carry_each chunk (m ∷ ms) all sub h k = (
    (
      h.0,
      contains-known_of casefold (usernames_of chunk) m.username (names-usernames_of chunk all)
          (sub m.username (unfold contains in first_of _ _ (==_refl m.username))),
      k.0,
    ),
    carry_each chunk ms all (λ u q. sub u (unfold contains in either _ _ q)) h.1 k.1,
  )

  pub reads_back :
      (m : Message) (ms : List Message)
      → IsWritable m ms
      → parse_chunk_messages casefold
          (format_chunk_text hour minute (m ∷ ms))
          (some (join_with (codes ",") (authors_of (m ∷ ms))))
        ≡ all_said (m ∷ ms)
  unfolding parse_chunk_messages format_chunk_text
  reads_back m ms h =
      read_lines-document casefold (known_to casefold (m ∷ ms)) (header_of hour minute m) (m ∷ ms)
        (unfold header_of in refl) (has_break-header hour minute m h.0)
        (header-starts_nothing hour minute casefold (known_to casefold (m ∷ ms)) m h.0)
        (carry_each (m ∷ ms) (m ∷ ms) h.1 (λ u q. q) h.1 h.2)

  -- Reading a rendered chunk back with its metadata gives its messages, each with its speaker and
  -- its whole text: the content, behind it the caption in "[image: ...]" where there is one that is
  -- not empty, and all further lines. The condition: names, channel and date are as the format
  -- carries them, no text has a line break but line feeds or ends in one, and no line of a text
  -- behind its first looks like a message of a user of the chunk.
  pub parse_chunk_messages-format_chunk_text :
      (m : Message) (ms : List Message)
      → IsWritable m ms
      → parse_chunk_messages casefold
          (format_chunk_text hour minute (m ∷ ms))
          (some (join_with (codes ",") (authors_of (m ∷ ms))))
        ≡ spoken (m ∷ ms)
  parse_chunk_messages-format_chunk_text m ms h = reads_back m ms h ∙ all_said-spoken (m ∷ ms)
