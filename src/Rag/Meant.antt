-- ===== src/Rag/Meant.antt =====
-- rag/retrieve.py: which messages a query of search_literal or aggregate_stats asks for, told from
-- its term and its author.
use local_ai_server.Prelude.{
  Bool, Option, [], arith, false, fun_ext, inl, inr, list_Eq, none, number_Eq, refl, some, text_Eq,
  true, ℕ, ◌&&◌, ◌++◌, ◌==◌, ◌∷◌, ◌≡◌, ◌⊎◌,
}
use local_ai_server.Prelude.Texts.{codes}
use local_ai_server.Rag.Chunking.{Text}
use local_ai_server.Rag.Lines.{strip_char}
use local_ai_server.Rag.Filters.{given, if_given, term_regex}
use local_ai_server.Rag.Parsing.{Said}
use local_ai_server.Rag.Context.{Library}
use local_ai_server.Rag.Search.{Query, is_match, is_missing, term_pattern, want_author}

module _ (lib : Library) where
  -- Is a name the folded name, if that is not empty?
  abbrev pub is_named : Text → Text → Bool
  is_named [] name = true
  is_named (c ∷ cs) name = lib.casefold name == (c ∷ cs)

  abbrev pub is_author : Option Text → Text → Bool
  is_author none name = true
  is_author (some []) name = true
  is_author (some (c ∷ cs)) name = is_named (lib.casefold (strip_char 64 (c ∷ cs))) name

  -- The regular expression ignores the case, and starts at the start of a word if asked to.
  abbrev pub expression : Bool → Text → Text
  expression true term = codes "(?i)\\b" ++ lib.escape term
  expression false term = codes "(?i)" ++ lib.escape term

  abbrev pub has_term : Bool → Option Text → Text → Bool
  has_term whole_word none text = true
  has_term whole_word (some []) text = true
  has_term whole_word (some (c ∷ cs)) text = lib.search (expression whole_word (c ∷ cs)) text

  abbrev pub is_meant : Query → Said → Bool
  is_meant q m = is_author q.author m.speaker && has_term q.whole_word q.term m.text

  -- A term is given, or an author whose folded name behind the "@" is not empty.
  abbrev pub IsAsked : Query → Type 0
  IsAsked q =
      ((c : ℕ) × (cs : Text) × (q.term ≡ some (c ∷ cs)))
      ⊎ ((c : ℕ) × (cs : Text) × (d : ℕ) × (ds : Text) × (q.author ≡ some (c ∷ cs))
          × (lib.casefold (strip_char 64 (c ∷ cs)) ≡ d ∷ ds))

  author_lem :
      (author : Option Text) (m : Said)
      → if_given (λ a. lib.casefold m.speaker == a) (want_author lib (given author))
        ≡ is_author author m.speaker
  author_lem none m = refl
  author_lem (some []) m = refl
  author_lem (some (c ∷ cs)) m = folded (lib.casefold (strip_char 64 (c ∷ cs)))
    where
      folded :
          (s : Text)
          → if_given (λ a. lib.casefold m.speaker == a) (given (some s)) ≡ is_named s m.speaker
      folded [] = refl
      folded (d ∷ ds) = refl

  term_lem :
      (term : Option Text) (whole_word : Bool) (m : Said)
      → if_given (λ p. lib.search p m.text) (term_pattern lib (given term) whole_word)
        ≡ has_term whole_word term m.text
  unfolding term_regex
  term_lem none whole_word m = refl
  term_lem (some []) whole_word m = refl
  term_lem (some (c ∷ cs)) true m = refl
  term_lem (some (c ∷ cs)) false m = refl

  -- The test that the code makes of a message.
  pub is_match-is_meant :
      (q : Query)
      → is_match lib
          (term_pattern lib (given q.term) q.whole_word)
          (want_author lib (given q.author))
        ≡ is_meant q
  is_match-is_meant q =
      fun_ext (λ m. rw (author_lem q.author m, term_lem q.term q.whole_word m) refl)

  pub IsAsked-given :
      (q : Query) → IsAsked q → (is_missing (given q.term) && is_missing (given q.author)) ≡ false
  IsAsked-given q (inl (c, cs, e)) = rw e refl
  IsAsked-given q (inr (c, cs, d, ds, e, f)) = rw e (ground arith)

  pub IsAsked-wanted :
      (q : Query)
      → IsAsked q
      → (is_missing (term_pattern lib (given q.term) q.whole_word)
          && is_missing (want_author lib (given q.author)))
        ≡ false
  IsAsked-wanted q (inl (c, cs, e)) = rw e refl
  IsAsked-wanted q (inr (c, cs, d, ds, e, f)) = rw (e, f) (ground arith)
