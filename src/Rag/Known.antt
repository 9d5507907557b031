-- ===== src/Rag/Known.antt =====
-- rag/ingest.py, the authors of a chunk, as rag/retrieve.py, _parse_chunk_messages, reads them.
use local_ai_server.Prelude.{
  ==→≡, All, Bool, Bool-cases, List, [], ap, arith, contains, false, inl, inr, is_empty, list_Eq,
  list_eq_iff, number_Eq, some, text_Eq, true, ◌==◌, ◌||◌, ◌∙◌, ◌∷◌, ◌≡◌,
}
use local_ai_server.Prelude.Texts.{codes}
use local_ai_server.Prelude.Dict.{Dict, insert, keys, keys-insert}
use local_ai_server.Rag.Chunking.{Text}
use local_ai_server.Rag.Lines.{has_break, join_with, split_on, split_on-join, strip_text}
use local_ai_server.Rag.Rendering.{from_keys}
use local_ai_server.Rag.Parsing.{known_names, known_of}

-- A user's name that the format can carry: one line, without a colon or a comma, and not blank
-- at its ends.
abbrev pub IsName : Text → Type 0
IsName name =
    (is_empty name ≡ false)
    × (has_break name ≡ false)
    × (contains name 58 ≡ false)
    × (contains name 44 ≡ false)
    × (strip_text name ≡ name)

keys-from_keys :
    (a : Text) (d : Dict Text Unit) (names : List Text)
    → contains (keys (from_keys d names)) a ≡ (contains (keys d) a || contains names a)
unfolding from_keys contains
keys-from_keys a d [] = ground arith
keys-from_keys a d (k ∷ names) =
    keys-from_keys a (insert k tt d) names ∙ ground (arith, keys-insert k a tt d)

All-insert :
    (k : Text) (d : Dict Text Unit)
    → IsName k
    → All IsName (keys d)
    → All IsName (keys (insert k tt d))
unfolding insert keys
All-insert k [] h all = (h, tt)
All-insert k ((j, w) ∷ d) h all = elim (Bool-cases (j == k)) [
  | inl e ↦ rw (e, insert) all
  | inr e ↦ rw (e, insert) (all.0, All-insert k d h all.1)
]

All-from_keys :
    (d : Dict Text Unit) (names : List Text)
    → All IsName (keys d)
    → All IsName names
    → All IsName (keys (from_keys d names))
unfolding from_keys
All-from_keys d [] all h = all
All-from_keys d (k ∷ names) all h = All-from_keys (insert k tt d) names (All-insert k d h.0 all) h.1

no_commas : (names : List Text) → All IsName names → All (λ k. contains k 44 ≡ false) names
no_commas [] h = tt
no_commas (k ∷ names) h = (h.0.3, no_commas names h.1)

pub either : (a b : Bool) → b ≡ true → (a || b) ≡ true
either a b h = ground arith

pub first_of : (a b : Bool) → a ≡ true → (a || b) ≡ true
first_of a b h = ground arith

absent_head : (a b : Bool) → a ≡ false → (a || b) ≡ true → b ≡ true
absent_head a b e h = ground arith

known_author :
    (names : List Text) (a : Text)
    → contains names a ≡ true
    → contains (keys (from_keys [] names)) a ≡ true
known_author names a h = keys-from_keys a [] names ∙ either _ _ h

split_authors :
    (ls : List Text) (a : Text)
    → All IsName ls
    → contains ls a ≡ true
    → split_on 44 (join_with (codes ",") ls) ≡ ls
split_authors [] a all c = absurd (unfold contains in cc)
split_authors (l ∷ ls) a all c = split_on-join 44 l ls (no_commas (l ∷ ls) all)

module _ (casefold : Text → Text) where
  contains-known_names :
      (names : List Text) (a : Text)
      → All IsName names
      → contains names a ≡ true
      → contains (known_names casefold names) (casefold a) ≡ true
  unfolding contains
  contains-known_names [] a h k = k
  contains-known_names (n ∷ names) a h k =
      rw (h.0.4, h.0.0)
        (elim (Bool-cases (n == a)) [
          | inl e ↦
              first_of _ _ ((list_eq_iff (casefold n) (casefold a)).1 (ap casefold (==→≡ n a e)))
          | inr e ↦ either _ _ (contains-known_names names a h.1 (absent_head (n == a) _ e k))
        ])

  -- A name of a message's user is known when its chunk is read.
  pub contains-known_of :
      (names : List Text) (a : Text)
      → All IsName names
      → contains names a ≡ true
      → contains
          (known_of casefold (some (join_with (codes ",") (keys (from_keys [] names)))))
          (casefold a)
        ≡ true
  unfolding known_of
  contains-known_of names a h k =
      let all = All-from_keys [] names (unfold keys in tt) h in
      rw (split_authors (keys (from_keys [] names)) a all (known_author names a k))
        (contains-known_names (keys (from_keys [] names)) a all (known_author names a k))
