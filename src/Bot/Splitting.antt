-- ===== src/Bot/Splitting.antt =====
-- discord-bot/formatters.py: the parts of a split answer.
use local_ai_server.Prelude.{
  All, Bool-cases, List, Option, [], ap, arith, drop, false, if◌then◌else◌, inl, inr, keep_if, leb,
  leb→le, length, none, not, number_Eq, refl, some, subst, suc, sym, take, text_Eq, true, zero, ℕ,
  ◌++◌, ◌+◌, ◌-◌, ◌<◌, ◌==◌, ◌∙◌, ◌∷◌, ◌≡◌, ◌≤◌,
}
use local_ai_server.Prelude.Words.{is_space_code}
use local_ai_server.Bot.Formatters.{
  Codes, Embed, after_line, after_paragraph, build_lore_embeds, find_split_boundary, is_prefix,
  lstrip_codes, newline, number_pages, pages, paragraph, put_code, rfind, rstrip_codes,
  split_chunks_of, split_index,
}
use mathlib.Core.List.{append-nil}
use mathlib.Core.Option

-- The code points that are no space.
abbrev pub visible : Codes → Codes
visible s = keep_if (λ c. not (is_space_code c)) s

visible-append : (s t : Codes) → visible (s ++ t) ≡ visible s ++ visible t
unfolding keep_if
visible-append [] t = refl
visible-append (c ∷ cs) t = elim (Bool-cases (is_space_code c)) [
  | inl e ↦ rw e (visible-append cs t)
  | inr e ↦ rw e (ap (λ l. c ∷ l) (visible-append cs t))
]

visible-lstrip_codes : (s : Codes) → visible (lstrip_codes s) ≡ visible s
unfolding keep_if lstrip_codes
visible-lstrip_codes [] = refl
visible-lstrip_codes (c ∷ cs) = elim (Bool-cases (is_space_code c)) [
  | inl e ↦ rw (e, lstrip_codes) (visible-lstrip_codes cs)
  | inr e ↦ rw (e, lstrip_codes) (rw e refl)
]

length-lstrip_codes-le : (s : Codes) → length (lstrip_codes s) ≤ length s
unfolding lstrip_codes
length-lstrip_codes-le [] = omega arith
length-lstrip_codes-le (c ∷ cs) = elim (Bool-cases (is_space_code c)) [
  | inl e ↦ rw (e, lstrip_codes) (omega (arith, length-lstrip_codes-le cs))
  | inr e ↦ rw (e, lstrip_codes) (omega arith)
]

visible-put_code : (c : ℕ) (s : Codes) → visible (put_code c s) ≡ visible (c ∷ s)
unfolding keep_if
visible-put_code c [] = elim (Bool-cases (is_space_code c)) [
  | inl e ↦ rw e refl
  | inr e ↦ rw e (rw e refl)
]
visible-put_code c (d ∷ ds) = refl

visible-rstrip_codes : (s : Codes) → visible (rstrip_codes s) ≡ visible s
unfolding keep_if rstrip_codes
visible-rstrip_codes [] = refl
visible-rstrip_codes (c ∷ cs) =
    visible-put_code c (rstrip_codes cs) ∙ elim (Bool-cases (is_space_code c)) [
      | inl e ↦ rw e (visible-rstrip_codes cs)
      | inr e ↦ rw e (ap (λ l. c ∷ l) (visible-rstrip_codes cs))
    ]

length-put_code-le : (c : ℕ) (s : Codes) → length (put_code c s) ≤ suc (length s)
length-put_code-le c [] = ground arith
length-put_code-le c (d ∷ ds) = omega arith

length-rstrip_codes-le : (s : Codes) → length (rstrip_codes s) ≤ length s
unfolding rstrip_codes
length-rstrip_codes-le [] = omega arith
length-rstrip_codes-le (c ∷ cs) =
    omega (arith, length-put_code-le c (rstrip_codes cs), length-rstrip_codes-le cs)

take-drop : (n : ℕ) (s : Codes) → take n s ++ drop n s ≡ s
take-drop zero s = refl
take-drop (suc n) [] = refl
take-drop (suc n) (c ∷ cs) = ap (λ l. c ∷ l) (take-drop n cs)

length-take-le : (n : ℕ) (s : Codes) → length (take n s) ≤ n
length-take-le zero s = omega arith
length-take-le (suc n) [] = omega arith
length-take-le (suc n) (c ∷ cs) = omega (arith, length-take-le n cs)

length-drop : (n : ℕ) (s : Codes) → length (drop n s) ≡ length s - n
length-drop zero s = omega arith
length-drop (suc n) [] = omega arith
length-drop (suc n) (c ∷ cs) = omega (arith, length-drop n cs)

is_prefix-length : (sub s : Codes) → is_prefix sub s ≡ true → length sub ≤ length s
unfolding is_prefix
is_prefix-length [] s h = omega arith
is_prefix-length (c ∷ cs) [] h = absurd (ground (arith, h))
is_prefix-length (c ∷ cs) (d ∷ ds) h = omega (arith, is_prefix-length cs ds (ground (arith, h)))

-- What is found lies in the text.
rfind_bound : (sub s : Codes) (i : ℕ) → rfind sub s ≡ some i → i + length sub ≤ length s
unfolding rfind
rfind_bound sub [] i h = absurd (cc)
rfind_bound sub (c ∷ cs) i h = by_rest (rfind sub cs) (rfind_bound sub cs) h
  where
    by_rest :
        (o : Option ℕ)
        → ((j : ℕ) → o ≡ some j → j + length sub ≤ length cs)
        → (elim o as (λ x. Option ℕ) [
          | some j ↦ some (j + 1)
          | none ↦ if is_prefix sub (c ∷ cs) then some 0 else none
        ])
          ≡ some i
        → i + length sub ≤ suc (length cs)
    by_rest (some j) ih k = ground (arith, ih j refl, k)
    by_rest none ih k = ground (arith, is_prefix-length sub (c ∷ cs), k)

-- A split is behind the start and within the limit.
split_index_bound :
    (s : Codes) (limit : ℕ)
    → 0 < limit
    → leb (length s) limit ≡ false
    → (0 < split_index s limit) × (split_index s limit ≤ limit)
unfolding find_split_boundary
split_index_bound s limit pos long = rw long (
    by_places (rfind paragraph (take limit s)) (rfind newline (take limit s))
      (rfind_bound paragraph (take limit s)) (rfind_bound newline (take limit s)))
  where
    by_places :
        (p l : Option ℕ)
        → ((i : ℕ) → p ≡ some i → i + 2 ≤ length (take limit s))
        → ((i : ℕ) → l ≡ some i → i + 1 ≤ length (take limit s))
        → let i = after_paragraph p (after_line l limit) in
          let at = if i == 0 then limit else i in (0 < at) × (at ≤ limit)
    by_places (some i) l hp hl = ground (arith, hp i refl, length-take-le limit s)
    by_places none (some i) hp hl = ground (arith, hl i refl, length-take-le limit s)
    by_places none none hp hl = ground (arith, pos)

abbrev pub flatten_codes : List Codes → Codes
flatten_codes [] = []
flatten_codes (c ∷ cs) = c ++ flatten_codes cs

-- The chunks are within the limit and hold all that is no space, in its order.
abbrev pub IsSplit : ℕ → Codes → List Codes → Type 0
IsSplit limit s chunks =
    All (λ c. length c ≤ limit) chunks × (visible (flatten_codes chunks) ≡ visible s)

-- The first chunk and a split of the rest are a split.
IsSplit-step :
    (limit i : ℕ) (s : Codes) (chunks : List Codes)
    → i ≤ limit
    → IsSplit limit (lstrip_codes (drop i s)) chunks
    → IsSplit limit s (rstrip_codes (take i s) ∷ chunks)
IsSplit-step limit i s chunks le (small, same) = (
  (omega (arith, le, length-rstrip_codes-le (take i s), length-take-le i s), small),
  visible-append (rstrip_codes (take i s)) (flatten_codes chunks)
      ∙ ap (λ t. visible (rstrip_codes (take i s)) ++ t) (same ∙ visible-lstrip_codes (drop i s))
      ∙ ap (λ t. t ++ visible (drop i s)) (visible-rstrip_codes (take i s))
      ∙ sym (visible-append (take i s) (drop i s))
      ∙ ap visible (take-drop i s),
)

split_chunks_of-IsSplit :
    (fuel limit : ℕ) (s : Codes)
    → 0 < limit
    → length s ≤ fuel
    → (chunks : List Codes) × (split_chunks_of fuel limit s ≡ some chunks) × IsSplit limit s chunks
unfolding split_chunks_of
split_chunks_of-IsSplit fuel limit [] pos enough = ([], refl, (tt, refl))
split_chunks_of-IsSplit zero limit (c ∷ cs) pos enough = absurd (omega (arith, enough))
split_chunks_of-IsSplit (suc fuel) limit (c ∷ cs) pos enough =
    let s = c ∷ cs in
    elim (Bool-cases (leb (length s) limit)) [
      | inl e ↦ rw e (s ∷ [], refl, ((leb→le (length s) limit e, tt), ap visible (append-nil s)))
      | inr e ↦
          let i = split_index s limit in
          let (some_first, le) = split_index_bound s limit pos e in
          let (chunks, eq, ok) = split_chunks_of-IsSplit fuel limit (lstrip_codes (drop i s)) pos (
            omega
              (arith, enough, some_first, length-lstrip_codes-le (drop i s), length-drop i s)) in
          (
            rstrip_codes (take i s) ∷ chunks,
            ap
                  (λ b.
                    if b
                    then some (s ∷ [])
                    else Option.map (λ rest. rstrip_codes (take i s) ∷ rest)
                        (split_chunks_of fuel limit (lstrip_codes (drop i s))))
                  e
                ∙ ap (Option.map (λ rest. rstrip_codes (take i s) ∷ rest)) eq,
            IsSplit-step limit i s chunks le ok,
          )
    ]

-- The descriptions of the embeds are the chunks, and each footer says which page of how many.
abbrev pub descriptions : List Embed → List Codes
descriptions [] = []
descriptions (e ∷ es) = e.description ∷ descriptions es

descriptions-number_pages :
    (i n : ℕ) (chunks : List Codes) → descriptions (number_pages i n chunks) ≡ chunks
unfolding number_pages
descriptions-number_pages i n [] = refl
descriptions-number_pages i n (c ∷ cs) = ap (λ l. c ∷ l) (descriptions-number_pages (i + 1) n cs)

-- With a limit above 0 the split of an answer that is not empty ends; every description is within
-- the limit, and they hold, in its order, all of the answer that is no space.
pub build_lore_embeds-IsSplit :
    (no_results : Codes) (limit c : ℕ) (cs : Codes)
    → 0 < limit
    → (embeds : List Embed) × (build_lore_embeds no_results limit (c ∷ cs) ≡ some embeds)
      × IsSplit limit (c ∷ cs) (descriptions embeds)
unfolding build_lore_embeds
build_lore_embeds-IsSplit no_results limit c cs pos =
    let (chunks, eq, ok) =
      split_chunks_of-IsSplit (suc (length cs)) limit (c ∷ cs) pos (omega arith) in
    (
      pages chunks,
      ap (Option.map pages) eq,
      subst (λ l. IsSplit limit (c ∷ cs) l)
          (sym (descriptions-number_pages 0 (length chunks) chunks)) ok,
    )
