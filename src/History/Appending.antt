-- ===== src/History/Appending.antt =====
-- history-service/jsonl_store.py: the cache of ids beside the files, and what is appended.
use local_ai_server.Prelude.{
  ==_refl, ==→≡, Bool, Bool-cases, List, Option-cases, String, [], ap, arith, contains, false,
  if◌then◌else◌, inl, inr, list_Eq, none, not, number_Eq, occurrences, occurrences-absent, refl,
  some, sym, text_Eq, true, ℕ, ◌&&◌, ◌++◌, ◌+◌, ◌==◌, ◌||◌, ◌∙◌, ◌∷◌, ◌≡◌, ◌≤◌,
}
use local_ai_server.Prelude.Dict.{insert, lookup, lookup-insert}
use local_ai_server.History.Archive.{
  Archive, Line, Message, add_to_cache, append_message, append_new, blank, broken, file_of, id_text,
  ids_of, is_known, is_truthy, load_existing_ids, message, text, write_line,
}

-- The message has an id that is a text and not empty, as the parser of exports writes it.
abbrev pub HasTextId : Message → String → Type 0
HasTextId m t = (m.message_id ≡ some (text t)) × ((t == "") ≡ false)

module _ (decimal : ℕ → String) where
  ids-snoc :
      (ls : List Line) (m : Message) (i t : String)
      → HasTextId m i
      → contains (ids_of decimal (ls ++ message m ∷ [])) t
        ≡ (contains (ids_of decimal ls) t || i == t)
  unfolding ids_of contains
  ids-snoc [] m i t h = rw (h.0, ids_of) (ground (arith, h.1))
  ids-snoc (blank ∷ ls) m i t h = ids-snoc ls m i t h
  ids-snoc (broken ∷ ls) m i t h = ids-snoc ls m i t h
  ids-snoc (message q ∷ ls) m i t h = elim (Option-cases q.message_id) [
    | inl e ↦ rw (e, ids_of) (ids-snoc ls m i t h)
    | inr (j, e) ↦ rw (e, ids_of) (ground (arith, ids-snoc ls m i t h))
  ]

  occurrences-snoc :
      (ls : List Line) (m : Message) (i t : String)
      → HasTextId m i
      → occurrences t (ids_of decimal (ls ++ message m ∷ []))
        ≡ occurrences t (ids_of decimal ls) + (if i == t then 1 else 0)
  unfolding ids_of occurrences
  occurrences-snoc [] m i t h = rw (h.0, ids_of) (ground (arith, h.1))
  occurrences-snoc (blank ∷ ls) m i t h = occurrences-snoc ls m i t h
  occurrences-snoc (broken ∷ ls) m i t h = occurrences-snoc ls m i t h
  occurrences-snoc (message q ∷ ls) m i t h = elim (Option-cases q.message_id) [
    | inl e ↦ rw (e, ids_of) (occurrences-snoc ls m i t h)
    | inr (j, e) ↦ rw (e, ids_of) (ground (arith, occurrences-snoc ls m i t h))
  ]

  -- The ids that stand in a user's file.
  abbrev pub archived : String → Archive → List String
  archived user a = ids_of decimal (file_of user a)

  -- Where the cache knows a user, it holds the ids of the file.
  pub record IsSynced (a : Archive) : Type 0 where
    pub same :
        (user : String) (ids : List String)
        → lookup user a.cache ≡ some ids
        → (t : String) → contains ids t ≡ contains (archived user a) t

  -- Setting the cache of one user to what agrees with the file.
  cached_lem :
      (user u : String) (new ids : List String) (t : String) (a : Archive)
      → IsSynced a
      → ((t : String) → contains new t ≡ contains (archived user a) t)
      → lookup u (insert user new a.cache) ≡ some ids
      → contains ids t ≡ contains (archived u a) t
  cached_lem user u new ids t a s agree l = elim (Bool-cases (user == u)) [
    | inl q ↦
        let is : some new ≡ some ids = rw q at (sym (lookup-insert user u new a.cache) ∙ l) in
        let same_user = ==→≡ user u q in cc (agree t)
    | inr q ↦ s.same u ids (ground (arith, lookup-insert user u new a.cache)) t
  ]

  load-IsSynced :
      (user : String) (a : Archive) → IsSynced a → IsSynced (load_existing_ids decimal user a).1
  unfolding load_existing_ids file_of
  load-IsSynced user a s = elim (Option-cases (lookup user a.cache)) [
    | inl e ↦
        rw (e, load_existing_ids)
          (record {
            same = λ u ids l t. cached_lem user u (archived user a) ids t a s (λ t. refl) l;
          })
    | inr (ids, e) ↦ rw (e, load_existing_ids) s
  ]

  load_lem :
      (user : String) (a : Archive) (t : String)
      → IsSynced a
      → (contains (load_existing_ids decimal user a).0 t ≡ contains (archived user a) t)
        × ((load_existing_ids decimal user a).1.files ≡ a.files)
        × (lookup user (load_existing_ids decimal user a).1.cache
            ≡ some (load_existing_ids decimal user a).0)
  unfolding load_existing_ids
  load_lem user a t s = elim (Option-cases (lookup user a.cache)) [
    | inl e ↦
        rw (e, load_existing_ids)
          (refl, refl, rw (lookup-insert user user (archived user a) a.cache, ==_refl user))
    | inr (ids, e) ↦ rw (e, load_existing_ids) (s.same user ids e t, refl, e)
  ]

  file_of-write_line :
      (user u : String) (m : Message) (a : Archive)
      → file_of u (write_line decimal user m a)
        ≡ (if user == u then file_of user a ++ message m ∷ [] else file_of u a)
  unfolding write_line file_of
  file_of-write_line user u m a =
      ground (arith, lookup-insert user u (file_of user a ++ message m ∷ []) a.files)

  -- The state after a message with a new text id has been written.
  abbrev written : String → Message → String → Archive → Archive
  written user m i a = add_to_cache decimal user i (write_line decimal user m a)

  file_of-written :
      (user u : String) (m : Message) (i : String) (a : Archive)
      → file_of u (written user m i a)
        ≡ (if user == u then file_of user a ++ message m ∷ [] else file_of u a)
  unfolding add_to_cache file_of
  file_of-written user u m i a = file_of-write_line user u m a

  archived-written :
      (user u : String) (m : Message) (i t : String) (a : Archive)
      → HasTextId m i
      → contains (archived u (written user m i a)) t
        ≡ (if user == u then contains (archived user a) t || i == t else contains (archived u a) t)
  archived-written user u m i t a h = elim (Bool-cases (user == u)) [
    | inl q ↦ rw (file_of-written user u m i a, q) (ids-snoc (file_of user a) m i t h)
    | inr q ↦ rw (file_of-written user u m i a, q) refl
  ]

  cache-written :
      (user u : String) (m : Message) (i : String) (ids : List String) (a : Archive)
      → lookup user a.cache ≡ some ids
      → lookup u (written user m i a).cache
        ≡ (if user == u then some (i ∷ ids) else lookup u a.cache)
  unfolding add_to_cache write_line
  cache-written user u m i ids a known = rw (known) (lookup-insert user u (i ∷ ids) a.cache)

  written-IsSynced :
      (user : String) (m : Message) (i : String) (ids : List String) (a : Archive)
      → HasTextId m i
      → lookup user a.cache ≡ some ids
      → IsSynced a
      → IsSynced (written user m i a)
  unfolding contains
  written-IsSynced user m i ids a h known s = record {
    same = λ u us l t. elim (Bool-cases (user == u)) [
      | inl q ↦
          let is : some (i ∷ ids) ≡ some us =
            rw (q) at (sym (cache-written user u m i ids a known) ∙ l) in
          rw (archived-written user u m i t a h, q) (ground (arith, s.same user ids known t))
      | inr q ↦
          rw (archived-written user u m i t a h, q)
            (s.same u us (ground (arith, cache-written user u m i ids a known)) t)
    ];
  }

  file_of-load :
      (user : String) (a : Archive)
      → file_of user (load_existing_ids decimal user a).1 ≡ file_of user a
  unfolding load_existing_ids file_of
  file_of-load user a = elim (Option-cases (lookup user a.cache)) [
    | inl e ↦ rw (e, load_existing_ids) refl
    | inr (ids, e) ↦ rw (e, load_existing_ids) refl
  ]

  archived-load :
      (user : String) (a : Archive)
      → archived user (load_existing_ids decimal user a).1 ≡ archived user a
  unfolding load_existing_ids file_of
  archived-load user a = elim (Option-cases (lookup user a.cache)) [
    | inl e ↦ rw (e, load_existing_ids) refl
    | inr (ids, e) ↦ rw (e, load_existing_ids) refl
  ]

  -- What an append that can write does, as the archive shows it.
  abbrev IsAppended : Bool × Archive → String → Message → String → String → Archive → Type 0
  IsAppended r user m i t a =
      (r.0 ≡ not (contains (archived user a) i))
      × IsSynced r.1
      × (occurrences t (archived user r.1)
          ≡ occurrences t (archived user a)
            + (if not (contains (archived user a) i) && i == t then 1 else 0))
      × (file_of user r.1 ≡ (
          if contains (archived user a) i
          then file_of user a
          else file_of user a ++ message m ∷ []))

  append_new-archives :
      (user : String) (m : Message) (i t : String) (a : Archive)
      → IsSynced a
      → HasTextId m i
      → IsAppended (append_new decimal true user m (text i) a) user m i t a
  unfolding append_new is_known id_text
  append_new-archives user m i t a s h =
      let (agree, files, known) = load_lem user a i s in
      let b = (load_existing_ids decimal user a).1 in
      elim (Bool-cases (contains (archived user a) i)) [
        | inl e ↦
            rw (agree ∙ e, e)
              (
                refl,
                load-IsSynced user a s,
                rw (archived-load user a) (omega arith),
                file_of-load user a,
              )
        | inr e ↦
            rw (agree ∙ e, e)
              (
                refl,
                written-IsSynced user m i (load_existing_ids decimal user a).0 b h known
                    (load-IsSynced user a s),
                rw
                    (
                      file_of-written user user m i b,
                      ==_refl user,
                      occurrences-snoc (file_of user b) m i t h,
                      archived-load user a,
                    )
                    refl,
                rw (file_of-written user user m i b, ==_refl user, file_of-load user a) refl,
              )
      ]

  append_message-append_new :
      (user : String) (m : Message) (i : String) (a : Archive)
      → HasTextId m i
      → append_message decimal true user m a ≡ append_new decimal true user m (text i) a
  unfolding append_message is_truthy
  append_message-append_new user m i a h =
      ap
        (λ o. elim o [
          | none ↦ (false, a)
          | some j ↦ if is_truthy j then append_new decimal true user m j a else (false, a)
        ])
        h.0
      ∙ rw h.1 refl

  -- If the cache agrees with the files, the file ends with a complete line and it can be written: a
  -- message with a new text id is added to the user's file, whole and behind what stands there, and
  -- reported; of one whose id is archived already the file stays as it is. In both cases the cache
  -- agrees with the files afterwards and every other id stands in the file as often as before.
  pub append_message-archives :
      (user : String) (m : Message) (i t : String) (a : Archive)
      → IsSynced a
      → HasTextId m i
      → ((append_message decimal true user m a).0 ≡ not (contains (archived user a) i))
        × IsSynced (append_message decimal true user m a).1
        × (occurrences t (archived user (append_message decimal true user m a).1)
            ≡ occurrences t (archived user a)
              + (if not (contains (archived user a) i) && i == t then 1 else 0))
        × (file_of user (append_message decimal true user m a).1 ≡ (
            if contains (archived user a) i
            then file_of user a
            else file_of user a ++ message m ∷ []))
  append_message-archives user m i t a s h =
      rw (append_message-append_new user m i a h) (append_new-archives user m i t a s h)

  -- No id stands twice in the user's file.
  abbrev pub IsUnique : String → Archive → Type 0
  IsUnique user a = (t : String) → occurrences t (archived user a) ≤ 1

  -- Appending a message with a text id keeps each id at most once in the user's file. The file can
  -- be written.
  pub append_message-IsUnique :
      (user : String) (m : Message) (i : String) (a : Archive)
      → IsSynced a
      → HasTextId m i
      → IsUnique user a
      → IsUnique user (append_message decimal true user m a).1
  append_message-IsUnique user m i a s h u t =
      let (_, _, now, _) = append_message-archives user m i t a s h in
      elim (Bool-cases (i == t)) [
        | inl e ↦
            let same = ==→≡ i t e in
            let none_yet = occurrences-absent t (archived user a) in
            elim (Bool-cases (contains (archived user a) t)) [
              | inl c ↦
                  let d : contains (archived user a) i ≡ true = rw (same) c in
                  ground (arith, now, u t)
              | inr c ↦
                  let d : contains (archived user a) i ≡ false = rw (same) c in
                  ground (arith, now, none_yet c)
            ]
        | inr e ↦ ground (arith, now, u t)
      ]
