-- ===== src/History/Refreshing.antt =====
-- What a refresh changes in a user's archive, and what it leaves alone.
use local_ai_server.Prelude.{
  ==_refl, ==→≡, Bool, Bool-cases, List, Option, String, [], ap, arith, contains, false,
  if◌then◌else◌, inl, inr, list_Eq, none, number_Eq, refl, some, subst, sym, text_Eq, true, ℕ, ◌&&◌,
  ◌==◌, ◌∙◌, ◌∷◌, ◌≡◌,
}
use local_ai_server.Prelude.Dict.{Dict, lookup, lookup-insert, lookup-remove}
use local_ai_server.History.Archive.{
  Archive, Line, Message, MessageId, blank, broken, file_of, id_text, ids_of, is_truthy, message,
  records_of,
}
use local_ai_server.History.Appending.{IsSynced}
use local_ai_server.History.Refresh.{
  fresh_from, key_text, lines_for, put_field, refresh_each, refresh_fields, refresh_record,
  refresh_with, rewrite_archive, same_fields, same_value, set_fields, with_fresh,
}

lookup-put_field :
    (f g : String) (v : Option String) (d : Dict String String)
    → lookup g (put_field f v d) ≡ (if f == g then v else lookup g d)
lookup-put_field f g none d = lookup-remove f g d
lookup-put_field f g (some v) d = lookup-insert f g v d

lookup-set_fields :
    (fs : List String) (new d : Dict String String) (g : String)
    → lookup g (set_fields fs new d) ≡ (if contains fs g then lookup g new else lookup g d)
unfolding set_fields contains
lookup-set_fields [] new d g = refl
lookup-set_fields (f ∷ fs) new d g = elim (Bool-cases (f == g)) [
  | inl e ↦
      let same = ==→≡ f g e in
      rw
        (
          lookup-set_fields fs new (put_field f (lookup f new) d) g,
          lookup-put_field f g (lookup f new) d,
          e,
          same,
        )
        (elim (contains fs g) as (λ b. (if b then lookup g new else lookup g new) ≡ lookup g new) [
          | true ↦ refl
          | false ↦ refl
        ])
  | inr e ↦
      rw
        (
          lookup-set_fields fs new (put_field f (lookup f new) d) g,
          lookup-put_field f g (lookup f new) d,
          e,
        )
        refl
]

same_value-eq : (v w : Option String) → same_value v w ≡ true → v ≡ w
same_value-eq none none h = refl
same_value-eq none (some w) h = cc
same_value-eq (some v) none h = cc
same_value-eq (some v) (some w) h = ap some (==→≡ v w h)

same_fields-lookup :
    (fs : List String) (d d' : Dict String String) (g : String)
    → same_fields fs d d' ≡ true
    → contains fs g ≡ true
    → lookup g d ≡ lookup g d'
unfolding same_fields contains
same_fields-lookup [] d d' g h m = cc
same_fields-lookup (f ∷ fs) d d' g h m = elim (Bool-cases (f == g)) [
  | inl e ↦
      let same = ==→≡ f g e in
      subst (λ k. lookup k d ≡ lookup k d') same
        (same_value-eq (lookup f d) (lookup f d') (ground arith))
  | inr e ↦ same_fields-lookup fs d d' g (ground arith) (ground arith)
]

-- The value that a listed field has after the refresh.
abbrev pub wanted : Option Message → Message → String → Option String
wanted none old f = lookup f old.fields
wanted (some new) old f = lookup f new.fields

-- A record after a refresh: its id and its attachments stay, each listed field is as in the fresh
-- record of the same id, if there is one, and every other field stays.
pub record IsRefreshed (fields : List String) (fresh : Option Message) (old new : Message)
    : Type 0 where
  pub same_id : new.message_id ≡ old.message_id
  pub same_attachments : new.attachments ≡ old.attachments
  pub value :
      (f : String)
      → lookup f new.fields
        ≡ (if contains fields f then wanted fresh old f else lookup f old.fields)

refresh_with-IsRefreshed :
    (fields : List String) (fresh : Option Message) (m : Message)
    → IsRefreshed fields fresh m (refresh_with fields fresh m)
unfolding refresh_with
refresh_with-IsRefreshed fields none m = record {
  same_id = refl;
  same_attachments = refl;
  value = λ f.
      elim (contains fields f)
        as (λ b. lookup f m.fields ≡ (if b then lookup f m.fields else lookup f m.fields)) [
          | true ↦ refl
          | false ↦ refl
        ];
}
refresh_with-IsRefreshed fields (some new) m = record {
  same_id = refl;
  same_attachments = refl;
  value = λ f. lookup-set_fields fields new.fields m.fields f;
}

-- A refresh that changes no listed field leaves a record that counts as refreshed.
unchanged-IsRefreshed :
    (fields : List String) (fresh : Option Message) (old new : Message)
    → IsRefreshed fields fresh old new
    → same_fields fields old.fields new.fields ≡ true
    → IsRefreshed fields fresh old old
unchanged-IsRefreshed fields fresh old new r same = record {
  same_id = refl;
  same_attachments = refl;
  value = λ f. elim (Bool-cases (contains fields f)) [
    | inl m ↦
        rw m (same_fields-lookup fields old.fields new.fields f same m ∙ (rw m at (r.value f)))
    | inr m ↦ rw m refl
  ];
}

module _ (decimal : ℕ → String) (fields : List String) (fresh : Dict String Message) where
  -- Two lists of records, the second as the refresh of the first.
  abbrev pub AreRefreshed : List Message → List Message → Type 0
  AreRefreshed [] [] = Unit
  AreRefreshed [] (n ∷ ns) = ⊥
  AreRefreshed (m ∷ ms) [] = ⊥
  AreRefreshed (m ∷ ms) (n ∷ ns) =
      IsRefreshed fields (lookup (key_text decimal m.message_id) fresh) m n × AreRefreshed ms ns

  refresh_each-AreRefreshed :
      (ms : List Message) → AreRefreshed ms (refresh_each decimal fields fresh ms).1
  unfolding refresh_each refresh_record
  refresh_each-AreRefreshed [] = tt
  refresh_each-AreRefreshed (m ∷ ms) = (
    refresh_with-IsRefreshed fields (lookup (key_text decimal m.message_id) fresh) m,
    refresh_each-AreRefreshed ms,
  )

  none_changed :
      (ms : List Message) → (refresh_each decimal fields fresh ms).0 ≡ 0 → AreRefreshed ms ms
  unfolding refresh_each refresh_record
  none_changed [] h = tt
  none_changed (m ∷ ms) h =
      let new = refresh_with fields (lookup (key_text decimal m.message_id) fresh) m in
      elim (Bool-cases (same_fields fields m.fields new.fields)) [
        | inl same ↦ (
          unchanged-IsRefreshed fields (lookup (key_text decimal m.message_id) fresh) m new
              (refresh_with-IsRefreshed fields (lookup (key_text decimal m.message_id) fresh) m)
              same,
          none_changed ms (rw same at h),
        )
        | inr other ↦ absurd (omega (arith, (rw other at h)))
      ]

  ids-AreRefreshed :
      (ls : List Line) (new : List Message)
      → AreRefreshed (records_of ls) new
      → ids_of decimal (lines_for new) ≡ ids_of decimal ls
  unfolding records_of ids_of
  ids-AreRefreshed [] [] r = refl
  ids-AreRefreshed [] (n ∷ ns) r = absurd r
  ids-AreRefreshed (blank ∷ ls) new r = ids-AreRefreshed ls new r
  ids-AreRefreshed (broken ∷ ls) new r = ids-AreRefreshed ls new r
  ids-AreRefreshed (message m ∷ ls) [] r = absurd r
  ids-AreRefreshed (message m ∷ ls) (n ∷ ns) r = rw (r.0.same_id, ids-AreRefreshed ls ns r.1) refl

module _ (decimal : ℕ → String) where
  -- Has a message this id, as a text, and is the id not empty?
  abbrev pub has_id : String → Option MessageId → Bool
  has_id k none = false
  has_id k (some i) = is_truthy i && id_text decimal i == k

  abbrev or_else : Option Message → Option Message → Option Message
  or_else none o = o
  or_else (some m) o = some m

  abbrev if_it : Bool → Message → Option Message
  if_it true m = some m
  if_it false m = none

  -- The last of the messages that have the id.
  abbrev pub last_with : String → List Message → Option Message
  last_with k [] = none
  last_with k (m ∷ ms) = or_else (last_with k ms) (if_it (has_id k m.message_id) m)

  lookup-with_fresh :
      (k : String) (o : Option MessageId) (m : Message) (d : Dict String Message)
      → lookup k (with_fresh decimal o m d) ≡ or_else (if_it (has_id k o) m) (lookup k d)
  lookup-with_fresh k none m d = refl
  lookup-with_fresh k (some i) m d = elim (Bool-cases (is_truthy i)) [
    | inl e ↦ rw e (lookup-insert (id_text decimal i) k m d ∙ by_key (id_text decimal i == k))
    | inr e ↦ rw e refl
  ]
    where
      by_key : (b : Bool) → (if b then some m else lookup k d) ≡ or_else (if_it b m) (lookup k d)
      by_key true = refl
      by_key false = refl

  or_else_assoc : (a b c : Option Message) → or_else a (or_else b c) ≡ or_else (or_else a b) c
  or_else_assoc none b c = refl
  or_else_assoc (some m) b c = refl

  lookup-fresh_from :
      (k : String) (ms : List Message) (d : Dict String Message)
      → lookup k (fresh_from decimal ms d) ≡ or_else (last_with k ms) (lookup k d)
  unfolding fresh_from
  lookup-fresh_from k [] d = refl
  lookup-fresh_from k (m ∷ ms) d =
      lookup-fresh_from k ms (with_fresh decimal m.message_id m d)
      ∙ ap (or_else (last_with k ms)) (lookup-with_fresh k m.message_id m d)
      ∙ or_else_assoc (last_with k ms) (if_it (has_id k m.message_id) m) (lookup k d)

  lookup-last_with :
      (k : String) (ms : List Message) → lookup k (fresh_from decimal ms []) ≡ last_with k ms
  unfolding lookup
  lookup-last_with k ms = lookup-fresh_from k ms [] ∙ ends (last_with k ms)
    where
      ends : (o : Option Message) → or_else o none ≡ o
      ends none = refl
      ends (some m) = refl

module _ (decimal : ℕ → String) (fields : List String) (parsed : List Message) where
  -- Two lists of records, the second as the refresh of the first by the parsed messages.
  abbrev pub AreUpdated : List Message → List Message → Type 0
  AreUpdated [] [] = Unit
  AreUpdated [] (n ∷ ns) = ⊥
  AreUpdated (m ∷ ms) [] = ⊥
  AreUpdated (m ∷ ms) (n ∷ ns) =
      IsRefreshed fields (last_with decimal (key_text decimal m.message_id) parsed) m n
      × AreUpdated ms ns

  AreRefreshed-AreUpdated :
      (ms ns : List Message)
      → AreRefreshed decimal fields (fresh_from decimal parsed []) ms ns
      → AreUpdated ms ns
  AreRefreshed-AreUpdated [] [] h = tt
  AreRefreshed-AreUpdated [] (n ∷ ns) h = absurd h
  AreRefreshed-AreUpdated (m ∷ ms) [] h = absurd h
  AreRefreshed-AreUpdated (m ∷ ms) (n ∷ ns) h = (
    subst (λ o. IsRefreshed fields o m n)
        (lookup-last_with decimal (key_text decimal m.message_id) parsed) h.0,
    AreRefreshed-AreUpdated ms ns h.1,
  )

records_of-lines_for : (ms : List Message) → records_of (lines_for ms) ≡ ms
unfolding records_of
records_of-lines_for [] = refl
records_of-lines_for (m ∷ ms) = ap (λ l. m ∷ l) (records_of-lines_for ms)

file_of-rewrite :
    (user u : String) (ms : List Message) (a : Archive)
    → file_of u (rewrite_archive true user ms a) ≡ (if user == u then lines_for ms else file_of u a)
unfolding rewrite_archive file_of
file_of-rewrite user u ms a = ground (arith, lookup-insert user u (lines_for ms) a.files)

cache-rewrite :
    (user : String) (ms : List Message) (a : Archive)
    → (rewrite_archive true user ms a).cache ≡ a.cache
unfolding rewrite_archive
cache-rewrite user ms a = refl

rewrite-IsSynced :
    (decimal : ℕ → String) (user : String) (ms : List Message) (a : Archive)
    → ids_of decimal (lines_for ms) ≡ ids_of decimal (file_of user a)
    → IsSynced decimal a
    → IsSynced decimal (rewrite_archive true user ms a)
rewrite-IsSynced decimal user ms a kept s = record {
  same = λ u ids l t. elim (Bool-cases (user == u)) [
    | inl e ↦
        rw (file_of-rewrite user u ms a, e, kept)
          (subst (λ v. contains ids t ≡ contains (ids_of decimal (file_of v a)) t)
            (sym (==→≡ user u e)) (s.same u ids (rw (cache-rewrite user ms a) at l) t))
    | inr e ↦
        rw (file_of-rewrite user u ms a, e) (s.same u ids (rw (cache-rewrite user ms a) at l) t)
  ];
}

module _ (decimal : ℕ → String) (user : String) (parsed : List Message) (fields : List String)
    (a : Archive) where
  refresh_fields_lem :
      (u : String)
      → (user == u) ≡ false
      → AreRefreshed decimal fields
          (fresh_from decimal parsed [])
          (records_of (file_of user a))
          (records_of (file_of user (refresh_fields decimal true user parsed fields a).1))
        × (file_of u (refresh_fields decimal true user parsed fields a).1 ≡ file_of u a)
  unfolding refresh_fields
  refresh_fields_lem u ne =
      let ms = records_of (file_of user a) in
      let fresh = fresh_from decimal parsed [] in
      let r = refresh_each decimal fields fresh ms in
      elim (Bool-cases (r.0 == 0)) [
        | inl e ↦ rw e (none_changed decimal fields fresh ms (==→≡ r.0 0 e), refl)
        | inr e ↦
            rw (e, file_of-rewrite user user r.1 a, ==_refl user, records_of-lines_for r.1)
              (
                refresh_each-AreRefreshed decimal fields fresh ms,
                file_of-rewrite user u r.1 a ∙ (rw ne refl),
              )
      ]

  -- After a refresh that can write, by fields that hold texts, the user's records are as before in
  -- their order, ids and attachments included, but for the listed fields: where a parsed message
  -- has a record's id, they are as in the last one that has it, and missing where they miss there.
  -- The file of any other user stays.
  pub refresh_fields-AreUpdated :
      (u : String)
      → (user == u) ≡ false
      → AreUpdated decimal fields parsed
          (records_of (file_of user a))
          (records_of (file_of user (refresh_fields decimal true user parsed fields a).1))
        × (file_of u (refresh_fields decimal true user parsed fields a).1 ≡ file_of u a)
  refresh_fields-AreUpdated u ne =
      let (fresh, others) = refresh_fields_lem u ne in
      (AreRefreshed-AreUpdated decimal fields parsed _ _ fresh, others)

  -- A refresh keeps the cache of ids in step with the files.
  pub refresh_fields-IsSynced :
      IsSynced decimal a → IsSynced decimal (refresh_fields decimal true user parsed fields a).1
  unfolding refresh_fields
  refresh_fields-IsSynced s =
      let ms = records_of (file_of user a) in
      let fresh = fresh_from decimal parsed [] in
      let r = refresh_each decimal fields fresh ms in
      elim (Bool-cases (r.0 == 0)) [
        | inl e ↦ rw e s
        | inr e ↦ rw e (
            rewrite-IsSynced decimal user r.1 a
              (ids-AreRefreshed decimal fields fresh (file_of user a) r.1
                (refresh_each-AreRefreshed decimal fields fresh ms))
              s)
      ]
