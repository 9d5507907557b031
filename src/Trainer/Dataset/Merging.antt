-- ===== src/Trainer/Dataset/Merging.antt =====
-- lora-training/build_dataset.py, _turns: which messages a turn is made of.
use local_ai_server.Prelude.{
  Bool, Bool-cases, List, String, [], ap, arith, inl, inr, list_Eq, number_Eq, refl, sym, text_Eq,
  true, ℕ, ◌&&◌, ◌++◌, ◌+◌, ◌∙◌, ◌∷◌, ◌≡◌, ◌≤◌,
}
use local_ai_server.Trainer.Dataset.Turns.{
  ArchiveRecord, IsSeparated, SpokenTurn, Substitutions, bodies_of, extended, goes_on,
  is_attachment, message_body, open_turn, turns_from, turns_of, turns_of-IsSeparated,
}
use mathlib.Core.List.{append_assoc}

abbrev pub concat_records : List (List ArchiveRecord) → List ArchiveRecord
concat_records [] = []
concat_records (g ∷ gs) = g ++ concat_records gs

abbrev pub last_record : ArchiveRecord → List ArchiveRecord → ArchiveRecord
last_record r [] = r
last_record r (q ∷ qs) = last_record q qs

module _ (subs : Substitutions) (parse_ts : String → ℕ) (username_of : String → String)
    (merge_seconds : ℕ) where
  -- Each message is by the author of the one before it, and not later behind it than the limit.
  abbrev pub IsRun : ArchiveRecord → List ArchiveRecord → Type 0
  IsRun r [] = Unit
  IsRun r (q ∷ qs) =
      (q.user_id ≡ r.user_id)
      × (parse_ts q.timestamp ≤ parse_ts r.timestamp + merge_seconds)
      × IsRun q qs

  abbrev pub are_attachments : List ArchiveRecord → Bool
  are_attachments [] = true
  are_attachments (r ∷ rs) =
      is_attachment subs parse_ts username_of merge_seconds r && are_attachments rs

  -- A turn is made of a run of messages: it has their author and their texts, from the time of the
  -- first to that of the last.
  abbrev pub IsMerged : SpokenTurn → List ArchiveRecord → Type 0
  IsMerged t [] = ⊥
  IsMerged t (r ∷ rs) =
      (t.user_id ≡ r.user_id)
      × (t.texts ≡ bodies_of subs parse_ts username_of merge_seconds (r ∷ rs))
      × (t.start ≡ parse_ts r.timestamp)
      × (t.end ≡ parse_ts (last_record r rs).timestamp)
      × (t.attachment_only ≡ are_attachments (r ∷ rs))
      × IsRun r rs

  abbrev pub AreMerged : List SpokenTurn → List (List ArchiveRecord) → Type 0
  AreMerged [] [] = Unit
  AreMerged [] (g ∷ gs) = ⊥
  AreMerged (t ∷ ts) [] = ⊥
  AreMerged (t ∷ ts) (g ∷ gs) = IsMerged t g × AreMerged ts gs

  bodies_of-snoc :
      (rs : List ArchiveRecord) (q : ArchiveRecord)
      → bodies_of subs parse_ts username_of merge_seconds (rs ++ q ∷ [])
        ≡ bodies_of subs parse_ts username_of merge_seconds rs
          ++ message_body subs parse_ts username_of merge_seconds q ∷ []
  bodies_of-snoc [] q = refl
  bodies_of-snoc (r ∷ rs) q =
      ap (λ l. message_body subs parse_ts username_of merge_seconds r ∷ l) (bodies_of-snoc rs q)

  are_attachments-snoc :
      (rs : List ArchiveRecord) (q : ArchiveRecord)
      → are_attachments (rs ++ q ∷ [])
        ≡ (are_attachments rs && is_attachment subs parse_ts username_of merge_seconds q)
  are_attachments-snoc [] q = ground arith
  are_attachments-snoc (r ∷ rs) q = ground (arith, are_attachments-snoc rs q)

  last_record-snoc :
      (r : ArchiveRecord) (rs : List ArchiveRecord) (q : ArchiveRecord)
      → last_record r (rs ++ q ∷ []) ≡ q
  last_record-snoc r [] q = refl
  last_record-snoc r (s ∷ rs) q = last_record-snoc s rs q

  IsRun-author :
      (r : ArchiveRecord) (rs : List ArchiveRecord)
      → IsRun r rs
      → (last_record r rs).user_id ≡ r.user_id
  IsRun-author r [] h = refl
  IsRun-author r (q ∷ qs) h = IsRun-author q qs h.2 ∙ h.0

  IsRun-snoc :
      (r : ArchiveRecord) (rs : List ArchiveRecord) (q : ArchiveRecord)
      → IsRun r rs
      → q.user_id ≡ (last_record r rs).user_id
      → parse_ts q.timestamp ≤ parse_ts (last_record r rs).timestamp + merge_seconds
      → IsRun r (rs ++ q ∷ [])
  IsRun-snoc r [] q h same soon = (same, soon, tt)
  IsRun-snoc r (s ∷ rs) q h same soon = (h.0, h.1, IsRun-snoc s rs q h.2 same soon)

  -- A message that goes on with a turn belongs to its run.
  IsMerged-snoc :
      (t : SpokenTurn) (group : List ArchiveRecord) (q : ArchiveRecord)
      → IsMerged t group
      → goes_on subs parse_ts username_of merge_seconds t q ≡ true
      → IsMerged (extended subs parse_ts username_of merge_seconds t q) (group ++ q ∷ [])
  unfolding goes_on
  IsMerged-snoc t [] q h goes = absurd h
  IsMerged-snoc t (r ∷ rs) q (author, texts, start, end, files, chain) goes =
      let same : t.user_id ≡ q.user_id = (text_Eq.test_iff t.user_id q.user_id).0 (ground arith) in
      (
        author,
        ap (λ l. l ++ message_body subs parse_ts username_of merge_seconds q ∷ []) texts
            ∙ sym (bodies_of-snoc (r ∷ rs) q),
        start,
        ap (λ x. parse_ts x.timestamp) (sym (last_record-snoc r rs q)),
        ground (arith, files, are_attachments-snoc (r ∷ rs) q),
        IsRun-snoc r rs q chain (sym same ∙ author ∙ sym (IsRun-author r rs chain))
            (ground (arith, end)),
      )

  turns_from-AreMerged :
      (t : SpokenTurn) (group rs : List ArchiveRecord)
      → IsMerged t group
      → (groups : List (List ArchiveRecord)) × (concat_records groups ≡ group ++ rs)
        × AreMerged (turns_from subs parse_ts username_of merge_seconds t rs) groups
  unfolding turns_from
  turns_from-AreMerged t group [] h = (group ∷ [], refl, (h, tt))
  turns_from-AreMerged t group (r ∷ rs) h =
      elim (Bool-cases (goes_on subs parse_ts username_of merge_seconds t r)) [
        | inl e ↦
            let (groups, same, merged) =
              turns_from-AreMerged (extended subs parse_ts username_of merge_seconds t r)
                (group ++ r ∷ []) rs (IsMerged-snoc t group r h e) in
            rw (e, turns_from) (groups, same ∙ append_assoc group (r ∷ []) rs, merged)
        | inr e ↦
            let (groups, same, merged) =
              turns_from-AreMerged (open_turn subs parse_ts username_of merge_seconds r) (r ∷ []) rs
                (refl, refl, refl, refl, ground arith, tt) in
            rw (e, turns_from) (group ∷ groups, ap (λ l. group ++ l) same, (h, merged))
      ]

  -- The messages, in their order, fall into groups, one for each turn: all of a group are by one
  -- author, each not later behind the one before it than the limit, and the turn has this author
  -- and the texts of the group, from the time of its first message to that of its last, and counts
  -- as attachments only where all of the group does. Two turns in a row are of two authors, or the
  -- second starts later behind the end of the first than merged turns do.
  pub turns_of-AreMerged :
      (rs : List ArchiveRecord)
      → (groups : List (List ArchiveRecord)) × (concat_records groups ≡ rs)
        × AreMerged (turns_of subs parse_ts username_of merge_seconds rs) groups
        × IsSeparated subs parse_ts username_of merge_seconds
            (turns_of subs parse_ts username_of merge_seconds rs)
  unfolding turns_of
  turns_of-AreMerged [] = ([], refl, tt, tt)
  turns_of-AreMerged (r ∷ rs) =
      let (groups, same, merged) =
        turns_from-AreMerged (open_turn subs parse_ts username_of merge_seconds r) (r ∷ []) rs
          (refl, refl, refl, refl, ground arith, tt) in
      (groups, same, merged, turns_of-IsSeparated subs parse_ts username_of merge_seconds (r ∷ rs))
