-- ===== src/Arbiter/Scheduler/Shrinks.antt =====
-- arbiter/scheduler.py: leases while the card is taken back and released.
use local_ai_server.Prelude.{
  ==_refl, List, Option-cases, String, [], arith, false, inl, inr, refl, text_Eq, true, ◌∷◌, ◌≡◌,
}
use local_ai_server.Prelude.Dict.{lookup, lookup-adjust, lookup-insert}
use local_ai_server.Arbiter.Reclaimers.{
  Inspect, Reclaimer, ask_for, build, forget, holds, take_back,
}
use local_ai_server.Arbiter.Scheduler.State.{
  Scheduler, clear_holder, holding, invented_job, job_for, on_reclaimer, release, release_all,
}

-- Who holds the card in `s'` held it in `s`.
abbrev pub Shrinks : Inspect → Scheduler → Scheduler → Type 0
Shrinks inspect s s' = (n : String) → holding inspect n s' ≡ true → holding inspect n s ≡ true

pub Shrinks-trans :
    (inspect : Inspect) (s t u : Scheduler)
    → Shrinks inspect s t
    → Shrinks inspect t u
    → Shrinks inspect s u
Shrinks-trans inspect s t u h k n m = h n (k n m)

module _ (inspect : Inspect) where
  pub on_reclaimer-Shrinks :
      (k : String) (f : Reclaimer → Reclaimer) (s : Scheduler)
      → ((r : Reclaimer) → holds inspect (f r) ≡ true → holds inspect r ≡ true)
      → Shrinks inspect s (on_reclaimer k f s)
  unfolding holding on_reclaimer
  on_reclaimer-Shrinks k f s keep n h = elim (Option-cases (lookup n s.reclaimers)) [
    | inl e ↦ ground (arith, lookup-adjust k n f s.reclaimers)
    | inr (r, e) ↦ ground (arith, lookup-adjust k n f s.reclaimers, keep r)
  ]

  pub holds-take_back : (r : Reclaimer) → holds inspect (take_back r) ≡ false
  unfolding holds take_back
  holds-take_back r = ground arith

  pub holds-forget : (r : Reclaimer) → holds inspect (forget r) ≡ false
  unfolding holds forget
  holds-forget r = ground arith

  pub holds-ask_for : (r : Reclaimer) → holds inspect (ask_for r) ≡ holds inspect r
  unfolding holds ask_for
  holds-ask_for r = refl

  pub take_back-Shrinks :
      (k : String) (s : Scheduler) → Shrinks inspect s (on_reclaimer k take_back s)
  take_back-Shrinks k s = on_reclaimer-Shrinks k take_back s (λ r h. cc (holds-take_back r))

  pub forget-Shrinks : (k : String) (s : Scheduler) → Shrinks inspect s (on_reclaimer k forget s)
  forget-Shrinks k s = on_reclaimer-Shrinks k forget s (λ r h. cc (holds-forget r))

  pub ask_for-Shrinks : (k : String) (s : Scheduler) → Shrinks inspect s (on_reclaimer k ask_for s)
  ask_for-Shrinks k s = on_reclaimer-Shrinks k ask_for s (λ r h. cc (holds-ask_for r))

  -- A new entry holds nothing.
  pub job_for-Shrinks : (name : String) (s : Scheduler) → Shrinks inspect s (job_for name s).1
  unfolding job_for holding build holds
  job_for-Shrinks name s n h = elim (Option-cases (lookup name s.reclaimers)) [
    | inl e ↦ ground (arith, lookup-insert name n (build (invented_job name)) s.reclaimers)
    | inr (r, e) ↦ ground arith
  ]

  holding-clear_holder :
      (k n : String) (s : Scheduler) → holding inspect n (clear_holder k s) ≡ holding inspect n s
  unfolding holding clear_holder
  holding-clear_holder k n s = ground arith

  pub release-Shrinks : (name : String) (s : Scheduler) → Shrinks inspect s (release inspect name s)
  unfolding release
  release-Shrinks name s n h =
      let (job, s') = job_for name s in
      job_for-Shrinks name s n (
        ground (
          arith,
          holding-clear_holder job.name n (on_reclaimer job.name forget s'),
          forget-Shrinks job.name s' n,
        ))

  pub release_all-Shrinks :
      (names : List String) (s : Scheduler) → Shrinks inspect s (release_all inspect names s)
  unfolding release_all
  release_all-Shrinks [] s n h = h
  release_all-Shrinks (x ∷ xs) s n h =
      release-Shrinks x s n (release_all-Shrinks xs (release inspect x s) n h)

  -- What has been taken back is not held.
  pub holding-take_back :
      (k : String) (s : Scheduler) → holding inspect k (on_reclaimer k take_back s) ≡ false
  unfolding holding on_reclaimer
  holding-take_back k s = elim (Option-cases (lookup k s.reclaimers)) [
    | inl e ↦ ground (arith, lookup-adjust k k take_back s.reclaimers, ==_refl k)
    | inr (r, e) ↦
        ground (arith, lookup-adjust k k take_back s.reclaimers, ==_refl k, holds-take_back r)
  ]
