-- ===== src/Arbiter/Scheduler/Reaping.antt =====
-- What `reap` leaves: no dead lease, and the holder that ranks first.
use local_ai_server.Prelude.{
  ==→≡, Bool, Bool-cases, List, Option, Option-cases, String, [], arith, false, inl, inr, number_Eq,
  none, refl, some, text_Eq, subst, true, ℕ, ◌+◌, ◌==◌, ◌||◌, ◌∷◌, ◌≡◌, ◌≤◌, ◌⊎◌,
}
use local_ai_server.Prelude.Dict.{lookup, lookup-adjust}
use local_ai_server.Arbiter.Config.{JobConfig}
use local_ai_server.Arbiter.Reclaimers.{Inspect, Reclaimer, forget, holds, is_stale}
use local_ai_server.Arbiter.Scheduler.State.{Scheduler, holding, on_reclaimer}
use local_ai_server.Arbiter.Scheduler.Shrinks.{Shrinks, holds-forget, on_reclaimer-Shrinks}
use local_ai_server.Arbiter.Scheduler.Reap.{
  drop_dead, drop_dead_leases, holding_job, is_cooperative, reap,
}

abbrev pub listed : String → List JobConfig → Bool
listed n [] = false
listed n (j ∷ js) = j.name == n || listed n js

-- A lease that `reap` lets stand: its holder is on the card, and a cooperative one has polled
-- within the time that is allowed.
pub record IsLive (stale_after : ℕ) (inspect : Inspect) (now : ℕ) (r : Reclaimer) : Type 0 where
  pub on_card : r.held ≡ true → holds inspect r ≡ true
  pub polled : r.held ≡ true → is_cooperative r.job.kind ≡ true → now ≤ r.last_poll + stale_after

module _ (stale_after : ℕ) (inspect : Inspect) (now : ℕ) where
  held-forget : (r : Reclaimer) → (forget r).held ≡ false
  unfolding forget
  held-forget r = ground arith

  drop_dead-IsLive :
      (r : Reclaimer) → IsLive stale_after inspect now (drop_dead stale_after inspect now r)
  unfolding drop_dead is_stale
  drop_dead-IsLive r = record {
    on_card = λ h. ground (arith, held-forget r);
    polled = λ h c. ground (arith, held-forget r);
  }

  -- What `drop_dead` has looked at is live, and stays so when it is looked at again.
  abbrev LiveAt : String → Scheduler → Type 0
  LiveAt n s = (r : Reclaimer) → lookup n s.reclaimers ≡ some r → IsLive stale_after inspect now r

  drop_one-LiveAt :
      (n k : String) (s : Scheduler)
      → LiveAt n s ⊎ (k ≡ n)
      → LiveAt n (on_reclaimer k (drop_dead stale_after inspect now) s)
  unfolding on_reclaimer
  drop_one-LiveAt n k s known r h = elim (Option-cases (lookup n s.reclaimers)) [
    | inl e ↦
        absurd (ground (arith, lookup-adjust k n (drop_dead stale_after inspect now) s.reclaimers))
    | inr (q, e) ↦ elim (Bool-cases (k == n)) [
      | inl same ↦
          let is : drop_dead stale_after inspect now q ≡ r =
            ground (arith, lookup-adjust k n (drop_dead stale_after inspect now) s.reclaimers) in
          subst (IsLive stale_after inspect now) is (drop_dead-IsLive q)
      | inr distinct ↦
          let is : q ≡ r =
            ground (arith, lookup-adjust k n (drop_dead stale_after inspect now) s.reclaimers) in
          elim known [ inl live ↦ live r (cc) | inr eq ↦ absurd (cc ((text_Eq.test_iff k n).1 eq)) ]
    ]
  ]

  drop_dead_leases-LiveAt :
      (n : String) (jobs : List JobConfig) (s : Scheduler)
      → LiveAt n s ⊎ (listed n jobs ≡ true)
      → LiveAt n (drop_dead_leases stale_after inspect now jobs s)
  unfolding drop_dead_leases
  drop_dead_leases-LiveAt n [] s (inl live) = live
  drop_dead_leases-LiveAt n [] s (inr l) = absurd (cc)
  drop_dead_leases-LiveAt n (j ∷ js) s (inl live) =
      drop_dead_leases-LiveAt n js (on_reclaimer j.name (drop_dead stale_after inspect now) s)
        (inl (drop_one-LiveAt n j.name s (inl live)))
  drop_dead_leases-LiveAt n (j ∷ js) s (inr l) = elim (Bool-cases (j.name == n)) [
    | inl same ↦
        drop_dead_leases-LiveAt n js (on_reclaimer j.name (drop_dead stale_after inspect now) s)
          (inl (drop_one-LiveAt n j.name s (inr (==→≡ j.name n same))))
    | inr distinct ↦
        drop_dead_leases-LiveAt n js (on_reclaimer j.name (drop_dead stale_after inspect now) s)
          (inr (ground arith))
  ]

  holds-drop_dead :
      (r : Reclaimer)
      → holds inspect (drop_dead stale_after inspect now r) ≡ true
      → holds inspect r ≡ true
  unfolding drop_dead
  holds-drop_dead r h = ground (arith, holds-forget inspect r)

  pub drop_dead_leases-Shrinks :
      (jobs : List JobConfig) (s : Scheduler)
      → Shrinks inspect s (drop_dead_leases stale_after inspect now jobs s)
  unfolding drop_dead_leases
  drop_dead_leases-Shrinks [] s n h = h
  drop_dead_leases-Shrinks (j ∷ js) s n h =
      on_reclaimer-Shrinks inspect j.name (drop_dead stale_after inspect now) s holds-drop_dead n (
        drop_dead_leases-Shrinks js (on_reclaimer j.name (drop_dead stale_after inspect now) s) n h)

  -- After `reap` every lease of a job in the table is live: no container that is not running and
  -- no cooperative job that has not polled for longer than allowed keeps one.
  pub reap-IsLive :
      (n : String) (r : Reclaimer) (s : Scheduler)
      → listed n s.jobs ≡ true
      → lookup n (reap stale_after inspect now s).reclaimers ≡ some r
      → IsLive stale_after inspect now r
  unfolding reap
  reap-IsLive n r s l h = drop_dead_leases-LiveAt n s.jobs s (inr l) r h

-- The first of the table that holds the card, or nobody.
abbrev pub IsFirstHolding : Inspect → Scheduler → List JobConfig → Option String → Type 0
IsFirstHolding inspect s [] h = h ≡ none
IsFirstHolding inspect s (j ∷ js) h =
    (holding inspect j.name s ≡ true) × (h ≡ some j.name)
    ⊎ (holding inspect j.name s ≡ false) × IsFirstHolding inspect s js h

pub holding_job-IsFirstHolding :
    (inspect : Inspect) (jobs : List JobConfig) (s : Scheduler)
    → IsFirstHolding inspect s jobs (holding_job inspect jobs s)
unfolding holding_job
holding_job-IsFirstHolding inspect [] s = refl
holding_job-IsFirstHolding inspect (j ∷ js) s = elim (Bool-cases (holding inspect j.name s)) [
  | inl e ↦ inl (e, rw e)
  | inr e ↦ inr (e, rw e (holding_job-IsFirstHolding inspect js s))
]

IsFirstHolding-transfer :
    (inspect : Inspect) (s s' : Scheduler) (jobs : List JobConfig) (h : Option String)
    → s'.reclaimers ≡ s.reclaimers
    → IsFirstHolding inspect s jobs h
    → IsFirstHolding inspect s' jobs h
unfolding holding
IsFirstHolding-transfer inspect s s' [] h same first = first
IsFirstHolding-transfer inspect s s' (j ∷ js) h same (inl (e, is)) = inl (cc, is)
IsFirstHolding-transfer inspect s s' (j ∷ js) h same (inr (e, rest)) =
    inr (cc, IsFirstHolding-transfer inspect s s' js h same rest)

-- The holder that `reap` records is the first of the table that holds the card once the dead
-- leases are gone, and nobody exactly when no job of the table holds it.
pub reap-IsFirstHolding :
    (stale_after : ℕ) (inspect : Inspect) (now : ℕ) (s : Scheduler)
    → IsFirstHolding inspect
        (reap stale_after inspect now s)
        (reap stale_after inspect now s).jobs
        (reap stale_after inspect now s).holder
unfolding reap
reap-IsFirstHolding stale_after inspect now s =
    let s' = drop_dead_leases stale_after inspect now s.jobs s in
    IsFirstHolding-transfer inspect s' (reap stale_after inspect now s) s'.jobs
      (holding_job inspect s'.jobs s') refl (holding_job-IsFirstHolding inspect s'.jobs s')
