-- ===== src/Arbiter/Scheduler/Settling.antt =====
-- _wait_for_vram_to_settle against what its comment promises, and `_fits`.
use local_ai_server.Prelude.{
  Bool-cases, List, Option, [], arith, false, inl, inr, number_Eq, none, refl, some, text_Eq, ◌↔◌,
  ◌∷◌, ◌≡◌,
}
use local_ai_server.Prelude.Int.{lebℤ, ℤ}
use local_ai_server.Arbiter.Scheduler.Acquire.{stops_climbing, vram_settles}

-- Each reading is a number above the one before it: the driver still gives memory back.
abbrev pub KeepsClimbing : ℤ → List (Option ℤ) → Type 0
KeepsClimbing previous [] = Unit
KeepsClimbing previous (none ∷ rest) = ⊥
KeepsClimbing previous (some free ∷ rest) = (lebℤ free previous ≡ false) × KeepsClimbing free rest

-- The wait fails exactly when all readings until the deadline succeed and each is above the one
-- before it; one reading that does not climb, or one that fails, ends it.
pub stops_climbing_iff :
    (previous : ℤ) (readings : List (Option ℤ))
    → (vram_settles (some previous) readings ≡ false) ↔ KeepsClimbing previous readings
unfolding vram_settles stops_climbing
stops_climbing_iff previous [] = (λ h. tt, λ h. refl)
stops_climbing_iff previous (none ∷ rest) = (λ h. cc, λ h. absurd h)
stops_climbing_iff previous (some free ∷ rest) =
    let (there, back) = stops_climbing_iff free rest in
    elim (Bool-cases (lebℤ free previous)) [
      | inl e ↦ (λ h. absurd (ground arith), λ h. ground arith)
      | inr e ↦ (λ h. (e, there (ground arith)), λ h. rw e (back h.1))
    ]
