-- ===== src/Core/Services/Tests.antt =====
-- Two threads that take a semaphore in turn.
use dlms_access_point.Prelude.{
  length, ◌≤◌, ◌≡◌, ◌↔◌, refl, true, false, none, [], ◌∷◌, arith, ℕ, List,
}
use dlms_access_point.Core.Services.{Semaphore, create_semaphore, take, give}
use dlms_access_point.Core.Services.Exclusion.{
  Steps, stop, next, takes, gives, is_interrupted, Steps-exclusive,
}

abbrev taken : Semaphore
taken = record { value = 0 }

in_turn : Steps 2147483647 [] create_semaphore (2 ∷ []) taken
unfolding create_semaphore take give
in_turn = next (takes 1 refl) (
    next (is_interrupted refl)
      (next (gives 1 [] [] true refl refl refl) (next (takes 2 refl) stop)))

abbrev second : List ℕ
second = 2 ∷ []

Steps-exclusive_example : (length second ≤ 1) × ((take taken false ≡ none) ↔ (length second ≡ 1))
Steps-exclusive_example = Steps-exclusive 2147483647 second taken (omega arith) in_turn
