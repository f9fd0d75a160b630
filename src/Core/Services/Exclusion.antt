-- ===== src/Core/Services/Exclusion.antt =====
-- Threads over one semaphore, each giving only what it has taken; and which sleeps are whole.
use dlms_access_point.Prelude.{
  ap, none, ℕ, length, ◌+◌, ◌≤◌, ◌≡◌, Bool, true, false, some, List, ◌∷◌, ◌++◌, length-append, ◌*◌,
  ◌^◌, ◌<◌, ◌↔◌, [], arith,
}
use dlms_access_point.Core.Services.{Semaphore, take, give, create_semaphore, sleep}

-- One call that returns, with the threads between a Take that has succeeded and their Give.
pub data Step (sem_value_max : ℕ) : List ℕ → Semaphore → List ℕ → Semaphore → Type 0 where
  takes :
      {hs : List ℕ} {s s' : Semaphore} (thread : ℕ)
      → take s false ≡ some (true, s')
      → Step sem_value_max hs s (thread ∷ hs) s'
  is_interrupted :
      {hs : List ℕ} {s s' : Semaphore}
      → take s true ≡ some (false, s')
      → Step sem_value_max hs s hs s'
  gives :
      {hs hs' : List ℕ} {s s' : Semaphore} (thread : ℕ) (before behind : List ℕ) (done : Bool)
      → hs ≡ before ++ thread ∷ behind
      → hs' ≡ before ++ behind
      → give sem_value_max s ≡ (done, s')
      → Step sem_value_max hs s hs' s'

pub data Steps (sem_value_max : ℕ) : List ℕ → Semaphore → List ℕ → Semaphore → Type 0 where
  stop : {hs : List ℕ} {s : Semaphore} → Steps sem_value_max hs s hs s
  next :
      {hs hs' hs'' : List ℕ} {s s' s'' : Semaphore}
      → Step sem_value_max hs s hs' s'
      → Steps sem_value_max hs' s' hs'' s''
      → Steps sem_value_max hs s hs'' s''

Step-value :
    {sem_value_max : ℕ} {hs hs' : List ℕ} {s s' : Semaphore}
    → 1 ≤ sem_value_max
    → Step sem_value_max hs s hs' s'
    → length hs + s.value ≡ 1
    → length hs' + s'.value ≡ 1
unfolding take give
Step-value h (takes thread e) i = ground arith
Step-value h (is_interrupted e) i = ground arith
Step-value h (gives thread before behind done e e' g) i = ground (
  arith,
  ap length e,
  ap length e',
  length-append before (thread ∷ behind),
  length-append before behind,
)

Steps-value :
    {sem_value_max : ℕ} {hs hs' : List ℕ} {s s' : Semaphore}
    → 1 ≤ sem_value_max
    → Steps sem_value_max hs s hs' s'
    → length hs + s.value ≡ 1
    → length hs' + s'.value ≡ 1
Steps-value h stop i = i
Steps-value h (next step rest) i = Steps-value h rest (Step-value h step i)

-- Where threads give only what they have taken, in any interleaving of their calls, failed ones among
-- them, since a semaphore was created: at most one thread holds it, and a Take that is not
-- interrupted blocks exactly if one does. `SEM_VALUE_MAX` is at least 1.
pub Steps-exclusive :
    (sem_value_max : ℕ) (hs : List ℕ) (s : Semaphore)
    → 1 ≤ sem_value_max
    → Steps sem_value_max [] create_semaphore hs s
    → (length hs ≤ 1) × ((take s false ≡ none) ↔ (length hs ≡ 1))
unfolding take create_semaphore
Steps-exclusive sem_value_max hs s h steps =
    let total = Steps-value h steps (omega arith) in
    (omega (arith, total), ((λ e. ground arith), (λ e. ground arith)))

-- A sleep is as long as it is asked for exactly up to 4294967 milliseconds.
sleep-le : (ms : ℕ) → ms < 2 ^ 32 → (sleep ms ≡ ms * 1000) ↔ (ms ≤ 4_294_967)
unfolding sleep
sleep-le ms h = ((λ e. omega arith), (λ e. omega arith))
