-- ===== src/Core/Services.antt =====
-- src/core/LinuxSynchronization.cpp, class LinuxSemaphore, and src/core/LinuxScheduler.cpp. POSIX
-- semaphores and the event loop are outside: a semaphore is its value, and the loop its queue.
pub mod Exclusion
mod Tests
use dlms_access_point.Prelude.{
  ℕ, ◌==◌, if◌then◌else◌, zero, suc, ◌+◌, ◌*◌, ◌%◌, ◌^◌, Bool, true, false, Option, none, some,
  List, [], ◌∷◌, ◌++◌,
}

pub record Semaphore : Type 0 where
  pub value : ℕ

-- `sem_init` with 1.
unfoldable pub create_semaphore : Semaphore
create_semaphore = record { value = 1 }

-- `sem_wait`: `none` where it blocks; a signal interrupts it, with an error.
pub take : Semaphore → Bool → Option (Bool × Semaphore)
take s true = some (false, s)
take s false = elim s.value [ zero ↦ none | suc n ↦ some (true, record s { value = n }) ]

-- `sem_post`, which fails at the value `SEM_VALUE_MAX`, an argument.
pub give : ℕ → Semaphore → Bool × Semaphore
give sem_value_max s =
    if s.value == sem_value_max then (false, s) else (true, record s { value = s.value + 1 })

-- `LinuxScheduler::Post`: a handler behind those that wait.
pub post : {Handler : Type 0} → List Handler → Handler → List Handler
post handlers handler = handlers ++ handler ∷ []

-- The microseconds that `LinuxScheduler::Sleep` asks of `usleep`, whose argument has 32 bits.
pub sleep : ℕ → ℕ
sleep ms = ms * 1000 % 2 ^ 32
