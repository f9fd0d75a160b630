-- ===== src/Core/Registry.antt =====
-- The lists of sockets that class LinuxIP of src/core/LinuxSocket.cpp and class LinuxSerial of
-- src/core/LinuxSerial.cpp hold, in the same code. A socket is known by its address, which no two
-- sockets share while they are in the list.
pub mod Laws
mod Tests
use dlms_access_point.Prelude.{ℕ, ◌==◌, if◌then◌else◌, List, [], ◌∷◌, ◌++◌}

-- The list, front first, and the removals that have been posted to the event loop, in their order.
pub record Registry : Type 0 where
  pub sockets : List ℕ
  pub posted : List ℕ

unfoldable pub new : Registry
new = record { sockets = []; posted = [] }

-- `emplace` at the beginning; `address` is what the allocation gives.
unfoldable pub create_socket : Registry → ℕ → Registry × ℕ
create_socket r address = (record r { sockets = address ∷ r.sockets }, address)

-- The socket is closed at once (Core/Socket.antt and Core/Serial.antt) and removed by a task.
pub release_socket : Registry → ℕ → Registry
release_socket r socket = record r { posted = r.posted ++ socket ∷ [] }

-- `remove_if` with the equality of addresses.
pub remove_if : ℕ → List ℕ → List ℕ
remove_if socket [] = []
remove_if socket (x ∷ xs) = if x == socket then remove_if socket xs else x ∷ remove_if socket xs

pub remove_socket : Registry → ℕ → Registry
unfolding remove_if
remove_socket r socket = record r { sockets = remove_if socket r.sockets }

-- The event loop runs the posted tasks in their order.
run_tasks : List ℕ → Registry → Registry
unfolding remove_socket
run_tasks [] r = r
run_tasks (socket ∷ tasks) r = run_tasks tasks (remove_socket r socket)

unfoldable pub process : Registry → Registry
unfolding run_tasks
process r = record (run_tasks r.posted r) { posted = [] }
