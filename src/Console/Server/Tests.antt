-- ===== src/Console/Server/Tests.antt =====
-- Runs of the server of src/Linux.cpp with a small library.
use dlms_access_point.Prelude.{ℕ, suc, ℤ, pos, [], ◌∷◌, List, false, ◌+◌}
use dlms_access_point.Console.Server.{Library}

above : List ℕ → ℕ
above [] = 0
above (x ∷ xs) = suc (x + above xs)

-- A network that counts the calls of Open, of which none succeeds.
abbrev sample : Library
sample = record {
  Net = ℕ;
  Engine = ℤ × ℤ;
  allocate = λ n used. above used;
  tcp_engine = λ a n. (n, (pos 0, pos 0));
  hdlc_engine = λ address baud a n. (n, (address, baud));
  serial_engine = λ baud a n. (n, (pos 0, baud));
  open_socket = λ a port n. (suc n, false);
}
