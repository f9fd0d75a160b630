-- ===== src/Core/Debug.antt =====
-- src/core/LinuxDebug.cpp with its option HEX_TRACE: the texts that are traced. They hold no zero
-- byte.
pub mod Laws
mod Tests
use dlms_access_point.Prelude.{
  take, ◌-◌, ℕ, zero, suc, ◌+◌, ◌/◌, ◌%◌, ◌==◌, ltb, if◌then◌else◌, Text, codes, Option, none, some,
  List, [], ◌∷◌, ◌++◌,
}

-- `vsnprintf` into 256 bytes with the end of the text.
pub trace : Text → Text
trace text = take 255 text

hex_digit : ℕ → ℕ
hex_digit d = if ltb d 10 then b'0' + d else b'A' + (d - 10)

-- "%02X " of a byte.
pub hex : ℕ → Text
unfolding hex_digit
hex byte = hex_digit (byte / 16 % 16) ∷ (hex_digit (byte % 16) ∷ (b' ' ∷ []))

pub heading : Text → Text
unfolding trace
heading marker = trace (b'\n' ∷ (marker ++ codes ": "))

-- The loop, from the byte at `index` on.
pub dump : Text → ℕ → ℕ → List ℕ → Text
unfolding trace hex heading
dump marker bytes_per_line index [] = []
dump marker bytes_per_line index (byte ∷ bytes) =
    trace (hex byte)
    ++ ((if (index + 1) % bytes_per_line == 0 then heading marker else [])
        ++ dump marker bytes_per_line (index + 1) bytes)

-- `none` is a division by zero.
pub trace_buffer : Text → List ℕ → ℕ → Option Text
unfolding heading dump trace
trace_buffer marker [] zero = some (heading marker ++ trace (codes "\n"))
trace_buffer marker (byte ∷ bytes) zero = none
trace_buffer marker buffer (suc n) =
    some (heading marker ++ (dump marker (suc n) 0 buffer ++ trace (codes "\n")))

-- TRACE_VECTOR, of the vector's data.
trace_vector : Text → List ℕ → ℕ → Option Text
unfolding trace_buffer
trace_vector marker bytes bytes_per_line = trace_buffer marker bytes bytes_per_line
