-- ===== src/Core/Debug/Laws.antt =====
-- The layout of a traced buffer.
use native.Mathlib.Nat.{mod-add-mod, mod-eq_of_lt, mod_self, zero-mod}
use dlms_access_point.Prelude.{
  ℕ, suc, ◌+◌, ◌%◌, ◌<◌, Text, ◌≡◌, sym, ap, ◌∙◌, List, [], ◌∷◌, ◌++◌, length, All, codes, refl,
  some, append_assoc, append-nil, arith,
}
use dlms_access_point.Core.Debug.{hex, heading, trace, dump, trace_buffer}

hex_all : List ℕ → Text
hex_all [] = []
hex_all (byte ∷ bytes) = hex byte ++ hex_all bytes

-- A heading and the bytes of a line.
pub line : Text → List ℕ → Text
line marker chunk = heading marker ++ hex_all chunk

pub lines : Text → List (List ℕ) → Text
lines marker [] = []
lines marker (chunk ∷ chunks) = line marker chunk ++ lines marker chunks

pub join : List (List ℕ) → List ℕ
join [] = []
join (chunk ∷ chunks) = chunk ++ join chunks

next-below : (n index k : ℕ) → index % suc n ≡ k → k + 1 < suc n → (index + 1) % suc n ≡ k + 1
next-below n index k e h =
    sym (mod-add-mod index (suc n) 1) ∙ ap (λ m. (m + 1) % suc n) e ∙ mod-eq_of_lt h

next-full : (n index k : ℕ) → index % suc n ≡ k → k + 1 ≡ suc n → (index + 1) % suc n ≡ 0
next-full n index k e h =
    sym (mod-add-mod index (suc n) 1)
    ∙ ap (λ m. (m + 1) % suc n) e
    ∙ (ap (λ m. m % suc n) h ∙ mod_self (suc n))

-- Within a line, and at its end.
dump-byte :
    (marker : Text) (n index k byte : ℕ) (bytes : List ℕ)
    → index % suc n ≡ k
    → k + 1 < suc n
    → dump marker (suc n) index (byte ∷ bytes) ≡ hex byte ++ dump marker (suc n) (index + 1) bytes
unfolding dump trace hex
dump-byte marker n index k byte bytes e h = rw (dump, next-below n index k e h) (ground arith)

dump-last_byte :
    (marker : Text) (n index k byte : ℕ) (bytes : List ℕ)
    → index % suc n ≡ k
    → k + 1 ≡ suc n
    → dump marker (suc n) index (byte ∷ bytes)
      ≡ hex byte ++ (heading marker ++ dump marker (suc n) (index + 1) bytes)
unfolding dump trace hex
dump-last_byte marker n index k byte bytes e h = rw (dump, next-full n index k e h) refl

dump-rest :
    (marker : Text) (n index k : ℕ) (bytes : List ℕ)
    → index % suc n ≡ k
    → k + length bytes < suc n
    → dump marker (suc n) index bytes ≡ hex_all bytes
unfolding hex_all
dump-rest marker n index k [] e h = unfold dump in refl
dump-rest marker n index k (byte ∷ bytes) e h =
    dump-byte marker n index k byte bytes e (omega arith)
    ∙ ap (λ t. hex byte ++ t)
        (dump-rest marker n (index + 1) (k + 1) bytes (next-below n index k e (omega arith))
          (omega arith))

-- From the middle of a line on.
dump-chunk :
    (marker : Text) (n index k byte : ℕ) (bytes rest : List ℕ)
    → index % suc n ≡ k
    → k + length (byte ∷ bytes) ≡ suc n
    → (next : ℕ) × (next % suc n ≡ 0)
      × (dump marker (suc n) index ((byte ∷ bytes) ++ rest)
          ≡ hex_all (byte ∷ bytes) ++ (heading marker ++ dump marker (suc n) next rest))
unfolding hex_all
dump-chunk marker n index k byte [] rest e h =
    let full : k + 1 ≡ suc n = omega arith in
    (
      index + 1,
      next-full n index k e full,
      dump-last_byte marker n index k byte rest e full
          ∙ ap (λ t. t ++ (heading marker ++ dump marker (suc n) (index + 1) rest))
              (sym (append-nil (hex byte))),
    )
dump-chunk marker n index k byte (b ∷ bytes) rest e h =
    let (next, ends, more) =
      dump-chunk marker n (index + 1) (k + 1) b bytes rest (next-below n index k e (omega arith))
        (omega arith) in
    (
      next,
      ends,
      dump-byte marker n index k byte ((b ∷ bytes) ++ rest) e (omega arith)
          ∙ ap (λ t. hex byte ++ t) more
          ∙ sym (
              append_assoc (hex byte) (hex_all (b ∷ bytes))
                (heading marker ++ dump marker (suc n) next rest)),
    )

heading-dump :
    (marker : Text) (n index : ℕ) (chunks : List (List ℕ)) (last : List ℕ)
    → index % suc n ≡ 0
    → All (λ c. length c ≡ suc n) chunks
    → length last < suc n
    → heading marker ++ dump marker (suc n) index (join chunks ++ last)
      ≡ lines marker chunks ++ line marker last
unfolding join lines line
heading-dump marker n index [] last e full short =
    ap (λ t. heading marker ++ t) (dump-rest marker n index 0 last e (omega arith))
heading-dump marker n index ([] ∷ chunks) last e full short = absurd (omega (arith, full.0))
heading-dump marker n index ((byte ∷ bytes) ∷ chunks) last e full short =
    let rest = join chunks ++ last in
    let (next, ends, step) =
      dump-chunk marker n index 0 byte bytes rest e (omega (arith, full.0)) in
    ap (λ b. heading marker ++ dump marker (suc n) index b)
      (append_assoc (byte ∷ bytes) (join chunks) last)
    ∙ ap (λ t. heading marker ++ t) step
    ∙ ap (λ t. heading marker ++ (hex_all (byte ∷ bytes) ++ t))
        (heading-dump marker n next chunks last ends full.1 short)
    ∙ sym (
        append_assoc (heading marker) (hex_all (byte ∷ bytes))
          (lines marker chunks ++ line marker last))
    ∙ sym (append_assoc (line marker (byte ∷ bytes)) (lines marker chunks) (line marker last))

trace_buffer-suc :
    (marker : Text) (buffer : List ℕ) (n : ℕ)
    → trace_buffer marker buffer (suc n)
      ≡ some ((heading marker ++ dump marker (suc n) 0 buffer) ++ codes "\n")
unfolding trace_buffer trace
trace_buffer-suc marker [] n =
    ap some (sym (append_assoc (heading marker) (dump marker (suc n) 0 []) (codes "\n")))
trace_buffer-suc marker (byte ∷ bytes) n =
    ap some
      (sym (append_assoc (heading marker) (dump marker (suc n) 0 (byte ∷ bytes)) (codes "\n")))

-- With the option HEX_TRACE, a buffer is traced in lines of as many bytes as it says, at least one,
-- each with the marker (cut to 255 bytes with what stands around it) in front and the bytes in
-- hexadecimal; the rest that does not fill a line comes last, also where it is empty, and a newline.
pub trace_buffer-join :
    (marker : Text) (n : ℕ) (chunks : List (List ℕ)) (last : List ℕ)
    → All (λ c. length c ≡ suc n) chunks
    → length last < suc n
    → trace_buffer marker (join chunks ++ last) (suc n)
      ≡ some ((lines marker chunks ++ line marker last) ++ codes "\n")
trace_buffer-join marker n chunks last full short =
    trace_buffer-suc marker (join chunks ++ last) n
    ∙ ap (λ t. some (t ++ codes "\n"))
        (heading-dump marker n 0 chunks last (zero-mod (suc n)) full short)
