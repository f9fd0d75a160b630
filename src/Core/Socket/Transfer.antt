-- ===== src/Core/Socket/Transfer.antt =====
-- Bytes read off a socket.
use dlms_access_point.Prelude.{
  ℕ, length, take, drop, Text, zero, suc, ◌+◌, ◌≤◌, ◌<◌, ◌≡◌, refl, sym, ap, ◌∙◌, true, List, [],
  ◌∷◌, ◌++◌, arith, length-take, append_assoc, append-nil, drop_all, length-drop,
}
use dlms_access_point.Core.Socket.{Socket, append_async_read_result}

take-nil {ℓ} : {A : Type ℓ} (k : ℕ) → take {A = A} k [] ≡ []
take-nil zero = refl
take-nil (suc k) = refl

drop-nil {ℓ} : {A : Type ℓ} (k : ℕ) → drop {A = A} k [] ≡ []
drop-nil zero = refl
drop-nil (suc k) = refl

suc-add : (n m : ℕ) → suc (n + m) ≡ suc n + m
suc-add n m = omega arith

drop-add {ℓ} : {A : Type ℓ} (n m : ℕ) (xs : List A) → drop m (drop n xs) ≡ drop (n + m) xs
drop-add zero m xs = ap (λ k. drop k xs) (omega arith)
drop-add (suc n) m [] = drop-nil m ∙ sym (drop-nil (suc n + m))
drop-add (suc n) m (x ∷ xs) = drop-add n m xs ∙ ap (λ k. drop k (x ∷ xs)) (suc-add n m)

take-add {ℓ} :
    {A : Type ℓ} (n m : ℕ) (xs : List A) → take n xs ++ take m (drop n xs) ≡ take (n + m) xs
take-add zero m xs = ap (λ k. take k xs) (omega arith)
take-add (suc n) m [] = take-nil m ∙ sym (take-nil (suc n + m))
take-add (suc n) m (x ∷ xs) = ap (◌∷◌ x) (take-add n m xs) ∙ ap (λ k. take k (x ∷ xs)) (suc-add n m)

module _ (Handler Endpoint : Type 0) where
  -- A read of so many bytes where the buffer holds them appends exactly those to the vector, takes
  -- them out of the buffer and succeeds.
  append_lem :
      (s : Socket Handler Endpoint) (vector : Text) (n measured : ℕ) (extra : Text)
      → 0 < n
      → n ≤ length s.read_buffer
      → length extra ≡ n
      → append_async_read_result Handler Endpoint s vector n measured extra
        ≡ (record s { read_buffer = drop n s.read_buffer }, vector ++ take n s.read_buffer, true)
  unfolding append_async_read_result
  append_lem s vector n measured extra h k e = ground (
    arith,
    drop_all (length (take n s.read_buffer)) extra (omega (arith, length-take n s.read_buffer)),
    append-nil (take n s.read_buffer),
  )

  -- Two reads in a row append what one read of both lengths appends, and leave the same buffer, if
  -- each asks for at least one byte, the buffer holds the bytes of both, and AppendExtra appends as
  -- many bytes as it is asked for.
  pub append_async_read_result-add :
      (s : Socket Handler Endpoint) (vector : Text) (n m measured : ℕ) (extra extra' both : Text)
      → 0 < n
      → 0 < m
      → n + m ≤ length s.read_buffer
      → length extra ≡ n
      → length extra' ≡ m
      → length both ≡ n + m
      → let (s1, vector1, done1) =
          append_async_read_result Handler Endpoint s vector n measured extra in
        append_async_read_result Handler Endpoint s1 vector1 m measured extra'
        ≡ append_async_read_result Handler Endpoint s vector (n + m) measured both
  append_async_read_result-add s vector n m measured extra extra' both hn hm fits e e' b = rw (
    append_lem s vector n measured extra hn (omega arith) e,
    append_lem (record s { read_buffer = drop n s.read_buffer }) (vector ++ take n s.read_buffer) m
        measured extra' hm (omega (arith, length-drop n s.read_buffer)) e',
    append_lem s vector (n + m) measured both (omega arith) fits b,
    drop-add n m s.read_buffer,
    append_assoc vector (take n s.read_buffer) (take m (drop n s.read_buffer)),
    take-add n m s.read_buffer,
  )
