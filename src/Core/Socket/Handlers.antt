-- ===== src/Core/Socket/Handlers.antt =====
-- Which registered handler hears of the end of a transfer.
use dlms_access_point.Prelude.{
  ℕ, if◌then◌else◌, ◌≡◌, refl, ◌≢◌, ◌↔◌, ◌⊎◌, inl, inr, true, Option, none, some, List, [], ◌∷◌,
  arith,
}
use dlms_access_point.Core.Io.{
  ErrorCode, no_error, eof, connection_reset, operation_aborted, bad_descriptor, other_error,
  Status, successful, failed,
}
use dlms_access_point.Core.Socket.{Socket, Call, writes, reads, closes, write_handler, read_handler}

module _ (Handler Endpoint : Type 0) where
  -- A handler, if there is one, is called once.
  abbrev pub announce :
      Option Handler → (Handler → Call Handler Endpoint) → List (Call Handler Endpoint)
  announce none call = []
  announce (some handler) call = call handler ∷ []

  -- The end of a write or of a read calls at most one handler, once. After end of file, a connection
  -- reset or an abort that is the close handler, and neither data handler hears of it. After any
  -- other error, and after none, it is the handler of that direction, with the bytes transferred and
  -- with success exactly if there was no error and, for a write, the socket is still open.
  pub transfer_handlers :
      (s : Socket Handler Endpoint) (error : ErrorCode) (n : ℕ)
      → (((error ≡ eof) ⊎ ((error ≡ connection_reset) ⊎ (error ≡ operation_aborted)))
          × (write_handler Handler Endpoint s error n ≡ announce s.close (λ h. closes h successful))
          × (read_handler Handler Endpoint s error n ≡ announce s.close (λ h. closes h successful)))
        ⊎ ((error ≢ eof)
            × (error ≢ connection_reset)
            × (error ≢ operation_aborted)
            × ((w : Status) × (write_handler Handler Endpoint s error n
                  ≡ announce s.write (λ h. writes h w n))
                × ((w ≡ successful) ↔ ((error ≡ no_error) × (s.is_open ≡ true))))
            × ((r : Status) × (read_handler Handler Endpoint s error n
                  ≡ announce s.read (λ h. reads h r n))
                × ((r ≡ successful) ↔ (error ≡ no_error))))
  unfolding write_handler read_handler
  transfer_handlers s eof n = inl (inl refl, ground arith, ground arith)
  transfer_handlers s connection_reset n = inl (inr (inl refl), ground arith, ground arith)
  transfer_handlers s operation_aborted n = inl (inr (inr refl), ground arith, ground arith)
  transfer_handlers s no_error n = inr (
    cc,
    cc,
    cc,
    (
      if s.is_open then successful else failed,
      ground arith,
      (λ h. ground arith, λ h. ground arith),
    ),
    (successful, ground arith, (λ h. refl, λ h. refl)),
  )
  transfer_handlers s bad_descriptor n = inr (
    cc,
    cc,
    cc,
    (failed, ground arith, (λ h. cc, λ h. absurd (ground arith))),
    (failed, ground arith, (λ h. cc, λ h. cc)),
  )
  transfer_handlers s (other_error k) n = inr (
    cc,
    cc,
    cc,
    (failed, ground arith, (λ h. cc, λ h. absurd (ground arith))),
    (failed, ground arith, (λ h. cc, λ h. cc)),
  )
