-- ===== src/Core/Serial/Laws.antt =====
-- Port settings, reads with a timer, and the synchronous read.
use dlms_access_point.Prelude.{
  ℕ, get_elem?, zero, suc, ◌<◌, ◌≡◌, ◌≢◌, ◌↔◌, none, some, List, [], ◌∷◌, arith, ◌==◌,
  if◌then◌else◌, Option-cases, length, get_elem?-cases, Text, inl, inr, ◌||◌, Option, ◌++◌,
  take_all, drop_all, append-nil,
}
use dlms_access_point.Core.Io.{
  ErrorCode, no_error, eof, operation_aborted, successful, failed, timeout, is_eof,
  is_connection_reset, is_bad_descriptor,
}
use dlms_access_point.Core.Serial.{
  Options, bauds, PortSettings, set_port_options, parities, stop_bits_table, Call, reads, closes,
  cancel_timer, Serial, read_status, read_handler, read_sync,
}

-- The table is strictly increasing.
abbrev Rising : ℕ → List ℕ → Type 0
Rising n [] = Unit
Rising n (x ∷ xs) = (n < x) × Rising x xs

Rising-get_elem? : (n : ℕ) (xs : List ℕ) (i a : ℕ) → Rising n xs → get_elem? xs i ≡ some a → n < a
Rising-get_elem? n [] i a r h = absurd (ground arith)
Rising-get_elem? n (x ∷ xs) zero a r h = ground arith
Rising-get_elem? n (x ∷ xs) (suc i) a r h = omega (arith, Rising-get_elem? x xs i a r.1 h)

Rising-lt :
    (n : ℕ) (xs : List ℕ) (i j a b : ℕ)
    → Rising n xs
    → i < j
    → get_elem? xs i ≡ some a
    → get_elem? xs j ≡ some b
    → a < b
Rising-lt n [] i j a b r h e f = absurd (ground arith)
Rising-lt n (x ∷ xs) zero zero a b r h e f = absurd (omega arith)
Rising-lt n (x ∷ xs) zero (suc j) a b r h e f =
    let below = Rising-get_elem? x xs j b r.1 f in ground arith
Rising-lt n (x ∷ xs) (suc i) zero a b r h e f = absurd (omega arith)
Rising-lt n (x ∷ xs) (suc i) (suc j) a b r h e f = Rising-lt x xs i j a b r.1 (omega arith) e f

bauds-Rising : Rising 0 bauds
bauds-Rising = omega arith

module _ (Handler : Type 0) where
  -- The port can be set exactly if the rate is one of the 23 in the table and the parity and the
  -- stop bits are of the three each.
  set_port_options-in_range :
      (o : Options)
      → (set_port_options Handler o ≢ none)
        ↔ ((o.baud_rate < 23) × (o.parity < 3) × (o.stop_bits < 3))
  unfolding set_port_options
  set_port_options-in_range o = elim (get_elem?-cases bauds o.baud_rate) [
    | inl (high, e) ↦ (λ h. absurd (h (rw (e, set_port_options))), λ r. absurd (omega arith))
    | inr (low, (a, e)) ↦ elim (get_elem?-cases parities o.parity) [
      | inl (high, f) ↦ (λ h. absurd (h (rw (e, set_port_options, f))), λ r. absurd (omega arith))
      | inr (low', (b, f)) ↦ elim (get_elem?-cases stop_bits_table o.stop_bits) [
        | inl (high, g) ↦
            (λ h. absurd (h (rw (e, set_port_options, f, g))), λ r. absurd (omega arith))
        | inr (low'', (c, g)) ↦
            (λ h. (omega arith, omega arith, omega arith), λ r. rw (e, set_port_options, f, g) cc)
      ]
    ]
  ]

  set_port_options-rate :
      (o : Options) (p : PortSettings)
      → set_port_options Handler o ≡ some p
      → get_elem? bauds o.baud_rate ≡ some p.rate
  unfolding set_port_options
  set_port_options-rate o p h = elim (Option-cases (get_elem? bauds o.baud_rate)) [
    | inl e ↦ absurd (ground arith)
    | inr (a, e) ↦ elim (Option-cases (get_elem? parities o.parity)) [
      | inl f ↦ absurd (ground arith)
      | inr (b, f) ↦ elim (Option-cases (get_elem? stop_bits_table o.stop_bits)) [
        | inl g ↦ absurd (ground arith)
        | inr (c, g) ↦ ground arith
      ]
    ]
  ]

  -- Of two sets of options that the port takes, the one with the higher rate index gets the higher
  -- rate, so no two indices mean the same rate.
  set_port_options_mono :
      (o q : Options) (p r : PortSettings)
      → o.baud_rate < q.baud_rate
      → set_port_options Handler o ≡ some p
      → set_port_options Handler q ≡ some r
      → p.rate < r.rate
  set_port_options_mono o q p r lt e f =
      Rising-lt 0 bauds o.baud_rate q.baud_rate p.rate r.rate bauds-Rising lt
        (set_port_options-rate o p e) (set_port_options-rate q r f)

  abbrev pub announce : Option Handler → (Handler → Call Handler) → List (Call Handler)
  announce none call = []
  announce (some handler) call = call handler ∷ []

  -- A read that ends on a closed port calls nothing. Any other end of a read first cancels the timer;
  -- then it is the close handler that is called after a connection reset or end of file, and else
  -- the read handler, with ERR_TIMEOUT exactly after an abort and success exactly after no error.
  read_handler-read_status :
      (s : Serial Handler) (error : ErrorCode) (n : ℕ)
      → ((read_status Handler error ≡ timeout) ↔ (error ≡ operation_aborted))
        × ((read_status Handler error ≡ successful) ↔ (error ≡ no_error))
        × (read_handler Handler s error n ≡ (
            if is_bad_descriptor error
            then []
            else cancel_timer
              ∷ (if is_eof error || is_connection_reset error
                  then announce s.close (λ h. closes h successful)
                  else announce s.read (λ h. reads h (read_status Handler error) n))))
  unfolding read_status read_handler
  read_handler-read_status s eof n = ((λ h. cc, λ h. cc), (λ h. cc, λ h. cc), ground arith)
  read_handler-read_status s _ n = ((λ h. cc, λ h. cc), (λ h. cc, λ h. cc), ground arith)

  -- Where nothing is left in the buffer from before, and AppendExtra appends as many bytes as arrive,
  -- the synchronous read appends exactly the bytes that arrive to the vector, leaves the buffer
  -- empty, and succeeds exactly if there are any.
  read_sync_lem :
      (s : Serial Handler) (vector arrived extra : Text)
      → s.read_buffer ≡ []
      → length extra ≡ length arrived
      → read_sync Handler s vector arrived extra
        ≡ (s, vector ++ arrived, (if length arrived == 0 then failed else successful))
  unfolding read_sync
  read_sync_lem s vector [] extra e f = ground (arith, append-nil vector)
  read_sync_lem s vector (b ∷ bs) extra e f = rw e (
      ground (
        arith,
        take_all (length bs) bs (omega arith),
        drop_all (length bs) bs (omega arith),
        drop_all (length (b ∷ bs)) extra (omega arith),
        append-nil (b ∷ bs),
      ))
