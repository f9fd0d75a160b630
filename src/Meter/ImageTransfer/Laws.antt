-- ===== src/Meter/ImageTransfer/Laws.antt =====
-- What image transfer actions leave behind.
use dlms_access_point.Prelude.{
  ℕ, ◌==◌, if◌then◌else◌, ◌≡◌, Bool, false, ◌||◌, Option, none, some, List, [], ◌∷◌, arith,
}
use dlms_access_point.Meter.Cosem.{Library, DataAccessResult, ActionResult, returned, threw, number}
use dlms_access_point.Meter.ImageTransfer.{
  ImageTransfer, attr_image_first_not_transferred_block_number, attr_image_transfer_status,
  method_image_transfer_initiate, image_transfer_not_initiated, image_transfer_initiated, new,
  internal_get, internal_action, run,
}

module _ (lib : Library) where
  open lib use {Vector, BitSet}

  -- Whether one of the actions initiates a transfer with an identifier and a size that can be read.
  begins : ℕ × Option Vector → Bool
  begins (method, none) = false
  begins (method, some value) = elim (lib.get_octet_string value) [
    | none ↦ false
    | some (id, rest) ↦ elim (lib.get_double_long_unsigned rest) [
      | none ↦ false
      | some (size, rest') ↦ method == method_image_transfer_initiate
    ]
  ]

  pub any_begins : List (ℕ × Option Vector) → Bool
  unfolding begins
  any_begins [] = false
  any_begins (r ∷ rs) = begins r || any_begins rs

  -- The object with the status that its first transfer gives it.
  abbrev pub Shows : Bool → ImageTransfer lib → Type 0
  Shows b t =
      (t.status ≡ (if b then image_transfer_initiated else image_transfer_not_initiated))
      × (t.first_not_transferred_block_number ≡ 0)

  step-Shows :
      (b : Bool) (t : ImageTransfer lib) (method : ℕ) (parameters : Option Vector)
      → Shows b t
      → Shows (b || begins (method, parameters)) (internal_action lib t method parameters).1
  unfolding internal_action begins
  step-Shows b t method none h = ground arith
  step-Shows b t method (some value) h = ground arith

  pub run-Shows :
      (b : Bool) (t : ImageTransfer lib) (rs : List (ℕ × Option Vector))
      → Shows b t
      → Shows (b || any_begins rs) (run lib t rs)
  unfolding run any_begins
  run-Shows b t [] h = ground arith
  run-Shows b t ((method, parameters) ∷ rs) h = ground (
    arith,
    run-Shows (b || begins (method, parameters)) (internal_action lib t method parameters).1 rs
        (step-Shows b t method parameters h),
  )

  -- Whatever actions a client has sent since the object was made, block transfers, verification
  -- and activation among them, a GET answers that no block has been transferred yet, and the status
  -- is INITIATED or NOT_INITIATED, by whether one of the actions was a readable initiation.
  pub internal_get-run_status :
      (no_bits : BitSet) (no_id : Vector) (rs : List (ℕ × Option Vector))
      → let t = run lib (new lib no_bits no_id) rs in
        (internal_get lib t attr_image_transfer_status ≡ (
          DataAccessResult.success,
          some (
              number
                (if any_begins rs then image_transfer_initiated else image_transfer_not_initiated)),
        ))
        × (internal_get lib t attr_image_first_not_transferred_block_number
            ≡ (DataAccessResult.success, some (number 0)))
  unfolding internal_get new
  internal_get-run_status no_bits no_id rs =
      ground (arith, run-Shows false (new lib no_bits no_id) rs (ground arith))

  module _ (t : ImageTransfer lib) (value id rest : Vector) where
    -- An initiation whose identifier can be read and whose size cannot leaves by an exception, with
    -- the new identifier stored beside the size, the status and the counter of the transfer before
    -- it.
    internal_action-initiate_torn :
        lib.get_octet_string value ≡ some (id, rest)
        → lib.get_double_long_unsigned rest ≡ none
        → internal_action lib t method_image_transfer_initiate (some value)
          ≡ (threw, record t { image_id = id })
    unfolding internal_action
    internal_action-initiate_torn e f = ground arith

    -- An initiation whose identifier and size can both be read succeeds and stores both; the bit set
    -- is reset, the block counter is 0 and the status is INITIATED.
    internal_action-initiate :
        (size : ℕ) (rest' : Vector)
        → lib.get_octet_string value ≡ some (id, rest)
        → lib.get_double_long_unsigned rest ≡ some (size, rest')
        → internal_action lib t method_image_transfer_initiate (some value) ≡ (
          returned ActionResult.success,
          record {
            status = image_transfer_initiated;
            block_status = lib.reset t.block_status;
            image_id = id;
            image_size = some size;
            first_not_transferred_block_number = 0;
          },
        )
    unfolding internal_action
    internal_action-initiate size rest' e f = ground arith
