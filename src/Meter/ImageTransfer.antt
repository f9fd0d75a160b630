-- ===== src/Meter/ImageTransfer.antt =====
-- src/server/LinuxImageTransfer.{h,cpp}: the image transfer object, class 18. The array `image` is
-- left out, since no code reads or writes it; so are console output and the arguments that no branch
-- reads.
pub mod Laws
mod Tests
use dlms_access_point.Prelude.{ℕ, ◌==◌, if◌then◌else◌, true, Option, none, some, List, [], ◌∷◌}
use dlms_access_point.Meter.Cosem.{
  Library, DataAccessResult, ActionResult, Outcome, returned, threw, Item, boolean, number, bits,
}

-- `ImageTransfer::Attributes`.
abbrev pub attr_image_block_size : ℕ
attr_image_block_size = 2

abbrev pub attr_image_transferred_blocks_status : ℕ
attr_image_transferred_blocks_status = 3

abbrev pub attr_image_first_not_transferred_block_number : ℕ
attr_image_first_not_transferred_block_number = 4

abbrev pub attr_image_transfer_enabled : ℕ
attr_image_transfer_enabled = 5

abbrev pub attr_image_transfer_status : ℕ
attr_image_transfer_status = 6

-- `ImageTransfer::Methods`.
abbrev pub method_image_transfer_initiate : ℕ
method_image_transfer_initiate = 1

abbrev pub method_image_block_transfer : ℕ
method_image_block_transfer = 2

abbrev pub method_image_verify : ℕ
method_image_verify = 3

abbrev pub method_image_activate : ℕ
method_image_activate = 4

-- The two values of `Image_Transfer_Status_Schema` that the code assigns.
abbrev pub image_transfer_not_initiated : ℕ
image_transfer_not_initiated = 0

abbrev pub image_transfer_initiated : ℕ
image_transfer_initiated = 1

module _ (lib : Library) where
  open lib use {Vector, BitSet}

  -- `image_size` is `none` until it is first assigned: it has no initialiser.
  pub record ImageTransfer : Type 0 where
    pub status : ℕ
    pub block_status : BitSet
    pub image_id : Vector
    pub image_size : Option ℕ
    pub first_not_transferred_block_number : ℕ

  -- The library's default values for the bit set and the vector are arguments.
  unfoldable pub new : BitSet → Vector → ImageTransfer
  new no_bits no_id = record {
    status = image_transfer_not_initiated;
    block_status = no_bits;
    image_id = no_id;
    image_size = none;
    first_not_transferred_block_number = 0;
  }

  unfoldable pub internal_get : ImageTransfer → ℕ → DataAccessResult × Option (Item BitSet)
  internal_get t attr =
      if attr == attr_image_block_size
      then (DataAccessResult.success, some (number 512))
      else if attr == attr_image_transferred_blocks_status
      then (DataAccessResult.success, some (bits t.block_status))
      else if attr == attr_image_first_not_transferred_block_number
      then (DataAccessResult.success, some (number t.first_not_transferred_block_number))
      else if attr == attr_image_transfer_enabled
      then (DataAccessResult.success, some (boolean true))
      else if attr == attr_image_transfer_status
      then (DataAccessResult.success, some (number t.status))
      else (DataAccessResult.object_unavailable, none)

  -- The second read may throw after the first has been stored.
  store_size : ImageTransfer → Option (ℕ × Vector) → Outcome × ImageTransfer
  store_size t none = (threw, t)
  store_size t (some (size, rest)) = (
    returned ActionResult.success,
    record t {
      image_size = some size;
      status = image_transfer_initiated;
      block_status = lib.reset t.block_status;
      first_not_transferred_block_number = 0;
    },
  )

  store_id : ImageTransfer → Option (Vector × Vector) → Outcome × ImageTransfer
  unfolding store_size
  store_id t none = (threw, t)
  store_id t (some (id, rest)) =
      store_size (record t { image_id = id }) (lib.get_double_long_unsigned rest)

  initiate : ImageTransfer → Option Vector → Outcome × ImageTransfer
  unfolding store_id
  initiate t none = (returned ActionResult.object_unavailable, t)
  initiate t (some value) = store_id t (lib.get_octet_string value)

  read_fragment : Option (Vector × Vector) → Outcome
  read_fragment none = threw
  read_fragment (some (fragment, rest)) = returned ActionResult.success

  read_block : Option (ℕ × Vector) → Outcome
  unfolding read_fragment
  read_block none = threw
  read_block (some (block_num, rest)) = read_fragment (lib.get_octet_string rest)

  -- The block number and the fragment are read, printed and dropped.
  block_transfer : Option Vector → Outcome
  unfolding read_block
  block_transfer none = returned ActionResult.object_unavailable
  block_transfer (some value) = read_block (lib.get_double_long_unsigned value)

  unfoldable pub internal_action : ImageTransfer → ℕ → Option Vector → Outcome × ImageTransfer
  unfolding initiate block_transfer
  internal_action t method parameters =
      if method == method_image_transfer_initiate
      then initiate t parameters
      else if method == method_image_block_transfer
      then (block_transfer parameters, t)
      else if method == method_image_verify
      then (returned ActionResult.success, t)
      else if method == method_image_activate
      then (returned ActionResult.success, t)
      else (returned ActionResult.object_unavailable, t)

  -- The object after a history of actions, each a method and its parameters.
  pub run : ImageTransfer → List (ℕ × Option Vector) → ImageTransfer
  run t [] = t
  run t ((method, parameters) ∷ rs) = run (internal_action t method parameters).1 rs
