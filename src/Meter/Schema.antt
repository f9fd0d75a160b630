-- ===== src/Meter/Schema.antt =====
-- What src/server/LinuxDisconnect.{h,cpp} and src/server/LinuxImageTransfer.{h,cpp} declare of their
-- classes: the attributes and methods with their schemas and short-name offsets.
pub mod Laws
mod Tests
use dlms_access_point.Prelude.{ℕ, List, [], ◌∷◌}
use dlms_access_point.Meter.Disconnect.{
  attr_output_state, attr_control_state, attr_control_mode, method_remote_disconnect,
  method_remote_reconnect, disconnected, connected, ready_for_reconnection,
}
use dlms_access_point.Meter.ImageTransfer.{
  attr_image_block_size, attr_image_transferred_blocks_status,
  attr_image_first_not_transferred_block_number, attr_image_transfer_enabled,
  attr_image_transfer_status, method_image_transfer_initiate, method_image_block_transfer,
  method_image_verify, method_image_activate, image_transfer_not_initiated,
  image_transfer_initiated,
}

-- The COSEM types that the schemas are made of.
pub data CosemType : Type 0 where
  boolean_type integer_type double_long_unsigned_type bit_string_type octet_string_type : CosemType
  enum_type : List ℕ → CosemType

pub data Schema : Type 0 where
  of_type : CosemType → Schema
  structure : List CosemType → Schema

-- `COSEMAttribute` and `COSEMMethod` by their template arguments.
pub record Member : Type 0 where
  pub member_id : ℕ
  pub schema : Schema
  pub offset : ℕ

abbrev control_state_schema : Schema
control_state_schema = of_type (enum_type (disconnected ∷ connected ∷ ready_for_reconnection ∷ []))

-- ATTR_CONTROL_MODE_0 to ATTR_CONTROL_MODE_6.
abbrev control_mode_schema : Schema
control_mode_schema = of_type (enum_type (0 ∷ 1 ∷ 2 ∷ 3 ∷ 4 ∷ 5 ∷ 6 ∷ []))

abbrev output_state : Member
output_state = record {
  member_id = attr_output_state;
  schema = of_type boolean_type;
  offset = 0x08;
}

abbrev control_state : Member
control_state = record {
  member_id = attr_control_state;
  schema = control_state_schema;
  offset = 0x10;
}

abbrev control_mode : Member
control_mode = record { member_id = attr_control_mode; schema = control_mode_schema; offset = 0x18 }

abbrev remote_disconnect : Member
remote_disconnect = record {
  member_id = method_remote_disconnect;
  schema = of_type integer_type;
  offset = 0x20;
}

abbrev remote_reconnect : Member
remote_reconnect = record {
  member_id = method_remote_reconnect;
  schema = of_type integer_type;
  offset = 0x28;
}

-- What the constructor `Disconnect` registers.
abbrev pub disconnect_attributes : List Member
disconnect_attributes = output_state ∷ control_state ∷ control_mode ∷ []

abbrev pub disconnect_methods : List Member
disconnect_methods = remote_disconnect ∷ remote_reconnect ∷ []

-- IMAGE_VERIFICATION_INITIATED (2) to IMAGE_ACTIVATION_FAILED (7) are numbered on.
abbrev image_transfer_status_schema : Schema
image_transfer_status_schema = of_type (
    enum_type
      (image_transfer_not_initiated ∷ image_transfer_initiated ∷ 2 ∷ 3 ∷ 4 ∷ 5 ∷ 6 ∷ 7 ∷ []))

abbrev double_long_unsigned_schema : Schema
double_long_unsigned_schema = of_type double_long_unsigned_type

abbrev image_transferred_block_status_schema : Schema
image_transferred_block_status_schema = of_type bit_string_type

abbrev image_to_activate_info_schema : Schema
image_to_activate_info_schema =
    structure (double_long_unsigned_type ∷ octet_string_type ∷ octet_string_type ∷ [])

abbrev image_transfer_initiate_schema : Schema
image_transfer_initiate_schema = structure (octet_string_type ∷ double_long_unsigned_type ∷ [])

abbrev image_block_transfer_schema : Schema
image_block_transfer_schema = structure (double_long_unsigned_type ∷ octet_string_type ∷ [])

-- `ATTR_IMAGE_TO_ACTIVATE_INFO`.
abbrev pub attr_image_to_activate_info : ℕ
attr_image_to_activate_info = 7

abbrev image_block_size : Member
image_block_size = record {
  member_id = attr_image_block_size;
  schema = double_long_unsigned_schema;
  offset = 0x08;
}

abbrev image_transferred_blocks_status : Member
image_transferred_blocks_status = record {
  member_id = attr_image_transferred_blocks_status;
  schema = image_transferred_block_status_schema;
  offset = 0x18;
}

abbrev image_first_not_transferred_block_number : Member
image_first_not_transferred_block_number = record {
  member_id = attr_image_first_not_transferred_block_number;
  schema = double_long_unsigned_schema;
  offset = 0x20;
}

abbrev image_transfer_enabled : Member
image_transfer_enabled = record {
  member_id = attr_image_transfer_enabled;
  schema = of_type boolean_type;
  offset = 0x28;
}

abbrev image_transfer_status : Member
image_transfer_status = record {
  member_id = attr_image_transfer_status;
  schema = image_transfer_status_schema;
  offset = 0x30;
}

abbrev image_to_activate_info : Member
image_to_activate_info = record {
  member_id = attr_image_to_activate_info;
  schema = image_to_activate_info_schema;
  offset = 0x38;
}

abbrev image_transfer_initiate : Member
image_transfer_initiate = record {
  member_id = method_image_transfer_initiate;
  schema = image_transfer_initiate_schema;
  offset = 0x40;
}

abbrev image_block_transfer : Member
image_block_transfer = record {
  member_id = method_image_block_transfer;
  schema = image_block_transfer_schema;
  offset = 0x48;
}

abbrev image_verify : Member
image_verify = record {
  member_id = method_image_verify;
  schema = of_type integer_type;
  offset = 0x40;
}

abbrev image_activate : Member
image_activate = record {
  member_id = method_image_activate;
  schema = of_type integer_type;
  offset = 0x58;
}

-- What the constructor `ImageTransfer` registers.
abbrev pub image_transfer_attributes : List Member
image_transfer_attributes =
    image_block_size ∷ image_transferred_blocks_status ∷ image_first_not_transferred_block_number
    ∷ image_transfer_enabled ∷ image_transfer_status ∷ image_to_activate_info ∷ []

abbrev pub image_transfer_methods : List Member
image_transfer_methods =
    image_transfer_initiate ∷ image_block_transfer ∷ image_verify ∷ image_activate ∷ []
