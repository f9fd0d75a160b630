-- ===== src/Meter/Device.antt =====
-- src/server/LinuxCOSEMServer.{h,cpp}: LinuxManagementDevice, which registers the four objects of a
-- meter with the library, and the objects' constructors, which give their instances. The library
-- takes a request to one of them; one that it refuses before that is no request here.
pub mod Laws
mod Tests
use dlms_access_point.Prelude.{ℕ, Option, none, some, List, [], ◌∷◌}
use dlms_access_point.Meter.Cosem.{Library, DataAccessResult, Outcome, returned, Item}
use dlms_access_point.Meter.Clock
use dlms_access_point.Meter.Clock.{Tm}
use dlms_access_point.Meter.Data
use dlms_access_point.Meter.Disconnect
use dlms_access_point.Meter.ImageTransfer

-- The members of LinuxManagementDevice.
pub data Object : Type 0 where
  clock data_object disconnect image_transfer : Object

-- A class, and COSEMObjectInstanceCriteria: the lowest and the highest value of each value group.
pub record Criteria : Type 0 where
  pub class_id : ℕ
  pub groups : List (ℕ × ℕ)

abbrev only : ℕ → ℕ × ℕ
only n = (n, n)

-- The library's classes IClockObject and IDataObject are those of numbers 8 and 1, by
-- src/doc/05_design.md.
abbrev pub clsid_clock : ℕ
clsid_clock = 8

abbrev pub clsid_data : ℕ
clsid_data = 1

abbrev pub clsid_disconnect : ℕ
clsid_disconnect = 70

abbrev pub clsid_image_transfer : ℕ
clsid_image_transfer = 18

abbrev clock_criteria : Criteria
clock_criteria = record {
  class_id = clsid_clock;
  groups = only 0 ∷ only 0 ∷ only 1 ∷ only 0 ∷ only 0 ∷ only 255 ∷ [];
}

abbrev data_criteria : Criteria
data_criteria = record {
  class_id = clsid_data;
  groups = only 0 ∷ only 0 ∷ only 96 ∷ only 1 ∷ (0, 9) ∷ only 255 ∷ [];
}

abbrev disconnect_criteria : Criteria
disconnect_criteria = record {
  class_id = clsid_disconnect;
  groups = only 0 ∷ only 0 ∷ only 96 ∷ only 3 ∷ only 10 ∷ only 255 ∷ [];
}

abbrev image_transfer_criteria : Criteria
image_transfer_criteria = record {
  class_id = clsid_image_transfer;
  groups = only 0 ∷ only 0 ∷ only 44 ∷ only 0 ∷ only 0 ∷ only 255 ∷ [];
}

-- LOGICAL_DEVICE_BEGIN_OBJECTS to LOGICAL_DEVICE_END_OBJECTS.
abbrev pub objects : List (Object × Criteria)
objects =
    (clock, clock_criteria)
    ∷ (data_object, data_criteria)
    ∷ (disconnect, disconnect_criteria)
    ∷ (image_transfer, image_transfer_criteria)
    ∷ []

-- What the device takes from the library's server: the value groups of an instance, numbered from 0
-- for A; which of the registered objects a request is for; and what the library itself answers where
-- it is for none of them or for one that does not override the call.
pub record Server (lib : Library) (Oid : Type 0) : Type 0 where
  pub value_group : Oid → ℕ → ℕ
  pub find : List (Object × Criteria) → ℕ → Oid → Option Object
  pub other_get : ℕ → ℕ → Oid → DataAccessResult × Option (Item lib.BitSet)
  pub other_set : ℕ → ℕ → Oid → lib.Vector → DataAccessResult
  pub other_action : ℕ → ℕ → Oid → Option lib.Vector → Outcome

-- `VALUE_GROUP_E`.
abbrev pub group_e : ℕ
group_e = 4

module _ (lib : Library) where
  open lib use {Vector, BitSet}

  -- The clock has no state.
  pub record Device : Type 0 where
    pub data_object : Data.Data
    pub disconnect : Disconnect.Disconnect
    pub image_transfer : ImageTransfer.ImageTransfer lib

  pub new : BitSet → Vector → Device
  new no_bits no_id = record {
    data_object = Data.new;
    disconnect = Disconnect.new;
    image_transfer = ImageTransfer.new lib no_bits no_id;
  }

  module _ {Oid : Type 0} (server : Server lib Oid) where
    with_item :
        Option (DataAccessResult × Item BitSet) → Option (DataAccessResult × Option (Item BitSet))
    with_item none = none
    with_item (some (r, i)) = some (r, some i)

    -- `none` where the data object reads beyond its array.
    get_of :
        Device → Tm → Option Object → ℕ → ℕ → Oid → Option (DataAccessResult × Option (Item BitSet))
    unfolding with_item
    get_of d tm none class_id attr id = some (server.other_get class_id attr id)
    get_of d tm (some clock) class_id attr id = some (Clock.internal_get tm attr)
    get_of d tm (some data_object) class_id attr id =
        with_item (Data.internal_get lib d.data_object (server.value_group id group_e))
    get_of d tm (some disconnect) class_id attr id =
        some (Disconnect.internal_get lib d.disconnect attr)
    get_of d tm (some image_transfer) class_id attr id =
        some (ImageTransfer.internal_get lib d.image_transfer attr)

    -- GET, at the local time `tm`.
    unfoldable pub get :
        Device → Tm → ℕ → ℕ → Oid → Option (DataAccessResult × Option (Item BitSet))
    unfolding get_of
    get d tm class_id attr id = get_of d tm (server.find objects class_id id) class_id attr id

    set_of : Device → Option Object → ℕ → ℕ → Oid → Vector → DataAccessResult × Device
    set_of d none class_id attr id value = (server.other_set class_id attr id value, d)
    set_of d (some clock) class_id attr id value = (server.other_set class_id attr id value, d)
    set_of d (some data_object) class_id attr id value =
        let (r, o) =
          Data.internal_set lib d.data_object attr (server.value_group id group_e) value in
        (r, record d { data_object = o })
    set_of d (some disconnect) class_id attr id value =
        let (r, o) = Disconnect.internal_set lib d.disconnect attr value in
        (r, record d { disconnect = o })
    set_of d (some image_transfer) class_id attr id value =
        (server.other_set class_id attr id value, d)

    pub set : Device → ℕ → ℕ → Oid → Vector → DataAccessResult × Device
    unfolding set_of
    set d class_id attr id value = set_of d (server.find objects class_id id) class_id attr id value

    action_of : Device → Option Object → ℕ → ℕ → Oid → Option Vector → Outcome × Device
    action_of d none class_id method id parameters =
        (server.other_action class_id method id parameters, d)
    action_of d (some clock) class_id method id parameters =
        (returned (Clock.internal_action method), d)
    action_of d (some data_object) class_id method id parameters =
        (server.other_action class_id method id parameters, d)
    action_of d (some disconnect) class_id method id parameters =
        let (r, o) = Disconnect.internal_action d.disconnect method in
        (returned r, record d { disconnect = o })
    action_of d (some image_transfer) class_id method id parameters =
        let (r, o) = ImageTransfer.internal_action lib d.image_transfer method parameters in
        (r, record d { image_transfer = o })

    unfoldable pub action : Device → ℕ → ℕ → Oid → Option Vector → Outcome × Device
    unfolding action_of
    action d class_id method id parameters =
        action_of d (server.find objects class_id id) class_id method id parameters

    -- A request of a client, by its class, attribute or method, and instance.
    pub data Request : Type 0 where
      gets : ℕ → ℕ → Oid → Request
      sets : ℕ → ℕ → Oid → Vector → Request
      acts : ℕ → ℕ → Oid → Option Vector → Request

    pub step : Device → Request → Device
    unfolding set action
    step d (gets class_id attr id) = d
    step d (sets class_id attr id value) = (set d class_id attr id value).1
    step d (acts class_id method id parameters) = (action d class_id method id parameters).1

    pub run : Device → List Request → Device
    unfolding step
    run d [] = d
    run d (r ∷ rs) = run (step d r) rs
