-- ===== src/Meter/Device/Laws.antt =====
-- The device over histories of requests to its objects.
use dlms_access_point.Prelude.{
  get_elem?, ℕ, length, Option, none, some, List, [], ◌∷◌, ◌≡◌, refl, ◌∙◌, ap, inl, Bool, arith,
  ◌*◌, ◌^◌, Text, ◌<◌,
}
use dlms_access_point.Meter.Cosem.{
  Library, DataAccessResult, ActionResult, returned, string, octets,
}
use dlms_access_point.Meter.Disconnect as DisconnectClass
use dlms_access_point.Meter.Disconnect.Laws.{IsFactory, step-IsFactory}
use dlms_access_point.Meter.Data.Laws.{
  length-internal_set, length-new, internal_get-new, internal_get-in_range,
}
use dlms_access_point.Meter.Device.{
  group_e, Object, clock, data_object, disconnect, image_transfer, Device, new, Server, set_of,
  action_of, objects, Request, gets, sets, acts, step, run, get, action,
}
use dlms_access_point.Meter.Clock.{Tm, encode_time}
use dlms_access_point.Meter.Clock as ClockClass
use dlms_access_point.Client.Session.{service_method}
use dlms_access_point.Client.Session.Requests.{internal_action-service_method}

module _ (lib : Library) {Oid : Type 0} (server : Server lib Oid) where
  open lib use {Vector, BitSet}

  -- The disconnect object is in the mode that it starts in, and there are ten texts.
  abbrev pub IsSound : Device lib → Type 0
  IsSound d = IsFactory lib d.disconnect × (length d.data_object.values ≡ 10)

  set_of-IsSound :
      (d : Device lib) (o : Option Object) (class_id attr : ℕ) (id : Oid) (value : Vector)
      → IsSound d
      → IsSound (set_of lib server d o class_id attr id value).1
  unfolding set_of DisconnectClass.step
  set_of-IsSound d none class_id attr id value h = h
  set_of-IsSound d (some clock) class_id attr id value h = h
  set_of-IsSound d (some data_object) class_id attr id value h =
      (h.0, length-internal_set lib d.data_object attr (server.value_group id group_e) value ∙ h.1)
  set_of-IsSound d (some disconnect) class_id attr id value h =
      ((step-IsFactory lib d.disconnect (DisconnectClass.sets attr value) h.0).0, h.1)
  set_of-IsSound d (some image_transfer) class_id attr id value h = h

  action_of-IsSound :
      (d : Device lib) (o : Option Object) (class_id method : ℕ) (id : Oid)
      (parameters : Option Vector)
      → IsSound d
      → IsSound (action_of lib server d o class_id method id parameters).1
  unfolding action_of DisconnectClass.step
  action_of-IsSound d none class_id method id parameters h = h
  action_of-IsSound d (some clock) class_id method id parameters h = h
  action_of-IsSound d (some data_object) class_id method id parameters h = h
  action_of-IsSound d (some disconnect) class_id method id parameters h =
      ((step-IsFactory lib d.disconnect (DisconnectClass.acts method) h.0).0, h.1)
  action_of-IsSound d (some image_transfer) class_id method id parameters h = h

  step-IsSound :
      (d : Device lib) (r : Request lib server) → IsSound d → IsSound (step lib server d r)
  unfolding step
  step-IsSound d (gets class_id attr id) h = h
  step-IsSound d (sets class_id attr id value) h =
      set_of-IsSound d (server.find objects class_id id) class_id attr id value h
  step-IsSound d (acts class_id method id parameters) h =
      action_of-IsSound d (server.find objects class_id id) class_id method id parameters h

  pub run-IsSound :
      (d : Device lib) (rs : List (Request lib server)) → IsSound d → IsSound (run lib server d rs)
  unfolding run
  run-IsSound d [] h = h
  run-IsSound d (r ∷ rs) h = run-IsSound (step lib server d r) rs (step-IsSound d r h)

  pub new-IsSound : (no_bits : BitSet) (no_id : Vector) → IsSound (new lib no_bits no_id)
  unfolding new DisconnectClass.new
  new-IsSound no_bits no_id = ((refl, refl), length-new)

  module _ (d : Device lib) (tm : Tm) (attr : ℕ) (id : Oid) where
    pub get-data :
        IsSound d
        → server.find objects 1 id ≡ some data_object
        → server.value_group id group_e < 10
        → (v : Text) × (get lib server d tm 1 attr id
            ≡ some (DataAccessResult.success, some (string v)))
          × (get_elem? d.data_object.values (server.value_group id group_e) ≡ some v)
    unfolding get
    get-data h f lt =
        let (v, e, s) =
          internal_get-in_range lib d.data_object (server.value_group id group_e)
            (omega (arith, h.1, lt)) in
        (v, rw (f, e), s)

    pub get-clock :
        server.find objects 8 id ≡ some clock
        → get lib server d tm 8 2 id
          ≡ some (DataAccessResult.success, some (octets (encode_time tm)))
    unfolding get ClockClass.internal_get
    get-clock f = rw (f)

    pub action-disconnect :
        (reconnect : Bool) (parameters : Option Vector)
        → IsSound d
        → server.find objects 70 id ≡ some disconnect
        → let r = action lib server d 70 (service_method reconnect) id parameters in
          (r.0 ≡ returned ActionResult.success) × (r.1.disconnect.is_connected ≡ reconnect)
    unfolding action
    action-disconnect reconnect parameters h f =
        let (e, c) = internal_action-service_method d.disconnect reconnect (inl h.0.1) in
        rw (f) (ap returned e, c)

  -- The text of a new device.
  pub get-new_data :
      (no_bits : BitSet) (no_id : Vector) (tm : Tm) (attr : ℕ) (id : Oid)
      → server.find objects 1 id ≡ some data_object
      → server.value_group id group_e < 10
      → (v : Text) × (get lib server (new lib no_bits no_id) tm 1 attr id
          ≡ some (DataAccessResult.success, some (string v)))
        × (length v ≡ 40 * 2 ^ server.value_group id group_e)
  unfolding get new
  get-new_data no_bits no_id tm attr id f lt =
      let (v, e, l) = internal_get-new lib (server.value_group id group_e) lt in (v, rw (f, e), l)
