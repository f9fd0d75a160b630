-- ===== src/System/Service.antt =====
-- The requests of the scripts of src/HESsim.cpp and src/APsim.cpp, at the meter of src/server: the
-- library is a parameter on both sides, and each side's hypotheses on it are here.
mod Tests
use dlms_access_point.Prelude.{
  get_elem?, sym, ℕ, leb, if◌then◌else◌, ◌==◌, Text, Bool, true, ◌&&◌, ◌+◌, ◌<◌, ◌≤◌, ◌≡◌, Option,
  none, some, List, [], ◌∷◌, arith, length, codes, ◌*◌, ◌^◌, ap, ◌∙◌,
}
use dlms_access_point.Client.Library as Client
use dlms_access_point.Meter.Cosem.{
  Library, ActionResult, returned, octets, DataAccessResult, string,
}
use dlms_access_point.Meter.Device.{
  Object, Criteria, Server, objects, group_e, action, Request, Device, run, new, get,
}
use dlms_access_point.Meter.Clock.{Tm, encode_time}
use dlms_access_point.Hes.Message.{Payload}
use dlms_access_point.Hes.Script.{obis_of}
use dlms_access_point.System.Obis.{
  obis, instance_of, obis_of-instance_of, instance_of-le, obis_of-clock, obis_of-disconnect,
}
use dlms_access_point.Client.Session.{service_method}
use dlms_access_point.Meter.Device.Laws.{
  IsSound, new-IsSound, run-IsSound, get-data, get-clock, action-disconnect, get-new_data,
}

module _ (client : Client.Library) (lib : Library) (server : Server lib client.Oid) where
  open client use {Oid}
  open lib use {Vector, BitSet}

  -- The value groups of an instance.
  abbrev pub HasGroups : Oid → ℕ → ℕ → ℕ → ℕ → ℕ → ℕ → Type 0
  HasGroups id a b c d e f =
      (server.value_group id 0 ≡ a)
      × (server.value_group id 1 ≡ b)
      × (server.value_group id 2 ≡ c)
      × (server.value_group id 3 ≡ d)
      × (server.value_group id 4 ≡ e)
      × (server.value_group id 5 ≡ f)

  -- The client reads an OBIS code as the instance with its six values.
  abbrev pub Parses : Type 0
  Parses =
      (a b c d e f : ℕ)
      → a < 256
      → b < 256
      → c < 256
      → d < 256
      → e < 256
      → f < 256
      → (id : Oid) × (client.parse (obis a b c d e f) ≡ some id) × HasGroups id a b c d e f

  unfoldable pub is_within : ℕ → List (ℕ × ℕ) → Oid → Bool
  is_within i [] id = true
  is_within i ((low, high) ∷ groups) id =
      leb low (server.value_group id i)
      && leb (server.value_group id i) high
      && is_within (i + 1) groups id

  -- The first object of that class whose criteria the instance meets.
  unfoldable pub first_match : List (Object × Criteria) → ℕ → Oid → Option Object
  unfolding is_within
  first_match [] class_id id = none
  first_match ((o, k) ∷ ks) class_id id =
      if k.class_id == class_id && is_within 0 k.groups id
      then some o
      else first_match ks class_id id

  -- The server hands a request to that object.
  abbrev pub Finds : Type 0
  Finds =
      (ks : List (Object × Criteria)) (class_id : ℕ) (id : Oid)
      → server.find ks class_id id ≡ first_match ks class_id id

  -- The device after a history of requests since the meter started.
  abbrev pub served : BitSet → Vector → List (Request lib server) → Device lib
  served no_bits no_id rs = run lib server (new lib no_bits no_id) rs

  module _ (parses : Parses) (finds : Finds) where
    find-data :
        (id : Oid) (e : ℕ)
        → e ≤ 9
        → HasGroups id 0 0 96 1 e 255
        → server.find objects 1 id ≡ some Object.data_object
    unfolding first_match is_within
    find-data id e le (ga, gb, gc, gd, ge, gf) = rw (finds) (ground arith)

    find-clock :
        (id : Oid) → HasGroups id 0 0 1 0 0 255 → server.find objects 8 id ≡ some Object.clock
    unfolding first_match is_within
    find-clock id (ga, gb, gc, gd, ge, gf) = rw (finds) (ground arith)

    find-disconnect :
        (id : Oid)
        → HasGroups id 0 0 96 3 10 255
        → server.find objects 70 id ≡ some Object.disconnect
    unfolding first_match is_within
    find-disconnect id (ga, gb, gc, gd, ge, gf) = rw (finds) (ground arith)

    parse-disconnect :
        (id : Oid) × (client.parse (codes "0-0:96.3.10*255") ≡ some id)
        × HasGroups id 0 0 96 3 10 255
    parse-disconnect = rw (obis_of-disconnect) (
        parses 0 0 96 3 10 255 (omega arith) (omega arith) (omega arith) (omega arith) (omega arith)
          (omega arith))

    parse-clock :
        (id : Oid) × (client.parse (codes "0-0:1.0.0*255") ≡ some id) × HasGroups id 0 0 1 0 0 255
    parse-clock = rw (obis_of-clock) (
        parses 0 0 1 0 0 255 (omega arith) (omega arith) (omega arith) (omega arith) (omega arith)
          (omega arith))

    pub parse-payload :
        (size : Payload)
        → (id : Oid) × (client.parse (obis_of size) ≡ some id)
          × HasGroups id 0 0 96 1 (instance_of size) 255
    parse-payload size = rw (obis_of-instance_of size) (
        parses 0 0 96 1 (instance_of size) 255 (omega arith) (omega arith) (omega arith)
          (omega arith) (omega (arith, instance_of-le size)) (omega arith))

    find-payload :
        (size : Payload) (id : Oid)
        → HasGroups id 0 0 96 1 (instance_of size) 255
        → server.find objects 1 id ≡ some Object.data_object
    find-payload size id h = find-data id (instance_of size) (instance_of-le size) h

    group_e-lt :
        (size : Payload) (id : Oid)
        → HasGroups id 0 0 96 1 (instance_of size) 255
        → server.value_group id group_e < 10
    group_e-lt size id (ga, gb, gc, gd, ge, gf) = omega (arith, ge, instance_of-le size)

    pub get-payload :
        (d : Device lib) (tm : Tm) (size : Payload) (id : Oid)
        → HasGroups id 0 0 96 1 (instance_of size) 255
        → IsSound lib server d
        → (v : Text) × (get lib server d tm 1 2 id
            ≡ some (DataAccessResult.success, some (string v)))
          × (get_elem? d.data_object.values (instance_of size) ≡ some v)
    get-payload d tm size id h sound =
        let (v, e, s) =
          get-data lib server d tm 2 id sound (find-payload size id h) (group_e-lt size id h) in
        (v, e, ap (get_elem? d.data_object.values) (sym h.4) ∙ s)

    module _ (no_bits : BitSet) (no_id : Vector) (rs : List (Request lib server)) (tm : Tm) where
      pub served-IsSound : IsSound lib server (served no_bits no_id rs)
      served-IsSound =
          run-IsSound lib server (new lib no_bits no_id) rs (new-IsSound lib server no_bits no_id)

      -- Each request of the head-end system's script is readable to the client and succeeds at a
      -- meter of the repository, whatever has been asked of the meter since it started: the service
      -- connection, which leaves the relay as it asks; the time, which is the encoded local time;
      -- and the payload, which is the text that the data object holds for that size.
      -- The client's parser and the server's dispatch are hypotheses.
      pub run-serves_script :
          (size : Payload) (reconnect : Bool) (parameters : Option Vector)
          → let d = served no_bits no_id rs in
            ((id : Oid) × (client.parse (codes "0-0:96.3.10*255") ≡ some id)
              × (let r = action lib server d 70 (service_method reconnect) id parameters in
                  (r.0 ≡ returned ActionResult.success)
                  × (r.1.disconnect.is_connected ≡ reconnect)))
            × ((id : Oid) × (client.parse (codes "0-0:1.0.0*255") ≡ some id)
                × (get lib server d tm 8 2 id
                    ≡ some (DataAccessResult.success, some (octets (encode_time tm)))))
            × ((id : Oid) × (client.parse (obis_of size) ≡ some id)
                × ((v : Text) × (get lib server d tm 1 2 id
                      ≡ some (DataAccessResult.success, some (string v)))
                    × (get_elem? d.data_object.values (instance_of size) ≡ some v)))
      run-serves_script size reconnect parameters =
          let d = served no_bits no_id rs in
          let (rid, rparsed, rgroups) = parse-disconnect in
          let (tid, tparsed, tgroups) = parse-clock in
          let (pid, pparsed, pgroups) = parse-payload size in
          (
            (
              rid,
              rparsed,
              action-disconnect lib server d tm 0 rid reconnect parameters served-IsSound
                  (find-disconnect rid rgroups),
            ),
            (tid, tparsed, get-clock lib server d tm 0 tid (find-clock tid tgroups)),
            (pid, pparsed, get-payload d tm size pid pgroups served-IsSound),
          )

    -- At a meter that has just been made, the payload that a script asks for is a text of 40 * 2 ^ e
    -- bytes, where e is 0, 4 and 9 for the sizes small, medium and large: 40, 640 and 20480 bytes.
    get-new_payload :
        (no_bits : BitSet) (no_id : Vector) (tm : Tm) (size : Payload)
        → (id : Oid) × (client.parse (obis_of size) ≡ some id)
          × ((v : Text) × (get lib server (new lib no_bits no_id) tm 1 2 id
                ≡ some (DataAccessResult.success, some (string v)))
              × (length v ≡ 40 * 2 ^ instance_of size))
    get-new_payload no_bits no_id tm size =
        let (pid, pparsed, pgroups) = parse-payload size in
        let (v, e, l) =
          get-new_data lib server no_bits no_id tm 2 pid (find-payload size pid pgroups)
            (group_e-lt size pid pgroups) in
        (pid, pparsed, (v, e, l ∙ ap (λ e. 40 * 2 ^ e) pgroups.4))
