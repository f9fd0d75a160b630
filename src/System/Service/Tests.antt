-- ===== src/System/Service/Tests.antt =====
-- The script's requests at a meter.
use dlms_access_point.Prelude.{get_elem?, ℕ, Text, true, ◌≡◌, List, [], codes, none, some}
use dlms_access_point.Meter.Sample.{sample_library}
use dlms_access_point.Meter.Cosem.{DataAccessResult, ActionResult, returned, string, octets}
use dlms_access_point.Meter.Device.{get, action}
use dlms_access_point.System.Service.{served, run-serves_script}
use dlms_access_point.Client.Session.{service_method}
use dlms_access_point.Meter.Clock.{encode_time}
use dlms_access_point.Hes.Message.{medium}
use dlms_access_point.Hes.Script.{obis_of}
use dlms_access_point.System.Sample.{
  number_client, number_server, number_client-Parses, number_server-Finds, noon, history,
}

-- A remote reconnect, the time and a payload of 640 bytes.
run-serves_script_example :
    let device = served number_client sample_library number_server [] [] history in
    ((id : List ℕ) × (number_client.parse (codes "0-0:96.3.10*255") ≡ some id)
      × (let r = action sample_library number_server device 70 (service_method true) id none in
          (r.0 ≡ returned ActionResult.success) × (r.1.disconnect.is_connected ≡ true)))
    × ((id : List ℕ) × (number_client.parse (codes "0-0:1.0.0*255") ≡ some id)
        × (get sample_library number_server device noon 8 2 id
            ≡ some (DataAccessResult.success, some (octets (encode_time noon)))))
    × ((id : List ℕ) × (number_client.parse (obis_of medium) ≡ some id)
        × ((v : Text) × (get sample_library number_server device noon 1 2 id
              ≡ some (DataAccessResult.success, some (string v)))
            × (get_elem? device.data_object.values 4 ≡ some v)))
run-serves_script_example =
    run-serves_script number_client sample_library number_server number_client-Parses
      number_server-Finds [] [] history noon medium true none
