-- ===== src/System/Tests.antt =====
-- A head-end system with a new meter, and the access point's round.
use dlms_access_point.Prelude.{Text, codes, false, true, [], ◌∷◌}
use dlms_access_point.Client.Sample.{sample_library, fresh}
use dlms_access_point.Ap.Main
use dlms_access_point.Hes.Message.{large, meterset}
use dlms_access_point.Hes.Registration.{register_all}
use dlms_access_point.Hes.Main as HesMain
use dlms_access_point.Hes.Main.{Arrival, Hes}

abbrev connected : Arrival
connected = record {
  remotes = codes "a" ∷ [];
  cfg = record { payload_size = large; route_only = false };
  reached = true;
}

abbrev knowing : Hes sample_library
knowing = record { engine = fresh; meters = codes "b" ∷ []; written = []; output = [] }

abbrev message : Text
message = meterset large (register_all knowing.meters connected.remotes)
