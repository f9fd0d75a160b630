-- ===== src/System/Rounds/Tests.antt =====
-- Two rounds, of which the second has a new meter and another size.
use dlms_access_point.Prelude.{codes, Text, false, true, List, [], ◌∷◌}
use dlms_access_point.Ap.Config as ApConfig
use dlms_access_point.Ap.Main as ApMain
use dlms_access_point.Hes.Message.{small, large}
use dlms_access_point.Hes.Main as HesMain
use dlms_access_point.Hes.Main.{Arrival}

abbrev rounds : List Arrival
rounds =
    record {
      remotes = codes "b" ∷ [];
      cfg = record { payload_size = small; route_only = false };
      reached = true;
    }
    ∷ record {
      remotes = codes "a" ∷ (codes "b" ∷ []);
      cfg = record { payload_size = large; route_only = false };
      reached = true;
    }
    ∷ []

abbrev meanwhile : List (List (List Text))
meanwhile = ((codes "small" ∷ []) ∷ []) ∷ []
