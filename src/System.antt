-- ===== src/System.antt =====
-- src/HESsim.cpp and src/APsim.cpp together: a round of the head-end system, and the round of the
-- access point that takes its message in.
mod Tests
pub mod Obis
pub mod Service
pub mod Sample
pub mod Rounds
pub mod Reading
use dlms_access_point.Prelude.{Text, List, [], ◌∷◌}
use dlms_access_point.Client.Library.{Library}
use dlms_access_point.Client.Session.{Session}
use dlms_access_point.Ap.Config.{Config}
use dlms_access_point.Ap.Main
use dlms_access_point.Ap.Main.{Arrivals, Main}
use dlms_access_point.Hes.Main as HesMain
use dlms_access_point.Hes.Main.{Hes}

-- The message arrives before the round counts its meters, and nothing else before it copies them.
abbrev pub takes_in : Text → List (List Text) → Arrivals
takes_in message during = record { early = message ∷ []; before = []; during = during }
