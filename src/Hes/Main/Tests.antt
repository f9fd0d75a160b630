-- ===== src/Hes/Main/Tests.antt =====
-- Rounds of the head-end system.
use dlms_access_point.Prelude.{codes, ◌≡◌, refl, true, false, [], ◌∷◌, List}
use dlms_access_point.Hes.Message.{small, large, meterset}
use dlms_access_point.Console.Number.{to_string}
use dlms_access_point.Hes.Registration.{register_all, insert, text_lt}
use dlms_access_point.Hes.Main.{Arrival, main, usage, serves, there_are}
use dlms_access_point.Hes.Main.Laws.{messages}

abbrev two_rounds : List Arrival
two_rounds =
    record {
      remotes = codes "b" ∷ codes "a" ∷ [];
      cfg = record { payload_size = large; route_only = false };
      reached = true;
    }
    ∷ record {
      remotes = codes "b" ∷ [];
      cfg = record { payload_size = small; route_only = false };
      reached = true;
    }
    ∷ []

written : messages [] two_rounds ≡ codes "large,a,b" ∷ codes "small,a,b" ∷ []
unfolding messages register_all insert text_lt meterset
written = refl

one_meter : there_are (codes "a" ∷ []) ≡ codes "There are 1 registered meters\n"
unfolding there_are to_string
one_meter = refl

arguments :
    (main (codes "HESsim" ∷ []) ≡ usage)
    × (main (codes "HESsim" ∷ codes "ap" ∷ []) ≡ serves (codes "ap"))
unfolding main
arguments = (refl, refl)
