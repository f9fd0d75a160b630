-- ===== src/Hes/Script/Tests.antt =====
-- A script over one meter.
use dlms_access_point.Prelude.{codes, ◌≡◌, Bool, true, List, [], ◌∷◌, arith}
use dlms_access_point.Client.Sample.{sample_library, fresh}
use dlms_access_point.Client.Outcome.{Ends}
use dlms_access_point.Client.Session.Open.{Throws}
use dlms_access_point.Client.Session.{is_linked, associated}
use dlms_access_point.Hes.Message.{large}
use dlms_access_point.Hes.Script.{run_script}
use dlms_access_point.Hes.Script.Laws.{Visits, all_accepted, run_script-all_accepted}

run_script-all_accepted_example :
    Ends
      (Throws sample_library)
      (λ r.
        (rs : List (Bool × Bool × Bool)) × Visits sample_library 400
          (λ n. large)
          0
          (codes "a" ∷ [])
          fresh
          rs
          r.0
        × (r.1 ≡ all_accepted rs))
      (run_script sample_library 400 (λ n. large) 0 (codes "a" ∷ []) true fresh)
unfolding is_linked associated
run_script-all_accepted_example =
    run_script-all_accepted sample_library (λ s h. h) 400 (omega arith) (λ n. large)
      (codes "a" ∷ []) fresh
