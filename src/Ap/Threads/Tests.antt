-- ===== src/Ap/Threads/Tests.antt =====
-- A round in which the first message arrives behind the count.
use dlms_access_point.Prelude.{codes, ◌≡◌, refl, some, false, [], ◌∷◌}
use dlms_access_point.Client.Sample.{sample_library, fresh}
use dlms_access_point.Ap.Config.{small, initial}
use dlms_access_point.Ap.Main as ApMain
use dlms_access_point.Ap.Server.{connected, accepts, reads}
use dlms_access_point.Ap.Server.Sample.{
  serving, one_meter, run-connects, run-reads, run-connects_again,
}
use dlms_access_point.Ap.Threads.{Segments, run_all, interleaved_round}
use dlms_access_point.Ap.Threads.Laws.{messages, served, interleaved_round-served}

abbrev segments : Segments
segments = record {
  early = accepts connected ∷ [];
  before = reads 0 false (codes "small,a") 7 ∷ [];
  during = (accepts connected ∷ []) ∷ [];
}

run_all-during :
    run_all (serving one_meter 1 []) segments.during ≡ some (serving one_meter 2 (1 ∷ []))
unfolding run_all
run_all-during = rw (run-connects_again, run_all) refl

interleaved_round-served_example :
    interleaved_round sample_library (λ e. small) 400 (serving initial 0 []) segments fresh
    ≡ some (
        served sample_library
          (λ e. small)
          (serving one_meter 2 (1 ∷ []))
          (ApMain.round sample_library (λ e. small) 400 initial (messages segments) fresh))
interleaved_round-served_example =
    interleaved_round-served sample_library (λ e. small) 400 (serving initial 0 [])
      (serving initial 1 (0 ∷ [])) (serving one_meter 1 []) (serving one_meter 2 (1 ∷ [])) segments
      fresh (run-connects initial) run-reads run_all-during
