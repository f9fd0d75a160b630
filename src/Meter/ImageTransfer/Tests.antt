-- ===== src/Meter/ImageTransfer/Tests.antt =====
-- Runs of the image transfer object.
use dlms_access_point.Prelude.{
  ℕ, if◌then◌else◌, ◌≡◌, refl, true, false, Option, none, some, List, [], ◌∷◌,
}
use dlms_access_point.Meter.Cosem.{DataAccessResult, number}
use dlms_access_point.Meter.Sample.{sample_library}
use dlms_access_point.Meter.ImageTransfer.{
  ImageTransfer, attr_image_first_not_transferred_block_number, attr_image_transfer_status,
  image_transfer_not_initiated, image_transfer_initiated, new, internal_get, internal_action, run,
}
use dlms_access_point.Meter.ImageTransfer.Laws.{any_begins, internal_get-run_status}

-- An initiation, two blocks, verification and activation.
abbrev upgrade : List (ℕ × Option (List ℕ))
upgrade =
    (1, some (7 ∷ 200 ∷ []))
    ∷ (2, some (0 ∷ 1 ∷ []))
    ∷ (2, some (1 ∷ 2 ∷ []))
    ∷ (3, none)
    ∷ (4, none)
    ∷ []

abbrev fresh : ImageTransfer sample_library
fresh = record {
  status = 0;
  block_status = true ∷ [];
  image_id = [];
  image_size = none;
  first_not_transferred_block_number = 0;
}

upgrade_stays_initiated : run sample_library fresh upgrade ≡ record fresh {
  status = 1;
  block_status = false ∷ [];
  image_id = 7 ∷ [];
  image_size = some 200;
}
unfolding run internal_action
upgrade_stays_initiated = refl

internal_get-run_status_example :
    let t = run sample_library (new sample_library [] []) upgrade in
    (internal_get sample_library t attr_image_transfer_status ≡ (
      DataAccessResult.success,
      some (
          number (
            if any_begins sample_library upgrade
            then image_transfer_initiated
            else image_transfer_not_initiated)),
    ))
    × (internal_get sample_library t attr_image_first_not_transferred_block_number
        ≡ (DataAccessResult.success, some (number 0)))
internal_get-run_status_example = internal_get-run_status sample_library [] [] upgrade
