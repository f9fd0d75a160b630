-- ===== src/Hes/Registration/Tests.antt =====
-- Three connections from two meters.
use dlms_access_point.Prelude.{Text, codes, ◌≡◌, refl, List, [], ◌∷◌}
use dlms_access_point.Hes.Registration.{register_all}

abbrev remotes : List Text
remotes = codes "::2" ∷ codes "::1" ∷ codes "::2" ∷ []

registered : register_all [] remotes ≡ codes "::1" ∷ codes "::2" ∷ []
unfolding register_all
registered = refl
