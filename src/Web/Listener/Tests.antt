-- ===== src/Web/Listener/Tests.antt =====
-- A listener whose port is taken.
use dlms_access_point.Prelude.{true, false, List, [], ◌∷◌, Bool}

abbrev ends : List Bool
ends = false ∷ true ∷ []
