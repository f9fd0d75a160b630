-- ===== src/Core/Debug/Tests.antt =====
-- A buffer in lines of two bytes.
use dlms_access_point.Prelude.{codes, ◌≡◌, refl, some, none, [], ◌∷◌, ◌++◌, arith}
use dlms_access_point.Core.Debug.{trace_buffer, trace_vector}
use dlms_access_point.Core.Debug.Laws.{join, lines, line, trace_buffer-join}

traced :
    (trace_buffer (codes "TX") (0 ∷ 171 ∷ 16 ∷ []) 2 ≡ some (codes "\nTX: 00 AB \nTX: 10 \n"))
    × (trace_vector (codes "TX") (255 ∷ 1 ∷ []) 2 ≡ some (codes "\nTX: FF 01 \nTX: \n"))
    × (trace_buffer (codes "TX") (7 ∷ []) 0 ≡ none)
unfolding trace_buffer trace_vector
traced = (refl, refl, refl)

trace_buffer-join_example :
    trace_buffer (codes "RX") (join ((1 ∷ 2 ∷ []) ∷ []) ++ 3 ∷ []) 2
    ≡ some ((lines (codes "RX") ((1 ∷ 2 ∷ []) ∷ []) ++ line (codes "RX") (3 ∷ [])) ++ codes "\n")
trace_buffer-join_example =
    trace_buffer-join (codes "RX") 1 ((1 ∷ 2 ∷ []) ∷ []) (3 ∷ []) (refl, tt) (omega arith)
