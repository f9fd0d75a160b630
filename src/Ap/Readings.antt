-- ===== src/Ap/Readings.antt =====
-- src/APsim.cpp, the two operators that print readings.
pub mod RoundTrip
mod Tests
use dlms_access_point.Prelude.{Text, codes, List, [], ◌∷◌, ◌++◌}
use dlms_access_point.Ap.Script.{MeterReading}

-- `operator<<` of MeterReading: `{"meter":"…","data":"…"}`.
pub print_reading : MeterReading → Text
print_reading r =
    codes "{\"meter\":\""
    ++ (r.meter_addr ++ (codes "\",\"data\":\"" ++ (r.meter_data ++ codes "\"}")))

-- `for ( ; it != end; ++it)`.
print_rest : List MeterReading → Text → Text
unfolding print_reading
print_rest [] out = out
print_rest (r ∷ rs) out = print_rest rs (out ++ (codes ",\n" ++ print_reading r))

print_items : List MeterReading → Text → Text
unfolding print_rest print_reading
print_items [] out = out
print_items (r ∷ rs) out = print_rest rs (out ++ print_reading r)

-- `operator<<` of a vector of readings.
pub print_readings : List MeterReading → Text
unfolding print_items
print_readings rs = print_items rs (codes "{\"meterdata\":[\n") ++ codes "\n]}"
