-- ===== src/Ap/Readings/Tests.antt =====
-- Printed readings.
use dlms_access_point.Prelude.{codes, ◌≡◌, refl, some, List, [], ◌∷◌, arith}
use dlms_access_point.Ap.Script.{MeterReading}
use dlms_access_point.Ap.Readings.{print_readings}
use dlms_access_point.Ap.Readings.RoundTrip.{read_readings, read_readings-print_readings}

abbrev two_readings : List MeterReading
two_readings =
    record { meter_addr = codes "a"; meter_data = codes "1" }
    ∷ record { meter_addr = codes "b"; meter_data = [] }
    ∷ []

two_printed :
    print_readings two_readings
    ≡ codes
        "{\"meterdata\":[\n{\"meter\":\"a\",\"data\":\"1\"},\n{\"meter\":\"b\",\"data\":\"\"}\n]}"
unfolding print_readings
two_printed = refl

read_readings-print_readings_example :
    read_readings 3 (print_readings two_readings) ≡ some two_readings
read_readings-print_readings_example = read_readings-print_readings two_readings (omega arith)
