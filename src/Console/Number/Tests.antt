-- ===== src/Console/Number/Tests.antt =====
-- Numbers as they are typed.
use dlms_access_point.Prelude.{codes, ◌≡◌, refl, pos, negsuc}
use dlms_access_point.Console.Number.{
  converted, invalid_argument, out_of_range, stoi, to_string, is_space, read_digits,
}

typed :
    (stoi (codes " 42x") ≡ converted (pos 42))
    × (stoi (codes "0x1F") ≡ converted (pos 31))
    × (stoi (codes "010") ≡ converted (pos 8))
    × (stoi (codes "09") ≡ converted (pos 0))
    × (stoi (codes "0xg") ≡ converted (pos 0))
    × (stoi (codes "-1") ≡ converted (negsuc 0))
    × (stoi (codes "x") ≡ invalid_argument)
    × (stoi (codes "2147483648") ≡ out_of_range)
    × (stoi (codes "-2147483648") ≡ converted (negsuc 2147483647))
unfolding stoi is_space read_digits
typed = (refl, refl, refl, refl, refl, refl, refl, refl, refl)

printed : to_string 905 ≡ codes "905"
unfolding to_string
printed = refl
