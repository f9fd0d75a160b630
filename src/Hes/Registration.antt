-- ===== src/Hes/Registration.antt =====
-- src/HESsim.cpp, tcp_connection::start: a meter registers by connecting, and its address goes into
-- the set `meters`. Its message is received and not read.
pub mod Laws
mod Tests
use dlms_access_point.Prelude.{
  ltb, ◌==◌, if◌then◌else◌, Text, Bool, true, false, ◌&&◌, ◌||◌, List, [], ◌∷◌,
}

-- `std::string`'s order: by bytes, a prefix first.
unfoldable pub text_lt : Text → Text → Bool
text_lt [] [] = false
text_lt [] (d ∷ t) = true
text_lt (c ∷ s) [] = false
text_lt (c ∷ s) (d ∷ t) = ltb c d || ((c == d) && text_lt s t)

-- `std::set::insert`: the set as its elements in order.
unfoldable pub insert : Text → List Text → List Text
unfolding text_lt
insert k [] = k ∷ []
insert k (x ∷ xs) =
    let rest = insert k xs in
    if text_lt k x then k ∷ (x ∷ xs) else if text_lt x k then x ∷ rest else x ∷ xs

-- The connections, in the order in which they are accepted, by the addresses of their peers.
unfoldable pub register_all : List Text → List Text → List Text
unfolding insert
register_all meters [] = meters
register_all meters (remote ∷ remotes) = register_all (insert remote meters) remotes
