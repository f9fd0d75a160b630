-- ===== src/Hes/Message.antt =====
-- src/HESsim.cpp, multiRead: the message with which the head-end system hands its meters to the
-- access point.
use dlms_access_point.Prelude.{Text, codes, List, [], ◌∷◌, ◌++◌}

-- `HESConfig::payload` of src/websocket/HESConfig.h.
pub data Payload : Type 0 where
  small medium large : Payload

payload_str : Payload → Text
payload_str small = codes "small"
payload_str medium = codes "medium"
payload_str large = codes "large"

comma_concat : Text → Text → Text
comma_concat a b = a ++ (b',' ∷ b)

-- `std::accumulate` over the names, in the order of the set.
unfoldable pub accumulate : Text → List Text → Text
unfolding comma_concat
accumulate init [] = init
accumulate init (name ∷ names) = accumulate (comma_concat init name) names

-- The bytes that multiRead writes to port 4059 of the access point.
unfoldable pub meterset : Payload → List Text → Text
unfolding accumulate payload_str
meterset size meters = accumulate (payload_str size) meters
