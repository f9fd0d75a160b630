-- ===== src/Console/Main/Tests.antt =====
-- Runs of function main of src/Linux.cpp.
use dlms_access_point.Prelude.{codes, ◌≡◌, refl, [], ◌∷◌}
use dlms_access_point.Console.Main.{main, server_app, client_app}

main_plain : main [] ≡ (codes "EPRI DLMS/COSEM ClientTest Harness\n", client_app)
unfolding main
main_plain = refl

main_server : main (b'x' ∷ b'S' ∷ []) ≡ (codes "EPRI DLMS/COSEM ServerTest Harness\n", server_app)
unfolding main
main_server = refl
