-- ===== src/Web/TaskRunner/Main/Tests.antt =====
-- Starts of the task runner.
use dlms_access_point.Prelude.{codes, ◌≡◌, refl, some, none, []}
use dlms_access_point.Console.Number.{is_space, skip_spaces, is_digit, read_digits, fit}
use dlms_access_point.Web.TaskRunner.{fetch_net_stats, invoke_netem}
use dlms_access_point.Web.TaskRunner.Main.{main, serves, usage, uncaught, null_argument}

started :
    (main (some (codes "x")) [] ≡ usage)
    × (main (some (codes "4294967296")) [] ≡ uncaught)
    × (main none [] ≡ null_argument)
    × (main (some (codes "-1")) [] ≡ serves 65535 (codes "\n"))
unfolding main skip_spaces is_space fit is_digit read_digits fetch_net_stats
started = (refl, refl, refl, refl)

netem : invoke_netem (codes "a\n\nb") ≡ some (codes "a\n")
unfolding invoke_netem
netem = refl
