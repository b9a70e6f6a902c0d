-- ===== src/LogHistory/Examples.antt =====
-- Lines of two containers.
use signalk_doctor_server.Common.{◌≡◌, refl, List, [], ◌∷◌, String}
use signalk_doctor_server.LogHistory.{get_history, backfill}
use signalk_doctor_server.LogHistory.Ring.{push_all, get_history_exact}

abbrev lines : List (String × String)
lines = ("server", "a") ∷ ("updater", "x") ∷ ("server", "b") ∷ ("server", "c") ∷ []

get_history_exact_example : get_history "server" 2 (push_all lines []) ≡ "b" ∷ "c" ∷ []
get_history_exact_example = get_history_exact "server" 2 lines

handed_over : backfill ("a" ∷ "b" ∷ []) ("b" ∷ "c" ∷ []) ≡ "a" ∷ "b" ∷ "c" ∷ []
unfolding backfill
handed_over = refl
