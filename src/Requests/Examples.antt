-- ===== src/Requests/Examples.antt =====
-- The rate limit at concrete arrivals.
use tr069_manager.Base.{◌≤◌, ◌≡◌, refl, ◌↔◌, true, List, [], ◌∷◌, arith}
use tr069_manager.Requests.{
  max_connections_add, is_stale, drop_stale, over_limit, max_connections_reached,
  check_availability,
}
use tr069_manager.Requests.Window.{
  Arrival, receive, receive_all, count_recent, started, count_recent-le, admitted_iff,
}

abbrev burst : List Arrival
burst =
    record { now = 10; later = 10 }
    ∷ record { now = 11; later = 11 }
    ∷ record { now = 11; later = 12 }
    ∷ record { now = 12; later = 12 }
    ∷ []

-- With one logical request, three physical ones get through and the fourth does not.
burst_log : (receive_all (1, 60) started burst).log ≡ 10 ∷ 11 ∷ 12 ∷ []
unfolding receive_all receive check_availability max_connections_reached drop_stale is_stale
    over_limit max_connections_add
burst_log = refl

count_recent-le_example : count_recent 30 60 (receive_all (1, 60) started burst).log ≤ 3
count_recent-le_example = count_recent-le 1 60 burst 30 (omega arith) (omega arith) (omega arith)

admitted_iff_example :
    let s = receive_all (1, 60) started burst in
    ((check_availability 80 80 (1, 60) s.stamps).1 ≡ true) ↔ (count_recent 80 60 s.log ≤ 2)
admitted_iff_example =
    admitted_iff 1 60 burst (record { now = 80; later = 80 }) (omega arith) (omega arith)
      (omega arith)
