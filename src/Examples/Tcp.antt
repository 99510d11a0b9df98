-- ===== src/Examples/Tcp.antt =====
-- A TCP communicator that was never opened, under a DoIP communicator.
use cyclarity_in_vehicle_sdk.Prelude.{ℕ, suc, ◌≡◌, true, false, List, [], ◌∷◌}
use cyclarity_in_vehicle_sdk.Python.{Result, ok, raised, attribute_error}
use cyclarity_in_vehicle_sdk.Doip.Link.{send_doip, recv_doip}
use cyclarity_in_vehicle_sdk.Tcp.{TcpSocket, TcpCommunicator, tcp_connection}
use cyclarity_in_vehicle_sdk.Tcp.Unopened.{unopened_raises}
use cyclarity_in_vehicle_sdk.Examples.Doip.{small, tester}

-- The state is the time.
abbrev loopback : TcpSocket
loopback = record {
  Outside = ℕ;
  create = λ n. (ok tt, n);
  configure = λ n. (ok tt, n);
  peek = λ n. (ok (1 ∷ []), n);
  shut_down = λ n. (ok tt, n);
  close_socket = λ n. (ok tt, n);
  transmit = λ bytes n. (ok 1, n);
  select_socket = λ t n. (ok true, n);
  read = λ size n. (ok (1 ∷ []), n);
  connect_socket = λ n. (ok tt, n);
  clock = λ n. (n, suc n);
}

abbrev never_opened : TcpCommunicator loopback
never_opened = record { has_socket = false; outside = 0 }

unopened_raises_example :
    ◌≡◌ {A = Result ℕ × TcpCommunicator loopback}
      (send_doip small (tcp_connection loopback) tester (0x3e ∷ []) 1000 never_opened)
      (raised attribute_error, never_opened)
    × ◌≡◌ {A = Result (List ℕ) × TcpCommunicator loopback}
        (recv_doip small (tcp_connection loopback) tester 1000 never_opened)
        (raised attribute_error, never_opened)
unopened_raises_example = unopened_raises loopback small tester (0x3e ∷ []) 1000 0
