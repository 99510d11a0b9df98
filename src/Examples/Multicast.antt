-- ===== src/Examples/Multicast.antt =====
-- Sockets of which one cannot be configured, and runs of the multicast communicator.
use cyclarity_in_vehicle_sdk.Prelude.{◌≡◌, Bool, true, false, []}
use cyclarity_in_vehicle_sdk.Python.{Result, ok, raised, os_error, runtime_error, try_except, ◌>>=◌}
use cyclarity_in_vehicle_sdk.Multicast.{Sockets, MulticastCommunicator, open_multicast}
use cyclarity_in_vehicle_sdk.Multicast.Opening.{Cleared, open_multicast-Opened}

-- The sending socket is configured as `r` says, and nothing arrives.
abbrev silent_sockets : Result (Unit {0}) → Sockets
silent_sockets r = record {
  Outside = Unit {0};
  find_interface = λ o. (ok tt, o);
  create = λ o. (ok tt, o);
  configure_in = λ o. (ok tt, o);
  configure_out = λ o. (r, o);
  close_in = λ o. (raised os_error, o);
  close_out = λ o. (ok tt, o);
  sendto = λ ip bytes o. (ok 0, o);
  select_in = λ t o. (ok false, o);
  recv_in = λ size o. (ok [], o);
  recvfrom_in = λ size o. (ok ([], 0), o);
}

abbrev with_flags : (r : Result (Unit {0})) → Bool → MulticastCommunicator (silent_sockets r) true 5
with_flags r b = record { in_socket = b; out_socket = b; opened = b; outside = tt }

-- The half that was opened is closed again, although closing it raises too.
open_multicast-Opened_example :
    (runtime_error ≡ runtime_error)
    × Cleared (silent_sockets (raised os_error)) true 5 (with_flags (raised os_error) false)
unfolding open_multicast try_except ◌>>=◌
open_multicast-Opened_example =
    open_multicast-Opened (silent_sockets (raised os_error)) true 5
      (with_flags (raised os_error) false)
