-- ===== src/Multicast/Timeout.antt =====
-- What the multicast communicator raises when nothing arrives in time.
use cyclarity_in_vehicle_sdk.Prelude.{ℕ, ◌<◌, ◌≡◌, refl, Bool, true, false, ◌==◌, arith}
use cyclarity_in_vehicle_sdk.Python.{ok, raised, try_except, ◌>>=◌, runtime_error}
use cyclarity_in_vehicle_sdk.Multicast.{
  Sockets, MulticastCommunicator, on_socket, is_ready_multicast, when_ready, await_data,
  receive_from,
}

is_zero-pos : (t : ℕ) → 0 < t → (t == 0) ≡ false
is_zero-pos t h = ground arith

-- Where the wait of `receive_from` runs out, the TimeoutError that it raises is caught by its own
-- handler, and RuntimeError is what the caller gets.
receive_from_timed_out :
    (sockets : Sockets) (is_ipv6 : Bool) (destination_ip size recv_timeout : ℕ)
    (s : MulticastCommunicator sockets is_ipv6 destination_ip)
    → is_ready_multicast sockets is_ipv6 destination_ip s ≡ true
    → 0 < recv_timeout
    → (sockets.select_in recv_timeout s.outside).0 ≡ ok false
    → (receive_from sockets is_ipv6 destination_ip size recv_timeout s).0 ≡ raised runtime_error
unfolding receive_from when_ready await_data on_socket try_except ◌>>=◌
receive_from_timed_out sockets is_ipv6 destination_ip size recv_timeout s ready positive late =
    rw (ready, is_zero-pos recv_timeout positive, late) refl
