-- ===== src/Multicast.antt =====
-- `MulticastCommunicator` of communication/ip/udp/multicast.py. The sockets of Python are a parameter:
-- what a call on them does outside.
pub mod Opening
pub mod Timeout
use cyclarity_in_vehicle_sdk.Prelude.{
  ℕ, Bool, true, false, not, ◌&&◌, Option, none, some, List, ◌==◌, if◌then◌else◌,
}
use cyclarity_in_vehicle_sdk.Python.{
  Exn, Exec, Result, ok, raised, stuck, pure, raise, try_except, ◌>>=◌, ◌>>◌, runtime_error,
  timeout_error, blocking_io_error,
}

-- The calls on the two sockets, with the options that they are given.
pub record Sockets : Type 1 where
  pub Outside : Type 0
  pub find_interface : Exec Outside (Unit {0})
  pub create : Exec Outside (Unit {0})
  pub configure_in : Exec Outside (Unit {0})
  pub configure_out : Exec Outside (Unit {0})
  pub close_in : Exec Outside (Unit {0})
  pub close_out : Exec Outside (Unit {0})
  pub sendto : ℕ → List ℕ → Exec Outside ℕ
  pub select_in : ℕ → Exec Outside Bool
  pub recv_in : ℕ → Exec Outside (List ℕ)
  pub recvfrom_in : ℕ → Exec Outside (List ℕ × ℕ)

abbrev pub is_blocking : Exn → Bool
is_blocking blocking_io_error = true
is_blocking e = false

module _ (sockets : Sockets) (is_ipv6 : Bool) (destination_ip : ℕ) where
  open sockets use {
    Outside, find_interface, create, configure_in, configure_out, close_in, close_out, sendto,
    select_in, recv_in, recvfrom_in,
  }

  -- Whether each socket is set, and `_is_open`.
  pub record MulticastCommunicator : Type 0 where
    pub in_socket : Bool
    pub out_socket : Bool
    pub opened : Bool
    pub outside : Outside

  abbrev pub Multicast : Type 0 → Type 0
  Multicast A = Exec MulticastCommunicator A

  unfoldable pub on_socket : {A : Type 0} → Exec Outside A → Multicast A
  on_socket m s = let (r, o) = m s.outside in (r, record s { outside = o })

  unfoldable pub set_in : Bool → Multicast (Unit {0})
  set_in b s = (ok tt, record s { in_socket = b })

  unfoldable pub set_out : Bool → Multicast (Unit {0})
  set_out b s = (ok tt, record s { out_socket = b })

  unfoldable pub set_opened : Bool → Multicast (Unit {0})
  set_opened b s = (ok tt, record s { opened = b })

  unfoldable pub setup_receive_socket : Multicast (Unit {0})
  unfolding on_socket set_in
  setup_receive_socket = do on_socket create; set_in true; on_socket configure_in

  unfoldable pub setup_send_socket : Multicast (Unit {0})
  unfolding on_socket set_out
  setup_send_socket = do on_socket create; set_out true; on_socket configure_out

  -- `try: close() except Exception: pass finally: ... = None`
  unfoldable pub close_quietly : Exec Outside (Unit {0}) → Multicast (Unit {0})
  unfolding on_socket
  close_quietly close = try_except (on_socket close) (λ e. pure tt)

  unfoldable pub cleanup_in : Multicast (Unit {0})
  unfolding close_quietly set_in
  cleanup_in s = if s.in_socket then (close_quietly close_in >> set_in false) s else pure tt s

  unfoldable pub cleanup_out : Multicast (Unit {0})
  unfolding close_quietly set_out
  cleanup_out s = if s.out_socket then (close_quietly close_out >> set_out false) s else pure tt s

  unfoldable pub cleanup_sockets : Multicast (Unit {0})
  unfolding cleanup_in cleanup_out set_opened
  cleanup_sockets = do cleanup_in; cleanup_out; set_opened false

  -- The body of `try` in `open`.
  unfoldable pub open_sockets : Multicast Bool
  unfolding setup_receive_socket setup_send_socket set_opened on_socket
  open_sockets = do
    if is_ipv6 then on_socket find_interface else pure tt
    setup_receive_socket
    setup_send_socket
    set_opened true
    pure true

  unfoldable pub open_multicast : Multicast Bool
  unfolding open_sockets cleanup_sockets
  open_multicast = try_except open_sockets (λ e. cleanup_sockets >> raise runtime_error)

  unfoldable pub close_multicast : Multicast Bool
  unfolding cleanup_sockets
  close_multicast = cleanup_sockets >> pure true

  -- `is_open()`
  unfoldable pub is_ready_multicast : MulticastCommunicator → Bool
  is_ready_multicast s = s.opened && (s.in_socket && s.out_socket)

  unfoldable pub when_ready : {A : Type 0} → Multicast A → Multicast A
  unfolding is_ready_multicast
  when_ready m s = if is_ready_multicast s then m s else raise runtime_error s

  unfoldable pub send_to : ℕ → List ℕ → Multicast ℕ
  unfolding when_ready on_socket
  send_to target_ip bytes =
      when_ready (try_except (on_socket (sendto target_ip bytes)) (λ e. raise runtime_error))

  unfoldable pub send_multicast : List ℕ → Multicast ℕ
  unfolding send_to
  send_multicast bytes = send_to destination_ip bytes

  -- Whether there is something to receive; with no timeout, that is for the socket to say.
  unfoldable pub await_data : ℕ → Multicast Bool
  unfolding on_socket
  await_data recv_timeout =
      if recv_timeout == 0 then pure true else on_socket (select_in recv_timeout)

  unfoldable pub recv_multicast : ℕ → ℕ → Multicast (Option (List ℕ))
  unfolding when_ready await_data
  recv_multicast recv_timeout size = when_ready (
      try_except
        (await_data recv_timeout >>= λ ready.
          if ready then (on_socket (recv_in size) >>= λ bytes. pure (some bytes)) else pure none)
        (λ e. if is_blocking e then pure none else raise runtime_error))

  unfoldable pub receive_from : ℕ → ℕ → Multicast (List ℕ × ℕ)
  unfolding when_ready await_data
  receive_from size recv_timeout = when_ready (
      try_except
        (await_data recv_timeout >>= λ ready.
          if ready then on_socket (recvfrom_in size) else raise timeout_error)
        (λ e. if is_blocking e then raise timeout_error else raise runtime_error))
