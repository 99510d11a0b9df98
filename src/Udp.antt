-- ===== src/Udp.antt =====
-- `UdpCommunicator` of communication/ip/udp/udp.py, over a socket of Python as a parameter.
use cyclarity_in_vehicle_sdk.Prelude.{
  ℕ, Bool, true, false, not, Option, none, some, List, ltb, if◌then◌else◌,
}
use cyclarity_in_vehicle_sdk.Python.{
  Exn, Exec, ok, pure, raise, try_except, ◌>>=◌, ◌>>◌, attribute_error, type_error,
  blocking_io_error,
}

-- The calls on a socket of datagrams, made for IPv6 or IPv4.
pub record UdpSocket : Type 1 where
  pub Outside : Type 0
  pub create_udp : Bool → Exec Outside (Unit {0})
  pub reuse_address : Exec Outside (Unit {0})
  pub bind_source : Bool → Exec Outside (Unit {0})
  pub set_nonblocking : Exec Outside (Unit {0})
  pub close_udp_socket : Exec Outside (Unit {0})
  pub send_datagram : List ℕ → ℕ → Exec Outside ℕ
  pub select_udp : ℕ → Exec Outside Bool
  pub receive_datagram : ℕ → Exec Outside (List ℕ)
  pub receive_datagram_from : ℕ → Exec Outside (List ℕ × ℕ)

module _ (socket : UdpSocket) (is_ipv6 : Bool) (destination_ip : ℕ) where
  open socket use {
    Outside, create_udp, reuse_address, bind_source, set_nonblocking, close_udp_socket,
    send_datagram, select_udp, receive_datagram, receive_datagram_from,
  }

  -- Whether `_socket` is set; it stays set when it is closed.
  pub record UdpCommunicator : Type 0 where
    pub has_udp_socket : Bool
    pub outside : Outside

  abbrev pub Udp : Type 0 → Type 0
  Udp A = Exec UdpCommunicator A

  unfoldable pub on_udp : {A : Type 0} → Exec Outside A → Udp A
  on_udp m s = let (r, o) = m s.outside in (r, record s { outside = o })

  -- A use of `self._socket`, which raises `e` where that is None.
  unfoldable pub use_udp : {A : Type 0} → Exn → Exec Outside A → Udp A
  unfolding on_udp raise
  use_udp e m s = if s.has_udp_socket then on_udp m s else raise e s

  unfoldable pub set_udp : Udp (Unit {0})
  set_udp s = (ok tt, record s { has_udp_socket = true })

  unfoldable pub open_udp : Udp (Unit {0})
  unfolding on_udp set_udp
  open_udp = do
    on_udp (create_udp is_ipv6)
    set_udp
    on_udp reuse_address
    on_udp (bind_source is_ipv6)
    on_udp set_nonblocking

  unfoldable pub close_udp : Udp (Unit {0})
  unfolding use_udp
  close_udp = use_udp attribute_error close_udp_socket

  -- The number of bytes is not returned.
  unfoldable pub send_udp_to : ℕ → List ℕ → Udp (Unit {0})
  unfolding use_udp
  send_udp_to target_ip bytes = use_udp attribute_error (send_datagram bytes target_ip) >> pure tt

  unfoldable pub send_udp : List ℕ → Udp (Unit {0})
  unfolding send_udp_to
  send_udp bytes = send_udp_to destination_ip bytes

  -- `select` refuses None as a socket.
  unfoldable pub recv_udp : ℕ → ℕ → Udp (Option (List ℕ))
  unfolding use_udp
  recv_udp recv_timeout size = use_udp type_error (select_udp recv_timeout) >>= λ ready.
      if not ready
      then pure none
      else (use_udp attribute_error (receive_datagram size) >>= λ bytes. pure (some bytes))

  abbrev pub is_blocking_io : Exn → Bool
  is_blocking_io blocking_io_error = true
  is_blocking_io e = false

  -- The wait names an attribute `socket` that no communicator has.
  unfoldable pub await_udp : ℕ → Udp (Unit {0})
  unfolding raise
  await_udp recv_timeout = if ltb 0 recv_timeout then raise attribute_error else pure tt

  -- None twice where nothing has arrived.
  unfoldable pub receive_udp_from : ℕ → ℕ → Udp (Option (List ℕ × ℕ))
  unfolding await_udp use_udp try_except
  receive_udp_from size recv_timeout =
      await_udp recv_timeout
      >> try_except
          (use_udp attribute_error (receive_datagram_from size) >>= λ received.
            pure (some received))
          (λ e. if is_blocking_io e then pure none else raise e)
