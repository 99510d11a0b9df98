-- ===== src/Tcp.antt =====
-- `TcpCommunicator` of communication/ip/tcp/tcp.py, over a socket of Python as a parameter.
pub mod Unopened
use cyclarity_in_vehicle_sdk.Prelude.{ℕ, Bool, true, false, List, [], ◌∷◌, ◌==◌, if◌then◌else◌}
use cyclarity_in_vehicle_sdk.Python.{
  Exn, Exec, Result, ok, raised, stuck, pure, raise, try_except, ◌>>=◌, ◌>>◌, attribute_error,
  type_error, timeout_error, blocking_io_error, connection_reset_error,
}
use cyclarity_in_vehicle_sdk.Communicator.{Communicator}
use cyclarity_in_vehicle_sdk.Doip.Link.{TcpConnection}

-- The calls on a socket that is there, and the clock that the users of a communicator read.
pub record TcpSocket : Type 1 where
  pub Outside : Type 0
  pub create : Exec Outside (Unit {0})
  pub configure : Exec Outside (Unit {0})
  pub peek : Exec Outside (List ℕ)
  pub shut_down : Exec Outside (Unit {0})
  pub close_socket : Exec Outside (Unit {0})
  pub transmit : List ℕ → Exec Outside ℕ
  pub select_socket : ℕ → Exec Outside Bool
  pub read : ℕ → Exec Outside (List ℕ)
  pub connect_socket : Exec Outside (Unit {0})
  pub clock : Outside → ℕ × Outside

-- SOCK_DATA_RECV_AMOUNT
abbrev pub sock_data_recv_amount : ℕ
sock_data_recv_amount = 4096

-- Whether an error of the look at the socket means that reading would block.
unfoldable pub would_block : Exn → Bool
would_block blocking_io_error = true
would_block timeout_error = true
would_block e = false

abbrev pub is_reset_or_timeout : Exn → Bool
is_reset_or_timeout connection_reset_error = true
is_reset_or_timeout timeout_error = true
is_reset_or_timeout e = false

abbrev pub has_bytes : List ℕ → Bool
has_bytes [] = false
has_bytes (b ∷ bs) = true

module _ (socket : TcpSocket) where
  open socket use {
    Outside, create, configure, peek, shut_down, close_socket, transmit, select_socket, read,
    connect_socket,
  }

  -- Whether `_socket` is set; it is None until `open`.
  pub record TcpCommunicator : Type 0 where
    pub has_socket : Bool
    pub outside : Outside

  abbrev pub TcpMethod : Type 0 → Type 0
  TcpMethod A = Exec TcpCommunicator A

  -- A use of `self._socket`, which raises `e` where that is None.
  unfoldable pub use_socket : {A : Type 0} → Exn → Exec Outside A → TcpMethod A
  unfolding raise
  use_socket e m s =
      if s.has_socket
      then (let (r, o) = m s.outside in (r, record s { outside = o }))
      else raise e s

  unfoldable pub set_socket : TcpMethod (Unit {0})
  set_socket s =
      let (r, o) = create s.outside in
      elim r [
        | ok u ↦ (ok u, record { has_socket = true; outside = o })
        | raised e ↦ (raised e, record s { outside = o })
        | stuck ↦ (stuck, record s { outside = o })
      ]

  unfoldable pub open_tcp : TcpMethod Bool
  unfolding set_socket use_socket
  open_tcp = set_socket >> use_socket attribute_error configure >> pure true

  unfoldable pub is_open_tcp : TcpMethod Bool
  unfolding use_socket would_block
  is_open_tcp =
      try_except (use_socket attribute_error peek >>= λ bytes. pure (has_bytes bytes))
        (λ e. pure (would_block e))

  unfoldable pub close_tcp : TcpMethod Bool
  unfolding is_open_tcp use_socket
  close_tcp = do
    opened ← is_open_tcp
    if opened then use_socket attribute_error shut_down else pure tt
    use_socket attribute_error close_socket
    pure true

  unfoldable pub send_tcp : List ℕ → TcpMethod ℕ
  unfolding use_socket
  send_tcp bytes = try_except (use_socket attribute_error (transmit bytes)) (λ e. pure 0)

  -- Whether there is something to read; `select` refuses None as a socket.
  unfoldable pub await_tcp : ℕ → TcpMethod Bool
  unfolding use_socket
  await_tcp recv_timeout =
      if recv_timeout == 0 then pure true else use_socket type_error (select_socket recv_timeout)

  unfoldable pub recv_tcp : ℕ → ℕ → TcpMethod (List ℕ)
  unfolding await_tcp use_socket
  recv_tcp recv_timeout size = do
    ready ← await_tcp recv_timeout
    if ready
        then try_except (use_socket attribute_error (read size))
            (λ e. if is_reset_or_timeout e then pure [] else raise e)
        else pure []

  unfoldable pub connect_tcp : TcpMethod Bool
  unfolding use_socket
  connect_tcp = use_socket attribute_error connect_socket >> pure true

  -- As the connection of a DoIP communicator.
  abbrev pub tcp_connection : TcpConnection
  tcp_connection = record {
    channel = record {
      State = TcpCommunicator;
      open_channel = open_tcp;
      close_channel = close_tcp;
      send = λ bytes timeout. send_tcp bytes;
      recv = λ recv_timeout. recv_tcp recv_timeout sock_data_recv_amount;
      time = λ s. let (t, o) = socket.clock s.outside in (t, record s { outside = o });
    };
    is_open = is_open_tcp;
    connect = connect_tcp;
  }
