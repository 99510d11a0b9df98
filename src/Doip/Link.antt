-- ===== src/Doip/Link.antt =====
-- `DoipCommunicator` of communication/doip/doip_communicator.py, over a TCP communicator.
use cyclarity_in_vehicle_sdk.Prelude.{
  ℕ, Bool, true, false, not, Option, none, some, List, [], ◌==◌, if◌then◌else◌,
}
use cyclarity_in_vehicle_sdk.Python.{Exec, pure, ◌>>=◌, ◌>>◌}
use cyclarity_in_vehicle_sdk.Communicator.{Communicator}
use cyclarity_in_vehicle_sdk.Doip.{
  DoipMessage, Doipclient, request_routing_activation, send_uds_request, read_uds_response,
}

-- What is used of `TcpCommunicator` beyond the operations of every communicator.
pub record TcpConnection : Type 1 where
  pub channel : Communicator
  pub is_open : Exec channel.State Bool
  pub connect : Exec channel.State Bool

-- The fields of `DoipCommunicator` that are no communicator, and the fuel of its reading loops.
pub record DoipCommunicator : Type 0 where
  pub client_logical_address : ℕ
  pub target_logical_address : ℕ
  pub routing_activation_needed : Bool
  pub fuel : ℕ

-- `ResponseCode.Success` of a routing activation.
abbrev pub success : ℕ
success = 0x10

-- Whether a routing activation was answered with success.
unfoldable pub is_activated : Option DoipMessage → Bool
is_activated none = false
is_activated (some m) = m.response_code == success

-- `bytes(received_data) if received_data else bytes()`
abbrev pub or_empty_bytes : Option (List ℕ) → List ℕ
or_empty_bytes none = []
or_empty_bytes (some bs) = bs

module _ (doip : Doipclient) (tcp : TcpConnection) (c : DoipCommunicator) where
  open tcp use {channel, is_open, connect}

  abbrev pub Tcp : Type 0 → Type 0
  Tcp A = Exec channel.State A

  unfoldable pub activate_routing_if_needed : ℕ → Tcp Bool
  activate_routing_if_needed timeout =
      if not c.routing_activation_needed
      then pure true
      else request_routing_activation doip channel c.fuel c.client_logical_address timeout
        >>= λ resp. pure (is_activated resp)

  unfoldable pub reconnect_tcp_if_needed : Tcp Bool
  reconnect_tcp_if_needed = do
    opened ← is_open
    if opened
        then pure false
        else channel.close_channel >> channel.open_channel >> connect >> pure true

  -- Whether the communicator may go on: it did not have to reconnect, or routing is active again.
  unfoldable pub is_ready : ℕ → Tcp Bool
  unfolding reconnect_tcp_if_needed activate_routing_if_needed
  is_ready timeout = do
    reconnected ← reconnect_tcp_if_needed
    if reconnected then activate_routing_if_needed timeout else pure true

  unfoldable pub send_doip : List ℕ → ℕ → Tcp ℕ
  unfolding is_ready
  send_doip bytes timeout = do
    ready ← is_ready timeout
    if ready
        then send_uds_request doip channel c.fuel bytes c.client_logical_address
            c.target_logical_address timeout
        else pure 0

  unfoldable pub recv_doip : ℕ → Tcp (List ℕ)
  unfolding is_ready
  recv_doip recv_timeout = do
    ready ← is_ready recv_timeout
    if ready
        then (read_uds_response doip channel c.fuel recv_timeout >>= λ received_data.
            pure (or_empty_bytes received_data))
        else pure []

  -- The activation of `open` waits for two seconds.
  unfoldable pub open_doip : Tcp Bool
  unfolding activate_routing_if_needed
  open_doip = channel.open_channel >> connect >> activate_routing_if_needed 2000

  unfoldable pub close_doip : Tcp Bool
  close_doip = channel.close_channel >> pure true

  -- As a data link layer of the UDS client.
  abbrev pub doip_link : Communicator
  doip_link = record {
    State = channel.State;
    open_channel = open_doip;
    close_channel = close_doip;
    send = send_doip;
    recv = recv_doip;
    time = channel.time;
  }
