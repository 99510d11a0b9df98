-- ===== src/Tcp/Unopened.antt =====
-- What the DoIP communicator does over a TCP communicator that was never opened.
use cyclarity_in_vehicle_sdk.Prelude.{ℕ, ◌≡◌, refl, false, List}
use cyclarity_in_vehicle_sdk.Python.{Result, raised, try_except, ◌>>=◌, attribute_error}
use cyclarity_in_vehicle_sdk.Doip.{Doipclient}
use cyclarity_in_vehicle_sdk.Doip.Link.{DoipCommunicator, send_doip, recv_doip}
use cyclarity_in_vehicle_sdk.Tcp.{
  TcpSocket, TcpCommunicator, would_block, use_socket, is_open_tcp, close_tcp, tcp_connection,
}

-- Without a socket, `send` and `recv` of the DoIP communicator raise AttributeError and change
-- nothing: they find the connection closed and close it before they open it, and `close` of the TCP
-- communicator needs the socket that is not there.
pub unopened_raises :
    (socket : TcpSocket) (doip : Doipclient) (c : DoipCommunicator) (bytes : List ℕ) (timeout : ℕ)
    (o : socket.Outside)
    → let unopened : TcpCommunicator socket = record { has_socket = false; outside = o } in
      ◌≡◌ {A = Result ℕ × TcpCommunicator socket}
        (send_doip doip (tcp_connection socket) c bytes timeout unopened)
        (raised attribute_error, unopened)
      × ◌≡◌ {A = Result (List ℕ) × TcpCommunicator socket}
          (recv_doip doip (tcp_connection socket) c timeout unopened)
          (raised attribute_error, unopened)
unfolding send_doip recv_doip is_open_tcp close_tcp use_socket would_block try_except ◌>>=◌
unopened_raises socket doip c bytes timeout o = (refl, refl)
