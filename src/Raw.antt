-- ===== src/Raw.antt =====
-- `RawSocketCommunicatorBase` of communication/ip/base/raw_socket_base.py, and the sockets that its
-- two implementations stand on. py_pcapplusplus and the sockets of Python are a parameter.
pub mod Layer2
pub mod Layer3
pub mod Ending
pub mod FirstAnswer
pub mod Skipped
use cyclarity_in_vehicle_sdk.Prelude.{
  ℕ, Bool, true, false, not, ◌&&◌, Option, none, some, List, [], ◌∷◌, if◌then◌else◌,
}
use cyclarity_in_vehicle_sdk.Python.{
  Exec, Result, ok, raised, stuck, pure, raise, lift, diverge, ◌>>=◌, ◌>>◌,
}

-- Packets, a socket of py_pcapplusplus, and one of Python for sending: what a call on them does
-- outside. An optional argument is `none` where the caller leaves it to its default.
pub record Wire : Type 1 where
  pub Outside : Type 0
  pub Packet : Type 0
  pub Address : Type 0
  -- `bool(packet)`
  pub is_true : Packet → Bool
  -- The destination in the layer of the IP version, where the packet has that layer.
  pub ipv4_dst_ip : Packet → Option Address
  pub ipv6_dst_ip : Packet → Option Address
  pub packet_bytes : Packet → List ℕ
  -- `time.time()`
  pub time : Outside → ℕ
  pub create_socket : Exec Outside (Unit {0})
  pub send_one : Packet → Exec Outside Bool
  pub send_all : List Packet → Exec Outside Bool
  pub receive_one : Option Bool → Option ℕ → Exec Outside (Option Packet)
  pub sniff_packets : ℕ → Exec Outside (List Packet)
  pub create_out_ipv4 : Exec Outside (Unit {0})
  pub create_out_ipv6 : Exec Outside (Unit {0})
  pub set_header_included : Exec Outside (Unit {0})
  pub bind_to_device : Exec Outside (Unit {0})
  pub close_out : Exec Outside (Unit {0})
  pub sendto : List ℕ → Address → Exec Outside ℕ

-- `Packet | Sequence[Packet]`
pub data Sending (P : Type 0) : Type 0 where
  one_packet : P → Sending P
  packets : List P → Sending P

-- `found_packets[0]` if there are any
abbrev pub first_of : {P : Type 0} → List P → Option P
first_of [] = none
first_of (p ∷ ps) = some p

module _ {S P : Type 0} where
  -- `send_packets` of the base class.
  unfoldable pub send_each : (P → Exec S Bool) → List P → Exec S Bool
  unfolding ◌>>=◌
  send_each send_packet [] = pure true
  send_each send_packet (p ∷ ps) =
      send_packet p >>= λ sent. if not sent then pure false else send_each send_packet ps

  -- `send`, over the methods of the class that it is called on.
  unfoldable pub send_by :
      (S → Bool) → (List P → Exec S Bool) → (P → Exec S Bool) → Sending P → Exec S Bool
  unfolding ◌>>=◌
  send_by is_open send_packets send_packet (one_packet p) s =
      if is_open s then send_packet p s else pure false s
  send_by is_open send_packets send_packet (packets ps) s =
      if is_open s then send_packets ps s else pure false s

  -- `send_receive_packet` of the base class, over what `send_receive_packets` does.
  unfoldable pub first_found : Exec S (List P) → Exec S (Option P)
  unfolding ◌>>=◌
  first_found search = search >>= λ found. pure (first_of found)
