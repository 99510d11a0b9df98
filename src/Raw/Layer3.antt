-- ===== src/Raw/Layer3.antt =====
-- `Layer3RawSocket` of communication/ip/raw/raw_socket.py.
use cyclarity_in_vehicle_sdk.Prelude.{
  ℕ, Bool, true, false, not, Option, none, some, List, [], ◌∷◌, ◌++◌, ◌==◌, if◌then◌else◌,
}
use cyclarity_in_vehicle_sdk.Python.{
  Exec, Result, ok, raised, stuck, pure, raise, lift, ◌>>=◌, ◌>>◌, attribute_error,
}
use cyclarity_in_vehicle_sdk.Raw.{Wire, Sending, send_each, send_by, first_found}

pub data IpVersion : Type 0 where
  v4 v6 : IpVersion

-- `for packet in sniffed: if is_answer(packet): found.append(packet)`
unfoldable pub collect : {P : Type 0} → (P → Result Bool) → List P → List P → Result (List P)
collect is_answer found [] = ok found
collect is_answer found (p ∷ ps) = elim (is_answer p) [
  | ok answer ↦ collect is_answer (if answer then found ++ (p ∷ []) else found) ps
  | raised e ↦ raised e
  | stuck ↦ stuck
]

module _ (wire : Wire) (ip_version : IpVersion) where
  open wire use {
    Outside, Packet, Address, ipv4_dst_ip, ipv6_dst_ip, packet_bytes, create_socket, receive_one,
    sniff_packets, create_out_ipv4, create_out_ipv6, set_header_included, bind_to_device, close_out,
    sendto,
  }

  -- Whether `_in_socket` and `_out_socket` are set.
  pub record Layer3RawSocket : Type 0 where
    pub in_socket : Bool
    pub out_socket : Bool
    pub outside : Outside

  abbrev pub Layer3 : Type 0 → Type 0
  Layer3 A = Exec Layer3RawSocket A

  unfoldable pub on_wire : {A : Type 0} → Exec Outside A → Layer3 A
  on_wire m s = let (r, o) = m s.outside in (r, record s { outside = o })

  unfoldable pub set_in_raw : Bool → Layer3 (Unit {0})
  set_in_raw b s = (ok tt, record s { in_socket = b })

  unfoldable pub set_out_raw : Layer3 (Unit {0})
  set_out_raw s = (ok tt, record s { out_socket = true })

  unfoldable pub create_out : IpVersion → Layer3 (Unit {0})
  unfolding on_wire set_out_raw
  create_out v4 = do on_wire create_out_ipv4; set_out_raw; on_wire set_header_included
  create_out v6 = do on_wire create_out_ipv6; set_out_raw

  unfoldable pub open_raw : Layer3 Bool
  unfolding create_out on_wire set_in_raw
  open_raw = do
    create_out ip_version
    on_wire bind_to_device
    on_wire create_socket
    set_in_raw true
    pure true

  -- A use of `_out_socket`, which is None until `open`.
  unfoldable pub use_out : {A : Type 0} → Exec Outside A → Layer3 A
  unfolding on_wire raise
  use_out m s = if s.out_socket then on_wire m s else raise attribute_error s

  unfoldable pub close_raw : Layer3 Bool
  unfolding set_in_raw use_out
  close_raw = do set_in_raw false; use_out close_out; pure true

  unfoldable pub is_open_raw : Layer3RawSocket → Bool
  is_open_raw s = s.in_socket

  abbrev pub dst_ip : IpVersion → Packet → Option Address
  dst_ip v4 packet = ipv4_dst_ip packet
  dst_ip v6 packet = ipv6_dst_ip packet

  -- The number of bytes that `sendto` gives is returned; what the callers read is its truth.
  unfoldable pub send_to_dst : Packet → Option Address → Layer3 Bool
  unfolding use_out ◌>>=◌
  send_to_dst packet none = pure false
  send_to_dst packet (some dst) =
      use_out (sendto (packet_bytes packet) dst) >>= λ sent. pure (not (sent == 0))

  -- The packet may be None, which has no `get_layer`.
  unfoldable pub transmit_packet : Option Packet → Layer3 Bool
  unfolding send_to_dst raise
  transmit_packet none = raise attribute_error
  transmit_packet (some packet) = send_to_dst packet (dst_ip ip_version packet)

  unfoldable pub send_packet : Option Packet → Layer3 Bool
  unfolding transmit_packet is_open_raw ◌>>=◌
  send_packet packet s = if not (is_open_raw s) then pure false s else transmit_packet packet s

  abbrev pub send_given : Packet → Layer3 Bool
  send_given packet = send_packet (some packet)

  -- `send`; None is no sequence.
  unfoldable pub send_raw : Option (Sending Packet) → Layer3 Bool
  unfolding send_packet send_by send_each is_open_raw ◌>>=◌
  send_raw none s = if is_open_raw s then send_packet none s else pure false s
  send_raw (some sending) s = send_by is_open_raw (send_each send_given) send_given sending s

  -- A use of `_in_socket`, which is None while the raw socket is closed.
  unfoldable pub use_in : {A : Type 0} → Exec Outside A → Layer3 A
  unfolding on_wire raise
  use_in m s = if s.in_socket then on_wire m s else raise attribute_error s

  -- The sniffing begins when the packets have been sent.
  unfoldable pub send_receive_packets :
      Option (Sending Packet) → (Packet → Result Bool) → ℕ → Layer3 (List Packet)
  unfolding send_raw use_in collect ◌>>=◌
  send_receive_packets packet is_answer timeout = do
    send_raw packet
    sniffed_packets ← use_in (sniff_packets timeout)
    lift (collect is_answer [] sniffed_packets)

  -- Inherited of the base class.
  unfoldable pub send_receive_packet :
      Option (Sending Packet) → (Packet → Result Bool) → ℕ → Layer3 (Option Packet)
  unfolding send_receive_packets first_found
  send_receive_packet packet is_answer timeout =
      first_found (send_receive_packets packet is_answer timeout)

  unfoldable pub receive_answer : (Packet → Result Bool) → ℕ → Layer3 (Option Packet)
  unfolding send_receive_packet
  receive_answer is_answer timeout = send_receive_packet none is_answer timeout

  unfoldable pub receive_answers : (Packet → Result Bool) → ℕ → Layer3 (List Packet)
  unfolding send_receive_packets
  receive_answers is_answer timeout = send_receive_packets none is_answer timeout

  unfoldable pub receive_raw : ℕ → Layer3 (Option Packet)
  unfolding on_wire ◌>>=◌
  receive_raw timeout s =
      if not s.in_socket then pure none s else on_wire (receive_one (some true) (some timeout)) s
