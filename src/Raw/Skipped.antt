-- ===== src/Raw/Skipped.antt =====
-- What the Layer 3 socket does when there is no packet to send.
use cyclarity_in_vehicle_sdk.Prelude.{ℕ, ◌≡◌, refl, Bool, true, false, Option, List}
use cyclarity_in_vehicle_sdk.Python.{Result, raised, ◌>>=◌, attribute_error}
use cyclarity_in_vehicle_sdk.Raw.{Wire, first_found}
use cyclarity_in_vehicle_sdk.Raw.Layer3.{
  IpVersion, Layer3RawSocket, send_packet, send_raw, is_open_raw, use_in, send_receive_packets,
  send_receive_packet, receive_answer, receive_answers, transmit_packet,
}

module _ (wire : Wire) (version : IpVersion) (is_answer : wire.Packet → Result Bool)
    (timeout : ℕ) where
  by_socket :
      (s : Layer3RawSocket wire version) (b : Bool)
      → s.in_socket ≡ b
      → ◌≡◌ {A = Result (List wire.Packet) × Layer3RawSocket wire version}
          (receive_answers wire version is_answer timeout s)
          (raised attribute_error, s)
  unfolding receive_answers send_receive_packets send_raw send_packet transmit_packet is_open_raw
      use_in ◌>>=◌
  by_socket s true e = rw e refl
  by_socket s false e = rw e refl

  -- `receive_answer` and `receive_answers` of the Layer 3 socket, which send nothing, raise
  -- AttributeError whatever the state of the socket, and change nothing: where it is open,
  -- `send(None)` looks for a layer of None, and where it is closed, None has no `sniff_packets`.
  pub receive_answer_raises :
      (s : Layer3RawSocket wire version)
      → ◌≡◌ {A = Result (Option wire.Packet) × Layer3RawSocket wire version}
          (receive_answer wire version is_answer timeout s)
          (raised attribute_error, s)
        × ◌≡◌ {A = Result (List wire.Packet) × Layer3RawSocket wire version}
            (receive_answers wire version is_answer timeout s)
            (raised attribute_error, s)
  unfolding receive_answer receive_answers send_receive_packet first_found ◌>>=◌
  receive_answer_raises s = let e = by_socket s s.in_socket refl in (rw e refl, e)
