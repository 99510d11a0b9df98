-- ===== src/Raw/Layer2.antt =====
-- `Layer2RawSocket` of communication/ip/raw/raw_socket.py.
use cyclarity_in_vehicle_sdk.Prelude.{
  ℕ, zero, suc, ◌-◌, Bool, true, false, not, ◌&&◌, Option, none, some, List, [], ◌∷◌, ◌++◌, ltb,
  leb, ◌==◌, length, if◌then◌else◌,
}
use cyclarity_in_vehicle_sdk.Python.{
  Exec, Result, ok, pure, raise, lift, diverge, ◌>>=◌, ◌>>◌, generic_error,
}
use cyclarity_in_vehicle_sdk.Raw.{Wire, Sending, one_packet, packets, send_by, first_found}

module _ (wire : Wire) where
  open wire use {Outside, Packet, is_true, time, create_socket, send_one, send_all, receive_one}

  -- Whether `_raw_socket` is set.
  pub record Layer2RawSocket : Type 0 where
    pub raw_socket : Bool
    pub outside : Outside

  abbrev pub Layer2 : Type 0 → Type 0
  Layer2 A = Exec Layer2RawSocket A

  unfoldable pub on_wire : {A : Type 0} → Exec Outside A → Layer2 A
  on_wire m s = let (r, o) = m s.outside in (r, record s { outside = o })

  unfoldable pub set_raw_socket : Bool → Layer2 (Unit {0})
  set_raw_socket b s = (ok tt, record s { raw_socket = b })

  unfoldable pub open_raw : Layer2 Bool
  unfolding on_wire set_raw_socket
  open_raw = do on_wire create_socket; set_raw_socket true; pure true

  unfoldable pub close_raw : Layer2 Bool
  unfolding set_raw_socket
  close_raw = set_raw_socket false >> pure true

  unfoldable pub is_open_raw : Layer2RawSocket → Bool
  is_open_raw s = s.raw_socket

  unfoldable pub send_packet : Packet → Layer2 Bool
  unfolding on_wire ◌>>=◌
  send_packet packet s = if s.raw_socket then on_wire (send_one packet) s else pure false s

  unfoldable pub send_packets : List Packet → Layer2 Bool
  unfolding on_wire ◌>>=◌
  send_packets ps s = if s.raw_socket then on_wire (send_all ps) s else pure false s

  unfoldable pub send_raw : Sending Packet → Layer2 Bool
  unfolding is_open_raw send_packets send_packet send_by
  send_raw = send_by is_open_raw send_packets send_packet

  -- `max_answers and max_answers <= len(found_packets)`
  unfoldable pub is_enough : ℕ → List Packet → Bool
  is_enough max_answers found = not (max_answers == 0) && leb max_answers (length found)

  module _ (is_answer : Packet → Result Bool) (max_answers : ℕ) where
    -- What the loop does with a packet of which the callback has answered; `rest` goes on.
    unfoldable pub judge_packet :
        List Packet
        → (List Packet → Exec Outside (List Packet))
        → Packet
        → Bool
        → Exec Outside (List Packet)
    unfolding is_enough ◌>>=◌
    judge_packet found rest packet false = rest found
    judge_packet found rest packet true =
        if is_enough max_answers (found ++ (packet ∷ []))
        then pure (found ++ (packet ∷ []))
        else rest (found ++ (packet ∷ []))

    unfoldable pub on_received :
        List Packet
        → (List Packet → Exec Outside (List Packet))
        → Option Packet
        → Exec Outside (List Packet)
    unfolding judge_packet ◌>>=◌
    on_received found rest none = pure found
    on_received found rest (some packet) =
        if not (is_true packet)
        then pure found
        else (lift (is_answer packet) >>= judge_packet found rest packet)

    -- The loop of `find_packet`, from a time that has been spent and packets that were found.
    unfoldable pub find_packet : ℕ → ℕ → ℕ → ℕ → List Packet → Exec Outside (List Packet)
    unfolding on_received ◌>>=◌
    find_packet zero timeout start time_spent found = diverge
    find_packet (suc fuel) timeout start time_spent found =
        if not (ltb time_spent timeout)
        then pure found
        else (receive_one none (some (timeout - time_spent))
            >>= on_received found
                (λ found' o. find_packet fuel timeout start (time o - start) found' o))

    unfoldable pub run_find_packet : ℕ → ℕ → Exec Outside (List Packet)
    unfolding find_packet
    run_find_packet fuel timeout o = find_packet fuel timeout (time o) 0 [] o

  -- `if packet: self.send(packet)`
  unfoldable pub send_if_given : Option (Sending Packet) → Layer2 (Unit {0})
  unfolding send_raw ◌>>=◌
  send_if_given none = pure tt
  send_if_given (some (packets [])) = pure tt
  send_if_given (some (packets (p ∷ ps))) = send_raw (packets (p ∷ ps)) >> pure tt
  send_if_given (some (one_packet p)) =
      if not (is_true p) then pure tt else (send_raw (one_packet p) >> pure tt)

  -- The task of the loop runs when the packets have been sent.
  unfoldable pub send_receive :
      ℕ → Option (Sending Packet) → (Packet → Result Bool) → ℕ → ℕ → Layer2 (List Packet)
  unfolding send_if_given run_find_packet on_wire ◌>>=◌
  send_receive fuel packet is_answer timeout max_answers s =
      if not s.raw_socket
      then raise generic_error s
      else (send_if_given packet >>= λ sent.
            on_wire (run_find_packet is_answer max_answers fuel timeout))
          s

  unfoldable pub send_receive_packet :
      ℕ → Option (Sending Packet) → (Packet → Result Bool) → ℕ → Layer2 (Option Packet)
  unfolding send_receive first_found
  send_receive_packet fuel packet is_answer timeout =
      first_found (send_receive fuel packet is_answer timeout 1)

  unfoldable pub send_receive_packets :
      ℕ → Option (Sending Packet) → (Packet → Result Bool) → ℕ → Layer2 (List Packet)
  unfolding send_receive
  send_receive_packets fuel packet is_answer timeout = send_receive fuel packet is_answer timeout 0

  unfoldable pub receive_raw : ℕ → Layer2 (Option Packet)
  unfolding on_wire ◌>>=◌
  receive_raw timeout s =
      if not s.raw_socket
      then raise generic_error s
      else on_wire
          (if ltb 0 timeout then receive_one (some false) (some timeout) else receive_one none none)
          s

  unfoldable pub receive_answer : ℕ → (Packet → Result Bool) → ℕ → Layer2 (Option Packet)
  unfolding send_receive_packet
  receive_answer fuel is_answer timeout = send_receive_packet fuel none is_answer timeout

  unfoldable pub receive_answers : ℕ → (Packet → Result Bool) → ℕ → Layer2 (List Packet)
  unfolding send_receive_packets
  receive_answers fuel is_answer timeout = send_receive_packets fuel none is_answer timeout
