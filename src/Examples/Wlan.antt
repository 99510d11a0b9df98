-- ===== src/Examples/Wlan.antt =====
-- A network, a frame and an interface of WLAN.
use Prim.Native.Nat.{bit_and}
use cyclarity_in_vehicle_sdk.Prelude.{
  ℕ, ◌+◌, ◌-◌, ◌%◌, ◌≡◌, ◌↔◌, refl, Bool, true, false, none, some, [], ◌∷◌, ◌==◌, if◌then◌else◌,
  arith,
}
use cyclarity_in_vehicle_sdk.Python.{ok}
use cyclarity_in_vehicle_sdk.Python.Text.{codes}
use cyclarity_in_vehicle_sdk.Wlan.{wpa3, wpa3_tran, ieee_psk, other_cipher, Rsn, rsn_security}
use cyclarity_in_vehicle_sdk.Wlan.Classes.{IsWpa3, IsTransition, rsn_security_iff}
use cyclarity_in_vehicle_sdk.Wlan.Fields.{
  decode_mac, encode_mac, PacketNumber, get_pn, create_nonce, flip_bits, convert_freq_to_channel,
}
use cyclarity_in_vehicle_sdk.Wlan.Nonce.{create_nonce-fields}
use cyclarity_in_vehicle_sdk.Wlan.Monitor.{
  WlanDriver, WifiMonitorSocket, open_monitor, close_monitor, iff_up_bit,
}
use cyclarity_in_vehicle_sdk.Wlan.Restored.{IsRadio, close_monitor-restores}

-- The transition mode without SAE.
abbrev half_transition : Rsn
half_transition = record {
  group_cipher_suite = other_cipher;
  pairwise_cipher_suites = other_cipher ∷ [];
  akm_suites = ieee_psk ∷ [];
  rsn_capabilities = some (record {
    management_frame_protection_required = false;
    management_frame_protection_capable = true;
  });
  group_managment_cipher_suite = none;
}

half_transition_security : rsn_security half_transition ≡ wpa3_tran
unfolding rsn_security
half_transition_security = refl

rsn_security_iff_example :
    ((rsn_security half_transition ≡ wpa3) ↔ IsWpa3 half_transition)
    × ((rsn_security half_transition ≡ wpa3_tran) ↔ IsTransition half_transition)
rsn_security_iff_example = rsn_security_iff half_transition

flipped : flip_bits 0b0010 4 ≡ 0b0100
unfolding flip_bits
flipped = refl

channel_14 : convert_freq_to_channel 2484 ≡ ok 15
unfolding convert_freq_to_channel
channel_14 = refl

mac_of : encode_mac (codes "0a:ff:00") ≡ ok (10 ∷ 255 ∷ 0 ∷ [])
unfolding encode_mac
mac_of = refl

abbrev number : PacketNumber
number = record { pn0 = 1; pn1 = 2; pn2 = 3; pn3 = 4; pn4 = 5; pn5 = 6 }

create_nonce-fields_example :
    create_nonce 5 (codes "0a:ff:00") 0x060504030201
    ≡ ok (5 ∷ 10 ∷ 255 ∷ 0 ∷ 6 ∷ 5 ∷ 4 ∷ 3 ∷ 2 ∷ 1 ∷ [])
unfolding decode_mac get_pn
create_nonce-fields_example =
    create_nonce-fields 5 (10 ∷ 255 ∷ 0 ∷ []) number (omega arith) (omega arith)

-- An interface with its flags and its mode; going up and down writes the flag for that.
abbrev linked : Bool → ℕ × ℕ → ℕ × ℕ
linked true (f, m) = (if bit_and (f % 0x10000) iff_up_bit == 0 then f + 1 else f, m)
linked false (f, m) = (f - bit_and f iff_up_bit, m)

abbrev card : WlanDriver
card = record {
  Outside = ℕ × ℕ;
  is_called_process_error = λ e. false;
  make_socket = λ o. (ok tt, o);
  read_flags = λ o. (ok (o.0 % 0x10000), o);
  write_if_flags = λ f o. (ok tt, (f, o.1));
  read_mode = λ o. (ok o.1, o);
  write_mode = λ m o. (ok tt, (o.0, m));
  set_link = λ up o. (ok tt, linked up o);
  bind_interface = λ o. (ok tt, o);
  set_blocking = λ b o. (ok tt, o);
  select_soon = λ o. (ok false, o);
  discard = λ o. (ok [], o);
  close_raw_socket = λ o. (ok tt, o);
}

linked-mode : (up : Bool) (o : ℕ × ℕ) → (linked up o).1 ≡ o.1
linked-mode true o = refl
linked-mode false o = refl

linked-flags :
    (up : Bool) (o : ℕ × ℕ)
    → up ≡ true
    → (bit_and (o.0 % 0x10000) iff_up_bit == 0) ≡ false
    → (linked up o).0 % 0x10000 ≡ o.0 % 0x10000
linked-flags true o e on = rw on refl
linked-flags false o e on = cc

card-IsRadio : IsRadio card
card-IsRadio = record {
  flags = λ o. o.0 % 0x10000;
  mode = λ o. o.1;
  flags_lt = λ o. omega arith;
  makes = λ o. (o, refl, refl, refl);
  flags_read = λ o. refl;
  mode_read = λ o. refl;
  flags_written = λ f o small. ((f, o.1), refl, omega (arith, small), refl);
  mode_written = λ m o. ((o.0, m), refl, refl, refl);
  links = λ up o. (linked up o, refl, linked-mode up o, linked-flags up o);
  closes = λ o. (o, refl, refl, refl);
}

abbrev managed : WifiMonitorSocket card
managed = record {
  raw_socket = false;
  original_flags = none;
  original_mode = none;
  outside = (0x1003, 2);
}

close_monitor-restores_example :
    (s' : WifiMonitorSocket card) × (close_monitor card (open_monitor card 3 managed).1
      ≡ (ok true, s'))
    × (s'.outside.0 % 0x10000 ≡ 0x1003)
    × (s'.outside.1 ≡ 2)
    × (s'.raw_socket ≡ false)
unfolding card-IsRadio
close_monitor-restores_example = close_monitor-restores card card-IsRadio 3 managed
