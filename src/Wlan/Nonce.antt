-- ===== src/Wlan/Nonce.antt =====
-- The nonce of CCMP and the fields of the frame that it is made of.
use cyclarity_in_vehicle_sdk.Prelude.{
  ℕ, ◌/◌, ◌%◌, ◌^◌, ◌<◌, ◌≡◌, refl, ap, true, false, not, ◌&&◌, List, [], ◌∷◌, ◌++◌, All, ◌==◌,
  arith, lt→ltb,
}
use cyclarity_in_vehicle_sdk.Prelude.Tables.{holds_below, holds_below-at}
use cyclarity_in_vehicle_sdk.Python.{ok}
use cyclarity_in_vehicle_sdk.Python.Bytes.{hex_digit, big_endian}
use cyclarity_in_vehicle_sdk.Python.Number.{digit_value}
use cyclarity_in_vehicle_sdk.Wlan.Fields.{
  hex_byte, decode_mac, PacketNumber, get_pn, pn2bin, without_colons, a2b_hex, addr2bin,
  create_nonce,
}

digits_table :
    holds_below (λ n. (digit_value (hex_digit n) == n) && not (hex_digit n == b':')) 16 ≡ true
unfolding holds_below digit_value hex_digit
digits_table = refl

digit_value-hex_digit : (n : ℕ) → n < 16 → digit_value (hex_digit n) ≡ n
digit_value-hex_digit n h = let e = holds_below-at _ 16 n h digits_table in ground (arith, e)

hex_digit-no_colon : (n : ℕ) → n < 16 → (hex_digit n == b':') ≡ false
hex_digit-no_colon n h = let e = holds_below-at _ 16 n h digits_table in ground (arith, e)

without_colons-byte :
    (b : ℕ) (text : List ℕ)
    → b < 256
    → without_colons (hex_byte b ++ text) ≡ hex_byte b ++ without_colons text
unfolding without_colons
without_colons-byte b text h =
    rw (hex_digit-no_colon (b / 16) (omega (arith, h)), hex_digit-no_colon (b % 16) (omega arith))
      refl

a2b_hex-byte :
    (b : ℕ) (text rest : List ℕ)
    → b < 256
    → a2b_hex text ≡ ok rest
    → a2b_hex (hex_byte b ++ text) ≡ ok (b ∷ rest)
unfolding a2b_hex
a2b_hex-byte b text rest h e =
    rw
      (
        digit_value-hex_digit (b / 16) (omega (arith, h)),
        digit_value-hex_digit (b % 16) (omega arith),
        lt→ltb (b / 16) 16 (omega (arith, h)),
        lt→ltb (b % 16) 16 (omega arith),
        e,
      )
      (ap (λ (d : ℕ). ok (d ∷ rest)) (omega arith))

addr2bin-decode_mac :
    (bytes : List ℕ) → All (λ b. b < 256) bytes → addr2bin (decode_mac bytes) ≡ ok bytes
unfolding addr2bin decode_mac without_colons a2b_hex
addr2bin-decode_mac [] h = refl
addr2bin-decode_mac (b ∷ []) h = rw (without_colons-byte b [] h.0) (a2b_hex-byte b [] [] h.0 refl)
addr2bin-decode_mac (b ∷ c ∷ bs) h = rw (without_colons-byte b (b':' ∷ decode_mac (c ∷ bs)) h.0) (
    a2b_hex-byte b (without_colons (b':' ∷ decode_mac (c ∷ bs))) (c ∷ bs) h.0
      (addr2bin-decode_mac (c ∷ bs) h.1))

-- A byte of the packet number.
abbrev pub AreBytes : PacketNumber → Type 0
AreBytes p =
    (p.pn0 < 256) × (p.pn1 < 256) × (p.pn2 < 256) × (p.pn3 < 256) × (p.pn4 < 256) × (p.pn5 < 256)

pn2bin-get_pn :
    (p : PacketNumber)
    → AreBytes p
    → pn2bin (get_pn p) ≡ p.pn5 ∷ p.pn4 ∷ p.pn3 ∷ p.pn2 ∷ p.pn1 ∷ p.pn0 ∷ []
unfolding pn2bin get_pn big_endian
pn2bin-get_pn p h =
    let n : ℕ = get_pn p in
    let e5 : n / 256 ^ 5 % 256 ≡ p.pn5 = omega (arith, h) in
    let e4 : n / 256 ^ 4 % 256 ≡ p.pn4 = omega (arith, h) in
    let e3 : n / 256 ^ 3 % 256 ≡ p.pn3 = omega (arith, h) in
    let e2 : n / 256 ^ 2 % 256 ≡ p.pn2 = omega (arith, h) in
    let e1 : n / 256 ^ 1 % 256 ≡ p.pn1 = omega (arith, h) in
    let e0 : n / 256 ^ 0 % 256 ≡ p.pn0 = omega (arith, h) in
    λ i. e5 i ∷ e4 i ∷ e3 i ∷ e2 i ∷ e1 i ∷ e0 i ∷ []

-- The nonce of a frame is the priority, the bytes of its second address, and the packet number
-- from its highest byte down, as the header of CCMP holds it from the lowest up. The address is read
-- back from its text, and all the bytes are below 256.
pub create_nonce-fields :
    (tid : ℕ) (address2 : List ℕ) (p : PacketNumber)
    → All (λ b. b < 256) address2
    → AreBytes p
    → create_nonce tid (decode_mac address2) (get_pn p)
      ≡ ok (tid ∷ address2 ++ (p.pn5 ∷ p.pn4 ∷ p.pn3 ∷ p.pn2 ∷ p.pn1 ∷ p.pn0 ∷ []))
unfolding create_nonce
create_nonce-fields tid address2 p h k = rw (addr2bin-decode_mac address2 h, pn2bin-get_pn p k) refl
