-- ===== src/Wlan/Fields.antt =====
-- The fields of frames: the adapters of communication/wlan/mac_parsing.py, the channels of
-- communication/wlan/radiotap_prasing.py, and the nonce of communication/wlan/crypto_utils.py.
use Prim.Native.Nat.{bit_and, bit_or}
use cyclarity_in_vehicle_sdk.Prelude.{
  ℕ, zero, suc, ◌+◌, ◌-◌, ◌*◌, ◌/◌, ◌%◌, Bool, not, ◌&&◌, Option, none, some, List, [], ◌∷◌, ◌++◌,
  drop, leb, ltb, ◌==◌, if◌then◌else◌,
}
use cyclarity_in_vehicle_sdk.Python.{Result, ok, raised, stuck, value_error}
use cyclarity_in_vehicle_sdk.Python.Bytes.{hex_digit, big_endian}
use cyclarity_in_vehicle_sdk.RangeSet.{split}
use cyclarity_in_vehicle_sdk.Python.Number.{digit_value, int}

-- `format(value, '0{n}b')[::-1]` of a value of at most `n` bits: the lowest bit first.
unfoldable pub reversed_bits : ℕ → ℕ → List ℕ
reversed_bits zero value = []
reversed_bits (suc num_bits) value = (value % 2) ∷ reversed_bits num_bits (value / 2)

-- `int(text, 2)`
unfoldable pub binary_value : ℕ → List ℕ → ℕ
binary_value total [] = total
binary_value total (b ∷ bits) = binary_value (total * 2 + b) bits

-- `_flip_bits`, the same for both directions of `SwapBitsAdapter`.
unfoldable pub flip_bits : ℕ → ℕ → ℕ
unfolding reversed_bits binary_value
flip_bits value num_bits = binary_value 0 (reversed_bits num_bits value)

-- `format(b, '02x')`
abbrev pub hex_byte : ℕ → List ℕ
hex_byte b = hex_digit (b / 16) ∷ hex_digit (b % 16) ∷ []

-- `MacAddressAdapter._decode`
unfoldable pub decode_mac : List ℕ → List ℕ
unfolding hex_digit
decode_mac [] = []
decode_mac (b ∷ []) = hex_byte b
decode_mac (b ∷ c ∷ bs) = hex_byte b ++ (b':' ∷ decode_mac (c ∷ bs))

abbrev pub prepend_number : Option ℕ → Result (List ℕ) → Result (List ℕ)
prepend_number none rest = raised value_error
prepend_number (some n) (ok ns) = if ltb n 256 then ok (n ∷ ns) else raised value_error
prepend_number (some n) (raised e) = raised e
prepend_number (some n) stuck = stuck

-- `bytes(int(b, 16) for b in parts)`
unfoldable pub encode_parts : List (List ℕ) → Result (List ℕ)
unfolding int
encode_parts [] = ok []
encode_parts (part ∷ parts) = prepend_number (int 16 part) (encode_parts parts)

-- `MacAddressAdapter._encode`
unfoldable pub encode_mac : List ℕ → Result (List ℕ)
unfolding encode_parts split
encode_mac text = encode_parts (split b':' text)

-- `RateAdapter`, with the rate in halves of Mbps.
unfoldable pub decode_rate : ℕ → ℕ × Bool
decode_rate raw = (bit_and raw 0x7F, not (bit_and raw 0x80 == 0))

unfoldable pub encode_rate : ℕ × Bool → ℕ
encode_rate (halves, basic) = if basic then bit_or halves 0x80 else halves

unfoldable pub convert_channel_to_freq : ℕ → Result ℕ
convert_channel_to_freq channel =
    if leb 1 channel && leb channel 14 then ok (2407 + channel * 5) else raised value_error

unfoldable pub convert_freq_to_channel : ℕ → Result ℕ
convert_freq_to_channel center_freq_mhz =
    if leb 2407 center_freq_mhz && leb center_freq_mhz 2484
    then ok ((center_freq_mhz - 2407) / 5)
    else raised value_error

-- The bytes of the packet number in the header of CCMP.
pub record PacketNumber : Type 0 where
  pub pn0 : ℕ
  pub pn1 : ℕ
  pub pn2 : ℕ
  pub pn3 : ℕ
  pub pn4 : ℕ
  pub pn5 : ℕ

-- `(pn << 8) | b`, of a byte
abbrev pub push_byte : ℕ → ℕ → ℕ
push_byte pn b = pn * 256 + b

unfoldable pub get_pn : PacketNumber → ℕ
get_pn p =
    push_byte (push_byte (push_byte (push_byte (push_byte p.pn5 p.pn4) p.pn3) p.pn2) p.pn1) p.pn0

-- `struct.pack(">Q", pn)[2:]`
unfoldable pub pn2bin : ℕ → List ℕ
unfolding big_endian
pn2bin pn = drop 2 (big_endian 8 pn)

-- `addr.replace(':', '')`
unfoldable pub without_colons : List ℕ → List ℕ
without_colons [] = []
without_colons (c ∷ cs) = let rest = without_colons cs in if c == b':' then rest else c ∷ rest

abbrev pub prepend_octet : ℕ → Result (List ℕ) → Result (List ℕ)
prepend_octet b (ok bs) = ok (b ∷ bs)
prepend_octet b (raised e) = raised e
prepend_octet b stuck = stuck

-- `binascii.a2b_hex(text)`
unfoldable pub a2b_hex : List ℕ → Result (List ℕ)
unfolding digit_value
a2b_hex [] = ok []
a2b_hex (c ∷ []) = raised value_error
a2b_hex (c ∷ d ∷ cs) =
    let rest = a2b_hex cs in
    if ltb (digit_value c) 16 && ltb (digit_value d) 16
    then prepend_octet (digit_value c * 16 + digit_value d) rest
    else raised value_error

unfoldable pub addr2bin : List ℕ → Result (List ℕ)
unfolding without_colons a2b_hex
addr2bin addr = a2b_hex (without_colons addr)

abbrev pub nonce_of : ℕ → List ℕ → Result (List ℕ) → Result (List ℕ)
nonce_of priority pn (ok addr) = ok (priority ∷ addr ++ pn)
nonce_of priority pn (raised e) = raised e
nonce_of priority pn stuck = stuck

-- `_create_nonce`: the priority, the second address and the packet number.
unfoldable pub create_nonce : ℕ → List ℕ → ℕ → Result (List ℕ)
unfolding addr2bin pn2bin
create_nonce tid address2 pn = nonce_of tid (pn2bin pn) (addr2bin address2)
