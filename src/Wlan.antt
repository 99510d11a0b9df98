-- ===== src/Wlan.antt =====
-- `WiFiPacket` of communication/wlan/wlan_communicator.py: its elements, and the security that they
-- announce. The parsed frame, which the package construct makes, is a value of the types here.
pub mod Classes
pub mod Fields
pub mod Nonce
pub mod Monitor
pub mod Restored
use cyclarity_in_vehicle_sdk.Prelude.{
  ℕ, Bool, true, false, not, ◌&&◌, ◌||◌, Option, none, some, List, [], ◌∷◌, ◌++◌, all, any, ◌==◌,
  if◌then◌else◌,
}

pub data WifiSecurity : Type 0 where
  unknown_security open_security wep wpa wpa2 wpa3 wpa3_tran : WifiSecurity

-- The suites that the classification looks at.
pub data AkmSuite : Type 0 where
  ieee_psk ieee_psk_sha256 ieee_sae other_akm : AkmSuite

pub data RsnCipherSuite : Type 0 where
  ieee_wep40 ieee_tkip ieee_wep104 other_cipher : RsnCipherSuite

pub record RsnCapabilities : Type 0 where
  pub management_frame_protection_required : Bool
  pub management_frame_protection_capable : Bool

-- An element RSN.
pub record Rsn : Type 0 where
  pub group_cipher_suite : RsnCipherSuite
  pub pairwise_cipher_suites : List RsnCipherSuite
  pub akm_suites : List AkmSuite
  pub rsn_capabilities : Option RsnCapabilities
  pub group_managment_cipher_suite : Option RsnCipherSuite

-- `akm in wpa3_must_auth`, `akm in wpa3_bad_auth`, `akm in wpa3_tran_must_auth`
abbrev pub is_sae : AkmSuite → Bool
is_sae ieee_sae = true
is_sae ieee_psk = false
is_sae ieee_psk_sha256 = false
is_sae other_akm = false

abbrev pub is_bad_auth : AkmSuite → Bool
is_bad_auth ieee_psk = true
is_bad_auth ieee_psk_sha256 = true
is_bad_auth ieee_sae = false
is_bad_auth other_akm = false

abbrev pub is_tran_auth : AkmSuite → Bool
is_tran_auth ieee_psk = true
is_tran_auth ieee_sae = true
is_tran_auth ieee_psk_sha256 = false
is_tran_auth other_akm = false

abbrev pub is_bad_cipher : RsnCipherSuite → Bool
is_bad_cipher ieee_wep40 = true
is_bad_cipher ieee_tkip = true
is_bad_cipher ieee_wep104 = true
is_bad_cipher other_cipher = false

abbrev pub ciphers_of : Rsn → List RsnCipherSuite
ciphers_of rsn =
    rsn.group_cipher_suite
    ∷ (rsn.pairwise_cipher_suites
        ++ elim rsn.group_managment_cipher_suite [ none ↦ [] | some cipher ↦ cipher ∷ [] ])

-- Management Frame Protection is capable, and required or not.
abbrev pub is_protected : Bool → Option RsnCapabilities → Bool
is_protected required none = false
is_protected required (some capabilities) =
    (if required
      then capabilities.management_frame_protection_required
      else not capabilities.management_frame_protection_required)
    && capabilities.management_frame_protection_capable

unfoldable pub rsn_security : Rsn → WifiSecurity
rsn_security rsn =
    if is_protected true rsn.rsn_capabilities
      && (any is_sae rsn.akm_suites
          && (all (λ akm. not (is_bad_auth akm)) rsn.akm_suites
              && all (λ cipher. not (is_bad_cipher cipher)) (ciphers_of rsn)))
    then wpa3
    else if is_protected false rsn.rsn_capabilities && any is_tran_auth rsn.akm_suites
    then wpa3_tran
    else wpa2

-- What is read of a vendor's element: whether it is one of Microsoft, and of the type WPA.
pub record VendorElement : Type 0 where
  pub is_microsoft : Bool
  pub is_wpa : Bool

-- The elements that `security` looks at, and the bit for privacy of the capabilities.
pub record Announced : Type 0 where
  pub vendor_specific : List VendorElement
  pub rsn : Option Rsn
  pub privacy : Bool

abbrev pub wpa_of : List VendorElement → List WifiSecurity
wpa_of vendors =
    if any (λ (e : VendorElement). e.is_microsoft && e.is_wpa) vendors then wpa ∷ [] else []

abbrev pub rsn_of : Option Rsn → List WifiSecurity
rsn_of none = []
rsn_of (some rsn) = rsn_security rsn ∷ []

-- Without an announcement, privacy means WEP.
abbrev pub or_legacy : Bool → List WifiSecurity → List WifiSecurity
or_legacy privacy [] = (if privacy then wep else open_security) ∷ []
or_legacy privacy (kind ∷ kinds) = kind ∷ kinds

unfoldable pub security_of : Announced → List WifiSecurity
unfolding rsn_security
security_of packet = or_legacy packet.privacy (wpa_of packet.vendor_specific ++ rsn_of packet.rsn)

-- An element of information: its number, and what it says.
pub record Element (I : Type 0) : Type 0 where
  pub id : ℕ
  pub info : I

-- An entry of `self.elements`: the list of a repeating element, or the first of another.
pub data Entry (I : Type 0) : Type 0 where
  repeated : List (Element I) → Entry I
  single : Element I → Entry I

module _ {I : Type 0} (repeating : ℕ → Bool) where
  -- `self.elements[element.id]`
  unfoldable pub entry_of : ℕ → List (ℕ × Entry I) → Option (Entry I)
  entry_of id [] = none
  entry_of id ((id', entry) ∷ elements) =
      let later = entry_of id elements in if id == id' then some entry else later

  -- A repeating element goes to the end of its list; of another, the first is kept.
  unfoldable pub put_element : Element I → List (ℕ × Entry I) → List (ℕ × Entry I)
  put_element element [] =
      (element.id, if repeating element.id then repeated (element ∷ []) else single element) ∷ []
  put_element element ((id, entry) ∷ elements) =
      let later = put_element element elements in
      if not (element.id == id) then (id, entry) ∷ later else elim entry [
        | repeated list ↦ (id, repeated (list ++ (element ∷ []))) ∷ elements
        | single first ↦ (id, single first) ∷ elements
      ]

  unfoldable pub parse_ie_elements : List (Element I) → List (ℕ × Entry I) → List (ℕ × Entry I)
  unfolding put_element
  parse_ie_elements [] elements = elements
  parse_ie_elements (element ∷ rest) elements =
      parse_ie_elements rest (put_element element elements)
