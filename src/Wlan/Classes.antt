-- ===== src/Wlan/Classes.antt =====
-- Which networks are taken for WPA3 and for its transition mode.
use cyclarity_in_vehicle_sdk.Prelude.{
  ◌≡◌, ◌≢◌, ◌↔◌, ◌⊎◌, inl, inr, refl, sym, ap, ◌∙◌, Bool, true, false, not, ◌&&◌, ◌||◌, Option,
  none, some, List, [], ◌∷◌, ◌++◌, all, any, All, if◌then◌else◌, false≢true, arith,
}
use cyclarity_in_vehicle_sdk.Wlan.{
  WifiSecurity, wpa2, wpa3, wpa3_tran, AkmSuite, ieee_psk, ieee_psk_sha256, ieee_sae, other_akm,
  RsnCipherSuite, ieee_wep40, ieee_tkip, ieee_wep104, other_cipher, RsnCapabilities, Rsn, is_sae,
  is_bad_auth, is_tran_auth, is_bad_cipher, ciphers_of, is_protected, rsn_security,
}

abbrev pub Has : {A : Type 0} → (A → Type 0) → List A → Type 0
Has P [] = ⊥
Has P (x ∷ xs) = P x ⊎ Has P xs

-- Management Frame Protection is capable, and required as `required` says.
abbrev pub IsProtected : Bool → Rsn → Type 0
IsProtected required rsn =
    (c : RsnCapabilities) × (rsn.rsn_capabilities ≡ some c)
    × (c.management_frame_protection_required ≡ required)
    × (c.management_frame_protection_capable ≡ true)

abbrev pub IsStrong : RsnCipherSuite → Type 0
IsStrong c = (c ≢ ieee_wep40) × (c ≢ ieee_tkip) × (c ≢ ieee_wep104)

abbrev pub IsStrongOption : Option RsnCipherSuite → Type 0
IsStrongOption none = Unit
IsStrongOption (some c) = IsStrong c

abbrev pub HasStrongCiphers : Rsn → Type 0
HasStrongCiphers rsn =
    IsStrong rsn.group_cipher_suite
    × (All IsStrong rsn.pairwise_cipher_suites × IsStrongOption rsn.group_managment_cipher_suite)

-- The requirements on a network of WPA3 only.
abbrev pub IsWpa3 : Rsn → Type 0
IsWpa3 rsn =
    IsProtected true rsn
    × (Has (λ a. a ≡ ieee_sae) rsn.akm_suites
        × (All (λ a. (a ≢ ieee_psk) × (a ≢ ieee_psk_sha256)) rsn.akm_suites × HasStrongCiphers rsn))

-- One of the two suites of the transition mode is enough.
abbrev pub IsTransition : Rsn → Type 0
IsTransition rsn = IsProtected false rsn × Has (λ a. (a ≡ ieee_psk) ⊎ (a ≡ ieee_sae)) rsn.akm_suites

or_iff : {P Q : Type 0} (a b : Bool) → (a ≡ true) ↔ P → (b ≡ true) ↔ Q → (a || b ≡ true) ↔ (P ⊎ Q)
or_iff true b p q = (λ e. inl (p.0 refl), λ h. refl)
or_iff false b p q =
    (λ e. inr (q.0 e), λ h. elim h [ inl x ↦ absurd (false≢true (p.1 x)) | inr y ↦ q.1 y ])

and_iff : {P Q : Type 0} (a b : Bool) → (a ≡ true) ↔ P → (b ≡ true) ↔ Q → (a && b ≡ true) ↔ (P × Q)
and_iff true b p q = (λ e. (p.0 refl, q.0 e), λ h. q.1 h.1)
and_iff false b p q = (λ e. absurd (false≢true e), λ h. absurd (false≢true (p.1 h.0)))

any_iff :
    {A : Type 0} (p : A → Bool) (P : A → Type 0)
    → ((a : A) → (p a ≡ true) ↔ P a)
    → (xs : List A) → (any p xs ≡ true) ↔ Has P xs
any_iff p P h [] = (λ e. absurd (false≢true e), λ e. absurd e)
any_iff p P h (x ∷ xs) = or_iff (p x) (any p xs) (h x) (any_iff p P h xs)

all_iff :
    {A : Type 0} (p : A → Bool) (P : A → Type 0)
    → ((a : A) → (p a ≡ true) ↔ P a)
    → (xs : List A) → (all p xs ≡ true) ↔ All P xs
all_iff p P h [] = (λ e. tt, λ e. refl)
all_iff p P h (x ∷ xs) = and_iff (p x) (all p xs) (h x) (all_iff p P h xs)

sae_iff : (a : AkmSuite) → (is_sae a ≡ true) ↔ (a ≡ ieee_sae)
sae_iff ieee_psk = (λ e. cc, λ e. cc)
sae_iff ieee_psk_sha256 = (λ e. cc, λ e. cc)
sae_iff ieee_sae = (λ e. refl, λ e. refl)
sae_iff other_akm = (λ e. cc, λ e. cc)

good_auth_iff :
    (a : AkmSuite) → (not (is_bad_auth a) ≡ true) ↔ ((a ≢ ieee_psk) × (a ≢ ieee_psk_sha256))
good_auth_iff ieee_psk = (λ e. cc, λ h. absurd (h.0 refl))
good_auth_iff ieee_psk_sha256 = (λ e. cc, λ h. absurd (h.1 refl))
good_auth_iff ieee_sae = (λ e. (λ x. cc, λ x. cc), λ h. refl)
good_auth_iff other_akm = (λ e. (λ x. cc, λ x. cc), λ h. refl)

tran_auth_iff : (a : AkmSuite) → (is_tran_auth a ≡ true) ↔ ((a ≡ ieee_psk) ⊎ (a ≡ ieee_sae))
tran_auth_iff ieee_psk = (λ e. inl refl, λ h. refl)
tran_auth_iff ieee_sae = (λ e. inr refl, λ h. refl)
tran_auth_iff ieee_psk_sha256 = (λ e. cc, λ h. elim h [ inl x ↦ cc | inr x ↦ cc ])
tran_auth_iff other_akm = (λ e. cc, λ h. elim h [ inl x ↦ cc | inr x ↦ cc ])

IsStrong-iff : (c : RsnCipherSuite) → (not (is_bad_cipher c) ≡ true) ↔ IsStrong c
IsStrong-iff ieee_wep40 = (λ e. cc, λ h. absurd (h.0 refl))
IsStrong-iff ieee_tkip = (λ e. cc, λ h. absurd (h.1 refl))
IsStrong-iff ieee_wep104 = (λ e. cc, λ h. absurd (h.2 refl))
IsStrong-iff other_cipher = (λ e. (λ x. cc, λ x. cc, λ x. cc), λ h. refl)

flag_iff : (required b : Bool) → ((if required then b else not b) ≡ true) ↔ (b ≡ required)
flag_iff true b = (λ e. e, λ e. e)
flag_iff false true = (λ e. cc, λ e. cc)
flag_iff false false = (λ e. refl, λ e. refl)

protected_iff :
    (required : Bool) (o : Option RsnCapabilities)
    → (is_protected required o ≡ true) ↔ (
        (c : RsnCapabilities) × (o ≡ some c)
        × (c.management_frame_protection_required ≡ required)
        × (c.management_frame_protection_capable ≡ true))
protected_iff required none = (λ e. cc, λ h. cc)
protected_iff required (some c) = (there, back)
  where
    both : (is_protected required (some c) ≡ true) ↔ (
        (c.management_frame_protection_required ≡ required)
        × (c.management_frame_protection_capable ≡ true))
    both =
        and_iff _ c.management_frame_protection_capable
          (flag_iff required c.management_frame_protection_required) (λ e. e, λ e. e)

    there :
        is_protected required (some c) ≡ true
        → (d : RsnCapabilities) × (some c ≡ some d)
          × (d.management_frame_protection_required ≡ required)
          × (d.management_frame_protection_capable ≡ true)
    there e = let (r, k) = both.0 e in (c, refl, r, k)

    back :
        (d : RsnCapabilities) × (some c ≡ some d)
          × (d.management_frame_protection_required ≡ required)
          × (d.management_frame_protection_capable ≡ true)
        → is_protected required (some c) ≡ true
    back (d, same, r, k) =
        let e : c ≡ d = cc in
        both.1 (
          ap (λ (x : RsnCapabilities). x.management_frame_protection_required) e ∙ r,
          ap (λ (x : RsnCapabilities). x.management_frame_protection_capable) e ∙ k,
        )

some-inj : {A : Type 0} {a b : A} → ◌≡◌ {A = Option A} (some a) (some b) → a ≡ b
some-inj e = cc

all-append :
    {A : Type 0} (p : A → Bool) (xs ys : List A) → all p (xs ++ ys) ≡ (all p xs && all p ys)
all-append p [] ys = refl
all-append p (x ∷ xs) ys = ground (arith, all-append p xs ys)

IsStrongOption-iff :
    (o : Option RsnCipherSuite)
    → (all (λ c. not (is_bad_cipher c)) (elim o [ none ↦ [] | some cipher ↦ cipher ∷ [] ]) ≡ true)
      ↔ IsStrongOption o
IsStrongOption-iff none = (λ e. tt, λ h. refl)
IsStrongOption-iff (some c) =
    let (there, back) = and_iff _ true (IsStrong-iff c) (λ e. tt, λ h. refl) in
    (λ e. (there e).0, λ h. back (h, tt))

abbrev test3 : Rsn → Bool
test3 rsn =
    is_protected true rsn.rsn_capabilities
    && (any is_sae rsn.akm_suites
        && (all (λ akm. not (is_bad_auth akm)) rsn.akm_suites
            && all (λ cipher. not (is_bad_cipher cipher)) (ciphers_of rsn)))

ciphers_iff :
    (rsn : Rsn)
    → (all (λ cipher. not (is_bad_cipher cipher)) (ciphers_of rsn) ≡ true) ↔ HasStrongCiphers rsn
ciphers_iff rsn = rw (all-append (λ c. not (is_bad_cipher c)) rsn.pairwise_cipher_suites _) (
    and_iff _ _ (IsStrong-iff rsn.group_cipher_suite) (
      and_iff _ _
        (all_iff (λ c. not (is_bad_cipher c)) IsStrong IsStrong-iff rsn.pairwise_cipher_suites)
        (IsStrongOption-iff rsn.group_managment_cipher_suite)))

IsWpa3-iff : (rsn : Rsn) → (test3 rsn ≡ true) ↔ IsWpa3 rsn
IsWpa3-iff rsn = and_iff _ _ (protected_iff true rsn.rsn_capabilities) (
    and_iff _ _ (any_iff is_sae (λ a. a ≡ ieee_sae) sae_iff rsn.akm_suites) (
      and_iff _ _
        (all_iff (λ akm. not (is_bad_auth akm)) (λ a. (a ≢ ieee_psk) × (a ≢ ieee_psk_sha256))
          good_auth_iff rsn.akm_suites)
        (ciphers_iff rsn)))

abbrev test_tran : Rsn → Bool
test_tran rsn = is_protected false rsn.rsn_capabilities && any is_tran_auth rsn.akm_suites

IsTransition-iff : (rsn : Rsn) → (test_tran rsn ≡ true) ↔ IsTransition rsn
IsTransition-iff rsn =
    and_iff _ _ (protected_iff false rsn.rsn_capabilities)
      (any_iff is_tran_auth (λ a. (a ≡ ieee_psk) ⊎ (a ≡ ieee_sae)) tran_auth_iff rsn.akm_suites)

-- Protection is not both required and not required.
exclusive : (rsn : Rsn) → IsWpa3 rsn → IsTransition rsn → ⊥
exclusive rsn ((c, e, r, k), rest) ((d, e', r', k'), rest') =
    let same : c ≡ d = some-inj (sym e ∙ e') in
    false≢true (
      sym r'
      ∙ (sym (ap (λ (x : RsnCapabilities). x.management_frame_protection_required) same) ∙ r))

by_tests :
    (a b : Bool)
    → ((a ≡ true) → (b ≡ true) → ⊥)
    → let verdict : WifiSecurity = if a then wpa3 else if b then wpa3_tran else wpa2 in
      ((verdict ≡ wpa3) ↔ (a ≡ true)) × ((verdict ≡ wpa3_tran) ↔ (b ≡ true))
by_tests true true no_both = absurd (no_both refl refl)
by_tests true false no_both = ((λ e. refl, λ e. refl), (λ e. cc, λ e. cc))
by_tests false true no_both = ((λ e. cc, λ e. cc), (λ e. refl, λ e. refl))
by_tests false false no_both = ((λ e. cc, λ e. cc), (λ e. cc, λ e. cc))

abbrev compose_iff : {P Q R : Type 0} → P ↔ Q → Q ↔ R → P ↔ R
compose_iff (f, g) (h, k) = (λ p. h (f p), λ r. g (k r))

-- A network is taken for WPA3 exactly where it meets every requirement on WPA3 only, and for the
-- transition mode exactly where protection of management frames is capable and not required, and one
-- of the suites PSK and SAE is there: the other need not be.
pub rsn_security_iff :
    (rsn : Rsn)
    → ((rsn_security rsn ≡ wpa3) ↔ IsWpa3 rsn) × ((rsn_security rsn ≡ wpa3_tran) ↔ IsTransition rsn)
unfolding rsn_security
rsn_security_iff rsn =
    let (strict, transition) =
      by_tests (test3 rsn) (test_tran rsn)
        (λ p q. exclusive rsn ((IsWpa3-iff rsn).0 p) ((IsTransition-iff rsn).0 q)) in
    (compose_iff strict (IsWpa3-iff rsn), compose_iff transition (IsTransition-iff rsn))
