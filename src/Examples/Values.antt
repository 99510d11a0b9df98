-- ===== src/Examples/Values.antt =====
-- Runs of the number sets and of the addresses.
use cyclarity_in_vehicle_sdk.Prelude.{ℕ, ◌≡◌, refl, some, List, [], ◌∷◌}
use cyclarity_in_vehicle_sdk.Prelude.Int.{pos}
use cyclarity_in_vehicle_sdk.Python.{ok, raised, value_error}
use cyclarity_in_vehicle_sdk.Python.Number.{int}
use cyclarity_in_vehicle_sdk.RangeSet.{Range, split, parse_nmap_ranges, dec_number_range_set}
use cyclarity_in_vehicle_sdk.RangeSet.Members.{
  Writes, written, span, number, no_more, Holds, parse_nmap_ranges-Holds,
}
use cyclarity_in_vehicle_sdk.Address.{ipv4, build_ip}
use cyclarity_in_vehicle_sdk.Address.Network.{InNetwork, build_ip-InNetwork}

-- "7-8,1"
abbrev seven_eight_one : List ℕ
seven_eight_one = b'7' ∷ b'-' ∷ b'8' ∷ b',' ∷ b'1' ∷ []

abbrev range : ℕ → ℕ → Range
range start stop = record { start = start; stop = stop }

parsed : parse_nmap_ranges (int 10) seven_eight_one ≡ ok (range 1 2 ∷ range 7 9 ∷ [])
unfolding parse_nmap_ranges int
parsed = refl

written_bounds : Writes (int 10) seven_eight_one ((7, 8) ∷ (1, 1) ∷ [])
unfolding split int
written_bounds = written (span refl refl refl (number refl refl no_more))

parse_nmap_ranges-Holds_example :
    (rs : List Range) × (parse_nmap_ranges (int 10) seven_eight_one ≡ ok rs)
    × Holds (int 10) rs ((7, 8) ∷ (1, 1) ∷ [])
parse_nmap_ranges-Holds_example =
    parse_nmap_ranges-Holds (int 10) seven_eight_one ((7, 8) ∷ (1, 1) ∷ []) written_bounds

-- "1-2-3" has one dash too many.
refused : dec_number_range_set (b'1' ∷ b'-' ∷ b'2' ∷ b'-' ∷ b'3' ∷ []) ≡ raised value_error
unfolding dec_number_range_set
refused = refl

abbrev lowest : ℕ → ℕ → ℕ
lowest low high = low

-- 192.168.1.77 in a network of eight host bits, with the host part 5.
built : build_ip lowest (ipv4 3232235853) (pos 24) (some (pos 5)) ≡ ok (some (ipv4 3232235781))
unfolding build_ip
built = refl

build_ip-InNetwork_example : InNetwork lowest (ipv4 3232235853) (pos 24) (ipv4 3232235781)
build_ip-InNetwork_example =
    build_ip-InNetwork lowest (ipv4 3232235853) (pos 24) (some (pos 5)) (ipv4 3232235781) built
