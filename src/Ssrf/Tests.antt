-- ===== src/Ssrf/Tests.antt =====
-- Tests of the URL check, and the theorems at concrete inputs.
use job_application_api.Prelude.{
  ℕ, String, ◌≡◌, refl, ◌↔◌, true, false, Option, none, some, ◌==◌, arith, if◌then◌else◌,
}
use job_application_api.Js.{
  is_digit, parse_int, split, shift_left_8, unsigned_shift_0, add_number, to_lower_case, includes,
}
use job_application_api.Ssrf.{
  Url, add_octet, ip_to_number, is_in_private_range, is_private_ipv6, is_unsafe_url,
}
use job_application_api.Ssrf.Ranges.{IsOctet, IsPrivate, dotted, is_in_private_range-dotted_iff}

private_172 : is_in_private_range "172.20.1.9" ≡ true
unfolding is_in_private_range ip_to_number add_octet parse_int split shift_left_8 unsigned_shift_0
    add_number
private_172 = refl

public_172 : is_in_private_range "172.32.0.1" ≡ false
unfolding is_in_private_range ip_to_number add_octet parse_int split shift_left_8 unsigned_shift_0
    add_number
public_172 = refl

unique_local : is_private_ipv6 "FD00::1" ≡ true
unfolding is_private_ipv6 to_lower_case
unique_local = refl

IsOctet-10 : IsOctet "10" 10
unfolding parse_int
IsOctet-10 = record { dot_free = omega arith; reads = refl; byte = omega arith }

IsOctet-1 : IsOctet "1" 1
unfolding parse_int
IsOctet-1 = record { dot_free = omega arith; reads = refl; byte = omega arith }

is_in_private_range-dotted_iff_example :
    (is_in_private_range (dotted "10" "1" "1" "1") ≡ true) ↔ IsPrivate 10 1
is_in_private_range-dotted_iff_example =
    is_in_private_range-dotted_iff "10" "1" "1" "1" 10 1 1 1 IsOctet-10 IsOctet-1 IsOctet-1
      IsOctet-1

-- stand-ins for `new URL` and `net.isIP` on the texts of these tests
test_url : String → Option Url
test_url url =
    if url == "http://10.1.1.1/"
    then some (record { protocol = "http:"; hostname = "10.1.1.1" })
    else if url == "http://[fd00::1]/"
    then some (record { protocol = "http:"; hostname = "[fd00::1]" })
    else none

test_ip : String → ℕ
test_ip host = if host == "10.1.1.1" then 4 else 0

-- a unique local address in a URL is let through, as the brackets hide it from `isIP`
unique_local_passes : is_unsafe_url test_url test_ip "http://[fd00::1]/" ≡ false
unfolding is_unsafe_url test_url test_ip is_digit to_lower_case includes
unique_local_passes = refl
