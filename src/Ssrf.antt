-- ===== src/Ssrf.antt =====
-- src/common/validators/ssrf.validator.ts and is-not-private-url.validator.ts: the check of a
-- webhook URL against private networks. `new URL` (`none` where it throws) and `net.isIP` are
-- parameters.
pub mod Ranges
pub mod Hosts
mod Tests
use job_application_api.Prelude.{
  ℕ, String, Bool, true, not, ◌&&◌, ◌||◌, Option, none, some, List, [], ◌∷◌, any, reduce, leb, eqb,
  ◌==◌, if◌then◌else◌,
}
use job_application_api.Prelude.Int.{pos}
use job_application_api.Js.{
  Number, parse_int, split, shift_left_8, unsigned_shift_0, add_number, to_lower_case, includes,
}
use text.Mathlib.Text.{starts_with}

pub record AddressRange : Type 0 where
  pub start : String
  pub end : String

abbrev private_ranges : List AddressRange
private_ranges =
    record { start = "10.0.0.0"; end = "10.255.255.255" }
    ∷ record { start = "172.16.0.0"; end = "172.31.255.255" }
    ∷ record { start = "192.168.0.0"; end = "192.168.255.255" }
    ∷ record { start = "127.0.0.0"; end = "127.255.255.255" }
    ∷ record { start = "169.254.0.0"; end = "169.254.255.255" }
    ∷ record { start = "0.0.0.0"; end = "0.255.255.255" }
    ∷ []

add_octet : Number → String → Number
add_octet acc octet = add_number (shift_left_8 acc) (parse_int octet)

pub ip_to_number : String → ℕ
ip_to_number ip = unsigned_shift_0 (reduce add_octet (some (pos 0)) (split b'.' ip))

pub is_in_private_range : String → Bool
is_in_private_range ip =
    let ip_num = ip_to_number ip in
    any (λ r. leb (ip_to_number r.start) ip_num && leb ip_num (ip_to_number r.end)) private_ranges

pub is_private_ipv6 : String → Bool
is_private_ipv6 ip =
    let lower = to_lower_case ip in
    lower == "::1"
    || lower == "::"
    || starts_with lower "fc"
    || starts_with lower "fd"
    || starts_with lower "fe80"

abbrev pub blocked_hostnames : List String
blocked_hostnames =
    "localhost" ∷ "0.0.0.0" ∷ "[::1]" ∷ "[::]" ∷ "metadata.google.internal" ∷ "instance-data"
    ∷ "169.254.169.254" ∷ []

-- the fields of `URL` that the check reads
pub record Url : Type 0 where
  pub protocol : String
  pub hostname : String

module _ (parse_url : String → Option Url) (is_ip : String → ℕ) where
  -- the part of `isUnsafeUrl` after the protocol
  is_unsafe_host : String → Bool
  is_unsafe_host hostname =
      let ip = is_ip hostname in
      if eqb ip 4
      then is_in_private_range hostname
      else if eqb ip 6
      then is_private_ipv6 hostname
      else includes blocked_hostnames (to_lower_case hostname)

  is_unsafe_parsed : Option Url → Bool
  is_unsafe_parsed none = true
  is_unsafe_parsed (some parsed) =
      if includes ("http:" ∷ "https:" ∷ []) parsed.protocol
      then is_unsafe_host parsed.hostname
      else true

  pub is_unsafe_url : String → Bool
  unfolding is_unsafe_parsed is_unsafe_host
  is_unsafe_url url = is_unsafe_parsed (parse_url url)

  -- `IsNotPrivateUrlConstraint.validate`
  unfoldable pub validate : String → Bool
  validate url = not (is_unsafe_url url)
