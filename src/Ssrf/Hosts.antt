-- ===== src/Ssrf/Hosts.antt =====
-- Which URLs `isUnsafeUrl` lets through.
use job_application_api.Prelude.{
  ℕ, String, ◌≡◌, ◌≢◌, ◌↔◌, ◌⊎◌, true, Option, some, [], ◌∷◌, arith, eq_iff,
}
use job_application_api.Js.{to_lower_case, includes}
use job_application_api.Ssrf.{Url, is_unsafe_url}
use job_application_api.Ssrf.Ranges.{IsOctet, IsPrivate, dotted, is_in_private_range-dotted_iff}
use text.Mathlib.TextBridge.{IsPrefix}

abbrev pub IsWeb : String → Type 0
IsWeb protocol = (protocol ≡ "http:") ⊎ (protocol ≡ "https:")

includes-IsWeb_iff :
    (protocol : String) → (includes ("http:" ∷ "https:" ∷ []) protocol ≡ true) ↔ IsWeb protocol
unfolding includes
includes-IsWeb_iff protocol = ground (arith, eq_iff "http:" protocol, eq_iff "https:" protocol)

-- the text as an IPv4 address of four octets
pub record Address (host : String) : Type 0 where
  pub first_text : String
  pub second_text : String
  pub third_text : String
  pub fourth_text : String
  pub first : ℕ
  pub second : ℕ
  pub third : ℕ
  pub fourth : ℕ
  pub reads : host ≡ dotted first_text second_text third_text fourth_text
  pub octet_1 : IsOctet first_text first
  pub octet_2 : IsOctet second_text second
  pub octet_3 : IsOctet third_text third
  pub octet_4 : IsOctet fourth_text fourth

-- an IPv4 address outside the private networks
abbrev pub IsPublic : String → Type 0
IsPublic host = (x : Address host) → IsPrivate x.first x.second → ⊥

-- in lower case: the loopback and unspecified addresses, the unique local ones (fc00::/7) and the
-- link-local ones
abbrev pub IsLocal : String → Type 0
IsLocal lower =
    (lower ≡ "::1")
    ⊎ (lower ≡ "::")
    ⊎ IsPrefix "fc" lower
    ⊎ IsPrefix "fd" lower
    ⊎ IsPrefix "fe80" lower

-- in lower case: names of the machine itself and of the metadata services of clouds
abbrev pub IsInternal : String → Type 0
IsInternal lower =
    (lower ≡ "localhost")
    ⊎ (lower ≡ "0.0.0.0")
    ⊎ (lower ≡ "[::1]")
    ⊎ (lower ≡ "[::]")
    ⊎ (lower ≡ "metadata.google.internal")
    ⊎ (lower ≡ "instance-data")
    ⊎ (lower ≡ "169.254.169.254")

-- what `isIP` calls an IPv4 address is one
abbrev pub FindsAddresses : (String → ℕ) → Type 0
FindsAddresses is_ip = (host : String) → is_ip host ≡ 4 → Address host

-- the three ways for a hostname to pass
abbrev pub IsAdmitted : (String → ℕ) → String → Type 0
IsAdmitted is_ip host =
    (is_ip host ≡ 4) × IsPublic host
    ⊎ (is_ip host ≡ 6) × (IsLocal (to_lower_case host) → ⊥)
    ⊎ (is_ip host ≢ 4) × (is_ip host ≢ 6) × (IsInternal (to_lower_case host) → ⊥)

module _ (parse_url : String → Option Url) (is_ip : String → ℕ) where
  -- An http URL whose host is a dotted IPv4 address is unsafe exactly when its first two octets are
  -- those of a private network.
  pub dotted_url_iff :
      (url p q r s : String) (a b c d : ℕ) (u : Url)
      → parse_url url ≡ some u
      → IsWeb u.protocol
      → u.hostname ≡ dotted p q r s
      → is_ip (dotted p q r s) ≡ 4
      → IsOctet p a
      → IsOctet q b
      → IsOctet r c
      → IsOctet s d
      → (is_unsafe_url parse_url is_ip url ≡ true) ↔ IsPrivate a b
  unfolding is_unsafe_url
  dotted_url_iff url p q r s a b c d u parsed web host ip hp hq hr hs = ground (
    arith,
    includes-IsWeb_iff u.protocol,
    is_in_private_range-dotted_iff p q r s a b c d hp hq hr hs,
  )
