-- ===== src/Outbound/Url.antt =====
-- `parseOutboundUrl` and what stands around it in packages/core/src/security/
-- outbound-url-policy.ts.
use saa_sweave.Prelude.{
  ℕ, String, Bool, false, not, ◌&&◌, ◌||◌, Option, none, some, List, [], ◌∷◌, ltb, leb, ◌==◌,
  if◌then◌else◌, any,
}
use Prim.Native.Char.{code}
use text.Mathlib.Text.{◌==◌ as str_eq}
use saa_sweave.Prelude.Text.{is_empty, starts_with, to_number, joined}
use saa_sweave.Ip.{is_ipv4}
use saa_sweave.Outbound.Address.{Url, Platform, is_blocked_outbound_address}

pub data OutboundUrlErrorCode : Type 0 where
  blocked_webhook_url invalid_webhook_url : OutboundUrlErrorCode

pub data Scheme : Type 0 where
  http https : Scheme

pub record ParsedOutboundUrl : Type 0 where
  pub hostname : String
  pub origin : String
  pub port : ℕ
  pub protocol : Scheme
  pub url : Url

pub data Parsed : Type 0 where
  ok : ParsedOutboundUrl → Parsed
  error : OutboundUrlErrorCode → Parsed

-- ALLOWED_PORTS
abbrev pub allowed_ports : List ℕ
allowed_ports = 80 ∷ 443 ∷ []

-- BLOCKED_HOSTNAMES
abbrev pub blocked_hostnames : List String
blocked_hostnames = "localhost" ∷ "localhost.localdomain" ∷ "ip6-localhost" ∷ "ip6-loopback" ∷ []

-- `s.endsWith(suffix)`
unfoldable pub ends_with : (suffix s : String) → Bool
ends_with suffix String.[] = is_empty suffix
ends_with suffix (String.◌∷◌ c s) = str_eq (String.◌∷◌ c s) suffix || ends_with suffix s

-- `s.replace(/\.$/, "")`
unfoldable pub without_last_dot : String → String
without_last_dot String.[] = ""
without_last_dot (String.◌∷◌ c s) =
    let rest = String.◌∷◌ c (without_last_dot s) in
    if is_empty s && code c == b'.' then "" else rest

-- `s.slice(0, -1)`
unfoldable pub without_last : String → String
without_last String.[] = ""
without_last (String.◌∷◌ c s) =
    let rest = String.◌∷◌ c (without_last s) in if is_empty s then "" else rest

abbrev tail : String → String
tail String.[] = ""
tail (String.◌∷◌ c s) = s

unfoldable pub normalize_hostname : Platform → String → String
unfolding without_last_dot without_last ends_with
normalize_hostname platform hostname =
    let trimmed = without_last_dot (platform.to_lower_case hostname) in
    if starts_with "[" trimmed && ends_with "]" trimmed
    then without_last (tail trimmed)
    else trimmed

unfoldable pub is_blocked_hostname : Platform → String → Bool
unfolding normalize_hostname
is_blocked_hostname platform hostname =
    let normalized = normalize_hostname platform hostname in
    any (str_eq normalized) blocked_hostnames
    || ends_with ".localhost" normalized
    || (is_ipv4 normalized || platform.is_ipv6 normalized)
      && is_blocked_outbound_address platform normalized

abbrev default_port : Scheme → ℕ
default_port http = 80
default_port https = 443

-- `Number.isInteger(port) && port > 0 && port <= 65_535`
abbrev in_port_range : Option ℕ → Option ℕ
in_port_range none = none
in_port_range (some port) = if ltb 0 port && leb port 65535 then some port else none

unfoldable pub resolve_port : Scheme → Url → Option ℕ
unfolding to_number
resolve_port scheme url =
    if is_empty url.port then some (default_port scheme) else in_port_range (to_number url.port)

abbrev pub is_allowed_port : ℕ → Bool
is_allowed_port port = any (λ p. p == port) allowed_ports

abbrev scheme_of : String → Option Scheme
scheme_of protocol =
    if str_eq protocol "http:"
    then some http
    else if str_eq protocol "https:"
    then some https
    else none

abbrev with_port : Scheme → Url → Option ℕ → Parsed
with_port scheme url none = error invalid_webhook_url
with_port scheme url (some port) =
    if not (is_allowed_port port)
    then error invalid_webhook_url
    else ok (record {
      hostname = url.hostname;
      origin = joined url.protocol (joined "//" url.host);
      port = port;
      protocol = scheme;
      url = url;
    })

unfoldable pub check_url : Platform → Url → Option Scheme → Parsed
unfolding resolve_port is_blocked_hostname
check_url platform url none = error invalid_webhook_url
check_url platform url (some scheme) =
    if is_empty url.hostname || not (is_empty url.username) || not (is_empty url.password)
    then error invalid_webhook_url
    else if is_blocked_hostname platform url.hostname
    then error blocked_webhook_url
    else with_port scheme url (resolve_port scheme url)

abbrev of_url : Platform → Option Url → Parsed
of_url platform none = error invalid_webhook_url
of_url platform (some url) = check_url platform url (scheme_of url.protocol)

unfoldable pub parse_outbound_url : Platform → String → Parsed
unfolding check_url
parse_outbound_url platform raw_url = of_url platform (platform.parse_url raw_url)

-- `assertOutboundAddressesAllowed` returns an error for a blocked one.
unfoldable pub are_addresses_allowed : Platform → List String → Bool
are_addresses_allowed platform addresses =
    not (any (is_blocked_outbound_address platform) addresses)

abbrev same_origin : Parsed → Parsed → Bool
same_origin (ok left) (ok right) = str_eq left.origin right.origin
same_origin _ _ = false

unfoldable pub outbound_origins_match : Platform → (a b : String) → Bool
unfolding parse_outbound_url
outbound_origins_match platform a b =
    same_origin (parse_outbound_url platform a) (parse_outbound_url platform b)
