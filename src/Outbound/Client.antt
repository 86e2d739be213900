-- ===== src/Outbound/Client.antt =====
-- `hardenedOutboundRequest` and `assertPublicWebhookUrl` of packages/db/src/outbound-http/client.ts.
-- The loop of redirects recurs on fuel; the timeouts are among the errors that the network answers.
use saa_sweave.Prelude.{
  ℕ, zero, suc, ◌+◌, ◌*◌, String, Bool, true, false, not, ◌&&◌, ◌||◌, Option, none, some, List, [],
  ◌∷◌, ltb, leb, ◌==◌, if◌then◌else◌, or_else, any, keep, map, length,
}
use text.Mathlib.Text.{◌==◌ as str_eq}
use saa_sweave.Prelude.Table.{Table, lookup}
use saa_sweave.Prelude.Text.{is_empty}
use saa_sweave.Outbound.Address.{Platform}
use saa_sweave.Outbound.Body.{
  BodyResult, read_bytes, failed, idle_timeout, aborted, read_bounded_body,
}
use saa_sweave.Outbound.Url.{outbound_origins_match}
use saa_sweave.Outbound.Hop.{
  network_error, payload_too_large, redirect_loop, redirect_to_different_origin, timeout, Thrown,
  outbound, other_error, Response, Hop, Outcome, done, throws, no_fuel, Network, with_code,
  execute_hop,
}
use Prim.Native.String.{len}

pub record Limits : Type 0 where
  pub max_redirects : ℕ
  pub max_request_body_bytes : ℕ

-- OUTBOUND_HTTP_LIMITS
abbrev pub outbound_http_limits : Limits
outbound_http_limits = record { max_redirects = 3; max_request_body_bytes = 256 * 1024 }

pub record HardenedOutboundRequestInput : Type 0 where
  pub body : Option String
  pub follow_redirects : Option Bool
  pub headers : Table String
  pub max_redirects : Option ℕ
  pub method : String
  pub sensitive_headers : List String
  pub url : String

-- REDIRECT_STATUSES
abbrev pub is_redirect : ℕ → Bool
is_redirect status = any (λ s. s == status) (301 ∷ 302 ∷ 303 ∷ 307 ∷ 308 ∷ [])

-- `stripSensitiveHeaders`
unfoldable pub strip_sensitive_headers : Platform → Table String → List String → Table String
strip_sensitive_headers platform headers sensitive =
    let blocked = map platform.to_lower_case sensitive in
    let kept = keep (λ h. not (any (str_eq (platform.to_lower_case h.key)) blocked)) headers in
    if length sensitive == 0 then headers else kept

-- The variables of the loop.
pub record Turn : Type 0 where
  pub current_url : String
  pub current_method : String
  pub current_headers : Table String
  pub redirect_count : ℕ

-- 303, or 302 after a POST, goes on with GET.
abbrev pub becomes_get : ℕ → String → Bool
becomes_get status method = status == 303 || status == 302 && str_eq method "POST"

unfoldable pub redirected :
    Platform → HardenedOutboundRequestInput → ℕ → (next_url : String) → Turn → Turn
redirected platform input status next_url turn =
    if becomes_get status turn.current_method
    then record {
      current_url = next_url;
      current_method = "GET";
      current_headers =
          strip_sensitive_headers platform turn.current_headers input.sensitive_headers;
      redirect_count = turn.redirect_count + 1;
    }
    else record turn { current_url = next_url; redirect_count = turn.redirect_count + 1 }

pub record HardenedOutboundResponse : Type 0 where
  pub body : List ℕ
  pub headers : Table String
  pub status : ℕ
  pub truncated : Bool

abbrev pub max_response_body_bytes : ℕ
max_response_body_bytes = 2000

abbrev pub with_body : Response → BodyResult Thrown → Outcome HardenedOutboundResponse
with_body response (read_bytes bytes truncated) = done (record {
  body = bytes;
  headers = response.headers;
  status = response.status_code;
  truncated = truncated;
})
with_body response (failed thrown) = throws thrown
with_body response idle_timeout = throws (outbound timeout "body_idle_timeout")
with_body response aborted = throws (outbound timeout "aborted")

unfoldable pub finished : Response → Outcome HardenedOutboundResponse
finished response = with_body response (read_bounded_body max_response_body_bytes response.body)

-- A step of the loop goes on with another turn, or ends.
pub data Next : Type 0 where
  again : Turn → Next
  ends : Outcome HardenedOutboundResponse → Next

abbrev pub to_url : Platform → HardenedOutboundRequestInput → ℕ → Turn → Option String → Next
to_url platform input status turn none = ends (throws other_error)
to_url platform input status turn (some next_url) =
    if not (outbound_origins_match platform input.url next_url)
    then ends (throws (with_code redirect_to_different_origin))
    else again (redirected platform input status next_url turn)

abbrev pub to_location : Platform → HardenedOutboundRequestInput → ℕ → Turn → Option String → Next
to_location platform input status turn none =
    ends (throws (outbound network_error "redirect_missing_location"))
to_location platform input status turn (some location) =
    if is_empty location
    then ends (throws (outbound network_error "redirect_missing_location"))
    else to_url platform input status turn (platform.resolve_url location turn.current_url)

abbrev pub max_of : HardenedOutboundRequestInput → ℕ
max_of input = or_else input.max_redirects outbound_http_limits.max_redirects

unfoldable pub next_turn : Platform → HardenedOutboundRequestInput → Turn → Outcome Response → Next
unfolding redirected finished
next_turn platform input turn (throws thrown) = ends (throws thrown)
next_turn platform input turn no_fuel = ends no_fuel
next_turn platform input turn (done response) =
    if or_else input.follow_redirects true && is_redirect response.status_code
    then if leb (max_of input) turn.redirect_count
      then ends (throws (with_code redirect_loop))
      else to_location platform input response.status_code turn (lookup "location" response.headers)
    else ends (finished response)

-- `currentMethod === "GET" || currentMethod === "HEAD" ? undefined : input.body`
abbrev pub body_for : String → Option String → Option String
body_for method body = if str_eq method "GET" || str_eq method "HEAD" then none else body

abbrev continue :
    Next
    → (Turn → Outcome HardenedOutboundResponse × List Hop)
    → List Hop
    → Outcome HardenedOutboundResponse × List Hop
continue (ends outcome) follow sent = (outcome, sent)
continue (again turn) follow sent = follow turn

-- The `while (true)`.
unfoldable pub follow :
    Platform
    → Network
    → HardenedOutboundRequestInput
    → ℕ
    → Turn
    → List Hop
    → Outcome HardenedOutboundResponse × List Hop
follow platform network input zero turn sent = (no_fuel, sent)
follow platform network input (suc fuel) turn sent =
    let (outcome, sent') =
      execute_hop platform network turn.current_url turn.current_method turn.current_headers
        (body_for turn.current_method input.body) sent in
    continue (next_turn platform input turn outcome)
      (λ turn'. follow platform network input fuel turn' sent') sent'

abbrev pub first_turn : HardenedOutboundRequestInput → Turn
first_turn input = record {
  current_url = input.url;
  current_method = input.method;
  current_headers = input.headers;
  redirect_count = 0;
}

abbrev pub is_too_large : Option String → Bool
is_too_large none = false
is_too_large (some body) = ltb outbound_http_limits.max_request_body_bytes (len body)

-- What is answered, and all that has been sent.
unfoldable pub hardened_outbound_request :
    Platform → Network → HardenedOutboundRequestInput → Outcome HardenedOutboundResponse × List Hop
unfolding follow
hardened_outbound_request platform network input =
    let followed = follow platform network input (suc (max_of input)) (first_turn input) [] in
    if is_too_large input.body then (throws (with_code payload_too_large), []) else followed
