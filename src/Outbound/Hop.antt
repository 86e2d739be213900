-- ===== src/Outbound/Hop.antt =====
-- `executeHop` of packages/db/src/outbound-http/client.ts. The resolver and the
-- request executor are arguments that may answer by all that has been sent before; timeouts are
-- among the errors they answer.
use saa_sweave.Prelude.{ℕ, String, Bool, true, false, Option, List, [], ◌∷◌, ◌++◌, if◌then◌else◌}
use saa_sweave.Prelude.Table.{Table}
use saa_sweave.Outbound.Address.{Platform}
use saa_sweave.Outbound.Body.{BodyEvent}
use saa_sweave.Outbound.Url.{
  OutboundUrlErrorCode, blocked_webhook_url, invalid_webhook_url, ParsedOutboundUrl, Parsed, ok,
  error, parse_outbound_url, are_addresses_allowed,
}

pub data OutboundHttpFailureCode : Type 0 where
  url_error : OutboundUrlErrorCode → OutboundHttpFailureCode
  network_error payload_too_large redirect_loop redirect_to_different_origin timeout :
      OutboundHttpFailureCode

-- What is thrown: an `OutboundHttpError` with its message, or another error.
pub data Thrown : Type 0 where
  outbound : OutboundHttpFailureCode → String → Thrown
  other_error : Thrown

-- The headers of a response come with lower-case names from Node, and the body is read later.
pub record Response : Type 0 where
  pub status_code : ℕ
  pub headers : Table String
  pub body : List (BodyEvent Thrown)

-- What is handed to the request executor.
pub record Hop : Type 0 where
  pub body : Option String
  pub headers : Table String
  pub method : String
  pub parsed : ParsedOutboundUrl
  pub pinned : String

pub data Outcome {ℓ} (A : Type ℓ) : Type ℓ where
  done : A → Outcome A
  throws : Thrown → Outcome A
  no_fuel : Outcome A

pub data Reply {ℓ} (A : Type ℓ) : Type ℓ where
  answers : A → Reply A
  fails : Thrown → Reply A

-- The network, which may answer by the requests before.
pub record Network : Type 0 where
  pub resolve : List Hop → String → Reply (List String)
  pub request : List Hop → Hop → Reply Response

abbrev code_text : OutboundHttpFailureCode → String
code_text (url_error blocked_webhook_url) = "blocked_webhook_url"
code_text (url_error invalid_webhook_url) = "invalid_webhook_url"
code_text network_error = "network_error"
code_text payload_too_large = "payload_too_large"
code_text redirect_loop = "redirect_loop"
code_text redirect_to_different_origin = "redirect_to_different_origin"
code_text timeout = "timeout"

-- `new OutboundHttpError(code)`
abbrev pub with_code : OutboundHttpFailureCode → Thrown
with_code code = outbound code (code_text code)

-- `throw lastError` if it is an `OutboundHttpError`
abbrev last_error : Thrown → Thrown
last_error (outbound code message) = outbound code message
last_error other_error = outbound network_error "connect_failed"

-- The loop over the addresses; the answer of the executor to a hop decides whether it goes on.
abbrev tried :
    Reply Response
    → (Thrown → List Hop → Outcome Response × List Hop)
    → List Hop
    → Outcome Response × List Hop
tried (answers response) next sent = (done response, sent)
tried (fails thrown) next sent = next thrown sent

unfoldable pub try_addresses :
    Network → Hop → List String → Thrown → List Hop → Outcome Response × List Hop
try_addresses network hop [] last sent = (throws (last_error last), sent)
try_addresses network hop (address ∷ addresses) last sent =
    let pinned = record hop { pinned = address } in
    tried (network.request sent pinned)
      (λ thrown sent'. try_addresses network hop addresses thrown sent') (sent ++ pinned ∷ [])

-- `resolveValidatedAddresses`
unfoldable pub validated : Platform → Reply (List String) → Reply (List String)
validated platform (fails thrown) = fails thrown
validated platform (answers []) = fails (outbound network_error "dns_empty")
validated platform (answers (address ∷ addresses)) =
    if are_addresses_allowed platform (address ∷ addresses)
    then answers (address ∷ addresses)
    else fails (with_code (url_error blocked_webhook_url))

abbrev contact : Network → Hop → Reply (List String) → List Hop → Outcome Response × List Hop
contact network hop (fails thrown) sent = (throws thrown, sent)
contact network hop (answers addresses) sent = try_addresses network hop addresses other_error sent

unfoldable pub execute_parsed :
    Platform
    → Network
    → (method : String) → (headers : Table String) → (body : Option String) → Parsed
    → List Hop
    → Outcome Response × List Hop
unfolding try_addresses validated
execute_parsed platform network method headers body (error code) sent =
    (throws (with_code (url_error code)), sent)
execute_parsed platform network method headers body (ok parsed) sent =
    let hop : Hop = record {
      body = body;
      headers = headers;
      method = method;
      parsed = parsed;
      pinned = "";
    } in
    contact network hop (validated platform (network.resolve sent parsed.hostname)) sent

unfoldable pub execute_hop :
    Platform
    → Network
    → (url method : String) → (headers : Table String) → (body : Option String) → List Hop
    → Outcome Response × List Hop
unfolding execute_parsed
execute_hop platform network url method headers body sent =
    execute_parsed platform network method headers body (parse_outbound_url platform url) sent

abbrev answered {ℓ} : {A : Type ℓ} → Reply A → Bool
answered (answers a) = true
answered (fails thrown) = false

abbrev assert_parsed : Platform → Network → Parsed → Bool
assert_parsed platform network (error code) = false
assert_parsed platform network (ok parsed) =
    answered (validated platform (network.resolve [] parsed.hostname))

-- `assertPublicWebhookUrl`: whether it returns.
unfoldable pub assert_public_webhook_url : Platform → Network → String → Bool
unfolding validated
assert_public_webhook_url platform network raw_url =
    assert_parsed platform network (parse_outbound_url platform raw_url)
