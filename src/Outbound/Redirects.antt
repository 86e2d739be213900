-- ===== src/Outbound/Redirects.antt =====
-- That the loop of redirects of `hardenedOutboundRequest` in packages/db/src/outbound-http/client.ts
-- ends, and what it sends until then.
use saa_sweave.Prelude.{
  ℕ, zero, suc, ◌+◌, ◌≤◌, ◌<◌, String, true, ◌&&◌, Option, none, some, List, [], ◌∷◌, ◌++◌, ◌≡◌,
  ◌⊎◌, inl, inr, refl, arith, leb, or_else, All, Bool-cases,
}
use saa_sweave.Prelude.Table.{Table, lookup}
use saa_sweave.Prelude.Text.{is_empty}
use saa_sweave.Outbound.Address.{Platform}
use saa_sweave.Outbound.Url.{Parsed, ok, error, parse_outbound_url, outbound_origins_match}
use saa_sweave.Outbound.Hop.{
  Thrown, other_error, Response, Hop, Outcome, done, throws, no_fuel, Network, try_addresses,
  validated, execute_parsed, execute_hop,
}
use saa_sweave.Outbound.Client.{
  finished, with_body, max_response_body_bytes, HardenedOutboundRequestInput,
  HardenedOutboundResponse, Turn, Next, again, ends, max_of, next_turn, redirected, becomes_get,
  is_redirect, to_url, to_location, body_for, follow, first_turn, is_too_large,
  hardened_outbound_request,
}
use saa_sweave.Outbound.Body.{
  BodyResult, read_bytes, failed, idle_timeout, aborted, read_bounded_body,
}
use saa_sweave.Outbound.Hops.{IsAllowed, IsSound, Reply-cases, redirected-IsSound, execute_hop-All}

-- Something is returned or thrown.
abbrev pub IsDecided {ℓ} : {A : Type ℓ} → Outcome A → Type 0
IsDecided (done a) = Unit
IsDecided (throws t) = Unit
IsDecided no_fuel = ⊥

Next-cases :
    (n : Next)
    → ((outcome : Outcome HardenedOutboundResponse) × (n ≡ ends outcome))
      ⊎ ((t : Turn) × (n ≡ again t))
Next-cases (ends outcome) = inl (outcome, refl)
Next-cases (again t) = inr (t, refl)

with_body-IsDecided :
    (response : Response) (result : BodyResult Thrown) → IsDecided (with_body response result)
with_body-IsDecided response (read_bytes bytes truncated) = tt
with_body-IsDecided response (failed thrown) = tt
with_body-IsDecided response idle_timeout = tt
with_body-IsDecided response aborted = tt

finished-IsDecided : (response : Response) → IsDecided (finished response)
unfolding finished
finished-IsDecided response =
    with_body-IsDecided response (read_bounded_body max_response_body_bytes response.body)

try_addresses-IsDecided :
    (network : Network) (hop : Hop) (addresses : List String) (last : Thrown) (sent : List Hop)
    → IsDecided (try_addresses network hop addresses last sent).0
unfolding try_addresses
try_addresses-IsDecided network hop [] last sent = tt
try_addresses-IsDecided network hop (a ∷ addresses) last sent =
    elim (Reply-cases (network.request sent (record hop { pinned = a }))) [
      | inl (response, answered) ↦ rw answered tt
      | inr (thrown, failure) ↦ rw failure (
          try_addresses-IsDecided network hop addresses thrown
            (sent ++ record hop { pinned = a } ∷ []))
    ]

module _ (platform : Platform) (input : HardenedOutboundRequestInput) where
  execute_parsed-IsDecided :
      (network : Network) (method : String) (headers : Table String) (body : Option String)
      (parsed : Parsed) (sent : List Hop)
      → IsDecided (execute_parsed platform network method headers body parsed sent).0
  unfolding execute_parsed
  execute_parsed-IsDecided network method headers body (error code) sent = tt
  execute_parsed-IsDecided network method headers body (ok parsed) sent =
      elim (Reply-cases (validated platform (network.resolve sent parsed.hostname))) [
        | inl (addresses, valid) ↦ rw valid (
            try_addresses-IsDecided network
              (record {
                body = body;
                headers = headers;
                method = method;
                parsed = parsed;
                pinned = "";
              })
              addresses other_error sent)
        | inr (thrown, invalid) ↦ rw invalid tt
      ]

  execute_hop-IsDecided :
      (network : Network) (turn : Turn) (sent : List Hop)
      → IsDecided
          (execute_hop platform network turn.current_url turn.current_method turn.current_headers
            (body_for turn.current_method input.body)
            sent).0
  unfolding execute_hop
  execute_hop-IsDecided network turn sent =
      execute_parsed-IsDecided network turn.current_method turn.current_headers
        (body_for turn.current_method input.body) (parse_outbound_url platform turn.current_url)
        sent

  -- The loop goes on soundly, with one redirect more and only below the limit, or ends decided.
  abbrev GoesOn : Turn → Next → Type 0
  GoesOn turn (ends outcome) = IsDecided outcome
  GoesOn turn (again next) =
      IsSound platform input next
      × (next.redirect_count ≡ turn.redirect_count + 1)
      × (turn.redirect_count < max_of input)

  count-redirected :
      (status : ℕ) (next_url : String) (turn : Turn)
      → (redirected platform input status next_url turn).redirect_count ≡ turn.redirect_count + 1
  unfolding redirected
  count-redirected status next_url turn =
      elim (Bool-cases (becomes_get status turn.current_method)) [
        | inl get ↦ rw get refl
        | inr as_before ↦ rw as_before refl
      ]

  to_url-GoesOn :
      (status : ℕ) (turn : Turn) (url : Option String)
      → IsSound platform input turn
      → turn.redirect_count < max_of input
      → GoesOn turn (to_url platform input status turn url)
  to_url-GoesOn status turn none sound below = tt
  to_url-GoesOn status turn (some url) sound below =
      elim (Bool-cases (outbound_origins_match platform input.url url)) [
        | inl same ↦ rw same (
          redirected-IsSound platform input status url turn sound same,
          count-redirected status url turn,
          below,
        )
        | inr other ↦ rw other tt
      ]

  to_location-GoesOn :
      (status : ℕ) (turn : Turn) (location : Option String)
      → IsSound platform input turn
      → turn.redirect_count < max_of input
      → GoesOn turn (to_location platform input status turn location)
  to_location-GoesOn status turn none sound below = tt
  to_location-GoesOn status turn (some location) sound below =
      elim (Bool-cases (is_empty location)) [
        | inl missing ↦ rw missing tt
        | inr given ↦
            rw given (
              to_url-GoesOn status turn (platform.resolve_url location turn.current_url) sound
                below)
      ]

  next_turn-GoesOn :
      (turn : Turn) (outcome : Outcome Response)
      → IsSound platform input turn
      → IsDecided outcome
      → GoesOn turn (next_turn platform input turn outcome)
  unfolding next_turn
  next_turn-GoesOn turn (throws t) sound decided = tt
  next_turn-GoesOn turn no_fuel sound decided = decided
  next_turn-GoesOn turn (done response) sound decided =
      elim (Bool-cases (or_else input.follow_redirects true && is_redirect response.status_code)) [
        | inr final ↦ rw final (finished-IsDecided response)
        | inl redirect ↦ rw redirect (elim (Bool-cases (leb (max_of input) turn.redirect_count)) [
          | inl full ↦ rw full tt
          | inr below ↦ rw below (
              to_location-GoesOn response.status_code turn (lookup "location" response.headers)
                sound (ground arith))
        ])
      ]

  -- The hop of a turn.
  abbrev hop_of : Network → Turn → List Hop → Outcome Response × List Hop
  hop_of network turn sent =
      execute_hop platform network turn.current_url turn.current_method turn.current_headers
        (body_for turn.current_method input.body) sent

  follow_lem :
      (network : Network) (fuel : ℕ) (turn : Turn) (sent : List Hop)
      → IsSound platform input turn
      → All (IsAllowed platform input) sent
      → turn.redirect_count ≤ max_of input
      → max_of input < fuel + turn.redirect_count
      → All (IsAllowed platform input) (follow platform network input fuel turn sent).1
        × IsDecided (follow platform network input fuel turn sent).0
  unfolding follow
  follow_lem network zero turn sent sound s below enough = absurd (omega arith)
  follow_lem network (suc fuel) turn sent sound s below enough =
      let (outcome, sent') = hop_of network turn sent in
      let allowed = execute_hop-All platform input network turn sent sound s in
      let goes =
        next_turn-GoesOn turn (hop_of network turn sent).0 sound
          (execute_hop-IsDecided network turn sent) in
      elim (Next-cases (next_turn platform input turn (hop_of network turn sent).0)) [
        | inl (ended, e) ↦ rw e (allowed, rw e at goes)
        | inr (turn', e) ↦
            let (sound', counted, more) = rw e at goes in
            rw e (
              follow_lem network fuel turn' (hop_of network turn sent).1 sound' allowed
                (omega arith) (omega arith))
      ]

  first-IsSound : IsSound platform input (first_turn input)
  first-IsSound = record { target = inl refl; sent_as = inl (refl, refl) }

  run_lem :
      (network : Network)
      → let (outcome, sent) = hardened_outbound_request platform network input in
        All (IsAllowed platform input) sent × IsDecided outcome
  unfolding hardened_outbound_request
  run_lem network =
      let followed =
        follow_lem network (suc (max_of input)) (first_turn input) [] first-IsSound tt (omega arith)
          (omega arith) in
      elim (Bool-cases (is_too_large input.body)) [
        | inl large ↦ rw large (tt, tt)
        | inr small ↦ rw small followed
      ]

  -- Whatever DNS and servers answer, also by what was sent before, every request that is sent goes
  -- to a pinned address that is not refused and to a URL that passes the policy and is the first or
  -- of its origin; it has the method and headers of the input, or is a GET without body and without
  -- the sensitive headers.
  pub sent-IsAllowed :
      (network : Network)
      → All (IsAllowed platform input) (hardened_outbound_request platform network input).1
  sent-IsAllowed network = (run_lem network).0

  -- The loop of redirects ends: with fuel for one turn more than redirects are allowed, something is
  -- returned or thrown.
  pub hardened_outbound_request-IsDecided :
      (network : Network) → IsDecided (hardened_outbound_request platform network input).0
  hardened_outbound_request-IsDecided network = (run_lem network).1
