-- ===== src/Outbound/Hops.antt =====
-- What `hardenedOutboundRequest` of packages/db/src/outbound-http/client.ts sends, and that it ends.
use saa_sweave.Prelude.{
  ℕ, suc, String, Bool, true, false, not, Option, none, List, [], ◌∷◌, ◌++◌, ◌≡◌, ◌⊎◌, inl, inr,
  refl, arith, ◌==◌, any, keep, map, length, All, All-append, All_of, Bool-cases,
}
use text.Mathlib.Text.{◌==◌ as str_eq}
use saa_sweave.Prelude.Table.{Table}
use saa_sweave.Outbound.Address.{Platform, is_blocked_outbound_address}
use saa_sweave.Outbound.Url.{
  ParsedOutboundUrl, Parsed, ok, error, parse_outbound_url, are_addresses_allowed,
  outbound_origins_match,
}
use saa_sweave.Outbound.Hop.{
  Thrown, other_error, Hop, Reply, answers, fails, Network, try_addresses, validated,
  execute_parsed, execute_hop,
}
use saa_sweave.Outbound.Client.{
  HardenedOutboundRequestInput, Turn, redirected, becomes_get, strip_sensitive_headers, body_for,
}

All-keep-not {ℓ} :
    {A : Type ℓ} (p : A → Bool) (xs : List A) → All (λ x. p x ≡ false) (keep (λ x. not (p x)) xs)
All-keep-not p [] = tt
All-keep-not p (x ∷ xs) = elim (Bool-cases (p x)) [
  | inl out ↦ rw out (All-keep-not p xs)
  | inr stays ↦ rw stays (stays, All-keep-not p xs)
]

pub Reply-cases {ℓ} :
    {A : Type ℓ} (r : Reply A) → ((a : A) × (r ≡ answers a)) ⊎ ((t : Thrown) × (r ≡ fails t))
Reply-cases (answers a) = inl (a, refl)
Reply-cases (fails t) = inr (t, refl)

try_addresses-All :
    (P : Hop → Type 0) (network : Network) (hop : Hop) (addresses : List String) (last : Thrown)
    (sent : List Hop)
    → All (λ a. P (record hop { pinned = a })) addresses
    → All P sent
    → All P (try_addresses network hop addresses last sent).1
unfolding try_addresses
try_addresses-All P network hop [] last sent h s = s
try_addresses-All P network hop (a ∷ addresses) last sent h s =
    let pinned = record hop { pinned = a } in
    let sent' = All-append P sent (record hop { pinned = a } ∷ []) s (h.0, tt) in
    elim (Reply-cases (network.request sent (record hop { pinned = a }))) [
      | inl (response, answered) ↦ rw answered sent'
      | inr (thrown, failed) ↦ rw failed (
          try_addresses-All P network hop addresses thrown (sent ++ record hop { pinned = a } ∷ [])
            h.1 sent')
    ]

suc_not_zero : (n : ℕ) → (suc n == 0) ≡ false
suc_not_zero n = ground arith

module _ (platform : Platform) (input : HardenedOutboundRequestInput) where
  -- None of the addresses is refused.
  abbrev AreAllowed : List String → Type 0
  AreAllowed = All (λ address. is_blocked_outbound_address platform address ≡ false)

  allowed_lem :
      (addresses : List String)
      → are_addresses_allowed platform addresses ≡ true
      → AreAllowed addresses
  unfolding are_addresses_allowed
  allowed_lem [] h = tt
  allowed_lem (a ∷ addresses) h = ground (arith, allowed_lem addresses)

  -- No header has one of the sensitive names.
  abbrev pub HasNoSensitive : Table String → Type 0
  HasNoSensitive = All (λ h.
      any (str_eq (platform.to_lower_case h.key))
        (map platform.to_lower_case input.sensitive_headers)
      ≡ false)

  -- A URL that the request may go to: the first, or one of its origin.
  abbrev pub IsTarget : String → Type 0
  IsTarget url = (url ≡ input.url) ⊎ (outbound_origins_match platform input.url url ≡ true)

  -- What may be sent: to a pinned address that is not refused and a URL of the first one's origin
  -- that passes the policy; with the method and the headers of the input, or as a GET without body
  -- and without sensitive headers.
  pub record IsAllowed (hop : Hop) : Type 0 where
    pub address : is_blocked_outbound_address platform hop.pinned ≡ false
    pub target : (url : String) × IsTarget url × (parse_outbound_url platform url ≡ ok hop.parsed)
    pub sent_as :
        ((hop.method ≡ input.method) × (hop.headers ≡ input.headers))
        ⊎ ((hop.method ≡ "GET") × (hop.body ≡ none) × HasNoSensitive hop.headers)

  pub record IsSound (turn : Turn) : Type 0 where
    pub target : IsTarget turn.current_url
    pub sent_as :
        ((turn.current_method ≡ input.method) × (turn.current_headers ≡ input.headers))
        ⊎ ((turn.current_method ≡ "GET") × HasNoSensitive turn.current_headers)

  validated_lem :
      (reply : Reply (List String)) (addresses : List String)
      → validated platform reply ≡ answers addresses
      → AreAllowed addresses
  unfolding validated
  validated_lem (fails t) addresses h = cc
  validated_lem (answers []) addresses h = cc
  validated_lem (answers (a ∷ rest)) addresses h =
      elim (Bool-cases (are_addresses_allowed platform (a ∷ rest))) [
        | inl clear ↦ ground (arith, allowed_lem (a ∷ rest) clear)
        | inr refused ↦ absurd (ground arith)
      ]

  body_for_get : (b : Option String) → body_for "GET" b ≡ none
  body_for_get b = refl

  -- The hop of a sound turn.
  hop-IsAllowed :
      (turn : Turn) (parsed : ParsedOutboundUrl) (a : String)
      → IsSound turn
      → parse_outbound_url platform turn.current_url ≡ ok parsed
      → is_blocked_outbound_address platform a ≡ false
      → IsAllowed (record {
        body = body_for turn.current_method input.body;
        headers = turn.current_headers;
        method = turn.current_method;
        parsed = parsed;
        pinned = a;
      })
  hop-IsAllowed turn parsed a sound p free = record {
    address = free;
    target = (turn.current_url, sound.target, p);
    sent_as = as_sent turn.current_method sound.sent_as;
  }
    where
      as_sent :
          (method : String)
          → ((method ≡ input.method) × (turn.current_headers ≡ input.headers))
            ⊎ ((method ≡ "GET") × HasNoSensitive turn.current_headers)
          → ((method ≡ input.method) × (turn.current_headers ≡ input.headers))
            ⊎ ((method ≡ "GET")
                × (body_for method input.body ≡ none)
                × HasNoSensitive turn.current_headers)
      as_sent method (inl same) = inl same
      as_sent method (inr (get, clean)) = inr (get, rw get (body_for_get input.body), clean)

  All_of_allowed :
      (P : String → Type 0)
      → ((a : String) → is_blocked_outbound_address platform a ≡ false → P a)
      → (addresses : List String) → AreAllowed addresses
      → All P addresses
  All_of_allowed P f [] h = tt
  All_of_allowed P f (a ∷ addresses) h = (f a h.0, All_of_allowed P f addresses h.1)

  pub execute_hop-All :
      (network : Network) (turn : Turn) (sent : List Hop)
      → IsSound turn
      → All IsAllowed sent
      → All IsAllowed
          (execute_hop platform network turn.current_url turn.current_method turn.current_headers
            (body_for turn.current_method input.body)
            sent).1
  unfolding execute_hop
  execute_hop-All network turn sent sound s =
      executed (parse_outbound_url platform turn.current_url) refl
    where
      executed :
          (parsed : Parsed)
          → parse_outbound_url platform turn.current_url ≡ parsed
          → All IsAllowed
              (execute_parsed platform network turn.current_method turn.current_headers
                (body_for turn.current_method input.body)
                parsed
                sent).1
      executed (error code) p = unfold execute_parsed in s
      executed (ok parsed) p =
          unfold execute_parsed in
          elim (Reply-cases (validated platform (network.resolve sent parsed.hostname))) [
            | inl (addresses, valid) ↦ rw valid (
                try_addresses-All IsAllowed network
                  (record {
                    body = body_for turn.current_method input.body;
                    headers = turn.current_headers;
                    method = turn.current_method;
                    parsed = parsed;
                    pinned = "";
                  })
                  addresses other_error sent
                  (All_of_allowed _ (λ a free. hop-IsAllowed turn parsed a sound p free) addresses
                    (validated_lem _ addresses valid))
                  s)
            | inr (thrown, invalid) ↦ rw invalid s
          ]

  strip_lem :
      (headers : Table String) (sensitive : List String)
      → All
          (λ h.
            any (str_eq (platform.to_lower_case h.key)) (map platform.to_lower_case sensitive)
            ≡ false)
          (strip_sensitive_headers platform headers sensitive)
  unfolding strip_sensitive_headers
  strip_lem headers [] = All_of _ (λ h. refl) headers
  strip_lem headers (name ∷ names) = rw (suc_not_zero (length names)) (All-keep-not _ headers)

  pub redirected-IsSound :
      (status : ℕ) (next_url : String) (turn : Turn)
      → IsSound turn
      → outbound_origins_match platform input.url next_url ≡ true
      → IsSound (redirected platform input status next_url turn)
  unfolding redirected
  redirected-IsSound status next_url turn sound same =
      elim (Bool-cases (becomes_get status turn.current_method)) [
        | inl get ↦ rw get (record {
          target = inr same;
          sent_as = inr (refl, strip_lem turn.current_headers input.sensitive_headers);
        })
        | inr as_before ↦ rw as_before (record { target = inr same; sent_as = sound.sent_as })
      ]
