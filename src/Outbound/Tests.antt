-- ===== src/Outbound/Tests.antt =====
-- Tests of the outbound client, and the theorems at concrete inputs.
use saa_sweave.Prelude.{
  String, true, false, ◌||◌, Option, none, some, List, [], ◌∷◌, ◌≡◌, refl, arith, All, any,
  if◌then◌else◌,
}
use text.Mathlib.Text.{◌==◌ as str_eq}
use saa_sweave.Prelude.Table.{lookup}
use saa_sweave.Prelude.Text.{before, split, includes, starts_with, joined}
use saa_sweave.Ip.{is_ipv4}
use saa_sweave.Outbound.Address.{
  Url, Platform, is_private, is_private_ipv4, is_blocked_outbound_address, parse_hex, slice_from,
}
use saa_sweave.Outbound.Blocks.{address, is_in, special_blocks, is_private-special_blocks}
use saa_sweave.Outbound.SixToFour.{six_to_four_is_allowed}
use saa_sweave.Outbound.Url.{parse_outbound_url, outbound_origins_match, are_addresses_allowed}
use saa_sweave.Outbound.Body.{BodyEvent, chunk, end, read_bounded_body}
use saa_sweave.Outbound.Bounded.{IsPrefix, sent_bytes, read_bounded_body-IsPrefix}
use saa_sweave.Outbound.Hop.{
  Thrown, Response, Hop, done, Reply, answers, Network, try_addresses, validated, execute_hop,
}
use saa_sweave.Outbound.Client.{
  next_turn, HardenedOutboundRequestInput, hardened_outbound_request, redirected, finished,
}
use saa_sweave.Outbound.Hops.{IsAllowed}
use saa_sweave.Outbound.Redirects.{IsDecided, sent-IsAllowed, hardened_outbound_request-IsDecided}

-- Two URLs of one host.
abbrev pub url_of : String → Option Url
url_of raw =
    if str_eq raw "https://hook.dev/a" || str_eq raw "https://hook.dev/b"
    then some (record {
      protocol = "https:";
      username = "";
      password = "";
      hostname = "hook.dev";
      host = "hook.dev";
      port = "";
    })
    else none

abbrev pub platform : Platform
platform = record {
  is_ipv6 = λ ip. includes b':' ip;
  to_lower_case = λ s. s;
  parse_url = url_of;
  resolve_url = λ location base. some location;
}

-- A server that answers the first request with a redirect, and the second one with a page.
abbrev pub page : List Hop → Reply Response
page [] = answers (record {
  status_code = 303;
  headers = record { key = "location"; value = "https://hook.dev/b" } ∷ [];
  body = [];
})
page (hop ∷ hops) =
    answers (record { status_code = 200; headers = []; body = chunk (111 ∷ 107 ∷ []) ∷ end ∷ [] })

abbrev pub network : Network
network = record {
  resolve = λ sent hostname. answers ("93.184.216.34" ∷ []);
  request = λ sent hop. page sent;
}

abbrev input : HardenedOutboundRequestInput
input = record {
  body = some "{}";
  follow_redirects = none;
  headers =
      record { key = "Content-Type"; value = "application/json" }
      ∷ record { key = "X-Signature"; value = "t=1" }
      ∷ [];
  max_redirects = none;
  method = "POST";
  sensitive_headers = "X-Signature" ∷ [];
  url = "https://hook.dev/a";
}

private_address : is_blocked_outbound_address platform "192.168.1.7" ≡ true
unfolding is_blocked_outbound_address is_ipv4
private_address = refl

mapped_address : is_blocked_outbound_address platform "::ffff:7f00:1" ≡ true
unfolding is_blocked_outbound_address is_ipv4 starts_with split is_private_ipv4 includes slice_from
mapped_address = refl

delivered :
    (hardened_outbound_request platform network input).0
    ≡ done (record { body = 111 ∷ 107 ∷ []; headers = []; status = 200; truncated = false })
unfolding hardened_outbound_request try_addresses validated parse_outbound_url
    is_blocked_outbound_address is_ipv4 is_private_ipv4 read_bounded_body finished lookup
    outbound_origins_match are_addresses_allowed redirected joined next_turn execute_hop includes
delivered = refl

sent-IsAllowed_example :
    All (IsAllowed platform input) (hardened_outbound_request platform network input).1
sent-IsAllowed_example = sent-IsAllowed platform input network

hardened_outbound_request-IsDecided_example :
    IsDecided (hardened_outbound_request platform network input).0
hardened_outbound_request-IsDecided_example =
    hardened_outbound_request-IsDecided platform input network

is_private-special_blocks_example :
    is_private (some 172) (some 20) (some 0) (some 1)
    ≡ any (is_in (address 172 20 0 1)) special_blocks
is_private-special_blocks_example =
    is_private-special_blocks 172 20 0 1 (omega arith) (omega arith) (omega arith) (omega arith)

-- 2002:7f00:1:: is the 6to4 network of 127.0.0.1.
not_ipv4 : is_ipv4 "2002:7f00:1::" ≡ false
unfolding is_ipv4
not_ipv4 = refl

is_ipv6_text : platform.is_ipv6 "2002:7f00:1::" ≡ true
unfolding includes
is_ipv6_text = refl

six_to_four_is_allowed_example : is_blocked_outbound_address platform "2002:7f00:1::" ≡ false
unfolding includes before parse_hex joined
six_to_four_is_allowed_example =
    six_to_four_is_allowed platform "2002:7f00:1::" "7f00:1::" 0x7f00 not_ipv4 is_ipv6_text refl
      refl refl refl

abbrev events : List (BodyEvent Thrown)
events = chunk (1 ∷ 2 ∷ []) ∷ chunk (3 ∷ 4 ∷ []) ∷ end ∷ []

read_bounded_body-IsPrefix_example : IsPrefix 3 (sent_bytes events) (read_bounded_body 3 events)
read_bounded_body-IsPrefix_example = read_bounded_body-IsPrefix 3 events
