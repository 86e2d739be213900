-- ===== src/Cache/ServerTests.antt =====
-- Tests of the operations over Redis, on a server that keeps texts in a table, and the theorems at concrete inputs.
use saa_sweave.Prelude.{
  ℕ, String, true, false, none, some, [], ◌∷◌, ◌≡◌, refl, sym, ap, arith, eq_iff,
}
use saa_sweave.Prelude.Decimal.{decimal}
use saa_sweave.Prelude.Table.{Table, lookup, insert}
use saa_sweave.Prelude.Text.{to_number, trim, joined}
use saa_sweave.RateLimit.{fail_closed}
use saa_sweave.Cache.Tests.{two_memory}
use saa_sweave.Cache.Keys.{cache_key, tag_version_key}
use saa_sweave.Cache.Memory.{includes_tag}
use saa_sweave.Cache.Refine.{empty_memory}
use saa_sweave.Cache.Ideal.{read, write, remove, invalidate, step}
use saa_sweave.Cache.Client.{CacheEnvelope, Codec, approximate_bytes, State, full_key, version_of}
use saa_sweave.Cache.Redis.{cache_get, cache_set, cache_delete, reset_version, cache_invalidate_tag}
use saa_sweave.Cache.Failures.{closed, fail_closed_keeps_memory, without_redis_is_memory}
use saa_sweave.Cache.Versions.{found, version}
use saa_sweave.Cache.Invalidation.{
  HasOwnKey, envelope, cache_get-cache_set, invalidated_is_not_served, invalidation_at_cap_is_lost,
}
use saa_sweave.Cache.Wrap.{
  Wrapping, joined as joined_to, started, wrap_enter, wrap_finish, wrap_read, wrap_store,
}
use saa_sweave.Cache.Flights.{
  Reach, here, next, enter, runs, grounded, IsFlown, one_load_for_a_key, ended_load_frees_key,
}
use saa_sweave.Cache.Stale.{HasVersion, load_across_invalidation_is_served}
use saa_sweave.Cache.Server.{
  server, serves, settings, options, at_version, stored_envelope, codec, round,
}

own_key : HasOwnKey (settings true) (full_key (settings true) "plans" options) ("plans" ∷ [])
unfolding cache_key tag_version_key trim joined
own_key = (λ e. cc (sym ((eq_iff "ssw:app:plans" "ssw:tag-version:plans").1 e)), tt)

cache_get-cache_set_example :
    let c = codec (stored_envelope "4") in
    (cache_get server c
      (settings true)
      0
      "plans"
      options
      (cache_set server c (settings true) 0 "plans" (some 7) options (at_version "4"))).0
    ≡ some 7
cache_get-cache_set_example =
    let e = stored_envelope "4" in
    cache_get-cache_set serves (codec e) (settings true) refl 0 "plans" (some 7) options
      (at_version "4") (round e) own_key 0

version_at :
    (n : String) (k : ℕ)
    → version_of (some n) ≡ some k
    → version_of (lookup (tag_version_key "ssw" "plans") (at_version n).redis) ≡ some k
unfolding tag_version_key trim joined lookup
version_at n k h = h

four : version_of (some "4") ≡ some 4
unfolding version_of to_number
four = refl

ten_thousand : version_of (some "10000") ≡ some 10000
unfolding version_of to_number
ten_thousand = refl

listed : includes_tag "plans" ("plans" ∷ []) ≡ true
unfolding includes_tag
listed = refl

invalidated_is_not_served_example :
    let c = codec (stored_envelope "4") in
    (cache_get server c
      (settings true)
      0
      "plans"
      options
      (cache_invalidate_tag server c
        (settings true)
        "plans"
        none
        (cache_set server c (settings true) 0 "plans" (some 7) options (at_version "4"))).1).0
    ≡ none
invalidated_is_not_served_example =
    let e = stored_envelope "4" in
    invalidated_is_not_served serves (codec e) (settings true) refl 0 "plans" (some 7) options
      (at_version "4") (round e) own_key 0 "plans" none 4 listed (version_at "4" 4 four)
      (omega arith)

invalidation_at_cap_is_lost_example :
    let c = codec (stored_envelope "10000") in
    let (count, cleared) =
      cache_invalidate_tag server c
        (settings true)
        "plans"
        none
        (cache_set server c (settings true) 0 "plans" (some 7) options (at_version "10000")) in
    (count ≡ 1)
    × (version serves (settings true) cleared.redis "plans" ≡ some 1)
    × ((cache_get server c (settings true) 0 "plans" options cleared).0 ≡ some 7)
invalidation_at_cap_is_lost_example =
    let e = stored_envelope "10000" in
    invalidation_at_cap_is_lost serves (codec e) (settings true) refl 0 "plans" (some 7) options
      (at_version "10000") (round e) own_key 0 "plans" none 10000 listed
      (version_at "10000" 10000 ten_thousand) (omega arith)

abbrev down : State (Table String) ℕ
down = record { redis = []; memory = two_memory }

abbrev any_codec : Codec ℕ
any_codec = codec (record { stored_at = 0; tag_versions = []; value = none })

fail_closed_keeps_memory_test :
    ((cache_get server any_codec (settings false) 0 "a" (closed options) down).1.memory
      ≡ down.memory)
    × ((cache_set server any_codec (settings false) 0 "a" (some 1) (closed options) down).memory
        ≡ down.memory)
    × ((cache_delete server any_codec (settings false) "a" (closed options) down).memory
        ≡ down.memory)
    × ((cache_invalidate_tag server any_codec (settings false) "t" (some fail_closed) down).1.memory
        ≡ down.memory)
    × ((cache_get server any_codec
          (settings false)
          0
          "a"
          (closed options)
          (record down { memory = empty_memory })).0
        ≡ (cache_get server any_codec (settings false) 0 "a" (closed options) down).0)
fail_closed_keeps_memory_test =
    fail_closed_keeps_memory server any_codec (settings false) 0 "a" "t" (some 1) options
      empty_memory down

down_is_memory :
    let name = full_key (settings false) "a" options in
    let (found, m) = step (read 0 name) down.memory in
    (cache_get server any_codec (settings false) 0 "a" options down
      ≡ (found, record down { memory = m }))
    × (cache_set server any_codec (settings false) 0 "a" (some 1) options down ≡ record down {
      memory =
          (step
            (write 0 (approximate_bytes (some "7")) name (some 1) 60 ("plans" ∷ []))
            down.memory).1;
    })
    × (cache_delete server any_codec (settings false) "a" options down
        ≡ record down { memory = (step (remove name) down.memory).1 })
    × ((cache_invalidate_tag server any_codec (settings false) "t" none down).1
        ≡ record down { memory = (step (invalidate "t") down.memory).1 })
down_is_memory =
    without_redis_is_memory server any_codec (settings false) 0 "a" "t" (some 1) options down refl
      refl

abbrev idle : Wrapping (Table String) ℕ
idle = grounded (at_version "4")

abbrev one_call : Wrapping (Table String) ℕ
one_call = (wrap_enter "ssw:app:plans" 1 none idle).1

one_call-Reach : Reach idle one_call
one_call-Reach = next here (enter "ssw:app:plans" 1 none)

one_load_for_a_key_example : IsFlown one_call
one_load_for_a_key_example = one_load_for_a_key one_call-Reach

one_call_runs : runs "ssw:app:plans" 1 one_call.loads ≡ true
unfolding runs wrap_enter lookup
one_call_runs = refl

ended_load_frees_key_example :
    ((wrap_enter "ssw:app:plans" 2 none one_call).0 ≡ joined_to 1)
    × ((wrap_enter "ssw:app:plans" 2 none (wrap_finish "ssw:app:plans" 1 one_call)).0 ≡ started 2)
ended_load_frees_key_example = ended_load_frees_key "ssw:app:plans" 1 2 one_call-Reach one_call_runs

-- A process that runs no load, at a version of the tag.
abbrev at_four : Wrapping (Table String) ℕ
at_four = record { state = at_version "4"; in_flight = []; loads = [] }

-- The state after an invalidation during the load.
abbrev cleared : CacheEnvelope ℕ → State (Table String) ℕ
cleared e =
    (cache_invalidate_tag server (codec e) (settings true) "plans" none
      (wrap_enter (full_key (settings true) "plans" options) 1 none at_four).1.state).1

-- What is stored after it, under the tag's new version.
abbrev late_envelope : CacheEnvelope ℕ
late_envelope = record {
  stored_at = 0;
  tag_versions = record { key = "plans"; value = some 5 } ∷ [];
  value = some 7;
}

late_envelope_lem :
    late_envelope
    ≡ envelope serves (settings true) (cleared late_envelope).redis 0 (some 7) ("plans" ∷ [])
unfolding found wrap_enter cache_invalidate_tag reset_version version_of to_number decimal
    tag_version_key trim joined lookup insert
late_envelope_lem = refl

load_across_invalidation_is_served_example :
    let c = codec late_envelope in
    let name = full_key (settings true) "plans" options in
    let (answer, called) = wrap_enter name 1 none at_four in
    let (count, cleared) =
      cache_invalidate_tag server c (settings true) "plans" none called.state in
    let between = record called { state = cleared } in
    let stored = wrap_store server c (settings true) 0 "plans" (some 7) options between in
    (answer ≡ started 1)
    × (count ≡ 1)
    × (version serves (settings true) cleared.redis "plans" ≡ some 5)
    × ((wrap_enter name 2 none between).0 ≡ joined_to 1)
    × HasVersion serves c stored.state.redis name "plans" 5 (some 7)
    × ((wrap_read server c (settings true) 0 "plans" options stored).0 ≡ some 7)
unfolding lookup
load_across_invalidation_is_served_example =
    load_across_invalidation_is_served serves (codec late_envelope) (settings true) refl 0 0 "plans"
      (some 7) options "plans" none 1 2 4 at_four refl (version_at "4" 4 four) (omega arith) listed
      (record {
        text = "{}";
        stringify_lem = refl;
        parse-text = ap some late_envelope_lem;
        text_not_empty = refl;
      })
      own_key
