-- ===== src/Cache/Server.antt =====
-- A Redis server that keeps texts in a table, for the tests of the operations over Redis.
use saa_sweave.Prelude.{
  ℕ, ◌+◌, String, Bool, true, Option, none, some, [], ◌∷◌, ◌≡◌, ◌≢◌, refl, Option-cases, inl, inr,
}
use saa_sweave.Prelude.Decimal.{decimal, to_number-decimal}
use saa_sweave.Prelude.Table.{Table, lookup, insert, lookup-insert_self, lookup-insert_ne}
use saa_sweave.Cache.Refine.{empty_memory}
use saa_sweave.Cache.Client.{
  RedisClient, CacheEnvelope, Codec, Settings, CacheSetOptions, State, Status, version_of,
}
use saa_sweave.Cache.Versions.{Serves, RoundTrips}
use saa_sweave.Cache.Invalidation.{envelope}

abbrev pub numbered : String → Option ℕ → Table String → Option ℕ × Table String
numbered key none s = (none, s)
numbered key (some n) s = (some (n + 1), insert key (decimal (n + 1)) s)

-- A server that keeps texts.
abbrev pub server : RedisClient (Table String)
server = record {
  status = λ s. Status.ready;
  connect = λ s. (true, s);
  get = λ key s. (some (lookup key s), s);
  set = λ key text ttl s. (true, insert key text s);
  del = λ key s. (true, s);
  incr = λ key s. numbered key (version_of (lookup key s)) s;
  expire_gt = λ key ttl s. (true, s);
  unlink = λ keys s. (some 0, s);
}

pub version_of-decimal : (n : ℕ) → version_of (some (decimal n)) ≡ some n
unfolding version_of
version_of-decimal n = rw (to_number-decimal n).1 (to_number-decimal n).0

pub numbered_answer :
    (key : String) (n : ℕ) (s : Table String)
    → version_of (lookup key s) ≡ some n
    → (server.incr key s).0 ≡ some (n + 1)
numbered_answer key n s h = rw h refl

pub numbered_ne :
    (key other : String) (s : Table String)
    → key ≢ other
    → lookup other (server.incr key s).1 ≡ lookup other s
numbered_ne key other s h = elim (Option-cases (version_of (lookup key s))) [
  | inl nan ↦ rw nan refl
  | inr (n, known) ↦ rw known (lookup-insert_ne key other (decimal (n + 1)) s h)
]

pub numbered_self :
    (key : String) (n : ℕ) (s : Table String)
    → version_of (lookup key s) ≡ some n
    → version_of (lookup key (server.incr key s).1) ≡ some (n + 1)
numbered_self key n s h =
    rw (h, lookup-insert_self key (decimal (n + 1)) s) (version_of-decimal (n + 1))

abbrev pub serves : Serves server
serves = record {
  value = λ s key. lookup key s;
  status_lem = λ s. refl;
  get_lem = λ key s. refl;
  set_lem = λ key text ttl s. refl;
  set_self = λ key text ttl s. lookup-insert_self key text s;
  set_ne = λ key other text ttl s h. lookup-insert_ne key other text s h;
  incr_lem = numbered_answer;
  incr_self = numbered_self;
  incr_ne = numbered_ne;
  expire_lem = λ key ttl s. refl;
  expire_value = λ key other ttl s. refl;
}

abbrev pub settings : Bool → Settings
settings configured = record {
  redis_configured = configured;
  cache_prefix = "ssw";
  cache_default_ttl_seconds = 60;
}

abbrev pub options : CacheSetOptions
options = record {
  failure_mode = none;
  namespace = none;
  tags = some ("plans" ∷ []);
  ttl_seconds = none;
}

-- The state of Redis in which the tag has a version.
abbrev pub at_version : String → State (Table String) ℕ
at_version n = record {
  redis = record { key = "ssw:tag-version:plans"; value = n } ∷ [];
  memory = empty_memory;
}

-- The envelope that is stored for the value 7 in such a state.
abbrev pub stored_envelope : String → CacheEnvelope ℕ
stored_envelope n = envelope serves (settings true) (at_version n).redis 0 (some 7) ("plans" ∷ [])

abbrev pub codec : CacheEnvelope ℕ → Codec ℕ
codec e = record {
  stringify = λ e'. some "{}";
  parse = λ text. some e;
  stringify_value = λ v. some "7";
}

abbrev pub round : (e : CacheEnvelope ℕ) → RoundTrips (codec e) e
round e = record { text = "{}"; stringify_lem = refl; parse-text = refl; text_not_empty = refl }
