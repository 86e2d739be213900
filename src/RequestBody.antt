-- ===== src/RequestBody.antt =====
-- packages/core/src/security/bounded-request-body.ts. A stream is the chunks that its reader answers
-- and whether an error ends it; releasing the lock and canceling the reader are left out.
use saa_sweave.Prelude.{
  ℕ, ◌+◌, ◌-◌, ◌≤◌, Bool, true, false, not, ◌&&◌, Option, none, some, List, [], ◌∷◌, ◌++◌, ltb, leb,
  ◌==◌, if◌then◌else◌, length,
}
pub mod Whole
pub mod Tests

pub data RequestError : Type 0 where
  too_large stream_error : RequestError

pub data Read : Type 0 where
  got_body : List ℕ → Read
  thrown : RequestError → Read

pub record Stream : Type 0 where
  pub chunks : List (List ℕ)
  pub fails : Bool

-- `assertContentLengthWithinLimit`: whether it returns.
abbrev pub assert_content_length_within_limit : Option ℕ → ℕ → Bool
assert_content_length_within_limit none max_bytes = true
assert_content_length_within_limit (some content_length) max_bytes =
    not (ltb max_bytes content_length)

-- The `while (true)`, with the bytes read so far.
unfoldable pub read_chunks : ℕ → (fails : Bool) → List ℕ → List (List ℕ) → Read
read_chunks max_bytes fails read [] = if fails then thrown stream_error else got_body read
read_chunks max_bytes fails read (value ∷ chunks) =
    let skipped = read_chunks max_bytes fails read chunks in
    let rest = read_chunks max_bytes fails (read ++ value) chunks in
    if length value == 0
    then skipped
    else if leb max_bytes (length read)
    then thrown too_large
    else if ltb (max_bytes - length read) (length value)
    then thrown too_large
    else rest

abbrev pub of_stream : ℕ → Option Stream → Read
of_stream max_bytes none = got_body []
of_stream max_bytes (some stream) = read_chunks max_bytes stream.fails [] stream.chunks

unfoldable pub read_bounded_request_body : Option ℕ → ℕ → Option Stream → Read
unfolding read_chunks
read_bounded_request_body content_length max_bytes stream =
    let read = of_stream max_bytes stream in
    if assert_content_length_within_limit content_length max_bytes then read else thrown too_large

abbrev pub or_null : Read → Option Read
or_null (got_body bytes) = some (got_body bytes)
or_null (thrown too_large) = none
or_null (thrown stream_error) = some (thrown stream_error)

-- `none` is null.
unfoldable pub read_bounded_request_body_or_null : Option ℕ → ℕ → Option Stream → Option Read
unfolding read_bounded_request_body
read_bounded_request_body_or_null content_length max_bytes stream =
    or_null (read_bounded_request_body content_length max_bytes stream)
