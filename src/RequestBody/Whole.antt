-- ===== src/RequestBody/Whole.antt =====
-- What is read of a body, against its bytes as a whole.
use saa_sweave.Prelude.{
  ℕ, ◌-◌, ◌≤◌, Bool, false, Option, none, some, List, [], ◌∷◌, ◌++◌, ltb, ◌≡◌, refl, ap, arith,
  if◌then◌else◌, length, length-append, Bool-cases, inl, inr,
}
use mathlib.Core.List.{append-nil, append_assoc}
use saa_sweave.RequestBody.{
  Read, got_body, thrown, too_large, stream_error, Stream, assert_content_length_within_limit,
  read_chunks, read_bounded_request_body,
}

-- The bytes of a stream.
abbrev pub all_bytes : List (List ℕ) → List ℕ
all_bytes [] = []
all_bytes (chunk ∷ chunks) = chunk ++ all_bytes chunks

abbrev pub ended : (fails : Bool) → List ℕ → Read
ended fails bytes = if fails then thrown stream_error else got_body bytes

-- What is read of all bytes at once.
abbrev pub whole : ℕ → (fails : Bool) → List ℕ → Read
whole max_bytes fails bytes =
    if ltb max_bytes (length bytes) then thrown too_large else ended fails bytes

ltb-false : (m n : ℕ) → ltb m n ≡ false → n ≤ m
ltb-false m n h = ground arith

read_chunks-whole :
    (max_bytes : ℕ) (fails : Bool) (read : List ℕ) (chunks : List (List ℕ))
    → length read ≤ max_bytes
    → read_chunks max_bytes fails read chunks ≡ whole max_bytes fails (read ++ all_bytes chunks)
unfolding read_chunks
read_chunks-whole max_bytes fails read [] fits = rw (append-nil read) (ground arith)
read_chunks-whole max_bytes fails read ([] ∷ chunks) fits =
    read_chunks-whole max_bytes fails read chunks fits
read_chunks-whole max_bytes fails read ((b ∷ bytes) ∷ chunks) fits =
    let value = b ∷ bytes in
    let size = length-append read (value ++ all_bytes chunks) in
    let value_size = length-append value (all_bytes chunks) in
    elim (Bool-cases (ltb (max_bytes - length read) (length value))) [
      | inl over ↦ ground (arith, size, value_size, over)
      | inr kept ↦
          let both = length-append read value in
          let ih =
            read_chunks-whole max_bytes fails (read ++ value) chunks
              (omega (arith, both, ltb-false (max_bytes - length read) (length value) kept)) in
          let same = append_assoc read value (all_bytes chunks) in
          ground (arith, ap (whole max_bytes fails) same, ih, kept)
    ]

abbrev pub whole_of : ℕ → Option Stream → Read
whole_of max_bytes none = got_body []
whole_of max_bytes (some stream) = whole max_bytes stream.fails (all_bytes stream.chunks)

-- Whatever the chunks of a request body, it is read as its bytes would be at once: it is too large
-- if Content-Length says more than the limit, or else if it has more bytes, and otherwise it is
-- all its bytes or the error that ends the stream.
pub read_bounded_request_body-whole :
    (content_length : Option ℕ) (max_bytes : ℕ) (stream : Option Stream)
    → read_bounded_request_body content_length max_bytes stream ≡ (
        if assert_content_length_within_limit content_length max_bytes
        then whole_of max_bytes stream
        else thrown too_large)
unfolding read_bounded_request_body
read_bounded_request_body-whole content_length max_bytes none = refl
read_bounded_request_body-whole content_length max_bytes (some stream) =
    rw (read_chunks-whole max_bytes stream.fails [] stream.chunks (omega arith)) refl
