-- ===== src/RequestBody/Tests.antt =====
-- Tests of the bounded body, and the theorem at a concrete input.
use saa_sweave.Prelude.{false, none, some, [], ◌∷◌, ◌≡◌, refl, if◌then◌else◌}
use saa_sweave.RequestBody.{
  got_body, thrown, too_large, Stream, assert_content_length_within_limit, read_chunks,
  read_bounded_request_body, read_bounded_request_body_or_null,
}
use saa_sweave.RequestBody.Whole.{whole_of, read_bounded_request_body-whole}

abbrev stream : Stream
stream = record { chunks = (1 ∷ 2 ∷ []) ∷ [] ∷ (3 ∷ []) ∷ []; fails = false }

exact : read_bounded_request_body none 3 (some stream) ≡ got_body (1 ∷ 2 ∷ 3 ∷ [])
unfolding read_bounded_request_body read_chunks
exact = refl

over : read_bounded_request_body_or_null (some 1) 2 (some stream) ≡ none
unfolding read_bounded_request_body_or_null read_bounded_request_body read_chunks
over = refl

read_bounded_request_body-whole_example : read_bounded_request_body (some 3) 3 (some stream) ≡ (
    if assert_content_length_within_limit (some 3) 3
    then whole_of 3 (some stream)
    else thrown too_large)
read_bounded_request_body-whole_example = read_bounded_request_body-whole (some 3) 3 (some stream)
