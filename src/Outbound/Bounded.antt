-- ===== src/Outbound/Bounded.antt =====
-- How much of a response `readBoundedBody` of packages/db/src/outbound-http/client.ts keeps.
use saa_sweave.Prelude.{
  ℕ, zero, suc, ◌+◌, ◌-◌, ◌≤◌, ◌<◌, true, false, List, [], ◌∷◌, ◌++◌, ◌≡◌, refl, sym, ap, ◌∙◌,
  arith, leb→le, ltb→lt, ltb, leb, length, take, length-take, length-append, Bool-cases, inl, inr,
}
use mathlib.Core.List.{append_assoc, append-nil}
use saa_sweave.Outbound.Body.{
  BodyEvent, chunk, end, error, abort, BodyResult, read_bytes, failed, idle_timeout, aborted,
  read_from, read_bounded_body,
}

-- The bytes of the chunks up to the end, an error or an abort.
unfoldable pub sent_bytes : {E : Type 0} → List (BodyEvent E) → List ℕ
sent_bytes [] = []
sent_bytes (chunk c ∷ events) = c ++ sent_bytes events
sent_bytes (end ∷ events) = []
sent_bytes (error e ∷ events) = []
sent_bytes (abort ∷ events) = []

take-append : (n : ℕ) (xs ys : List ℕ) → n ≤ length xs → take n (xs ++ ys) ≡ take n xs
take-append zero xs ys h = refl
take-append (suc n) [] ys h = absurd (omega arith)
take-append (suc n) (x ∷ xs) ys h = ap (◌∷◌ x) (take-append n xs ys (omega arith))

take_all : (n : ℕ) (xs : List ℕ) → length xs ≤ n → take n xs ≡ xs
take_all zero [] h = refl
take_all zero (x ∷ xs) h = absurd (omega arith)
take_all (suc n) [] h = refl
take_all (suc n) (x ∷ xs) h = ap (◌∷◌ x) (take_all n xs (omega arith))

take_past : (n k : ℕ) (xs ys : List ℕ) → n ≡ length xs + k → take n (xs ++ ys) ≡ xs ++ take k ys
take_past n k [] ys h = ap (λ m. take m ys) (omega (arith, h))
take_past zero k (x ∷ xs) ys h = absurd (omega arith)
take_past (suc n) k (x ∷ xs) ys h = ap (◌∷◌ x) (take_past n k xs ys (omega (arith, h)))

-- What is promised of a result, about all that the server sends.
abbrev pub IsPrefix : {E : Type 0} → ℕ → List ℕ → BodyResult E → Type 0
IsPrefix max_bytes all (read_bytes bytes true) =
    (bytes ≡ take max_bytes all) × (length bytes ≡ max_bytes)
IsPrefix max_bytes all (read_bytes bytes false) = (bytes ≡ all) × (length bytes ≤ max_bytes)
IsPrefix max_bytes all (failed e) = Unit
IsPrefix max_bytes all idle_timeout = Unit
IsPrefix max_bytes all aborted = Unit

not_ltb : (a b : ℕ) → ltb a b ≡ false → b ≤ a
not_ltb a b h = ground arith

full_lem :
    (max_bytes : ℕ) (bytes rest : List ℕ)
    → length bytes ≡ max_bytes
    → (bytes ≡ take max_bytes (bytes ++ rest)) × (length bytes ≡ max_bytes)
full_lem max_bytes bytes rest h = (
  sym (
      take-append max_bytes bytes rest (omega (arith, h))
      ∙ take_all max_bytes bytes (omega (arith, h))),
  h,
)

over_lem :
    (max_bytes : ℕ) (bytes c rest : List ℕ)
    → length bytes ≤ max_bytes
    → max_bytes - length bytes < length c
    → let kept = bytes ++ take (max_bytes - length bytes) c in
      (kept ≡ take max_bytes (bytes ++ (c ++ rest))) × (length kept ≡ max_bytes)
over_lem max_bytes bytes c rest h over =
    let k = max_bytes - length bytes in
    (
      sym (
          take_past max_bytes k bytes (c ++ rest) (omega arith)
          ∙ ap (λ t. bytes ++ t) (take-append k c rest (omega arith))),
      omega (arith, length-append bytes (take k c), length-take k c),
    )

module _ {E : Type 0} (max_bytes : ℕ) where
  read_from-IsPrefix :
      (bytes : List ℕ) (events : List (BodyEvent E))
      → length bytes ≤ max_bytes
      → IsPrefix max_bytes (bytes ++ sent_bytes events) (read_from max_bytes bytes events)
  unfolding read_from sent_bytes
  read_from-IsPrefix bytes [] h = tt
  read_from-IsPrefix bytes (end ∷ events) h = (sym (append-nil bytes), h)
  read_from-IsPrefix bytes (error e ∷ events) h = tt
  read_from-IsPrefix bytes (abort ∷ events) h = tt
  read_from-IsPrefix bytes (chunk c ∷ events) h =
      let remaining = max_bytes - length bytes in
      elim (Bool-cases (leb max_bytes (length bytes))) [
        | inl full ↦ rw full (
            full_lem max_bytes bytes (c ++ sent_bytes events)
              (omega (arith, leb→le max_bytes (length bytes) full)))
        | inr room ↦ rw room (elim (Bool-cases (ltb (max_bytes - length bytes) (length c))) [
          | inl over ↦
              rw over (over_lem max_bytes bytes c (sent_bytes events) h (ltb→lt _ (length c) over))
          | inr fits ↦ rw fits (
              rw (← append_assoc bytes c (sent_bytes events)) (
                read_from-IsPrefix (bytes ++ c) events (
                  omega (
                    arith,
                    length-append bytes c,
                    not_ltb (max_bytes - length bytes) (length c) fits,
                  ))))
        ])
      ]

  -- Of a response that is read to its end, or until more than the limit has come, the bytes kept are
  -- all that were sent, not more than the limit, when it is not marked as truncated, and exactly
  -- as many of the first as the limit allows when it is.
  pub read_bounded_body-IsPrefix :
      (events : List (BodyEvent E))
      → IsPrefix max_bytes (sent_bytes events) (read_bounded_body max_bytes events)
  unfolding read_bounded_body
  read_bounded_body-IsPrefix events = read_from-IsPrefix [] events (omega arith)
