-- ===== src/Outbound/Body.antt =====
-- `readBoundedBody` of packages/db/src/outbound-http/client.ts, over the events of the stream. The
-- bytes stand for the text that they encode; when no event follows, the idle timer fires.
use saa_sweave.Prelude.{
  ℕ, ◌-◌, Bool, true, false, List, [], ◌∷◌, ◌++◌, ltb, leb, if◌then◌else◌, length, take,
}

pub data BodyEvent (E : Type 0) : Type 0 where
  chunk : List ℕ → BodyEvent E
  end : BodyEvent E
  error : E → BodyEvent E
  abort : BodyEvent E

pub data BodyResult (E : Type 0) : Type 0 where
  read_bytes : List ℕ → (truncated : Bool) → BodyResult E
  failed : E → BodyResult E
  idle_timeout : BodyResult E
  aborted : BodyResult E

-- `chunk.length > remaining ? chunk.subarray(0, remaining) : chunk`
abbrev pub slice : ℕ → List ℕ → List ℕ
slice remaining bytes = if ltb remaining (length bytes) then take remaining bytes else bytes

-- `bytes` are the chunks so far, `length bytes` is `total`.
unfoldable pub read_from : {E : Type 0} → ℕ → List ℕ → List (BodyEvent E) → BodyResult E
read_from max_bytes bytes [] = idle_timeout
read_from max_bytes bytes (end ∷ events) = read_bytes bytes false
read_from max_bytes bytes (error e ∷ events) = failed e
read_from max_bytes bytes (abort ∷ events) = aborted
read_from max_bytes bytes (chunk c ∷ events) =
    let remaining = max_bytes - length bytes in
    let kept = bytes ++ slice remaining c in
    let rest = read_from max_bytes kept events in
    if leb max_bytes (length bytes)
    then read_bytes bytes true
    else if ltb remaining (length c)
    then read_bytes kept true
    else rest

unfoldable pub read_bounded_body : {E : Type 0} → ℕ → List (BodyEvent E) → BodyResult E
unfolding read_from
read_bounded_body max_bytes events = read_from max_bytes [] events
