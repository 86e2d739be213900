-- ===== src/Export/Pages.antt =====
-- Pages of an exported table whose creation times are whole milliseconds: page after page, they are
-- the table.
use saa_sweave.Prelude.{
  ℕ, zero, suc, ◌*◌, ◌/◌, ◌%◌, ◌≤◌, ◌<◌, ◌≡◌, refl, sym, subst, ap, ◌∙◌, Bool, true, false, ◌&&◌,
  ◌||◌, Option, none, some, List, [], ◌∷◌, ◌++◌, arith, ltb, ◌==◌, take, keep, length, All, All_of,
}
use mathlib.Core.List.{Memᴰ}
use saa_sweave.Prelude.Sql.{All-mem}
use saa_sweave.Prelude.Json.{Json}
use saa_sweave.Export.Stream.{
  Row, Cursor, Progress, Streamed, finished, throws, out_of_fuel, persist, write_record, and_then,
  write_rows, export_table, after_cursor, next_cursor,
}

-- The order of the query: by creation time, then by id.
abbrev pub precedes : Row → Row → Bool
precedes l k = ltb l.created_us k.created_us || k.created_us == l.created_us && ltb l.id k.id

abbrev pub InOrder : List Row → Type 0
InOrder [] = Unit
InOrder (r ∷ rest) = All (λ k. precedes r k ≡ true) rest × InOrder rest

abbrev cursor_at : Row → Cursor
cursor_at l = record { created_ms = l.created_us / 1000; id = l.id }

abbrev drop : ℕ → List Row → List Row
drop zero rows = rows
drop (suc n) [] = []
drop (suc n) (r ∷ rows) = drop n rows

take-drop : (n : ℕ) (rows : List Row) → take n rows ++ drop n rows ≡ rows
take-drop zero rows = refl
take-drop (suc n) [] = refl
take-drop (suc n) (r ∷ rows) = ap (λ rest. r ∷ rest) (take-drop n rows)

drop_shorter : (n : ℕ) (r : Row) (rows : List Row) → length (drop (suc n) (r ∷ rows)) ≤ length rows
drop_shorter zero r rows = omega arith
drop_shorter (suc n) r [] = omega arith
drop_shorter (suc n) r (k ∷ rows) = omega (arith, drop_shorter n k rows)

keep_all : (p : Row → Bool) (rows : List Row) → All (λ k. p k ≡ true) rows → keep p rows ≡ rows
keep_all p [] h = refl
keep_all p (k ∷ rows) h = rw (h.0) (ap (λ rest. k ∷ rest) (keep_all p rows h.1))

keep_same :
    (p q : Row → Bool) → ((k : Row) → p k ≡ q k) → (rows : List Row) → keep p rows ≡ keep q rows
keep_same p q h [] = refl
keep_same p q h (k ∷ rows) = ground (arith, h k, keep_same p q h rows)

mem_right : {l : Row} (front rest : List Row) → Memᴰ l rest → Memᴰ l (front ++ rest)
mem_right [] rest m = m
mem_right (k ∷ front) rest m = Memᴰ.tail (mem_right front rest m)

precedes_asym : (k l : Row) → precedes k l ≡ true → precedes l k ≡ false
precedes_asym k l h = ground (arith, h)

not_self : (l : Row) → precedes l l ≡ false
not_self l = ground arith

-- Nothing before the rest comes after one of its rows.
keep_front :
    (l : Row) (front rest : List Row)
    → InOrder (front ++ rest)
    → Memᴰ l rest
    → keep (precedes l) (front ++ rest) ≡ keep (precedes l) rest
keep_front l [] rest o m = refl
keep_front l (k ∷ front) rest o m =
    let before = All-mem (λ j. precedes k j ≡ true) (mem_right front rest m) o.0 in
    rw (precedes_asym k l before) (keep_front l front rest o.1 m)

-- The last row of a page: where the cursor stands, and what comes after it.
record LastOf (n : ℕ) (rows : List Row) : Type 0 where
  last : Row
  present : Memᴰ last rows
  next : next_cursor (take (suc n) rows) ≡ some (cursor_at last)
  rest : keep (precedes last) rows ≡ drop (suc n) rows

page-LastOf : (n : ℕ) (r : Row) (rows : List Row) → InOrder (r ∷ rows) → LastOf n (r ∷ rows)
page-LastOf zero r rows o = record {
  last = r;
  present = Memᴰ.head refl;
  next = refl;
  rest = rw (not_self r) (keep_all (precedes r) rows o.0);
}
page-LastOf (suc n) r [] o = record {
  last = r;
  present = Memᴰ.head refl;
  next = refl;
  rest = rw (not_self r) refl;
}
page-LastOf (suc n) r (k ∷ rows) o =
    let l = page-LastOf n k rows o.1 in
    record {
      last = l.last;
      present = Memᴰ.tail l.present;
      next = l.next;
      rest = rw (precedes_asym r l.last (All-mem (λ j. precedes r j ≡ true) l.present o.0)) l.rest;
    }

whole_ms :
    (l k : Row) → l.created_us % 1000 ≡ 0 → after_cursor (some (cursor_at l)) k ≡ precedes l k
whole_ms l k h = let e : l.created_us / 1000 * 1000 ≡ l.created_us = omega (arith, h) in rw e refl

order_of_rest : (front rest : List Row) → InOrder (front ++ rest) → InOrder rest
order_of_rest [] rest o = o
order_of_rest (k ∷ front) rest o = order_of_rest front rest o.1

append_assoc : (a b c : List Row) → (a ++ b) ++ c ≡ a ++ (b ++ c)
append_assoc [] b c = refl
append_assoc (k ∷ a) b c = ap (λ rest. k ∷ rest) (append_assoc a b c)

module _ (line_bytes : Json → ℕ) (is_canceled_after : ℕ → Bool) where
  then_assoc :
      (f g : Progress → Streamed) (s : Streamed)
      → and_then line_bytes is_canceled_after g (and_then line_bytes is_canceled_after f s)
        ≡ and_then line_bytes is_canceled_after
            (λ q. and_then line_bytes is_canceled_after g (f q))
            s
  then_assoc f g (finished p) = refl
  then_assoc f g (throws e p) = refl
  then_assoc f g (out_of_fuel p) = refl

  then_same :
      (f g : Progress → Streamed)
      → ((q : Progress) → f q ≡ g q)
      → (s : Streamed)
      → and_then line_bytes is_canceled_after f s ≡ and_then line_bytes is_canceled_after g s
  then_same f g h (finished p) = h p
  then_same f g h (throws e p) = refl
  then_same f g h (out_of_fuel p) = refl

  write_append :
      (a b : List Row) (p : Progress)
      → write_rows line_bytes is_canceled_after (a ++ b) p
        ≡ and_then line_bytes is_canceled_after
            (write_rows line_bytes is_canceled_after b)
            (write_rows line_bytes is_canceled_after a p)
  unfolding write_rows
  write_append [] b p = refl
  write_append (r ∷ a) b p =
      then_same (write_rows line_bytes is_canceled_after (a ++ b))
        (λ q.
          and_then line_bytes is_canceled_after (write_rows line_bytes is_canceled_after b)
            (write_rows line_bytes is_canceled_after a q))
        (write_append a b) (write_record line_bytes is_canceled_after r p)
      ∙ sym (
          then_assoc (write_rows line_bytes is_canceled_after a)
            (write_rows line_bytes is_canceled_after b)
            (write_record line_bytes is_canceled_after r p))

  abbrev close : Streamed → Streamed
  close = and_then line_bytes is_canceled_after (λ q. finished (persist q))

  rest_loop :
      (fuel : ℕ) (table front rest : List Row) (cursor : Option Cursor) (p : Progress)
      → table ≡ front ++ rest
      → InOrder table
      → All (λ r. r.created_us % 1000 ≡ 0) table
      → keep (after_cursor cursor) table ≡ rest
      → length rest < fuel
      → export_table line_bytes is_canceled_after fuel table cursor p
        ≡ close (write_rows line_bytes is_canceled_after rest p)
  unfolding export_table write_rows
  rest_loop zero table front rest cursor p e o ms k lt = absurd (omega arith)
  rest_loop (suc fuel) table front [] cursor p e o ms k lt = rw k refl
  rest_loop (suc fuel) table front (r ∷ rows) cursor p e o ms k lt =
      let order = subst InOrder e o in
      let l = page-LastOf 499 r rows (order_of_rest front (r ∷ rows) order) in
      let page = take 500 (r ∷ rows) in
      let left = drop 500 (r ∷ rows) in
      let split : page ++ left ≡ r ∷ rows = take-drop 500 (r ∷ rows) in
      let whole : l.last.created_us % 1000 ≡ 0 =
        All-mem (λ x. x.created_us % 1000 ≡ 0)
          (subst (λ t. Memᴰ l.last t) (sym e) (mem_right front (r ∷ rows) l.present)) ms in
      let kept : keep (after_cursor (some (cursor_at l.last))) table ≡ left =
        keep_same (after_cursor (some (cursor_at l.last))) (precedes l.last)
          (λ x. whole_ms l.last x whole) table
        ∙ ap (keep (precedes l.last)) e
        ∙ keep_front l.last front (r ∷ rows) order l.present
        ∙ l.rest in
      let parts : table ≡ (front ++ page) ++ left =
        e ∙ ap (λ t. front ++ t) (sym split) ∙ sym (append_assoc front page left) in
      let next = export_table line_bytes is_canceled_after fuel table in
      let loop : (q : Progress)
          → next (some (cursor_at l.last)) q
            ≡ close (write_rows line_bytes is_canceled_after left q) =
        λ q.
          rest_loop fuel table (front ++ page) left (some (cursor_at l.last)) q parts o ms kept
            (omega (arith, drop_shorter 499 r rows, lt)) in
      rw (k, l.next)
        (then_same (next (some (cursor_at l.last)))
            (λ q. close (write_rows line_bytes is_canceled_after left q)) loop
            (write_rows line_bytes is_canceled_after page p)
          ∙ sym (
              then_assoc (write_rows line_bytes is_canceled_after left) (λ q. finished (persist q))
                (write_rows line_bytes is_canceled_after page p))
          ∙ ap close (
              sym (write_append page left p)
              ∙ ap (λ t. write_rows line_bytes is_canceled_after t p) split))

  -- A table in the order of the query whose creation times are whole milliseconds is exported page
  -- after page exactly as if its rows were written one after the other, each once, with the same
  -- errors; fuel for one page more than the table has rows is enough.
  pub export_table_is_write_rows :
      (fuel : ℕ) (table : List Row) (p : Progress)
      → InOrder table
      → All (λ r. r.created_us % 1000 ≡ 0) table
      → length table < fuel
      → export_table line_bytes is_canceled_after fuel table none p
        ≡ and_then line_bytes is_canceled_after
            (λ q. finished (persist q))
            (write_rows line_bytes is_canceled_after table p)
  export_table_is_write_rows fuel table p o ms lt =
      rest_loop fuel table [] table none p refl o ms
        (keep_all (after_cursor none) table
          (All_of (λ k. after_cursor none k ≡ true) (λ k. refl) table))
        lt
