-- ===== src/Access/Seats.antt =====
-- The seats of packages/auth/src/platform-policy.ts.
use saa_sweave.Prelude.{◌+◌, String, ◌≡◌, arith, ltb, count}
use saa_sweave.Access.{SeatDb, count_seats, seats_included, is_pending, assert_seat_available}

-- A seat is available exactly if the members and the pending invitations leave one.
pub assert_seat_available_lem :
    (organization_id : String) (db : SeatDb)
    → assert_seat_available organization_id db
      ≡ ltb
          (count_seats organization_id db + count (is_pending organization_id) db.invitation)
          (seats_included organization_id db)
unfolding assert_seat_available
assert_seat_available_lem organization_id db = ground arith
