-- ===== src/Cache/Flights.antt =====
-- Which loads `cacheWrap` of packages/cache/src/cache.ts has running, over every interleaving of
-- its steps and of other changes to the cache.
use saa_sweave.Prelude.{
  ℕ, suc, String, Bool, true, ◌&&◌, Option, none, some, [], ◌∷◌, ◌==◌, ◌≤◌, ◌≡◌, ◌≢◌, ◌∙◌, refl,
  sym, arith, if◌then◌else◌, any, Bool-cases, inl, inr, eq_iff, ==_iff,
}
use text.Mathlib.Text.{◌==◌ as str_eq}
use text.Mathlib.TextPositions.{eq_refl}
use saa_sweave.Prelude.Table.{Table, lookup, lookup-insert_self, lookup-insert_ne}
use saa_sweave.Cache.Client.{State}
use saa_sweave.Cache.Wrap.{
  Wrapping, joined, started, delete_flight, end_load, join, wrap_enter, wrap_finish,
}

-- How many loads run under a key.
unfoldable pub running : String → Table ℕ → ℕ
running name [] = 0
running name (e ∷ loads) =
    if str_eq e.key name then suc (running name loads) else running name loads

unfoldable pub runs : String → ℕ → Table ℕ → Bool
runs name promise loads = any (λ e. str_eq e.key name && e.value == promise) loads

-- One step: a call enters with what it found in the cache, a running load ends, or the cache
-- changes (reads, stores, invalidations, other processes).
pub data Step {S T : Type 0} (w : Wrapping S T) : Wrapping S T → Type 0 where
  enter :
      (name : String) (promise : ℕ) (found : Option T) → Step w (wrap_enter name promise found w).1
  finish :
      (name : String) (promise : ℕ)
      → runs name promise w.loads ≡ true
      → Step w (wrap_finish name promise w)
  change : (state : State S T) → Step w (record w { state = state })

pub data Reach {S T : Type 0} (start : Wrapping S T) : Wrapping S T → Type 0 where
  here : Reach start start
  next : {w w' : Wrapping S T} → Reach start w → Step w w' → Reach start w'

module _ {S T : Type 0} where
  -- Every key has its running load, and no more, in the map.
  abbrev pub IsFlown : Wrapping S T → Type 0
  IsFlown w =
      (name : String) → (lookup name w.in_flight ≡ lookup name w.loads) × (running name w.loads ≤ 1)

running-none : (name : String) (loads : Table ℕ) → lookup name loads ≡ none → running name loads ≡ 0
unfolding running lookup
running-none name [] h = refl
running-none name (e ∷ loads) h = ground (arith, running-none name loads)

none_of_running :
    (name : String) (loads : Table ℕ) → running name loads ≡ 0 → lookup name loads ≡ none
unfolding running lookup
none_of_running name [] h = refl
none_of_running name (e ∷ loads) h = ground (arith, none_of_running name loads)

runs-running :
    (name : String) (promise : ℕ) (loads : Table ℕ)
    → runs name promise loads ≡ true
    → 1 ≤ running name loads
unfolding running runs
runs-running name promise [] h = cc
runs-running name promise (e ∷ loads) h = ground (arith, runs-running name promise loads)

end_load_fewer :
    (name : String) (promise : ℕ) (loads : Table ℕ)
    → running name (end_load name promise loads) ≤ running name loads
unfolding running
end_load_fewer name promise [] = omega arith
end_load_fewer name promise (e ∷ loads) = ground (arith, end_load_fewer name promise loads)

lookup_of_runs :
    (name : String) (promise : ℕ) (loads : Table ℕ)
    → running name loads ≤ 1
    → runs name promise loads ≡ true
    → lookup name loads ≡ some promise
unfolding running runs lookup
lookup_of_runs name promise [] few h = cc
lookup_of_runs name promise (e ∷ loads) few h = ground (
  arith,
  lookup_of_runs name promise loads,
  runs-running name promise loads,
  ==_iff e.value promise,
)

-- With one load under the key, its end leaves none.
end_load_self :
    (name : String) (promise : ℕ) (loads : Table ℕ)
    → running name loads ≤ 1
    → runs name promise loads ≡ true
    → running name (end_load name promise loads) ≡ 0
unfolding running runs
end_load_self name promise [] few h = refl
end_load_self name promise (e ∷ loads) few h = ground (
  arith,
  end_load_self name promise loads,
  end_load_fewer name promise loads,
  runs-running name promise loads,
)

end_load_ne :
    (name other : String) (promise : ℕ) (loads : Table ℕ)
    → name ≢ other
    → (lookup other (end_load name promise loads) ≡ lookup other loads)
      × (running other (end_load name promise loads) ≡ running other loads)
unfolding running lookup
end_load_ne name other promise [] h = (refl, refl)
end_load_ne name other promise (e ∷ loads) h =
    ground (arith, eq_iff e.key name, eq_iff e.key other, end_load_ne name other promise loads h)

delete_flight_lem :
    (name other : String) (entries : Table ℕ)
    → lookup other (delete_flight name entries)
      ≡ (if str_eq name other then none else lookup other entries)
unfolding lookup
delete_flight_lem name other [] = ground arith
delete_flight_lem name other (e ∷ entries) = ground (
  arith,
  eq_iff e.key name,
  eq_iff e.key other,
  eq_iff name other,
  delete_flight_lem name other entries,
)

started_lem :
    (name other : String) (promise : ℕ) (loads : Table ℕ)
    → let loads' : Table ℕ = record { key = name; value = promise } ∷ loads in
      ((lookup other loads' ≡ (if str_eq name other then some promise else lookup other loads))
        × (running other loads'
            ≡ (if str_eq name other then suc (running other loads) else running other loads)))
unfolding lookup running
started_lem name other promise loads = (refl, refl)

module _ {S T : Type 0} where
  finish-IsFlown :
      (name : String) (promise : ℕ) (w : Wrapping S T)
      → runs name promise w.loads ≡ true
      → IsFlown w
      → IsFlown (wrap_finish name promise w)
  unfolding wrap_finish
  finish-IsFlown name promise w h flown other = elim (Bool-cases (str_eq name other)) [
    | inl same ↦ rw (← (eq_iff name other).0 same) (
        let ended = end_load_self name promise w.loads (flown name).1 h in
        rw (delete_flight_lem name name w.in_flight, eq_refl name, none_of_running name _ ended)
          (refl, omega (arith, ended)))
    | inr different ↦
        let kept =
          end_load_ne name other promise w.loads (λ e. ground (arith, eq_iff name other)) in
        rw (delete_flight_lem name other w.in_flight, different, kept.0, kept.1) (flown other)
  ]

  start-IsFlown :
      (name : String) (promise : ℕ) (found : Option ℕ) (w : Wrapping S T)
      → lookup name w.in_flight ≡ found
      → IsFlown w
      → IsFlown (join name promise found w).1
  unfolding join
  start-IsFlown name promise (some p) w h flown other = flown other
  start-IsFlown name promise none w h flown other =
      let none_yet = running-none name w.loads (sym (flown name).0 ∙ h) in
      let (known, counted) = started_lem name other promise w.loads in
      rw (known, counted)
        (elim (Bool-cases (str_eq name other)) [
          | inl same ↦ rw same (
              rw (← (eq_iff name other).0 same, lookup-insert_self name promise w.in_flight)
                (refl, omega (arith, none_yet)))
          | inr different ↦
              rw
                (
                  lookup-insert_ne name other promise w.in_flight
                      (λ e. ground (arith, eq_iff name other)),
                  different,
                )
                (flown other)
        ])

  Step-IsFlown : {w w' : Wrapping S T} → Step w w' → IsFlown w → IsFlown w'
  Step-IsFlown (enter name promise none) flown =
      unfold wrap_enter in start-IsFlown name promise _ _ refl flown
  Step-IsFlown (enter name promise (some value)) flown = unfold wrap_enter in flown
  Step-IsFlown (finish name promise h) flown = finish-IsFlown name promise _ h flown
  Step-IsFlown (change state) flown = flown

  abbrev pub grounded : State S T → Wrapping S T
  grounded state = record { state = state; in_flight = []; loads = [] }

  -- However calls, ends of loads and other changes of the cache interleave, never do two loads run
  -- under one key, and the map of promises holds exactly the running load of every key.
  pub one_load_for_a_key :
      {state : State S T} {w : Wrapping S T} → Reach (grounded state) w → IsFlown w
  unfolding lookup running
  one_load_for_a_key here name = (refl, omega arith)
  one_load_for_a_key (next reach step) name = Step-IsFlown step (one_load_for_a_key reach) name

  -- A call that finds nothing in the cache joins the load that runs under its key, and once that
  -- load has ended, with a value or not, the next such call starts a load of its own.
  pub ended_load_frees_key :
      {state : State S T} {w : Wrapping S T} (name : String) (promise again : ℕ)
      → Reach (grounded state) w
      → runs name promise w.loads ≡ true
      → (wrap_enter name again none w).0 ≡ joined promise
        × ((wrap_enter name again none (wrap_finish name promise w)).0 ≡ started again)
  unfolding wrap_enter join wrap_finish
  ended_load_frees_key {w = w} name promise again reach h =
      let flown = one_load_for_a_key reach name in
      let few = flown.1 in
      let after = finish-IsFlown name promise w h (one_load_for_a_key reach) name in
      let none_left = none_of_running name _ (end_load_self name promise w.loads few h) in
      (rw (flown.0 ∙ lookup_of_runs name promise w.loads few h) refl, rw (after.0, none_left) refl)
