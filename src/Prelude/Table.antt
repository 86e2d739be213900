-- ===== src/Prelude/Table.antt =====
-- JavaScript's `Map<string, V>` as a list of entries in insertion order: `set` on a present key
-- keeps its place, on a new key appends; `delete` removes.
use text.Mathlib.Text.{◌==◌}
use text.Mathlib.TextEquality.{eq_iff}
use Prim.Native.String.{String}
use mathlib.Core.Path.{◌≡◌}
use mathlib.Core.Logic.{◌≢◌}
use mathlib.Core.Option.{Option, none, some}
use mathlib.Core.List.{List, [], ◌∷◌}
use native.Mathlib.Omega.{arith}
use text.Mathlib.TextPositions.{eq_refl}
use saa_sweave.Prelude.Tests.{if◌then◌else◌}

pub record Entry {ℓ} (V : Type ℓ) : Type ℓ where
  pub key : String
  pub value : V

abbrev pub Table {ℓ} : Type ℓ → Type ℓ
Table V = List (Entry V)

module _ {ℓ} {V : Type ℓ} where
  unfoldable pub lookup : String → Table V → Option V
  lookup key [] = none
  lookup key (e ∷ entries) =
      let later = lookup key entries in if e.key == key then some e.value else later

  unfoldable pub insert : String → V → Table V → Table V
  insert key value [] = record { key = key; value = value } ∷ []
  insert key value (e ∷ entries) =
      let later = e ∷ insert key value entries in
      if e.key == key then record e { value = value } ∷ entries else later

  pub lookup-insert_self :
      (key : String) (value : V) (entries : Table V)
      → lookup key (insert key value entries) ≡ some value
  unfolding lookup insert
  lookup-insert_self key value [] = ground (arith, eq_refl key)
  lookup-insert_self key value (e ∷ entries) = ground (arith, lookup-insert_self key value entries)

  pub lookup-insert_ne :
      (key other : String) (value : V) (entries : Table V)
      → key ≢ other
      → lookup other (insert key value entries) ≡ lookup other entries
  unfolding lookup insert
  lookup-insert_ne key other value [] h = ground (arith, eq_iff key other)
  lookup-insert_ne key other value (e ∷ entries) h =
      ground
        (arith, lookup-insert_ne key other value entries h, eq_iff e.key key, eq_iff e.key other)
