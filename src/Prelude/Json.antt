-- ===== src/Prelude/Json.antt =====
-- JSON values, as `unknown` payloads and `jsonb` columns hold them. Numbers are natural; texts are
-- native strings, whose JavaScript length counts UTF-16 units.
use Prim.Native.Nat.{ℕ, suc}
use Prim.Native.Char.{code}
use Prim.Native.String.{String}
use mathlib.Core.Bool.{Bool}
use mathlib.Core.Option.{Option, none, some}
use text.Mathlib.Text.{◌==◌}
use saa_sweave.Prelude.Tests.{ltb, if◌then◌else◌}

mutual
  pub data Json : Type 0 where
    null : Json
    bool : Bool → Json
    num : ℕ → Json
    str : String → Json
    arr : Items → Json
    obj : Fields → Json

  pub data Items : Type 0 where
    nil : Items
    cons : Json → Items → Items

  pub data Fields : Type 0 where
    end : Fields
    field : String → Json → Fields → Fields

-- `value[key]` of an object
unfoldable pub property : String → Fields → Option Json
property key end = none
property key (field k v fs) = let rest = property key fs in if k == key then some v else rest

-- `text.length`: a character beyond the basic plane takes two units.
unfoldable pub utf16_length : String → ℕ
utf16_length String.[] = 0
utf16_length (String.◌∷◌ c s) =
    let rest = utf16_length s in if ltb (code c) 0x10000 then suc rest else suc (suc rest)
