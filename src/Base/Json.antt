-- ===== src/Base/Json.antt =====
-- Values of the language as the program builds them for a request, or receives them from a parser.
use Prim.Native.Nat.{ℕ}
use Prim.Native.String.{String}
use mathlib.Core.Bool.{Bool}
use mathlib.Core.Option.{Option, none, some}
use mathlib.Core.List.{List, [], ◌∷◌}
use text.Mathlib.Text.{◌==◌}
use clustervision.Base.Tests.{if◌then◌else◌}

mutual
  -- An object that is no array has its own enumerable fields; `undefined` is a value too.
  pub data Value : Type 0 where
    undefined null : Value
    bool : Bool → Value
    obj : Fields → Value
    num : ℕ → Value
    arr : Items → Value
    str : String → Value

  -- The own properties, in the order of their definition.
  pub data Fields : Type 0 where
    field : String → Value → Fields → Fields
    end : Fields

  pub data Items : Type 0 where
    cons : Value → Items → Items
    nil : Items

-- `r[key]`
abbrev pub get : String → Fields → Value
get key end = undefined
get key (field k v fs) = if k == key then v else get key fs

abbrev pub strings : List String → Items
strings [] = nil
strings (s ∷ ss) = cons (str s) (strings ss)

-- An optional value as a property: `undefined` where there is none.
abbrev pub opt_str : Option String → Value
opt_str none = undefined
opt_str (some s) = str s
