-- ===== src/Common/Json.antt =====
-- Values that `JSON.parse` gives. Numbers are whole; an object has each key once.
use Prim.Native.Nat.{zero, suc}
use Prim.Native.String.{String}
use mathlib.Core.Bool.{Bool, true, false, not}
use mathlib.Core.List.{List, [], ◌∷◌}
use mathlib.Core.Option.{Option, none, some}
use package.text.Mathlib.Text.{◌==◌}
use parking_gate_remote.Common.Tests.{if◌then◌else◌}
use parking_gate_remote.Common.Int.{ℤ, pos, negsuc}

mutual
  pub data Json : Type 0 where
    null : Json
    boolean : Bool → Json
    number : ℤ → Json
    text : String → Json
    array : Items → Json
    object : Fields → Json

  pub data Items : Type 0 where
    nil : Items
    cons : Json → Items → Items

  pub data Fields : Type 0 where
    end : Fields
    member : String → Json → Fields → Fields

abbrev pub elements : Items → List Json
elements nil = []
elements (cons j js) = j ∷ elements js

abbrev pub find_member : String → Fields → Option Json
find_member k end = none
find_member k (member n j fs) = if n == k then some j else find_member k fs

-- `v.k` of what is not `null`; `none` stands for `undefined`.
abbrev pub field : String → Json → Option Json
field k (object fs) = find_member k fs
field k _ = none

abbrev pub is_null : Json → Bool
is_null null = true
is_null _ = false

abbrev pub is_zero : ℤ → Bool
is_zero (pos n) = elim n [ zero ↦ true | suc m ↦ false ]
is_zero (negsuc n) = false

-- whether a value counts as true
abbrev pub truth : Option Json → Bool
truth none = false
truth (some null) = false
truth (some (boolean b)) = b
truth (some (number z)) = not (is_zero z)
truth (some (text s)) = not (s == "")
truth (some (array js)) = true
truth (some (object fs)) = true

-- `none` for what is no text
abbrev pub text_of : Option Json → Option String
text_of (some (text s)) = some s
text_of _ = none

-- `none` for what is no array
abbrev pub elements_of : Option Json → Option (List Json)
elements_of (some (array js)) = some (elements js)
elements_of _ = none
