-- ===== src/Base/Json.antt =====
-- JSON documents, as `json.loads` gives them, where the program stores them unread.
use Prim.Native.Nat.{ℕ}
use Prim.Native.String.{String}
use mathlib.Core.Bool.{Bool}
use mathlib.Core.Option.{Option, none, some}
use mathlib.Core.Logic.{ite}
use interlatent.Base.Text.{string_discrete}

mutual
  pub data Json : Type 0 where
    null : Json
    bool : Bool → Json
    num : ℕ → Json
    text : String → Json
    arr : Items → Json
    obj : Fields → Json

  pub data Items : Type 0 where
    nil : Items
    cons : Json → Items → Items

  pub data Fields : Type 0 where
    end : Fields
    field : String → Json → Fields → Fields

-- `d.get(key)`
unfoldable pub get_field : String → Fields → Option Json
get_field key end = none
get_field key (field k v rest) = ite (string_discrete k key) (some v) (get_field key rest)
