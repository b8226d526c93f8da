-- ===== src/Json.antt =====
-- JSON values, as encoding/json encodes them.
use datn_backend.Prelude.{Bool, Option, none, some}
use datn_backend.Prelude.Int.{ℤ}
use datn_backend.Text.{Text}

mutual
  pub data Json : Type 0 where
    null : Json
    str : Text → Json
    int : ℤ → Json
    boolean : Bool → Json
    obj : Fields → Json
    arr : Items → Json

  pub data Fields : Type 0 where
    end : Fields
    field : Text → Json → Fields → Fields

  pub data Items : Type 0 where
    nil : Items
    cons : Json → Items → Items

abbrev pub optional : Option Text → Json
optional none = null
optional (some t) = str t

-- The one field of an object, and more.
abbrev pub text_field : Text → Text → Fields → Fields
text_field name value rest = field name (str value) rest

abbrev pub one_field : Text → Text → Json
one_field name value = obj (text_field name value end)
