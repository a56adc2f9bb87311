-- ===== src/Models/Columns.antt =====
-- The types of the columns. A UUID is a number, since the program only stores and compares it; a
-- time and a date are numbers on a clock; a decimal is the text of its numeral.
use cortex_cm.Base.{ℕ, Bool, Text}

abbrev pub Uuid : Type 0
Uuid = ℕ

abbrev pub Timestamp : Type 0
Timestamp = ℕ

abbrev pub Date : Type 0
Date = ℕ

abbrev pub Decimal : Type 0
Decimal = Text

-- JSON as the audit payloads use it. `id` is the text of a UUID.
mutual
  pub data Json : Type 0 where
    null : Json
    str : Text → Json
    id : Uuid → Json
    bool : Bool → Json
    arr : Items → Json
    obj : Fields → Json

  pub data Items : Type 0 where
    nil : Items
    cons : Json → Items → Items

  pub data Fields : Type 0 where
    end : Fields
    field : Text → Json → Fields → Fields
