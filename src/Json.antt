-- ===== src/Json.antt =====
-- The values that Python's `json.loads` returns, and what the source reads off them. Of a number
-- with a fraction it reads the integral part and whether it is zero; keys of an object are distinct.
use inter_gate.Base.{
  ℕ, String, Bool, true, false, not, Option, none, some, ◌==◌, string_eq, if◌then◌else◌, length,
}
use inter_gate.Base.Int.{ℤ, pos, eqb_ℤ}
use inter_gate.Base.Text.{codes}

mutual
  pub data Json : Type 0 where
    null : Json
    bool : Bool → Json
    num : ℤ → Json
    real : Bool → ℤ → Json
    text : String → Json
    arr : Items → Json
    obj : Fields → Json

  pub data Items : Type 0 where
    nil : Items
    cons : Json → Items → Items

  pub data Fields : Type 0 where
    end : Fields
    field : String → Json → Fields → Fields

-- `d.get(k)`
abbrev pub find : String → Fields → Option Json
find k end = none
find k (field j v rest) = let later = find k rest in if j == k then some v else later

abbrev pub is_nil : Items → Bool
is_nil nil = true
is_nil _ = false

abbrev pub is_end : Fields → Bool
is_end end = true
is_end _ = false

-- `bool(x)`
abbrev pub truth : Json → Bool
truth null = false
truth (bool b) = b
truth (num n) = not (eqb_ℤ n (pos 0))
truth (real nonzero n) = nonzero
truth (text s) = not (s == "")
truth (arr xs) = not (is_nil xs)
truth (obj fs) = not (is_end fs)

abbrev pub as_object : Json → Option Fields
as_object (obj fs) = some fs
as_object _ = none

abbrev pub as_text : Json → Option String
as_text (text s) = some s
as_text _ = none

-- `len(s)` of a string
abbrev pub len : String → ℕ
len s = length (codes s)
