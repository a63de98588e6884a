-- ===== src/Pricing.antt =====
-- `config/pricing.py`: the price of a model by its longest known prefix, the client's rules first.
-- A price is a float, in dollars for a million tokens.
pub mod Prices
pub mod Longest
use inter_gate.Base.{
  ℕ, String, Bool, true, false, Option, none, some, List, [], ◌∷◌, ◌==◌, nat_eq, list_eq, leb,
  if◌then◌else◌, length,
}
use inter_gate.Base.Text.{Text, lower, starts_with, strip}
use inter_gate.Base.Sorting.{sort}
use inter_gate.Base.Floats.{Floats}
use inter_gate.Base.Dict
use inter_gate.Base.Dict.{Dict}

abbrev pub Rule : Type 0 → Type 0
Rule V = Text × V

-- `key=lambda kv: len(kv[0]), reverse=True`
abbrev pub longer_first : {V : Type 0} → Rule V → Rule V → Bool
longer_first a b = leb (length b.0) (length a.0)

abbrev pub by_length : {V : Type 0} → List (Rule V) → List (Rule V)
by_length items = sort longer_first items

-- The loops of `price_for`.
unfoldable pub first_prefix : {V : Type 0} → Text → List (Rule V) → Option V
first_prefix m [] = none
first_prefix m ((prefix, p) ∷ rest) =
    let later = first_prefix m rest in if starts_with m prefix then some p else later

-- The dict that `set_overrides` builds of the rules that hold two numbers.
unfoldable pub set_overrides : {V : Type 0} → List (Rule V) → Dict Text V → Dict Text V
set_overrides [] d = d
set_overrides ((k, v) ∷ rest) d = elim (strip k) [
  | [] ↦ set_overrides rest d
  | c ∷ s ↦ set_overrides rest (Dict.insert (lower (c ∷ s)) v d)
]

-- `price_for` over the two tables and the default price.
unfoldable pub price_for : {V : Type 0} → Dict Text V → List (Rule V) → V → Text → V
unfolding first_prefix
price_for overrides prices default model =
    let m = lower model in
    elim (first_prefix m (by_length overrides)) [
      | some p ↦ p
      | none ↦ elim (first_prefix m (by_length prices)) [ some p ↦ p | none ↦ default ]
    ]
