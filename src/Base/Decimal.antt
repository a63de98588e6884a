-- ===== src/Base/Decimal.antt =====
-- Python's `str` of a number and `int` of a text of ASCII characters.
use Prim.Native.Nat.{ℕ, zero, suc, ◌+◌, ◌-◌, ◌*◌, ◌/◌, ◌%◌, ◌≤◌}
use mathlib.Core.Bool.{Bool, true, false, ◌&&◌}
use mathlib.Core.List.{[], ◌∷◌}
use mathlib.Core.Option.{Option, none, some}
use mathlib.Core.Path.{◌≡◌, refl}
use native.Mathlib.Omega.{arith}
use inter_gate.Base.Tests.{nat_beq, leb, if◌then◌else◌}
use inter_gate.Base.Int.{ℤ, pos, sub_ℕ}
use inter_gate.Base.Lists.{All}
use inter_gate.Base.Text.{Text, is_space, strip, lstrip, rstrip, keep_char}

-- The digits of n before `out`, in at most `fuel` rounds; n rounds are enough for n.
unfoldable pub digits_from : ℕ → ℕ → Text → Text
digits_from zero n out = out
digits_from (suc fuel) n out =
    let more = digits_from fuel (n / 10) ((b'0' + n % 10) ∷ out) in
    if nat_beq n 0 then out else more

-- `str(n)`
unfoldable pub show : ℕ → Text
unfolding digits_from
show n = if nat_beq n 0 then b'0' ∷ [] else digits_from n n []

abbrev pub is_digit : ℕ → Bool
is_digit c = leb b'0' c && leb c b'9'

-- Digits, with single underscores between them; `ready` behind a digit.
unfoldable pub read_digits : Bool → ℕ → Text → Option ℕ
read_digits ready n [] = if ready then some n else none
read_digits ready n (c ∷ s) =
    let digit = read_digits true (n * 10 + (c - b'0')) s in
    let under = read_digits false n s in
    if is_digit c then digit else if nat_beq c b'_' then (if ready then under else none) else none

abbrev pub negate : ℕ → ℤ
negate n = sub_ℕ 0 n

abbrev pub as_pos : Option ℕ → Option ℤ
as_pos none = none
as_pos (some n) = some (pos n)

abbrev pub as_neg : Option ℕ → Option ℤ
as_neg none = none
as_neg (some n) = some (negate n)

unfoldable pub signed : Text → Option ℤ
unfolding read_digits
signed [] = none
signed (c ∷ s) =
    if nat_beq c b'+'
    then as_pos (read_digits false 0 s)
    else if nat_beq c b'-'
    then as_neg (read_digits false 0 s)
    else as_pos (read_digits false 0 (c ∷ s))

-- `int(s)`: none where it raises.
unfoldable pub read_int : Text → Option ℤ
unfolding signed
read_int s = signed (strip s)

abbrev pub IsDigits : Text → Type 0
IsDigits s = All (λ c. is_digit c ≡ true) s

digits_from-IsDigits : (fuel n : ℕ) (out : Text) → IsDigits out → IsDigits (digits_from fuel n out)
unfolding digits_from
digits_from-IsDigits zero n out h = h
digits_from-IsDigits (suc fuel) n out h =
    ground (arith, digits_from-IsDigits fuel (n / 10) ((b'0' + n % 10) ∷ out))

pub show-IsDigits : (n : ℕ) → IsDigits (show n)
unfolding show
show-IsDigits n = ground (arith, digits_from-IsDigits n n [])

-- Reading the digits in front of `out` and then `out` goes on from the number.
read_digits-digits_from :
    (fuel n : ℕ) (b : Bool) (out : Text)
    → n ≤ fuel
    → read_digits b 0 (digits_from fuel n out)
      ≡ (if nat_beq n 0 then read_digits b 0 out else read_digits true n out)
unfolding digits_from read_digits
read_digits-digits_from zero n b out h = ground arith
read_digits-digits_from (suc fuel) n b out h =
    ground (arith, read_digits-digits_from fuel (n / 10) b ((b'0' + n % 10) ∷ out))

pub read_digits-show : (n : ℕ) → read_digits false 0 (show n) ≡ some n
unfolding show read_digits
read_digits-show n = ground (arith, read_digits-digits_from n n false [])

lstrip-IsDigits : (s : Text) → IsDigits s → lstrip is_space s ≡ s
unfolding lstrip
lstrip-IsDigits [] h = refl
lstrip-IsDigits (c ∷ s) h = ground (arith, h.0)

rstrip-IsDigits : (s : Text) → IsDigits s → rstrip is_space s ≡ s
unfolding rstrip
rstrip-IsDigits [] h = refl
rstrip-IsDigits (c ∷ s) h = rw (rstrip-IsDigits s h.1) (keep c s h.0)
  where
    keep : (c : ℕ) (s : Text) → is_digit c ≡ true → keep_char is_space c s ≡ c ∷ s
    keep c [] h = ground (arith, h)
    keep c (d ∷ s) h = refl

signed-IsDigits : (s : Text) → IsDigits s → signed s ≡ as_pos (read_digits false 0 s)
unfolding signed read_digits
signed-IsDigits [] h = refl
signed-IsDigits (c ∷ s) h = ground (arith, h.0)

-- `int(str(n))` is n.
pub read_int-show : (n : ℕ) → read_int (show n) ≡ some (pos n)
unfolding read_int strip
read_int-show n =
    let d = show-IsDigits n in
    rw
      (
        lstrip-IsDigits (show n) d,
        rstrip-IsDigits (show n) d,
        signed-IsDigits (show n) d,
        read_digits-show n,
      )
      refl
