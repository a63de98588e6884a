-- ===== src/Base/Text.antt =====
-- Texts as lists of code points, with the operations of Python's `str` that the source calls.
-- `lower` is that of the ASCII letters, the only ones that the source's literals hold.
use Prim.Native.Char.{code}
use Prim.Native.Nat.{ℕ, ◌+◌, ◌≤◌}
use Prim.Native.String.{String}
use mathlib.Core.Bool.{Bool, true, false, ◌&&◌, ◌||◌}
use mathlib.Core.List.{List, [], ◌∷◌, map}
use mathlib.Core.Path.{◌≡◌, refl}
use native.Mathlib.Omega.{arith}
use inter_gate.Base.Tests.{ltb, leb, nat_beq, if◌then◌else◌}
use inter_gate.Base.Equality.{◌==◌, nat_eq}
use inter_gate.Base.Lists.{length}
use inter_gate.Base.Sorting.{Total}

abbrev pub Text : Type 0
Text = List ℕ

-- The code points of a literal or an identifier.
abbrev pub codes : String → Text
codes String.[] = []
codes (String.◌∷◌ c s) = code c ∷ codes s

abbrev pub lower_char : ℕ → ℕ
lower_char c = if leb b'A' c && leb c b'Z' then c + 32 else c

unfoldable pub lower : Text → Text
lower = map lower_char

-- `s.startswith(p)`
abbrev pub starts_with : Text → Text → Bool
starts_with s [] = true
starts_with [] (d ∷ p) = false
starts_with (c ∷ s) (d ∷ p) = nat_beq c d && starts_with s p

-- `p in s`
unfoldable pub contains_text : Text → Text → Bool
contains_text [] p = starts_with [] p
contains_text (c ∷ s) p =
    let rest = contains_text s p in elim (starts_with (c ∷ s) p) [ true ↦ true | false ↦ rest ]

-- The characters that `str.strip` takes off, of the ASCII ones.
abbrev pub is_space : ℕ → Bool
is_space c = c == 32 || (leb 9 c && leb c 13) || (leb 28 c && leb c 31)

unfoldable pub lstrip : (ℕ → Bool) → Text → Text
lstrip p [] = []
lstrip p (c ∷ s) = let rest = lstrip p s in elim (p c) [ true ↦ rest | false ↦ c ∷ s ]

-- A character before what is left of a text whose end is stripped.
abbrev pub keep_char : (ℕ → Bool) → ℕ → Text → Text
keep_char p c [] = if p c then [] else c ∷ []
keep_char p c (d ∷ r) = c ∷ d ∷ r

-- `s.rstrip(chars)`
unfoldable pub rstrip : (ℕ → Bool) → Text → Text
rstrip p [] = []
rstrip p (c ∷ s) = keep_char p c (rstrip p s)

unfoldable pub strip : Text → Text
unfolding lstrip rstrip
strip s = rstrip is_space (lstrip is_space s)

-- `s.split(c, 1)`: what stands before the first `c`, and what follows it.
abbrev pub before : ℕ → Text → Text
before c [] = []
before c (d ∷ s) = let rest = before c s in if d == c then [] else d ∷ rest

abbrev pub after : ℕ → Text → Text
after c [] = []
after c (d ∷ s) = let rest = after c s in if d == c then s else rest

-- The order of texts, by code points.
abbrev pub text_leb : Text → Text → Bool
text_leb [] t = true
text_leb (c ∷ s) [] = false
text_leb (c ∷ s) (d ∷ t) = if nat_beq c d then text_leb s t else ltb c d

text_leb_total : (s t : Text) → text_leb s t ≡ false → text_leb t s ≡ true
text_leb_total [] t h = cc
text_leb_total (c ∷ s) [] h = refl
text_leb_total (c ∷ s) (d ∷ t) h = ground (arith, text_leb_total s t)

text_leb_trans : (s t u : Text) → text_leb s t ≡ true → text_leb t u ≡ true → text_leb s u ≡ true
text_leb_trans [] t u h k = refl
text_leb_trans (c ∷ s) [] u h k = cc
text_leb_trans (c ∷ s) (d ∷ t) [] h k = cc
text_leb_trans (c ∷ s) (d ∷ t) (a ∷ u) h k = ground (arith, text_leb_trans s t u)

pub Total-text_leb : Total text_leb
Total-text_leb = record { total = text_leb_total; trans = text_leb_trans }

pub starts_with-length : (s p : Text) → starts_with s p ≡ true → length p ≤ length s
starts_with-length s [] h = omega arith
starts_with-length [] (d ∷ p) h = cc
starts_with-length (c ∷ s) (d ∷ p) h = ground (arith, starts_with-length s p)

-- Two prefixes of one text, of one length, are one text.
pub starts_with_unique :
    (s p q : Text) → starts_with s p ≡ true → starts_with s q ≡ true → length p ≡ length q → p ≡ q
starts_with_unique s [] [] h k e = refl
starts_with_unique s [] (d ∷ q) h k e = absurd (omega arith)
starts_with_unique s (d ∷ p) [] h k e = absurd (omega arith)
starts_with_unique [] (d ∷ p) q h k e = cc
starts_with_unique (c ∷ s) (d ∷ p) (a ∷ q) h k e = ground (arith, starts_with_unique s p q)

-- The last character, if there is one, satisfies the test.
abbrev pub ends_in : (ℕ → Bool) → Text → Bool
ends_in p [] = false
ends_in p (c ∷ []) = p c
ends_in p (c ∷ d ∷ s) = ends_in p (d ∷ s)

keep_char-ends_in :
    (p : ℕ → Bool) (c : ℕ) (s : Text) → ends_in p s ≡ false → ends_in p (keep_char p c s) ≡ false
keep_char-ends_in p c [] h = ground arith
keep_char-ends_in p c (d ∷ s) h = h

pub rstrip-ends_in : (p : ℕ → Bool) (s : Text) → ends_in p (rstrip p s) ≡ false
unfolding rstrip
rstrip-ends_in p [] = refl
rstrip-ends_in p (c ∷ s) = keep_char-ends_in p c (rstrip p s) (rstrip-ends_in p s)
