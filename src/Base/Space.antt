-- ===== src/Base/Space.antt =====
-- `strings.TrimSpace` on the bytes of a Go string: white space is what `unicode.IsSpace` says of
-- the characters in UTF-8.
use ele_bbs_go.Base.Tests.{leb, ◌==◌, ==_iff, Bool-cases, if◌then◌else◌}
use ele_bbs_go.Base.Lists.{Bytes, length, length-append, length-drop, drop}
use Prim.Native.Nat.{ℕ, zero, suc, ◌≤◌}
use mathlib.Core.Path.{◌≡◌, refl}
use mathlib.Core.Logic.{inl, inr}
use native.Mathlib.Omega.{arith}
use mathlib.Core.Bool.{Bool, ◌&&◌, ◌||◌}
use mathlib.Core.List.{List, [], ◌∷◌, ◌++◌}

unfoldable pub ascii_space : ℕ → Bool
ascii_space c = leb 9 c && leb c 13 || c == 32

unfoldable pub two_bytes : ℕ → ℕ → Bool
two_bytes a b = a == 0xc2 && (b == 0x85 || b == 0xa0)

unfoldable pub three_bytes : ℕ → ℕ → ℕ → Bool
three_bytes a b c =
    a == 0xe1 && b == 0x9a && c == 0x80
    || a == 0xe2 && b == 0x80 && (leb 0x80 c && leb c 0x8a || c == 0xa8 || c == 0xa9 || c == 0xaf)
    || a == 0xe2 && b == 0x81 && c == 0x9f
    || a == 0xe3 && b == 0x80 && c == 0x80

-- How many bytes the white space at the start takes.
unfoldable pub space_at : Bytes → ℕ
unfolding ascii_space two_bytes three_bytes
space_at [] = 0
space_at (a ∷ []) = if ascii_space a then 1 else 0
space_at (a ∷ b ∷ []) = if ascii_space a then 1 else if two_bytes a b then 2 else 0
space_at (a ∷ b ∷ c ∷ s) =
    if ascii_space a then 1 else if two_bytes a b then 2 else if three_bytes a b c then 3 else 0

-- The same from the end, where the string is given backwards.
unfoldable pub space_before : Bytes → ℕ
unfolding ascii_space two_bytes three_bytes
space_before [] = 0
space_before (a ∷ []) = if ascii_space a then 1 else 0
space_before (a ∷ b ∷ []) = if ascii_space a then 1 else if two_bytes b a then 2 else 0
space_before (a ∷ b ∷ c ∷ s) =
    if ascii_space a then 1 else if two_bytes b a then 2 else if three_bytes c b a then 3 else 0

unfoldable pub strip : (Bytes → ℕ) → ℕ → Bytes → Bytes
strip at zero s = s
strip at (suc fuel) s = let rest = strip at fuel (drop (at s) s) in if at s == 0 then s else rest

unfoldable pub backwards : Bytes → Bytes
backwards [] = []
backwards (c ∷ s) = backwards s ++ c ∷ []

unfoldable pub trim_space : Bytes → Bytes
unfolding strip backwards space_at space_before
trim_space s =
    let t = strip space_at (length s) s in backwards (strip space_before (length t) (backwards t))

abbrev pub cons_first : ℕ → List Bytes → List Bytes
cons_first c [] = (c ∷ []) ∷ []
cons_first c (f ∷ fs) = (c ∷ f) ∷ fs

-- `strings.Split` by one byte.
unfoldable pub split : ℕ → Bytes → List Bytes
split sep [] = [] ∷ []
split sep (c ∷ s) = let rest = split sep s in if c == sep then [] ∷ rest else cons_first c rest

-- The rounds given to `strip` are enough: no white space is left at that end.
pub strip_enough :
    (at : Bytes → ℕ) (fuel : ℕ) (s : Bytes) → at [] ≡ 0 → length s ≤ fuel → at (strip at fuel s) ≡ 0
unfolding strip
strip_enough at zero [] e h = e
strip_enough at zero (c ∷ s) e h = absurd (omega arith)
strip_enough at (suc fuel) s e h = elim (Bool-cases (at s == 0)) [
  | inl y ↦ rw y ((==_iff (at s) 0).0 y)
  | inr n ↦ rw n (strip_enough at fuel (drop (at s) s) e (ground (arith, length-drop (at s) s)))
]

length-strip : (at : Bytes → ℕ) (fuel : ℕ) (s : Bytes) → length (strip at fuel s) ≤ length s
unfolding strip
length-strip at zero s = omega arith
length-strip at (suc fuel) s = elim (Bool-cases (at s == 0)) [
  | inl y ↦ rw y (omega arith)
  | inr n ↦ rw n (omega (arith, length-strip at fuel (drop (at s) s), length-drop (at s) s))
]

length-backwards : (s : Bytes) → length (backwards s) ≡ length s
unfolding backwards
length-backwards [] = refl
length-backwards (c ∷ s) = omega (arith, length-append (backwards s) (c ∷ []), length-backwards s)

pub length-trim_space : (s : Bytes) → length (trim_space s) ≤ length s
unfolding trim_space
length-trim_space s =
    let t = strip space_at (length s) s in
    omega (
      arith,
      length-strip space_at (length s) s,
      length-backwards t,
      length-strip space_before (length t) (backwards t),
      length-backwards (strip space_before (length t) (backwards t)),
    )
