-- ===== src/Base/Files.antt =====
-- Files as their bytes: reads and writes at an offset, and which of them see one another.
use Prim.Native.Nat.{ℕ, ◌+◌, ◌-◌, ◌*◌, ◌≤◌}
use mathlib.Core.Path.{◌≡◌, refl, sym, ap, ◌∙◌}
use mathlib.Core.Logic.{◌⊎◌, inl, inr}
use mathlib.Core.List.{[], ◌∷◌, ◌++◌, append_assoc}
use mathlib.Core.Option.{Option, none, some}
use native.Mathlib.Omega.{arith}
use ele_bbs_go.Base.Tests.{leb, if◌then◌else◌, le→leb}
use ele_bbs_go.Base.Lists.{
  Bytes, length, take, drop, length-append, length-take, length-drop, take-append, drop-append,
  drop-drop, window-append, window-take, drop_past,
}

-- `ReadAt` of `n` bytes; `none` is an error, which a shorter read is too.
abbrev pub read_at : ℕ → ℕ → Bytes → Option Bytes
read_at n off file = if leb (off + n) (length file) then some (take n (drop off file)) else none

-- `WriteAt` no further than the end.
abbrev pub write_at : Bytes → ℕ → Bytes → Bytes
write_at p off file = take off file ++ p ++ drop (off + length p) file

pub write_at-zero : (p file : Bytes) → write_at p 0 file ≡ p ++ drop (length p) file
write_at-zero p file =
    ap (λ (k : ℕ). p ++ drop k file) {x = 0 + length p} {y = length p} (omega arith)

-- A little-endian word of 32 bits.
abbrev pub u32_of : Bytes → ℕ
u32_of (a ∷ b ∷ c ∷ d ∷ s) = a + b * 256 + c * 65536 + d * 16777216
u32_of _ = 0

abbrev pub word_at : ℕ → Bytes → ℕ
word_at off b = u32_of (drop off b)

pub u32_of-take : (s : Bytes) → u32_of (take 4 s) ≡ u32_of s
u32_of-take [] = refl
u32_of-take (a ∷ []) = refl
u32_of-take (a ∷ b ∷ []) = refl
u32_of-take (a ∷ b ∷ c ∷ []) = refl
u32_of-take (a ∷ b ∷ c ∷ d ∷ s) = refl

-- What is read at an offset inside a prefix does not change when the file is extended.
pub read_at-append :
    (n off : ℕ) (file more : Bytes)
    → off + n ≤ length file
    → read_at n off (file ++ more) ≡ read_at n off file
read_at-append n off file more h =
    rw
      (
        le→leb (off + n) (length file) h,
        le→leb (off + n) (length (file ++ more)) (omega (arith, h, length-append file more)),
      )
      (ap some (window-append n off file more h))

-- What stands behind a file is read at its length.
pub read_at-end :
    (file more rest : Bytes) (n : ℕ)
    → length more ≡ n
    → read_at n (length file) (file ++ (more ++ rest)) ≡ some more
read_at-end file more rest n h =
    rw
      (
        le→leb (length file + n) (length (file ++ (more ++ rest)))
            (omega (arith, h, length-append file (more ++ rest), length-append more rest)),
        drop-append (length file) file (more ++ rest) refl,
      )
      (ap some (take-append n more rest h))

module _ (p b : Bytes) (off : ℕ) (inside : off + length p ≤ length b) where
  pub length-write_at : length (write_at p off b) ≡ length b
  length-write_at = omega (
    arith,
    inside,
    length-append (take off b ++ p) (drop (off + length p) b),
    length-append (take off b) p,
    length-take off b,
    length-drop (off + length p) b,
  )

  -- A window beside a write is left alone.
  pub window-write_other :
      (k o : ℕ)
      → (o + k ≤ off) ⊎ (off + length p ≤ o)
      → take k (drop o (write_at p off b)) ≡ take k (drop o b)
  window-write_other k o (inl before) = rw (append_assoc (take off b) p (drop (off + length p) b)) (
      window-append k o (take off b) _ (omega (arith, inside, before, length-take off b))
      ∙ window-take k o off b before (omega (arith, inside)))
  window-write_other k o (inr after) =
      let a = take off b ++ p in
      let n : length a ≡ off + length p =
        omega (arith, inside, length-append (take off b) p, length-take off b) in
      ap (take k) (
        drop_past o a (drop (off + length p) b) (omega (arith, n, after))
        ∙ drop-drop (off + length p) (o - length a) b
        ∙ ap (λ (j : ℕ). drop j b) {x = off + length p + (o - length a)} {y = o}
            (omega (arith, n, after)))

  -- What is written is read.
  pub drop-write_at : drop off (write_at p off b) ≡ p ++ drop (off + length p) b
  drop-write_at =
      rw (append_assoc (take off b) p (drop (off + length p) b))
        (drop-append off (take off b) _ (omega (arith, inside, length-take off b)))

  pub word-write_other :
      (o : ℕ) → (o + 4 ≤ off) ⊎ (off + length p ≤ o) → word_at o (write_at p off b) ≡ word_at o b
  word-write_other o apart =
      sym (u32_of-take (drop o (write_at p off b)))
      ∙ ap u32_of (window-write_other 4 o apart)
      ∙ u32_of-take (drop o b)
