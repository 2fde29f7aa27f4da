-- ===== src/Mail/Jam/LastRead.antt =====
-- internal/mail/jam.go and jam_rw.go: the last-read pointers of the .jlr file.
use ele_bbs_go.Base.{
  drop-drop, window-append, ℕ, zero, suc, ◌+◌, ◌*◌, ◌≤◌, ◌<◌, ◌≡◌, refl, sym, ap, ◌∙◌, Bool, true,
  false, ◌&&◌, ◌||◌, inl, inr, List, [], ◌∷◌, ◌++◌, Option, some, arith, Bytes, length, take, drop,
  length-append, length-take, length-drop, drop-append, Bool-cases, le→ltb_false, lt→ltb,
  append_assoc,
}
use ele_bbs_go.Base.Int.{
  pos_part, ℤ_eq, ℤ_eq_refl, ℤ, pos, negsuc, from_u32, to_u32, IsI32, from_u32-to_u32,
}
use ele_bbs_go.Base.Files.{u32_of, word_at, u32_of-take}
use ele_bbs_go.Pascal.Buf.Codec.{u32_bytes}
use ele_bbs_go.Crc.{jam}
use ele_bbs_go.Crc.Words.{jam-IsI32}
use ele_bbs_go.Mail.Jam.Store.{or_empty}
use ele_bbs_go.Mail.Jam.Change.{
  last_read_loop, jam_last_read, with_high, set_last_loop, set_last_read,
}

u32_of-append : (x y : Bytes) → 4 ≤ length x → u32_of (x ++ y) ≡ u32_of x
u32_of-append x y l =
    sym (u32_of-take (x ++ y)) ∙ ap u32_of (window-append 4 0 x y l) ∙ u32_of-take x

u32_of_front : (k : ℕ) (s : Bytes) → u32_of (take (suc (suc (suc (suc k)))) s) ≡ u32_of s
u32_of_front k [] = refl
u32_of_front k (a ∷ []) = refl
u32_of_front k (a ∷ b ∷ []) = refl
u32_of_front k (a ∷ b ∷ c ∷ []) = refl
u32_of_front k (a ∷ b ∷ c ∷ d ∷ s) = refl

-- No record of the file has the checksum.
abbrev pub IsFree : ℤ → Bytes → Type 0
IsFree h f = (i : ℕ) → i * 16 < length f → ℤ_eq (from_u32 (word_at (i * 16) f)) h ≡ false

-- A record whose pointer is changed.
module _ (high : ℕ) (f z : Bytes) (long : 16 ≤ length f) where
  length-with_high : length (with_high high (take 16 f)) ≡ 16
  length-with_high = omega (
    arith,
    long,
    length-append (take 8 (take 16 f) ++ u32_bytes high) (u32_bytes high),
    length-append (take 8 (take 16 f)) (u32_bytes high),
    length-take 8 (take 16 f),
    length-take 16 f,
  )

  with_high-parts :
      with_high high (take 16 f) ++ z
      ≡ take 8 (take 16 f) ++ (u32_bytes high ++ (u32_bytes high ++ z))
  with_high-parts =
      append_assoc (take 8 (take 16 f) ++ u32_bytes high) (u32_bytes high) z
      ∙ append_assoc (take 8 (take 16 f)) (u32_bytes high) (u32_bytes high ++ z)

  length-front : length (take 8 (take 16 f)) ≡ 8
  length-front = omega (arith, long, length-take 8 (take 16 f), length-take 16 f)

  with_high-crc : u32_of (with_high high (take 16 f) ++ z) ≡ u32_of f
  with_high-crc =
      ap u32_of with_high-parts
      ∙ u32_of-append (take 8 (take 16 f)) _ (omega (arith, length-front))
      ∙ u32_of_front 4 (take 16 f)
      ∙ u32_of_front 12 f

  with_high-pointer : high < 2147483648 → u32_of (drop 8 (with_high high (take 16 f) ++ z)) ≡ high
  with_high-pointer small =
      ap (λ (b : Bytes). u32_of (drop 8 b)) with_high-parts
      ∙ ap u32_of (drop-append 8 (take 8 (take 16 f)) _ length-front)
      ∙ omega (arith, small)

and_false : (b : Bool) → b && false ≡ false
and_false true = refl
and_false false = refl

module _ (c h : ℤ) (other : Bool) (high : ℕ) (is_word : IsI32 c) (small : high < 2147483648) where
  abbrev rec : Bytes
  rec = u32_bytes (to_u32 c) ++ u32_bytes 0 ++ u32_bytes high ++ u32_bytes high

  abbrev wanted : ℤ → Bool
  wanted x = ℤ_eq x c || other && ℤ_eq x h

  IsFree-drop : (f : Bytes) → 16 ≤ length f → IsFree h f → IsFree h (drop 16 f)
  IsFree-drop f long free i below = rw (drop-drop 16 (i * 16) f) (
      ap (λ (o : ℕ). ℤ_eq (from_u32 (word_at o f)) h) {x = 16 + i * 16} {y = suc i * 16}
        (omega arith)
      ∙ free (suc i) (omega (arith, long, below, length-drop 16 f)))

  rec_crc : (behind : Bytes) → from_u32 (u32_of (rec ++ behind)) ≡ c
  rec_crc behind = ap from_u32 (e c is_word) ∙ from_u32-to_u32 c is_word
    where
      e : (c : ℤ) → IsI32 c → u32_of (u32_bytes (to_u32 c)) ≡ to_u32 c
      e (pos n) k = omega (arith, k)
      e (negsuc n) k = omega (arith, k)

  is_wanted : wanted c ≡ true
  is_wanted = rw (ℤ_eq_refl c) refl

  pointer : from_u32 high ≡ pos high
  pointer = rw (lt→ltb high 2147483648 small) refl

  stored_pointer : from_u32 (u32_of (u32_bytes high)) ≡ pos high
  stored_pointer = ap from_u32 {y = high} (omega (arith, small)) ∙ pointer

  long_set :
      (n k : ℕ) (f : Bytes) → length f ≡ k * 16 → k < n → k < length (set_last_loop c high n f)
  unfolding set_last_loop
  long_set zero k f e l = absurd (omega (arith, l))
  long_set (suc n) zero [] e l = omega arith
  long_set (suc n) zero (x ∷ f) e l = absurd (omega (arith, e))
  long_set (suc n) (suc k) f e l =
      rw (le→ltb_false (length f) 16 (omega (arith, e)))
        (elim (Bool-cases (ℤ_eq (from_u32 (u32_of f)) c)) [
          | inl t ↦ rw t (
              omega (
                arith,
                e,
                l,
                length-with_high high f [] (omega (arith, e)),
                length-append (with_high high (take 16 f)) (drop 16 f),
                length-drop 16 f,
              ))
          | inr t ↦ rw t (
              omega (
                arith,
                e,
                long_set n k (drop 16 f) (omega (arith, e, length-drop 16 f)) (omega (arith, l)),
                length-take 16 f,
                length-append (take 16 f) (set_last_loop c high n (drop 16 f)),
              ))
        ])

  last_read_loop-set :
      (n m k : ℕ) (f : Bytes)
      → length f ≡ k * 16
      → k < n
      → k < m
      → IsFree h f
      → last_read_loop wanted m (set_last_loop c high n f) ≡ pos high
  unfolding last_read_loop set_last_loop
  last_read_loop-set zero m k f e l r free = absurd (omega (arith, l))
  last_read_loop-set (suc n) zero k f e l r free = absurd (omega (arith, r))
  last_read_loop-set (suc n) (suc m) zero [] e l r free = rw (rec_crc [], is_wanted) stored_pointer
  last_read_loop-set (suc n) (suc m) zero (x ∷ f) e l r free = absurd (omega (arith, e))
  last_read_loop-set (suc n) (suc m) (suc k) f e l r free =
      let long : 16 ≤ length f = omega (arith, e) in
      rw (le→ltb_false (length f) 16 long) (elim (Bool-cases (ℤ_eq (from_u32 (u32_of f)) c)) [
        | inl t ↦
            rw
              (
                t,
                le→ltb_false (length (with_high high (take 16 f) ++ drop 16 f)) 16 (
                    omega (
                      arith,
                      length-with_high high f [] long,
                      length-append (with_high high (take 16 f)) (drop 16 f),
                    )),
                with_high-crc high f (drop 16 f) long,
                t,
                with_high-pointer high f (drop 16 f) long small,
              )
              pointer
        | inr t ↦
            let rest : Bytes = set_last_loop c high n (drop 16 f) in
            let there : length (take 16 f) ≡ 16 = omega (arith, length-take 16 f, long) in
            rw
              (
                t,
                le→ltb_false (length (take 16 f ++ rest)) 16
                    (omega (arith, there, length-append (take 16 f) rest)),
                u32_of-append (take 16 f) rest (omega (arith, there)),
                u32_of_front 12 f,
                t,
                free 0 (omega (arith, long)),
                and_false other,
                drop-append 16 (take 16 f) rest there,
              )
              (last_read_loop-set n m k (drop 16 f) (omega (arith, e, length-drop 16 f))
                (omega (arith, l)) (omega (arith, r)) (IsFree-drop f long free))
      ])

-- The pointer that `SetLastRead` stores is the one that `jamLastRead` gives, in a file of whole
-- records of which none has the checksum of the handle, if the pointer is below 2^31; for a negative
-- one it is 0.
pub jam_last_read-set_last_read :
    (k : ℕ) (f : Option Bytes) (name handle : List ℕ) (high : ℤ)
    → length (or_empty f) ≡ k * 16
    → IsFree (jam handle) (or_empty f)
    → pos_part high < 2147483648
    → jam_last_read (some (set_last_read f name high)) name handle ≡ pos (pos_part high)
unfolding jam_last_read set_last_read
jam_last_read-set_last_read k f name handle high e free small =
    last_read_loop-set (jam name) (jam handle) _ (pos_part high) (jam-IsI32 name) small
      (suc (length (or_empty f)))
      (length (set_last_loop (jam name) (pos_part high) (suc (length (or_empty f))) (or_empty f))) k
      (or_empty f) e (omega (arith, e))
      (long_set (jam name) (jam handle) true (pos_part high) (jam-IsI32 name) small
        (suc (length (or_empty f))) k (or_empty f) e (omega (arith, e)))
      free
