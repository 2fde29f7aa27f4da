-- ===== src/Cfgrec/Flags/Bits.antt =====
-- Setting, clearing and testing the bits of a byte; what a menu's flags let a user do.
use ele_bbs_go.Base.{
  ℕ, ◌<◌, ◌≡◌, refl, Bool, true, false, not, ◌&&◌, ◌||◌, ltb, ◌==◌, all_below, all_below_sound,
  ltb→lt,
}
use ele_bbs_go.Cfgrec.Flags.{has_bit, set_bit}

same : Bool → Bool → Bool
same true b = b
same false b = not b

same_sound : (a b : Bool) → same a b ≡ true → a ≡ b
unfolding same
same_sound true true e = refl
same_sound true false e = cc
same_sound false true e = cc
same_sound false false e = refl

-- A test on a bytes's three arguments, over every byte and every two rows.
module _ (f g : ℕ → ℕ → ℕ → Bool) where
  abbrev every : Bool
  every = all_below 256 (λ b. all_below 8 (λ r. all_below 8 (λ s. same (f b r s) (g b r s))))

  every_sound : every ≡ true → (b r s : ℕ) → b < 256 → r < 8 → s < 8 → f b r s ≡ g b r s
  every_sound e b r s hb hr hs =
      same_sound _ _
        (all_below_sound 8 _ s (all_below_sound 8 _ r (all_below_sound 256 _ b e hb) hr) hs)

pub has_bit-set_bit_on :
    (b r s : ℕ) → b < 256 → r < 8 → s < 8 → has_bit (set_bit b r true) s ≡ (r == s || has_bit b s)
has_bit-set_bit_on =
    every_sound (λ b r s. has_bit (set_bit b r true) s) (λ b r s. r == s || has_bit b s)
      (unfold has_bit set_bit same all_below in refl)

pub has_bit-set_bit_off :
    (b r s : ℕ)
    → b < 256
    → r < 8
    → s < 8
    → has_bit (set_bit b r false) s ≡ (not (r == s) && has_bit b s)
has_bit-set_bit_off =
    every_sound (λ b r s. has_bit (set_bit b r false) s) (λ b r s. not (r == s) && has_bit b s)
      (unfold has_bit set_bit same all_below in refl)

-- A change of one bit of a byte leaves a byte.
module _ (f : ℕ → ℕ → ℕ) where
  every_below_sound :
      all_below 256 (λ b. all_below 8 (λ r. ltb (f b r) 256)) ≡ true
      → (b r : ℕ) → b < 256
      → r < 8
      → f b r < 256
  every_below_sound e b r hb hr = ltb→lt _ 256 (
      all_below_sound 8 (λ r. ltb (f b r) 256) r
        (all_below_sound 256 (λ b. all_below 8 (λ r. ltb (f b r) 256)) b e hb) hr)

pub set_bit-lt : (b r : ℕ) (on : Bool) → b < 256 → r < 8 → set_bit b r on < 256
set_bit-lt b r true =
    every_below_sound (λ b r. set_bit b r true) (unfold set_bit all_below in refl) b r
set_bit-lt b r false =
    every_below_sound (λ b r. set_bit b r false) (unfold set_bit all_below in refl) b r
