-- ===== src/Cfgrec/Flags/Menu.antt =====
-- The loop of `ChangeMenu` ends, and a token changes one flag.
use ele_bbs_go.Base.{
  ℕ, zero, suc, ◌+◌, ◌≤◌, ◌≡◌, refl, Bool, [], ◌∷◌, arith, Bytes, if◌then◌else◌, length, drop,
  length-drop,
}
use ele_bbs_go.Pascal.Text.{trim, trim_left, trim_right, is_space}
use ele_bbs_go.Cfgrec.Flags.{Flag, is_blank, change_token, change_loop, change_menu}

length-trim_left : (p : ℕ → Bool) (s : Bytes) → length (trim_left p s) ≤ length s
unfolding trim_left
length-trim_left p [] = omega arith
length-trim_left p (c ∷ s) = ground (arith, length-trim_left p s)

any_fuel :
    (n m : ℕ) (f : Flag) (s : Bytes)
    → length s ≤ n
    → length s ≤ m
    → change_loop n f s ≡ change_loop m f s
unfolding change_loop
any_fuel zero zero f s h k = refl
any_fuel zero (suc m) f [] h k = refl
any_fuel zero (suc m) f (l ∷ s) h k = absurd (omega arith)
any_fuel (suc n) zero f [] h k = refl
any_fuel (suc n) zero f (l ∷ s) h k = absurd (omega arith)
any_fuel (suc n) (suc m) f [] h k = refl
any_fuel (suc n) (suc m) f (l ∷ []) h k = refl
any_fuel (suc n) (suc m) f (l ∷ d ∷ []) h k = refl
any_fuel (suc n) (suc m) f (l ∷ d ∷ op ∷ s) h k =
    any_fuel n m (change_token f l d op) (trim_left is_blank (drop 1 s))
      (omega (arith, length-trim_left is_blank (drop 1 s), length-drop 1 s))
      (omega (arith, length-trim_left is_blank (drop 1 s), length-drop 1 s))

length-trim_right : (p : ℕ → Bool) (s : Bytes) → length (trim_right p s) ≤ length s
unfolding trim_right
length-trim_right p [] = omega arith
length-trim_right p (c ∷ s) = by_rest (trim_right p s) (length-trim_right p s)
  where
    by_rest :
        (t : Bytes)
        → length t ≤ length s
        → length (elim t [ [] ↦ if p c then [] else c ∷ [] | x ∷ xs ↦ c ∷ x ∷ xs ]) ≤ suc (length s)
    by_rest [] h = ground arith
    by_rest (x ∷ xs) h = omega (arith, h)

-- The rounds that `change_menu` gives its loop are enough: more of them change nothing.
pub change_menu_enough :
    (more : ℕ) (f : Flag) (misc : Bytes)
    → change_loop (length misc + more) f (trim misc) ≡ change_menu f misc
unfolding change_menu
change_menu_enough more f misc =
    any_fuel (length misc + more) (length misc) f (trim misc) (omega (arith, short)) short
  where
    short : length (trim misc) ≤ length misc
    short =
        unfold trim in
        omega (
          arith,
          length-trim_right is_space (trim_left is_space misc),
          length-trim_left is_space misc,
        )
