-- ===== src/Files/Access/Named.antt =====
-- Names and groups of a file area, as `CheckFileAreaAccess` and `AreaInGroup` test them.
use Prim.Native.Nat.{bit_and}
use ele_bbs_go.Base.{
  is_nil, ℕ, ◌%◌, ◌<◌, ◌≡◌, refl, ◌↔◌, Bool, true, false, not, ◌||◌, inl, inr, ◌⊎◌, List, [], ◌∷◌,
  arith, ◌==◌, ==_iff, if◌then◌else◌, Bool-cases, all_below, all_below_sound,
}
use ele_bbs_go.Pascal.Cp437.{Text}
use ele_bbs_go.Pascal.Text.{trim, trim_left, trim_right, is_space}
use ele_bbs_go.Cfgrec.Areas.{FilesArea}
use ele_bbs_go.Files.Access.{is_blank, in_groups, area_in_group}

-- A text with a character that is no white space.
pub HasInk : Text → Type 0
HasInk [] = ⊥
HasInk (c ∷ s) = (is_space c ≡ false) ⊎ HasInk s

not_empty : (c : ℕ) (s : Text) → is_space c ≡ false → is_nil (trim_right is_space (c ∷ s)) ≡ false
unfolding trim_right
not_empty c s e = by_rest (trim_right is_space s)
  where
    by_rest :
        (r : Text)
        → is_nil (elim r [ [] ↦ if is_space c then [] else c ∷ [] | x ∷ xs ↦ c ∷ x ∷ xs ]) ≡ false
    by_rest [] = rw e refl
    by_rest (x ∷ xs) = refl

pub is_blank-HasInk : (s : Text) → (is_blank s ≡ false) ↔ HasInk s
unfolding is_blank trim trim_left HasInk
is_blank-HasInk [] = (λ e. absurd (unfold trim_right in cc), λ h. absurd h)
is_blank-HasInk (c ∷ s) = elim (Bool-cases (is_space c)) [
  | inl y ↦ rw y (
    λ e. inr ((is_blank-HasInk s).0 e),
    λ h. elim h [ inl n ↦ absurd (differ_ n) | inr k ↦ (is_blank-HasInk s).1 k ],
  )
  | inr n ↦ rw n (λ e. inl refl, λ h. not_empty c s n)
]
  where
    differ_ : true ≡ false → ⊥
    differ_ e = cc

pub IsOneOf : ℕ → List ℕ → Type 0
IsOneOf n [] = ⊥
IsOneOf n (g ∷ gs) = (g ≡ n) ⊎ IsOneOf n gs

in_groups-IsOneOf : (gs : List ℕ) (n : ℕ) → (in_groups gs n ≡ true) ↔ IsOneOf n gs
unfolding in_groups IsOneOf
in_groups-IsOneOf [] n = (λ e. absurd cc, λ h. absurd h)
in_groups-IsOneOf (g ∷ gs) n = elim (Bool-cases (g == n)) [
  | inl y ↦ rw y (λ e. inl ((==_iff g n).0 y), λ h. refl)
  | inr x ↦ rw x (
    λ e. inr ((in_groups-IsOneOf gs n).0 e),
    λ h. elim h [
      | inl same ↦ absurd (both ((==_iff g n).1 same) x)
      | inr k ↦ (in_groups-IsOneOf gs n).1 k
    ],
  )
]
  where
    both : {b : Bool} → b ≡ true → b ≡ false → ⊥
    both y n = cc

-- An area is in every group if its lowest attribute bit is set; group 0 stands for all groups.
pub InGroup : FilesArea → ℕ → Type 0
InGroup a n = (n ≡ 0) ⊎ ((a.attrib2 % 2 ≡ 1) ⊎ ((a.group ≡ n) ⊎ IsOneOf n a.alt_group))

low_bits : all_below 256 (λ n. bit_and n 1 == n % 2) ≡ true
unfolding all_below
low_bits = refl

low_bit : (n : ℕ) → n < 256 → bit_and n 1 ≡ n % 2
low_bit n h = (==_iff _ _).0 (all_below_sound 256 _ n low_bits h)

pub area_in_group-InGroup :
    (a : FilesArea) (n : ℕ) → a.attrib2 < 256 → (area_in_group a n ≡ true) ↔ InGroup a n
unfolding area_in_group InGroup
area_in_group-InGroup a n byte =
    by_tests (in_groups a.alt_group n) (in_groups-IsOneOf a.alt_group n)
  where
    by_tests :
        (r : Bool)
        → (r ≡ true) ↔ IsOneOf n a.alt_group
        → ((if n == 0 || not (bit_and a.attrib2 1 == 0)
              then true
              else if a.group == n
              then true
              else r)
            ≡ true)
          ↔ InGroup a n
    by_tests r k = elim (Bool-cases (n == 0)) [
      | inl z ↦ rw z (λ e. inl ((==_iff n 0).0 z), λ h. refl)
      | inr z ↦ elim (Bool-cases (bit_and a.attrib2 1 == 0)) [
        | inr b ↦ rw (z, b) (λ e. inr (inl (ground (arith, b, low_bit a.attrib2 byte))), λ h. refl)
        | inl b ↦ elim (Bool-cases (a.group == n)) [
          | inl g ↦ rw (z, b, g) (λ e. inr (inr (inl ((==_iff a.group n).0 g))), λ h. refl)
          | inr g ↦
              rw (z, b, g)
                (
                  λ e. inr (inr (inr (k.0 e))),
                  λ h. elim h [
                    | inl zero_ ↦ absurd (both ((==_iff n 0).1 zero_) z)
                    | inr (inl odd) ↦
                        absurd (omega (arith, odd, low_bit a.attrib2 byte, (==_iff _ 0).0 b))
                    | inr (inr (inl own)) ↦ absurd (both ((==_iff a.group n).1 own) g)
                    | inr (inr (inr other)) ↦ k.1 other
                  ],
                )
        ]
      ]
    ]
      where
        both : {b : Bool} → b ≡ true → b ≡ false → ⊥
        both y n = cc
