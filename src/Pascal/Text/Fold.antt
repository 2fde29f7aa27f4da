-- ===== src/Pascal/Text/Fold.antt =====
-- The folding of names: `UpCase`, `NoDoubleSpace` and `ForceBack` settle after one application.
use ele_bbs_go.Base.{
  ℕ, ◌<◌, ◌≡◌, refl, sym, ap, ap₂, ◌∙◌, inl, inr, Bool, true, false, [], ◌∷◌, ◌++◌, map, map-append,
  arith, Bytes, All, IsByte, Bool-cases,
}
use ele_bbs_go.Pascal.Cp437.{Text, from_cp437, to_cp437}
use ele_bbs_go.Pascal.Cp437.RoundTrip.{to_cp437-from_cp437, to_cp437-IsByte}
use ele_bbs_go.Pascal.Text.{
  is_space, upper_byte, up_case, no_double_space_loop, no_double_space, slash_to_back,
  ends_with_back, end_with_back, force_back,
}

upper_byte_idem : (c : ℕ) → upper_byte (upper_byte c) ≡ upper_byte c
unfolding upper_byte
upper_byte_idem c = ground arith

map-upper_byte_idem : (b : Bytes) → map upper_byte (map upper_byte b) ≡ map upper_byte b
map-upper_byte_idem [] = refl
map-upper_byte_idem (c ∷ b) = ap₂ ◌∷◌ (upper_byte_idem c) (map-upper_byte_idem b)

upper_byte-IsByte : (c : ℕ) → c < 256 → upper_byte c < 256
unfolding upper_byte
upper_byte-IsByte c h = ground arith

map-upper_byte-IsByte : (b : Bytes) → All IsByte b → All IsByte (map upper_byte b)
map-upper_byte-IsByte [] h = tt
map-upper_byte-IsByte (c ∷ b) h = (upper_byte-IsByte c h.0, map-upper_byte-IsByte b h.1)

pub to_cp437-up_case : (s : Text) → to_cp437 (up_case s) ≡ map upper_byte (to_cp437 s)
unfolding up_case
to_cp437-up_case s = to_cp437-from_cp437 _ (map-upper_byte-IsByte (to_cp437 s) (to_cp437-IsByte s))

-- Upper-casing an upper-cased text changes nothing.
pub up_case_idem : (s : Text) → up_case (up_case s) ≡ up_case s
unfolding up_case
up_case_idem s =
    let b = map upper_byte (to_cp437 s) in
    rw (to_cp437-from_cp437 b (map-upper_byte-IsByte (to_cp437 s) (to_cp437-IsByte s)))
      (ap from_cp437 (map-upper_byte_idem (to_cp437 s)))

blank_is_space : is_space b' ' ≡ true
unfolding is_space
blank_is_space = refl

-- Every space is a blank, and no two of them meet; the flag forbids one at the start.
abbrev pub IsSingleSpaced : Bool → Text → Type 0
IsSingleSpaced after [] = Unit
IsSingleSpaced after (r ∷ s) =
    (is_space r ≡ true → (after ≡ false) × (r ≡ b' ')) × IsSingleSpaced (is_space r) s

loop-IsSingleSpaced : (p : Bool) (s : Text) → IsSingleSpaced p (no_double_space_loop p s)
unfolding no_double_space_loop
loop-IsSingleSpaced p [] = tt
loop-IsSingleSpaced true (r ∷ s) = elim (Bool-cases (is_space r)) [
  | inl e ↦ rw (e, no_double_space_loop) (loop-IsSingleSpaced true s)
  | inr e ↦ rw (e, no_double_space_loop) (λ t. cc, rw e (loop-IsSingleSpaced false s))
]
loop-IsSingleSpaced false (r ∷ s) = elim (Bool-cases (is_space r)) [
  | inl e ↦
      rw (e, no_double_space_loop)
        (λ _. (refl, refl), rw blank_is_space (loop-IsSingleSpaced true s))
  | inr e ↦ rw (e, no_double_space_loop) (λ t. cc, rw e (loop-IsSingleSpaced false s))
]

-- The result has single blanks for all its spaces, and none of them meet.
pub no_double_space-IsSingleSpaced : (s : Text) → IsSingleSpaced false (no_double_space s)
unfolding no_double_space
no_double_space-IsSingleSpaced s = loop-IsSingleSpaced false s

loop_keeps : (p : Bool) (s : Text) → IsSingleSpaced p s → no_double_space_loop p s ≡ s
unfolding no_double_space_loop
loop_keeps p [] h = refl
loop_keeps p (r ∷ s) h = elim (Bool-cases (is_space r)) [
  | inl e ↦
      rw (e, no_double_space_loop)
        (rw (h.0 e).0 (ap₂ ◌∷◌ (sym (h.0 e).1) (loop_keeps true s (rw e at (h.1)))))
  | inr e ↦ rw (e, no_double_space_loop) (ap (◌∷◌ r) (loop_keeps false s (rw e at (h.1))))
]

-- A text that is single-spaced already is left as it is, so a second pass changes nothing.
pub no_double_space_idem : (s : Text) → no_double_space (no_double_space s) ≡ no_double_space s
unfolding no_double_space
no_double_space_idem s = loop_keeps false _ (loop-IsSingleSpaced false s)

slash_to_back_idem : (c : ℕ) → slash_to_back (slash_to_back c) ≡ slash_to_back c
unfolding slash_to_back
slash_to_back_idem c = ground arith

map-slash_to_back_idem : (p : Text) → map slash_to_back (map slash_to_back p) ≡ map slash_to_back p
map-slash_to_back_idem [] = refl
map-slash_to_back_idem (c ∷ p) = ap₂ ◌∷◌ (slash_to_back_idem c) (map-slash_to_back_idem p)

back_keeps : slash_to_back b'\\' ≡ b'\\'
unfolding slash_to_back
back_keeps = refl

map-end_with_back :
    (q : Text) → map slash_to_back q ≡ q → map slash_to_back (end_with_back q) ≡ end_with_back q
unfolding end_with_back
map-end_with_back [] h = refl
map-end_with_back (c ∷ q) h = elim (Bool-cases (ends_with_back (c ∷ q))) [
  | inl e ↦ rw e h
  | inr e ↦ rw e (map-append slash_to_back (c ∷ q) (b'\\' ∷ []) ∙ ap₂ ◌++◌ h (rw back_keeps))
]

ends_with_back-append : (q : Text) → ends_with_back (q ++ b'\\' ∷ []) ≡ true
unfolding ends_with_back
ends_with_back-append [] = refl
ends_with_back-append (c ∷ []) = refl
ends_with_back-append (c ∷ d ∷ q) = ends_with_back-append (d ∷ q)

end_with_back_idem : (q : Text) → end_with_back (end_with_back q) ≡ end_with_back q
unfolding end_with_back
end_with_back_idem [] = refl
end_with_back_idem (c ∷ q) = elim (Bool-cases (ends_with_back (c ∷ q))) [
  | inl e ↦ rw (e, end_with_back) (rw e)
  | inr e ↦ rw (e, end_with_back) (rw (ends_with_back-append (c ∷ q)))
]

-- A path to which `ForceBack` was applied is left as it is by another application.
pub force_back_idem : (p : Text) → force_back (force_back p) ≡ force_back p
unfolding force_back
force_back_idem p =
    rw (map-end_with_back _ (map-slash_to_back_idem p)) (end_with_back_idem (map slash_to_back p))
