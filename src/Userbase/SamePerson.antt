-- ===== src/Userbase/SamePerson.antt =====
-- internal/userbase/users.go: whose record `Write` writes over.
use ele_bbs_go.Base.{
  is_nil, ℕ, ◌+◌, ◌*◌, ◌≤◌, ◌≡◌, ◌≢◌, [], ◌∷◌, ◌&&◌, ◌||◌, ◌↔◌, refl, sym, ap, ◌∙◌, Bool, true,
  false, not, inl, inr, ◌⊎◌, Option, none, arith, Bytes, length, Bool-cases, bytes_eq_sound,
  bytes_eq_refl,
}
use ele_bbs_go.Base.Int.{pos}
use ele_bbs_go.Pascal.Cp437.{Text}
use ele_bbs_go.Cfgrec.User.{User}
use ele_bbs_go.Userbase.{UserFiles, Outcome, done, fold_name, name_matches, same_person, write}
use ele_bbs_go.Userbase.Search.{user_at, over}
use ele_bbs_go.Userbase.Writing.{write_user-done, write_at_record-IsWritten, write_user_numbered}

-- A name, not folded to nothing, that is the user's name or handle up to folding.
Bears : User → Text → Type 0
Bears old name =
    (fold_name name ≢ [])
    × ((fold_name old.name ≡ fold_name name) ⊎ (fold_name old.handle ≡ fold_name name))

-- The new user's name or handle is the name or the handle of the old one.
pub SharesName : User → User → Type 0
SharesName old neu = Bears old neu.name ⊎ Bears old neu.handle

is_nil-cases : (s : Text) → ((is_nil s ≡ true) × (s ≡ [])) ⊎ ((is_nil s ≡ false) × (s ≢ []))
is_nil-cases [] = inl (refl, refl)
is_nil-cases (x ∷ s) = inr (refl, λ e. cc)

name_matches_iff :
    (stored want : Text)
    → is_nil want ≡ false
    → (name_matches stored want ≡ true) ↔ (fold_name stored ≡ want)
unfolding name_matches
name_matches_iff stored want named = (
  λ e. bytes_eq_sound (fold_name stored) want (ground (arith, e, named)),
  λ e. rw (e, named, bytes_eq_refl want) refl,
)

not_true : false ≡ true → ⊥
not_true e = cc

or_true : (a b : Bool) → (a || b) ≡ true → (a ≡ true) ⊎ (b ≡ true)
or_true true b e = inl refl
or_true false b e = inr e

or_right : (a : Bool) → (a || true) ≡ true
or_right a = ground arith

-- The test of `samePerson` for one of the two names.
either_name_iff :
    (old : User) (name : Text)
    → (not (is_nil (fold_name name))
          && (name_matches old.name (fold_name name) || name_matches old.handle (fold_name name))
        ≡ true)
      ↔ Bears old name
unfolding Bears
either_name_iff old name = elim (is_nil-cases (fold_name name)) [
  | inl (nothing, empty) ↦ rw nothing (λ e. absurd (not_true e), λ b. absurd (b.0 empty))
  | inr (named, full) ↦
      let by_name = name_matches_iff old.name (fold_name name) named in
      let by_handle = name_matches_iff old.handle (fold_name name) named in
      rw named (
        λ e. (
          full,
          elim (or_true _ _ e) [ inl t ↦ inl (by_name.0 t) | inr t ↦ inr (by_handle.0 t) ],
        ),
        λ b. elim b.1 [ inl t ↦ rw (by_name.1 t) refl | inr t ↦ rw (by_handle.1 t) (or_right _) ],
      )
]

same_person_iff : (old neu : User) → (same_person old neu ≡ true) ↔ SharesName old neu
unfolding same_person SharesName
same_person_iff old neu = (
  λ e. elim (or_true _ _ e) [
    | inl t ↦ inl ((either_name_iff old neu.name).0 t)
    | inr t ↦ inr ((either_name_iff old neu.handle).0 t)
  ],
  λ may. elim may [
    | inl b ↦ rw ((either_name_iff old neu.name).1 b) refl
    | inr b ↦ rw ((either_name_iff old neu.handle).1 b) (or_right _)
  ],
)

-- `Write`, where nothing fails, writes over a whole record of the file just when the record has no name
-- or the new user's name or handle is, up to folding, the name or the handle of the one there.
pub write_iff_same_person :
    (u : User) (f : Bytes) (index : Option Bytes) (n : ℕ)
    → u.rec ≡ pos n
    → n * 1016 + 1016 ≤ length f
    → ((write none (over f index) u).1 ≡ done)
      ↔ ((is_nil (user_at f n).name ≡ true) ⊎ SharesName (user_at f n) u)
unfolding write
write_iff_same_person u f index n numbered whole = (
  λ e.
      let w = write_at_record-IsWritten none u false f n numbered (
        ap (λ (r : UserFiles × Outcome). r.1)
          (sym (write_user_numbered none u false f n numbered index))
        ∙ e) in
      elim (Bool-cases (is_nil (user_at f n).name)) [
        | inl t ↦ inl t
        | inr t ↦ inr ((same_person_iff (user_at f n) u).0 (w.allowed refl t))
      ],
  λ may.
      write_user-done u false f index n numbered whole
        (inr (elim may [ inl t ↦ inl t | inr t ↦ inr ((same_person_iff (user_at f n) u).1 t) ])),
)
