-- ===== src/Userbase/Adding.antt =====
-- internal/userbase/users.go: a user that `Append` adds.
use ele_bbs_go.Base.{
  is_nil, ℕ, zero, suc, ◌+◌, ◌*◌, ◌/◌, ◌≤◌, ◌≡◌, refl, ap, ap₂, ◌∙◌, true, false, inl, inr, List,
  [], ◌∷◌, ◌++◌, Option, none, some, arith, Bytes, leb, length, take, drop-append, take_all,
  length-append, window-append, Bool-cases, leb→le, bytes_eq_refl,
}
use ele_bbs_go.Base.Files.{read_at, read_at-append}
use ele_bbs_go.Base.Int.{pos}
use ele_bbs_go.Cfgrec.User.{User, parse_user, encode_user}
use ele_bbs_go.Cfgrec.User.RoundTrip.{
  FitsUser, defaulted, length-encode_user, parse_user-encode_user,
}
use ele_bbs_go.Cfgrec.User.Numbered.{FitsUser-rec}
use ele_bbs_go.Userbase.{
  UserFiles, Outcome, done, fold_name, name_matches, deleted, is_wanted, search, list, list_loop,
  rebuild_index, idx_entries, or_no_bytes, first_of, checked_against, append,
}
use ele_bbs_go.Userbase.Search.{user_at, IsUserOf, search-total}

-- The user with the number that it gets.
abbrev pub numbered : Option Bytes → User → User
numbered users u = record u { rec = pos (length (or_no_bytes users) / 1016) }

-- The first record is the same before and after, so nothing is put back.
checked_against-done :
    (files : UserFiles) (f more : Bytes)
    → checked_against (first_of f) (read_at 1016 0 (f ++ more)) files (f ++ more)
      ≡ (rebuild_index (record files { users = some (f ++ more) }), done)
checked_against-done files f more = elim (Bool-cases (leb 1016 (length f))) [
  | inl t ↦
      rw
        (t, read_at-append 1016 0 f more (leb→le 1016 (length f) t), t, bytes_eq_refl (take 1016 f))
        refl
  | inr t ↦ rw t refl
]

list_loop-append :
    (f more : Bytes) (n i : ℕ)
    → (i + n) * 1016 ≤ length f
    → list_loop (f ++ more) n i ≡ list_loop f n i
unfolding list_loop
list_loop-append f more zero i h = refl
list_loop-append f more (suc n) i h =
    ap₂ ◌∷◌
      (ap (λ (b : Bytes). parse_user b (pos i))
        (window-append 1016 (i * 1016) f more (omega (arith, h))))
      (list_loop-append f more n (suc i) (omega (arith, h)))

list_loop-last :
    (f : Bytes) (n i : ℕ) → list_loop f (suc n) i ≡ list_loop f n i ++ user_at f (i + n) ∷ []
unfolding list_loop
list_loop-last f zero i = ap (λ (k : ℕ). user_at f k ∷ []) {x = i} {y = i + 0} (omega arith)
list_loop-last f (suc n) i =
    ap (◌∷◌ (user_at f i)) (list_loop-last f n (suc i))
    ∙ ap (λ (k : ℕ). user_at f i ∷ (list_loop f n (suc i) ++ user_at f k ∷ [])) {x = suc i + n}
        {y = i + suc n} (omega arith)

list-or_no_bytes :
    (users : Option Bytes)
    → list_loop (or_no_bytes users) (length (or_no_bytes users) / 1016) 0 ≡ list users
unfolding list list_loop
list-or_no_bytes none = refl
list-or_no_bytes (some f) = refl

by_name-is_wanted :
    (u : User)
    → deleted u ≡ false
    → is_nil (fold_name u.name) ≡ false
    → is_wanted (fold_name u.name) u ≡ true
unfolding is_wanted name_matches
by_name-is_wanted u alive named = rw (alive, named, bytes_eq_refl (fold_name u.name)) refl

module _ (files : UserFiles) (u : User) (k : ℕ)
    (whole : length (or_no_bytes files.users) ≡ k * 1016)
    (fits : FitsUser (numbered files.users u)) where
  abbrev pub before : Bytes
  before = or_no_bytes files.users

  abbrev pub more : Bytes
  more = encode_user (numbered files.users u)

  pub sized : length more ≡ 1016
  sized = length-encode_user (numbered files.users u) fits.flags fits.combined.0

  add_to-done :
      (append files u).0 ≡ (rebuild_index (record files { users = some (before ++ more) }), done)
  unfolding append
  add_to-done = checked_against-done files before more

  pub user_at-last : user_at (before ++ more) k ≡ defaulted (numbered files.users u)
  user_at-last =
      ap (λ (b : Bytes). parse_user (take 1016 b) (pos k))
        (drop-append (k * 1016) before more whole)
      ∙ ap (λ (b : Bytes). parse_user b (pos k)) (take_all 1016 more (omega (arith, sized)))
      ∙ ap (λ (n : ℕ). parse_user more (pos n)) {x = k} {y = length before / 1016}
          (omega (arith, whole))
      ∙ parse_user-encode_user (numbered files.users u) fits

  list-grown :
      list (some (before ++ more)) ≡ list files.users ++ defaulted (numbered files.users u) ∷ []
  unfolding list
  list-grown =
      ap (λ (n : ℕ). list_loop (before ++ more) n 0) {x = length (before ++ more) / 1016}
        {y = suc k} (omega (arith, whole, sized, length-append before more))
      ∙ list_loop-last (before ++ more) k 0
      ∙ ap (λ (l : List User). l ++ user_at (before ++ more) (0 + k) ∷ [])
          (list_loop-append before more k 0 (omega (arith, whole))
            ∙ ap (λ (n : ℕ). list_loop before n 0) {x = k} {y = length before / 1016}
                (omega (arith, whole))
            ∙ list-or_no_bytes files.users)
      ∙ ap (λ (n : ℕ). list files.users ++ user_at (before ++ more) n ∷ []) {x = 0 + k} {y = k}
          (omega arith)
      ∙ ap (λ (v : User). list files.users ++ v ∷ []) user_at-last

  pub added-IsUserOf :
      deleted u ≡ false
      → is_nil (fold_name u.name) ≡ false
      → IsUserOf (before ++ more) (fold_name u.name) (defaulted (numbered files.users u))
  added-IsUserOf alive named = record {
    number = k;
    whole = omega (arith, whole, sized, length-append before more);
    is_record = user_at-last;
    wanted = by_name-is_wanted (defaulted (numbered files.users u)) alive named;
  }

-- `Append` reports no error and adds the user, with its number, to the end of the list, in a file of
-- whole records, if the user's fields fit the record. A screen length of 0 is listed as 25, a width
-- of 0 as 80.
pub list-append :
    (files : UserFiles) (u : User) (k : ℕ)
    → length (or_no_bytes files.users) ≡ k * 1016
    → FitsUser u
    → ((append files u).0.1 ≡ done)
      × (list (append files u).0.0.users ≡ list files.users ++ defaulted (append files u).1 ∷ [])
unfolding append rebuild_index
list-append files u k whole fits =
    let e = add_to-done files u k whole (FitsUser-rec u _ fits) in
    (
      ap (λ (r : UserFiles × Outcome). r.1) e,
      ap (λ (r : UserFiles × Outcome). list r.0.users) e
          ∙ list-grown files u k whole (FitsUser-rec u _ fits),
    )

-- `Search` finds a user by the name of the one that `Append` added to a file of whole records, if its
-- fields fit the record, it is not deleted, and its name does not fold to nothing.
pub search-append :
    (files : UserFiles) (u : User) (k : ℕ)
    → length (or_no_bytes files.users) ≡ k * 1016
    → FitsUser u
    → deleted u ≡ false
    → is_nil (fold_name u.name) ≡ false
    → (v : User) × (search (append files u).0.0 u.name ≡ some v)
unfolding append rebuild_index
search-append files u k whole fits alive named =
    let (v, found) =
      search-total
        (before files u k whole (FitsUser-rec u _ fits)
          ++ more files u k whole (FitsUser-rec u _ fits))
        (some (
          idx_entries (
            list (
              some (
                before files u k whole (FitsUser-rec u _ fits)
                ++ more files u k whole (FitsUser-rec u _ fits))))))
        u.name (defaulted (numbered files.users u))
        (added-IsUserOf files u k whole (FitsUser-rec u _ fits) alive named) in
    (
      v,
      ap (λ (r : UserFiles × Outcome). search r.0 u.name)
            (add_to-done files u k whole (FitsUser-rec u _ fits))
          ∙ found,
    )
