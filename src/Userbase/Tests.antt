-- ===== src/Userbase/Tests.antt =====
-- A user base of one user.
use ele_bbs_go.Base.{
  is_nil, length, ◌⊎◌, ℕ, ◌≡◌, ◌≢◌, ◌↔◌, refl, true, false, inr, [], ◌∷◌, ◌++◌, none, some, arith,
  Bytes, bytes_eq_refl,
}
use ele_bbs_go.Base.Int.{pos}
use ele_bbs_go.Pascal.Text.{trim, up_case, no_double_space}
use ele_bbs_go.Cfgrec.User.{User, encode_user}
use ele_bbs_go.Cfgrec.User.RoundTrip.{FitsUser, defaulted}
use ele_bbs_go.Cfgrec.User.Numbered.{FitsUser-rec}
use ele_bbs_go.Cfgrec.Tests.{caller, caller-FitsUser}
use ele_bbs_go.Userbase.{
  UserFiles, fold_name, name_matches, same_person, read, search, list, append, write, write_user,
  done, write_error,
}
use ele_bbs_go.Userbase.Search.{user_at, over, IsUserOf, search-IsUserOf, search-total}
use ele_bbs_go.Userbase.Writing.{write_user-done, read-write_user}
use ele_bbs_go.Userbase.SamePerson.{SharesName, write_iff_same_person}
use ele_bbs_go.Userbase.Failing.{write_user-error}
use ele_bbs_go.Userbase.Adding.{
  numbered, user_at-last, added-IsUserOf, sized, list-append, search-append,
}

abbrev no_files : UserFiles
no_files = record { users = none; index = none }

abbrev first : User
first = numbered none caller

abbrev one : Bytes
one = encode_user first

first_named : is_nil (fold_name caller.name) ≡ false
unfolding fold_name trim up_case no_double_space
first_named = refl

list-append_example :
    ((append no_files caller).0.1 ≡ done)
    × (list (append no_files caller).0.0.users
        ≡ list none ++ defaulted (append no_files caller).1 ∷ [])
list-append_example = list-append no_files caller 0 refl caller-FitsUser

search-append_example : (v : User) × (search (append no_files caller).0.0 caller.name ≡ some v)
search-append_example = search-append no_files caller 0 refl caller-FitsUser refl first_named

first-IsUserOf : IsUserOf one (fold_name caller.name) (defaulted first)
first-IsUserOf =
    added-IsUserOf no_files caller 0 refl (FitsUser-rec caller _ caller-FitsUser) refl first_named

search-total_example : (v : User) × (search (over one none) caller.name ≡ some v)
search-total_example = search-total one none caller.name (defaulted first) first-IsUserOf

search-IsUserOf_example :
    IsUserOf one
      (fold_name caller.name)
      (search-total one none caller.name (defaulted first) first-IsUserOf).0
search-IsUserOf_example =
    search-IsUserOf one none caller.name
      (search-total one none caller.name (defaulted first) first-IsUserOf).0
      (search-total one none caller.name (defaulted first) first-IsUserOf).1

first-FitsUser : FitsUser first
first-FitsUser = FitsUser-rec caller (pos 0) caller-FitsUser

one_size : length one ≡ 1016
one_size = sized no_files caller 0 refl first-FitsUser

-- The user itself may be written again.
same : same_person (user_at one 0) first ≡ true
unfolding same_person name_matches
same =
    rw
      (
        user_at-last no_files caller 0 refl first-FitsUser,
        bytes_eq_refl (fold_name caller.name),
        first_named,
      )
      refl

read-write_user_example :
    (read (write_user none (over one none) first false).0.users 0 ≡ some (defaulted first))
    × ((k : ℕ)
        → k ≢ 0
        → read (write_user none (over one none) first false).0.users k ≡ read (some one) k)
read-write_user_example =
    read-write_user none first false one none 0 first-FitsUser refl
      (write_user-done first false one none 0 refl (omega (arith, one_size)) (inr (inr same)))

write_iff_same_person_example :
    ((write none (over one none) first).1 ≡ done)
    ↔ ((is_nil (user_at one 0).name ≡ true) ⊎ SharesName (user_at one 0) first)
write_iff_same_person_example =
    write_iff_same_person first one none 0 refl (omega (arith, one_size))

write_user-error_example :
    ((write_user (some 7) (over one none) first true).1 ≢ done
      → (write_user (some 7) (over one none) first true).1 ≢ write_error
      → (write_user (some 7) (over one none) first true).0 ≡ over one none)
    × ((k : ℕ)
        → pos 0 ≢ pos k
        → read (write_user (some 7) (over one none) first true).0.users k ≡ read (some one) k)
write_user-error_example = write_user-error (some 7) (some one) none first true refl refl
