-- ===== src/Userbase/Failing.antt =====
-- internal/userbase/users.go: what the users file holds after `writeUser` failed.
use ele_bbs_go.Base.{
  is_nil, ℕ, ◌+◌, ◌*◌, ◌≤◌, ◌≡◌, ◌≢◌, refl, sym, ap, Bool, not, ◌&&◌, inl, inr, Option, none, some,
  arith, Bytes, ltb, length, take, Bool-cases, ltb_false→le, length-take,
}
use ele_bbs_go.Base.Files.{write_at}
use ele_bbs_go.Base.Int.{ℤ, pos, negsuc}
use ele_bbs_go.Cfgrec.User.{User, parse_user, encode_user}
use ele_bbs_go.Cfgrec.User.RoundTrip.{length-encode_user}
use ele_bbs_go.Userbase.{
  read, same_person, Outcome, done, write_error, written, write_onto, write_over, write_at_record,
  write_rec, write_user,
}
use ele_bbs_go.Userbase.Search.{over}
use ele_bbs_go.Userbase.Writing.{read-write_other}

-- The file is as before, or has up to a record's bytes written over its record `n`.
data IsPart (f : Bytes) (n : ℕ) : Bytes → Type 0 where
  untouched : IsPart f n f
  over_record :
      (p : Bytes)
      → length p ≤ 1016
      → n * 1016 + 1016 ≤ length f
      → IsPart f n (write_at p (n * 1016) f)

-- A result of `writeUser` on the bytes of the file, at record `n`.
record IsSafe (f : Bytes) (n : ℕ) (r : Bytes × Outcome) : Type 0 where
  part : IsPart f n r.0
  leaves : r.1 ≢ done → r.1 ≢ write_error → r.0 ≡ f

read-IsPart :
    (f : Bytes) (n : ℕ) (g : Bytes)
    → IsPart f n g
    → (k : ℕ) → k ≢ n
    → read (some g) k ≡ read (some f) k
read-IsPart f n _ untouched k other = refl
read-IsPart f n _ (over_record p short whole) k other = read-write_other f p n short whole k other

left-IsSafe : (f : Bytes) (n : ℕ) (o : Outcome) → IsSafe f n (f, o)
left-IsSafe f n o = record { part = untouched; leaves = λ _ _. refl }

written-IsSafe :
    (fault : Option ℕ) (p f : Bytes) (n : ℕ)
    → length p ≡ 1016
    → n * 1016 + 1016 ≤ length f
    → IsSafe f n (written fault p (n * 1016) f)
written-IsSafe none p f n sized whole = record {
  part = over_record p (omega (arith, sized)) whole;
  leaves = λ e _. absurd (e refl);
}
written-IsSafe (some m) p f n sized whole = record {
  part = over_record (take m p) (omega (arith, sized, length-take m p)) whole;
  leaves = λ _ e. absurd (e refl);
}

module _ (fault : Option ℕ) (u : User) (force : Bool) (sized : length (encode_user u) ≡ 1016) where
  write_onto-IsSafe :
      (f : Bytes) (n : ℕ) (existing : User)
      → n * 1016 + 1016 ≤ length f
      → IsSafe f n (write_onto fault u force f (n * 1016) existing)
  write_onto-IsSafe f n existing whole =
      elim (Bool-cases (not force && not (is_nil existing.name) && not (same_person existing u))) [
        | inl t ↦ rw t (left-IsSafe f n _)
        | inr t ↦ rw t (written-IsSafe fault (encode_user u) f n sized whole)
      ]

  write_over-IsSafe :
      (f : Bytes) (n : ℕ) (b : Option Bytes)
      → n * 1016 + 1016 ≤ length f
      → IsSafe f n (write_over fault u force f (n * 1016) b)
  write_over-IsSafe f n none whole = left-IsSafe f n _
  write_over-IsSafe f n (some buf) whole = write_onto-IsSafe f n (parse_user buf u.rec) whole

  write_at_record-IsSafe : (f : Bytes) (n : ℕ) → IsSafe f n (write_at_record fault u force f n)
  unfolding write_at_record
  write_at_record-IsSafe f n = elim (Bool-cases (ltb (length f) (n * 1016 + 1016))) [
    | inl t ↦ rw t (left-IsSafe f n _)
    | inr t ↦ rw t (write_over-IsSafe f n _ (ltb_false→le (length f) (n * 1016 + 1016) t))
  ]

-- Whatever `writeUser` reports, every record of the users file other than the user's is read as
-- before, and where it reports an error that is not the write's, the files are as before, for a user
-- with 4 bytes of flags and 200 numbers of combined areas.
pub write_user-error :
    (fault : Option ℕ) (users index : Option Bytes) (u : User) (force : Bool)
    → length u.flags ≡ 4
    → length u.combined ≡ 200
    → ((write_user fault (record { users = users; index = index }) u force).1 ≢ done
        → (write_user fault (record { users = users; index = index }) u force).1 ≢ write_error
        → (write_user fault (record { users = users; index = index }) u force).0
          ≡ record { users = users; index = index })
      × ((k : ℕ)
          → u.rec ≢ pos k
          → read (write_user fault (record { users = users; index = index }) u force).0.users k
            ≡ read users k)
unfolding write_user
write_user-error fault users index u force flags combined = by_rec u.rec users
  where
    by_rec :
        (r : ℤ) (users : Option Bytes)
        → ((write_rec fault (record { users = users; index = index }) u force r).1 ≢ done
            → (write_rec fault (record { users = users; index = index }) u force r).1 ≢ write_error
            → (write_rec fault (record { users = users; index = index }) u force r).0
              ≡ record { users = users; index = index })
          × ((k : ℕ)
              → r ≢ pos k
              → read (write_rec fault (record { users = users; index = index }) u force r).0.users k
                ≡ read users k)
    by_rec (negsuc n) users = (λ _ _. refl, λ _ _. refl)
    by_rec (pos n) none = (λ _ _. refl, λ _ _. refl)
    by_rec (pos n) (some f) =
        let safe = write_at_record-IsSafe fault u force (length-encode_user u flags combined) f n in
        (
          λ e e'. ap (λ (g : Bytes). over g index) (safe.leaves e e'),
          λ k other. read-IsPart f n _ safe.part k (λ same. other (ap pos (sym same))),
        )
