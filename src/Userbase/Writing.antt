-- ===== src/Userbase/Writing.antt =====
-- internal/userbase/users.go: what `Write` does to the users of the file.
use ele_bbs_go.Base.{
  is_nil, ℕ, ◌+◌, ◌*◌, ◌≤◌, ◌≡◌, ◌≢◌, refl, sym, ap, ◌∙◌, Bool, List, true, false, not, ◌&&◌, inl,
  inr, ◌⊎◌, Option, none, some, arith, Bytes, ltb, leb, length, take, drop, take-append, Bool-cases,
  leb→le, le→leb, le→ltb_false, leb_false→lt, ltb_false→le,
}
use ele_bbs_go.Base.Files.{write_at, length-write_at, window-write_other, drop-write_at}
use ele_bbs_go.Base.Int.{ℤ, pos}
use ele_bbs_go.Cfgrec.User.{User, parse_user, encode_user}
use ele_bbs_go.Cfgrec.User.RoundTrip.{
  FitsUser, defaulted, length-encode_user, parse_user-encode_user,
}
use ele_bbs_go.Userbase.{
  UserFiles, read, same_person, Outcome, done, past_end, refused, write_error, written, write_onto,
  write_over, write_at_record, with_users, write_rec, write_user,
}
use ele_bbs_go.Userbase.Search.{user_at, over}

module _ (f p : Bytes) (n : ℕ) (short : length p ≤ 1016) (inside : n * 1016 + 1016 ≤ length f) where
  fits_in : n * 1016 + length p ≤ length f
  fits_in = omega (arith, short, inside)

  read-write_at :
      length p ≡ 1016 → read (some (write_at p (n * 1016) f)) n ≡ some (parse_user p (pos n))
  unfolding read
  read-write_at sized =
      rw
        (
          le→leb (n * 1016 + 1016) (length (write_at p (n * 1016) f))
              (omega (arith, inside, length-write_at p f (n * 1016) fits_in)),
          drop-write_at p f (n * 1016) fits_in,
          take-append 1016 p (drop (n * 1016 + length p) f) sized,
        )
        refl

  pub read-write_other : (k : ℕ) → k ≢ n → read (some (write_at p (n * 1016) f)) k ≡ read (some f) k
  unfolding read
  read-write_other k other =
      rw
        (
          length-write_at p f (n * 1016) fits_in,
          window-write_other p f (n * 1016) fits_in 1016 (k * 1016) beside,
        )
        refl
    where
      beside : (k * 1016 + 1016 ≤ n * 1016) ⊎ (n * 1016 + length p ≤ k * 1016)
      beside = elim (Bool-cases (leb k n)) [
        | inl t ↦ inl (omega (arith, other, leb→le k n t))
        | inr t ↦ inr (omega (arith, short, leb_false→lt k n t))
      ]

written-done :
    (fault : Option ℕ) (p : Bytes) (off : ℕ) (f : Bytes)
    → (written fault p off f).1 ≡ done
    → (written fault p off f).0 ≡ write_at p off f
written-done none p off f e = refl
written-done (some m) p off f e = absurd (failed e)
  where
    failed : write_error ≡ done → ⊥
    failed q = cc

-- What `writeUser` has done to the bytes of the file, where it says that it wrote.
pub record IsWritten (f : Bytes) (u : User) (force : Bool) (n : ℕ) (f' : Bytes) : Type 0 where
  pub whole : n * 1016 + 1016 ≤ length f
  pub is_write : f' ≡ write_at (encode_user u) (n * 1016) f
  pub allowed :
      force ≡ false → is_nil (user_at f n).name ≡ false → same_person (user_at f n) u ≡ true

module _ (fault : Option ℕ) (u : User) (force : Bool) (f : Bytes) (n : ℕ)
    (numbered : u.rec ≡ pos n) where
  pub past : past_end n ≡ done → ⊥
  past q = cc

  not_done : {x y : List ℕ} → refused x y ≡ done → ⊥
  not_done q = cc

  write_onto-IsWritten :
      n * 1016 + 1016 ≤ length f
      → (write_onto fault u force f (n * 1016) (user_at f n)).1 ≡ done
      → IsWritten f u force n (write_onto fault u force f (n * 1016) (user_at f n)).0
  write_onto-IsWritten whole e =
      elim (Bool-cases
        (not force && not (is_nil (user_at f n).name) && not (same_person (user_at f n) u))) [
          | inl t ↦ absurd (not_done (rw t at e))
          | inr t ↦ rw t (record {
            whole = whole;
            is_write = written-done fault (encode_user u) (n * 1016) f (rw t at e);
            allowed = λ kept named. ground (arith, t, kept, named);
          })
        ]

  pub onto :
      write_over fault u force f (n * 1016) (some (take 1016 (drop (n * 1016) f)))
      ≡ write_onto fault u force f (n * 1016) (user_at f n)
  onto =
      ap
        (λ (k : ℤ).
          write_onto fault u force f (n * 1016) (parse_user (take 1016 (drop (n * 1016) f)) k))
        numbered

  pub write_at_record-IsWritten :
      (write_at_record fault u force f n).1 ≡ done
      → IsWritten f u force n (write_at_record fault u force f n).0
  unfolding write_at_record
  write_at_record-IsWritten e = elim (Bool-cases (ltb (length f) (n * 1016 + 1016))) [
    | inl t ↦ absurd (past (rw t at e))
    | inr t ↦
        let whole : n * 1016 + 1016 ≤ length f = ltb_false→le (length f) (n * 1016 + 1016) t in
        rw (t, le→leb (n * 1016 + 1016) (length f) whole, onto)
          (write_onto-IsWritten whole
            (rw (t, le→leb (n * 1016 + 1016) (length f) whole, onto) at e))
  ]

  pub write_user_numbered :
      (index : Option Bytes)
      → write_user fault (over f index) u force
        ≡ with_users (over f index) (write_at_record fault u force f n)
  unfolding write_user
  write_user_numbered index = ap (write_rec fault (over f index) u force) numbered

-- `writeUser` writes over a record of the file that it may write over.
pub write_user-done :
    (u : User) (force : Bool) (f : Bytes) (index : Option Bytes) (n : ℕ)
    → u.rec ≡ pos n
    → n * 1016 + 1016 ≤ length f
    → (force ≡ true) ⊎ ((is_nil (user_at f n).name ≡ true) ⊎ (same_person (user_at f n) u ≡ true))
    → (write_user none (over f index) u force).1 ≡ done
unfolding write_at_record
write_user-done u force f index n numbered whole may =
    ap (λ (r : UserFiles × Outcome). r.1) (write_user_numbered none u force f n numbered index)
    ∙ inside
  where
    inside : (write_at_record none u force f n).1 ≡ done
    inside =
        rw
          (
            le→ltb_false (length f) (n * 1016 + 1016) whole,
            le→leb (n * 1016 + 1016) (length f) whole,
            onto none u force f n numbered,
          )
          (ground (arith, may))

-- Where `writeUser` reports no error for a user whose fields fit the record and whose number is not
-- negative, the user is read at its number, with a screen length or width of 0 replaced by 25 or
-- 80, and every other one as before.
pub read-write_user :
    (fault : Option ℕ) (u : User) (force : Bool) (f : Bytes) (index : Option Bytes) (n : ℕ)
    → FitsUser u
    → u.rec ≡ pos n
    → (write_user fault (over f index) u force).1 ≡ done
    → (read (write_user fault (over f index) u force).0.users n ≡ some (defaulted u))
      × ((k : ℕ)
          → k ≢ n
          → read (write_user fault (over f index) u force).0.users k ≡ read (some f) k)
read-write_user fault u force f index n fits numbered =
    simp (write_user_numbered fault u force f n numbered index) (λ e.
      let w = write_at_record-IsWritten fault u force f n numbered e in
      let sized = length-encode_user u fits.flags fits.combined.0 in
      (
        ap (λ (g : Bytes). read (some g) n) w.is_write
            ∙ read-write_at f (encode_user u) n (omega (arith, sized)) w.whole sized
            ∙ ap some
                (ap (parse_user (encode_user u)) (sym numbered) ∙ parse_user-encode_user u fits),
        λ k other.
            ap (λ (g : Bytes). read (some g) k) w.is_write
            ∙ read-write_other f (encode_user u) n (omega (arith, sized)) w.whole k other,
      ))
