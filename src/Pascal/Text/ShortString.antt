-- ===== src/Pascal/Text/ShortString.antt =====
-- What `String` reads back from the buffer that `PutString` filled.
use ele_bbs_go.Base.{
  ℕ, false, ◌-◌, ◌%◌, ◌≤◌, ◌≡◌, refl, [], ◌∷◌, ◌++◌, arith, Bytes, ltb, length, take, replicate,
  All, length-append, length-replicate, length-take, take-append, take_all,
}
use ele_bbs_go.Pascal.Cp437.{Text, to_cp437}
use ele_bbs_go.Pascal.Cp437.RoundTrip.{HasByte, from_cp437-to_cp437, length-to_cp437}
use ele_bbs_go.Pascal.Text.{trim_right, is_nul, string, put_string}

-- A text that a ShortString of `max` bytes holds exactly.
pub record FitsString (max : ℕ) (s : Text) : Type 0 where
  pub short : length s ≤ max
  pub has_bytes : All HasByte s
  pub no_nul_end : trim_right is_nul s ≡ s

pub length-put_string : (b : Bytes) (s : Text) → length (put_string b s) ≡ length b
unfolding put_string
length-put_string [] s = refl
length-put_string (x ∷ b) s =
    let raw = take (length b) (to_cp437 s) in
    omega (
      arith,
      length-append raw (replicate (length b - length raw) 0),
      length-replicate {A = ℕ} (length b - length raw) 0,
      length-take {A = ℕ} (length b) (to_cp437 s),
    )

-- `String` gives back the text that `PutString` stored, for any buffer of at most 256 bytes and
-- any text that fits it: short enough, in code page 437, with no NUL at its end.
pub string-put_string :
    (x : ℕ) (b : Bytes) (s : Text)
    → length b ≤ 255
    → FitsString (length b) s
    → string (put_string (x ∷ b) s) ≡ s
unfolding string put_string
string-put_string x b s small fits =
    let raw = to_cp437 s in
    let len : length raw ≡ length s = length-to_cp437 s in
    let whole : take (length b) raw ≡ raw =
      take_all (length b) raw (omega (arith, len, fits.short)) in
    let pad : Bytes = replicate (length b - length raw) 0 in
    let fill : length (raw ++ pad) ≡ length b = omega (
      arith,
      len,
      fits.short,
      length-append raw pad,
      length-replicate {A = ℕ} (length b - length raw) 0,
    ) in
    let small' : length raw % 256 ≡ length raw = omega (arith, len, fits.short) in
    rw (whole, small', fill)
      (rw (not_more (length raw) (length b) (omega (arith, len, fits.short))) (
        rw (take-append (length raw) raw pad refl, from_cp437-to_cp437 s fits.has_bytes)
          fits.no_nul_end))
  where
    not_more : (n m : ℕ) → n ≤ m → ltb m n ≡ false
    not_more n m h = ground arith
