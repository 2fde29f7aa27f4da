-- ===== src/Pascal/Buf.antt =====
-- internal/pascal/buf.go: the cursor over a packed record, and the writer that builds one. A
-- method of `Buf` is a function from the cursor to its result and the moved cursor; a method of
-- `Writer` is a function on the bytes written so far.
pub mod Codec
use ele_bbs_go.Base.{
  ℕ, zero, suc, ◌+◌, ◌-◌, ◌*◌, ◌/◌, ◌%◌, Bool, true, false, not, List, [], ◌∷◌, ◌++◌, Bytes, ltb,
  leb, ◌==◌, if◌then◌else◌, length, take, drop, replicate, get_or,
}
use ele_bbs_go.Base.Int.{ℤ, to_u16, to_u32, from_u16, from_u32}
use ele_bbs_go.Pascal.Cp437.{Text}
use ele_bbs_go.Pascal.Text.{string, put_string}

pub record Buf : Type 0 where
  pub b : Bytes
  pub i : ℕ

abbrev pub new_buf : Bytes → Buf
new_buf b = record { b = b; i = 0 }

abbrev pub Reader {ℓ} : Type ℓ → Type ℓ
Reader A = Buf → A × Buf

infixl 5 ◌>>=◌
unfoldable pub ◌>>=◌ {ℓ κ} : {A : Type ℓ} {B : Type κ} → Reader A → (A → Reader B) → Reader B
◌>>=◌ m f r = let (a, r') = m r in f a r'

unfoldable pub pure {ℓ} : {A : Type ℓ} → A → Reader A
pure a r = (a, r)

pub remain : Buf → ℕ
remain r = if leb (length r.b) r.i then 0 else length r.b - r.i

-- A negative count is not used by the program, so the count is a natural number.
unfoldable pub slice : ℕ → Reader Bytes
unfolding remain
slice n r =
    let n' = if ltb (length r.b) (r.i + n) then remain r else n in
    (take n' (drop r.i r.b), record r { i = r.i + n' })

unfoldable pub skip : ℕ → Reader (Unit {0})
skip n r = (tt, (slice n r).1)

unfoldable pub get_u8 : Reader ℕ
get_u8 r = let (s, r') = slice 1 r in (if length s == 0 then 0 else get_or s 0 0, r')

unfoldable pub get_bool : Reader Bool
get_bool r = let (v, r') = get_u8 r in (not (v == 0), r')

unfoldable pub get_u16 : Reader ℕ
get_u16 r =
    let (s, r') = slice 2 r in
    (if ltb (length s) 2 then 0 else get_or s 0 0 + get_or s 1 0 * 256, r')

unfoldable pub get_i16 : Reader ℤ
get_i16 r = let (v, r') = get_u16 r in (from_u16 v, r')

unfoldable pub get_u32 : Reader ℕ
get_u32 r =
    let (s, r') = slice 4 r in
    (
      if ltb (length s) 4
          then 0
          else get_or s 0 0 + get_or s 1 0 * 256 + get_or s 2 0 * 65536 + get_or s 3 0 * 16777216,
      r',
    )

unfoldable pub get_i32 : Reader ℤ
get_i32 r = let (v, r') = get_u32 r in (from_u32 v, r')

unfoldable pub get_pstring : ℕ → Reader Text
get_pstring max r = let (s, r') = slice (max + 1) r in (string s, r')

-- A `[4]byte`, zeros where the record ends early.
unfoldable pub get_flags : Reader Bytes
get_flags r = let (s, r') = slice 4 r in (s ++ replicate (4 - length s) 0, r')

-- A loop of `n` reads into an array.
unfoldable pub get_times {ℓ} : {A : Type ℓ} → ℕ → Reader A → Reader (List A)
get_times zero m r = ([], r)
get_times (suc n) m r = let (a, r') = m r in let (as_, r'') = get_times n m r' in (a ∷ as_, r'')

abbrev pub Writer : Type 0
Writer = Bytes → Bytes

infixl 5 ◌>>◌
unfoldable pub ◌>>◌ : Writer → Writer → Writer
◌>>◌ m k w = k (m w)

unfoldable pub put : Bytes → Writer
put p w = w ++ p

unfoldable pub put_u8 : ℕ → Writer
put_u8 v w = w ++ v ∷ []

unfoldable pub put_bool : Bool → Writer
unfolding put_u8
put_bool v = if v then put_u8 1 else put_u8 0

unfoldable pub put_u16 : ℕ → Writer
put_u16 v w = w ++ (v % 256) ∷ (v / 256 % 256) ∷ []

unfoldable pub put_i16 : ℤ → Writer
unfolding put_u16
put_i16 v = put_u16 (to_u16 v)

unfoldable pub put_u32 : ℕ → Writer
put_u32 v w = w ++ (v % 256) ∷ (v / 256 % 256) ∷ (v / 65536 % 256) ∷ (v / 16777216 % 256) ∷ []

unfoldable pub put_i32 : ℤ → Writer
unfolding put_u32
put_i32 v = put_u32 (to_u32 v)

unfoldable pub put_pstring : ℕ → Text → Writer
unfolding put_string put
put_pstring max s w = put (put_string (replicate (max + 1) 0) s) w

unfoldable pub put_flags : Bytes → Writer
unfolding put
put_flags f w = put f w

unfoldable pub pad : ℕ → Writer
pad n w = if ltb 0 n then w ++ replicate n 0 else w

-- A loop of writes over an array.
unfoldable pub put_each {ℓ} : {A : Type ℓ} → (A → Writer) → List A → Writer
put_each m [] w = w
put_each m (a ∷ l) w = put_each m l (m a w)

-- The end of the encoders: fill up to the record's size, and cut what is longer.
unfoldable pub fit : ℕ → Bytes → Bytes
fit size b =
    let b' = if ltb (length b) size then pad (size - length b) b else b in
    if ltb size (length b') then take size b' else b'
