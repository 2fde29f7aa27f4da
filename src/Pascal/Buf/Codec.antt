-- ===== src/Pascal/Buf/Codec.antt =====
-- How a read meets a write: for each field, the bytes that the writer appends and the value that
-- the reader takes from those bytes. A record's codec is a chain of these.
use ele_bbs_go.Base.{
  ℕ, zero, suc, ◌+◌, ◌-◌, ◌*◌, ◌/◌, ◌%◌, ◌≤◌, ◌<◌, ◌≡◌, refl, sym, ap, ◌∙◌, Bool, true, false, List,
  [], ◌∷◌, ◌++◌, append_assoc, append-nil, arith, Bytes, if◌then◌else◌, length, drop, replicate,
  All, length-append, length-drop, length-replicate, take-append, drop-append, drop-drop,
  le→ltb_false, lt→ltb,
}
use native.Mathlib.Numerals.{add-one}
use ele_bbs_go.Base.Int.{
  ℤ, pos, negsuc, to_u16, to_u32, IsI16, IsI32, from_u16-to_u16, from_u32-to_u32,
}
use ele_bbs_go.Pascal.Cp437.{Text}
use ele_bbs_go.Pascal.Text.{string, put_string}
use ele_bbs_go.Pascal.Text.ShortString.{FitsString, string-put_string, length-put_string}
use ele_bbs_go.Pascal.Buf.{
  Buf, new_buf, Reader, ◌>>=◌, pure, slice, skip, get_u8, get_bool, get_u16, get_i16, get_u32,
  get_i32, get_pstring, get_flags, get_times, Writer, ◌>>◌, put_u8, put_bool, put_u16, put_i16,
  put_u32, put_i32, put_pstring, put_flags, pad, put_each, fit,
}

-- The bytes that a cursor has not read yet.
abbrev pub unread : Buf → Bytes
unread r = drop r.i r.b

-- On a record that goes on with `bs`, the reader returns `a` and moves past `bs`.
pub record Reads {ℓ} {A : Type ℓ} (m : Reader A) (bs : Bytes) (a : A) : Type ℓ where
  pub at :
      (r : Buf) (rest : Bytes)
      → unread r ≡ bs ++ rest
      → (r' : Buf) × (m r ≡ (a, r')) × (unread r' ≡ rest)

pub record Writes (m : Writer) (bs : Bytes) : Type 0 where
  pub out : (w : Bytes) → m w ≡ w ++ bs

pub Reads-pure {ℓ} : {A : Type ℓ} (a : A) → Reads (pure a) [] a
unfolding pure
Reads-pure a = record { at = λ r rest e. (r, refl, e) }

pub Reads-bind {ℓ κ} :
    {A : Type ℓ} {B : Type κ} {m : Reader A} (f : A → Reader B) {bs cs : Bytes} {a : A} {c : B}
    → Reads m bs a
    → Reads (f a) cs c
    → Reads (m >>= f) (bs ++ cs) c
unfolding ◌>>=◌
Reads-bind {m} f {bs} {cs} h k = record {
  at = λ r rest e.
      let (r', p, q) = h.at r (cs ++ rest) (e ∙ append_assoc bs cs rest) in
      let (r'', p', q') = k.at r' rest q in (r'', rw p p', q');
}

pub Writes->> :
    (m k : Writer) {bs cs : Bytes} → Writes m bs → Writes k cs → Writes (m >> k) (bs ++ cs)
unfolding ◌>>◌
Writes->> m k {bs} {cs} h i = record {
  out = λ w. rw (h.out w, i.out (w ++ bs)) (append_assoc w bs cs);
}

-- A cursor that has not read everything stands inside the record.
unread_inside :
    (r : Buf) (bs rest : Bytes) → unread r ≡ bs ++ rest → length bs + length rest ≡ length r.b - r.i
unread_inside r bs rest e = omega (arith, ap length e, length-drop r.i r.b, length-append bs rest)

-- The one fact about the cursor: a slice takes the next bytes.
pub slice_at :
    (n : ℕ) (bs : Bytes)
    → length bs ≡ n
    → (r : Buf) (rest : Bytes) → unread r ≡ bs ++ rest
    → 0 < n
    → (r' : Buf) × (slice n r ≡ (bs, r')) × (unread r' ≡ rest)
unfolding slice
slice_at n bs l r rest e p =
    let inside : r.i + n ≤ length r.b = omega (arith, unread_inside r bs rest e) in
    (
      record r { i = r.i + n },
      rw (le→ltb_false (length r.b) (r.i + n) inside) (rw (e, take-append n bs rest l)),
      sym (drop-drop r.i n r.b) ∙ rw (e, drop-append n bs rest l),
    )

pub Reads-u8 : (v : ℕ) → Reads get_u8 (v ∷ []) v
unfolding get_u8
Reads-u8 v = record {
  at =
      λ r rest e. let (r', p, q) = slice_at 1 (v ∷ []) refl r rest e (omega arith) in (r', rw p, q);
}

abbrev pub u16_bytes : ℕ → Bytes
u16_bytes v = (v % 256) ∷ (v / 256 % 256) ∷ []

pub Reads-u16 : (v : ℕ) → v < 65536 → Reads get_u16 (u16_bytes v) v
unfolding get_u16
Reads-u16 v h = record {
  at = λ r rest e.
      let (r', p, q) = slice_at 2 (u16_bytes v) refl r rest e (omega arith) in
      (r', rw p (ap (λ (t : ℕ). (t, r')) (omega arith)), q);
}

abbrev pub u32_bytes : ℕ → Bytes
u32_bytes v = (v % 256) ∷ (v / 256 % 256) ∷ (v / 65536 % 256) ∷ (v / 16777216 % 256) ∷ []

pub Reads-u32 : (v : ℕ) → v < 4294967296 → Reads get_u32 (u32_bytes v) v
unfolding get_u32
Reads-u32 v h = record {
  at = λ r rest e.
      let (r', p, q) = slice_at 4 (u32_bytes v) refl r rest e (omega arith) in
      (r', rw p (ap (λ (t : ℕ). (t, r')) (omega arith)), q);
}

to_u16-lt : (v : ℤ) → to_u16 v < 65536
to_u16-lt (pos n) = omega arith
to_u16-lt (negsuc n) = omega arith

to_u32-lt : (v : ℤ) → to_u32 v < 4294967296
to_u32-lt (pos n) = omega arith
to_u32-lt (negsuc n) = omega arith

pub Reads-i16 : (v : ℤ) → IsI16 v → Reads get_i16 (u16_bytes (to_u16 v)) v
unfolding get_i16
Reads-i16 v h = record {
  at = λ r rest e.
      let (r', p, q) = (Reads-u16 (to_u16 v) (to_u16-lt v)).at r rest e in
      (r', rw p (ap (λ (t : ℤ). (t, r')) (from_u16-to_u16 v h)), q);
}

pub Reads-i32 : (v : ℤ) → IsI32 v → Reads get_i32 (u32_bytes (to_u32 v)) v
unfolding get_i32
Reads-i32 v h = record {
  at = λ r rest e.
      let (r', p, q) = (Reads-u32 (to_u32 v) (to_u32-lt v)).at r rest e in
      (r', rw p (ap (λ (t : ℤ). (t, r')) (from_u32-to_u32 v h)), q);
}

abbrev pub bool_byte : Bool → ℕ
bool_byte v = if v then 1 else 0

pub Reads-bool : (v : Bool) → Reads get_bool (bool_byte v ∷ []) v
unfolding get_bool
Reads-bool true = record {
  at = λ r rest e. let (r', p, q) = (Reads-u8 1).at r rest e in (r', rw p, q);
}
Reads-bool false = record {
  at = λ r rest e. let (r', p, q) = (Reads-u8 0).at r rest e in (r', rw p, q);
}

pub Reads-skip : (n : ℕ) (bs : Bytes) → length bs ≡ n → 0 < n → Reads (skip n) bs tt
unfolding skip
Reads-skip n bs l p = record {
  at = λ r rest e. let (r', p, q) = slice_at n bs l r rest e p in (r', rw p, q);
}

pub Reads-flags : (f : Bytes) → length f ≡ 4 → Reads get_flags f f
unfolding get_flags
Reads-flags f l = record {
  at = λ r rest e.
      let (r', p, q) = slice_at 4 f l r rest e (omega arith) in (r', rw (p, l) (rw append-nil), q);
}

-- The bytes of a ShortString field of `max` characters.
pub pstring_bytes : ℕ → Text → Bytes
pstring_bytes max s = put_string (replicate (max + 1) 0) s

pub length-pstring_bytes : (max : ℕ) (s : Text) → length (pstring_bytes max s) ≡ max + 1
unfolding pstring_bytes
length-pstring_bytes max s =
    length-put_string (replicate (max + 1) 0) s ∙ length-replicate {A = ℕ} (max + 1) 0

string-pstring_bytes :
    (max : ℕ) (s : Text) → max ≤ 255 → FitsString max s → string (pstring_bytes max s) ≡ s
unfolding pstring_bytes
string-pstring_bytes max s h f =
    let len : length (replicate {A = ℕ} max 0) ≡ max = length-replicate {A = ℕ} max 0 in
    rw add-one (string-put_string 0 (replicate max 0) s (omega (arith, len)) (rw len f))

pub Reads-pstring :
    (max : ℕ) (s : Text)
    → max ≤ 255
    → FitsString max s
    → Reads (get_pstring max) (pstring_bytes max s) s
unfolding get_pstring
Reads-pstring max s h f = record {
  at = λ r rest e.
      let (r', p, q) =
        slice_at (max + 1) (pstring_bytes max s) (length-pstring_bytes max s) r rest e
          (omega arith) in
      (r', rw p (ap (λ (t : Text). (t, r')) (string-pstring_bytes max s h f)), q);
}

-- What a whole record reads as: the value from the start of the bytes, whatever follows them.
pub Reads-run {ℓ} :
    {A : Type ℓ} {m : Reader A} {bs : Bytes} {a : A} (rest : Bytes)
    → Reads m bs a
    → (m (new_buf (bs ++ rest))).0 ≡ a
Reads-run {bs} rest h = let (r', p, q) = h.at (new_buf (bs ++ rest)) rest refl in rw p

pub Writes-u8 : (v : ℕ) → Writes (put_u8 v) (v ∷ [])
unfolding put_u8
Writes-u8 v = record { out = λ w. refl }

pub Writes-bool : (v : Bool) → Writes (put_bool v) (bool_byte v ∷ [])
unfolding put_bool
Writes-bool true = record { out = λ w. refl }
Writes-bool false = record { out = λ w. refl }

pub Writes-u16 : (v : ℕ) → Writes (put_u16 v) (u16_bytes v)
unfolding put_u16
Writes-u16 v = record { out = λ w. refl }

pub Writes-i16 : (v : ℤ) → Writes (put_i16 v) (u16_bytes (to_u16 v))
unfolding put_i16
Writes-i16 v = record { out = λ w. refl }

pub Writes-u32 : (v : ℕ) → Writes (put_u32 v) (u32_bytes v)
unfolding put_u32
Writes-u32 v = record { out = λ w. refl }

pub Writes-i32 : (v : ℤ) → Writes (put_i32 v) (u32_bytes (to_u32 v))
unfolding put_i32
Writes-i32 v = record { out = λ w. refl }

pub Writes-flags : (f : Bytes) → Writes (put_flags f) f
unfolding put_flags
Writes-flags f = record { out = λ w. refl }

pub Writes-pad : (n : ℕ) → Writes (pad n) (replicate n 0)
unfolding pad
Writes-pad zero = record { out = λ w. sym (append-nil w) }
Writes-pad (suc n) = record { out = λ w. rw (lt→ltb 0 (suc n) (omega arith)) }

pub Writes-pstring : (max : ℕ) (s : Text) → Writes (put_pstring max s) (pstring_bytes max s)
unfolding put_pstring pstring_bytes
Writes-pstring max s = record { out = λ w. refl }

-- Array loops: the bytes of the elements one after another.
pub each_bytes {ℓ} : {A : Type ℓ} → (A → Bytes) → List A → Bytes
each_bytes f [] = []
each_bytes f (a ∷ l) = f a ++ each_bytes f l

pub Writes-each {ℓ} :
    {A : Type ℓ} (m : A → Writer) (f : A → Bytes)
    → ((a : A) → Writes (m a) (f a))
    → (l : List A) → Writes (put_each m l) (each_bytes f l)
unfolding put_each each_bytes
Writes-each m f h [] = record { out = λ w. sym (append-nil w) }
Writes-each m f h (a ∷ l) = record {
  out = λ w. rw ((h a).out w, (Writes-each m f h l).out (w ++ f a)) (append_assoc w (f a) _);
}

pub Reads-times {ℓ} :
    {A : Type ℓ} (m : Reader A) (f : A → Bytes) (l : List A)
    → All (λ a. Reads m (f a) a) l
    → Reads (get_times (length l) m) (each_bytes f l) l
unfolding get_times each_bytes
Reads-times m f [] h = record { at = λ r rest e. (r, refl, e) }
Reads-times m f (a ∷ l) h = record {
  at = λ r rest e.
      let (r', p, q) = h.0.at r (each_bytes f l ++ rest) (e ∙ append_assoc (f a) _ rest) in
      let (r'', p', q') = (Reads-times m f l h.1).at r' rest q in (r'', rw (p, p'), q');
}

-- The last field of a record.
pub Reads-last {ℓ κ} :
    {A : Type ℓ} {B : Type κ} {m : Reader A} (f : A → Reader B) {bs : Bytes} {a : A} {c : B}
    → Reads m bs a
    → f a ≡ pure c
    → Reads (m >>= f) bs c
unfolding ◌>>=◌ pure
Reads-last {B} {m} f {bs} {a} {c} h e = record {
  at = λ r rest u. let (r', p, q) = h.at r rest u in (r', rw p (ap (λ (g : Reader B). g r') e), q);
}

pub All-Reads-u16 :
    (l : List ℕ) → All (λ w. w < 65536) l → All (λ w. Reads get_u16 (u16_bytes w) w) l
All-Reads-u16 [] h = tt
All-Reads-u16 (w ∷ l) h = (Reads-u16 w h.0, All-Reads-u16 l h.1)

-- An array of `n` words.
pub Reads-u16s :
    (n : ℕ) (l : List ℕ)
    → (length l ≡ n) × All (λ w. w < 65536) l
    → Reads (get_times n get_u16) (each_bytes u16_bytes l) l
Reads-u16s n l h = rw (← h.0) (Reads-times get_u16 u16_bytes l (All-Reads-u16 l h.1))

pub length-each_u16 : (l : List ℕ) → length (each_bytes u16_bytes l) ≡ 2 * length l
unfolding each_bytes
length-each_u16 [] = refl
length-each_u16 (w ∷ l) = omega (arith, length-each_u16 l)

pub fit_exact : (size : ℕ) (b : Bytes) → length b ≡ size → fit size b ≡ b
unfolding fit
fit_exact size b h =
    rw (le→ltb_false (length b) size (omega arith))
      (rw (le→ltb_false size (length b) (omega arith)))

pub length-fit : (size : ℕ) (b : Bytes) → length b ≤ size → length (fit size b) ≡ size
unfolding fit pad
length-fit size b h = ground (
  arith,
  length-append b (replicate (size - length b) 0),
  length-replicate {A = ℕ} (size - length b) 0,
)

pub fit_short :
    (size : ℕ) (b : Bytes) → length b < size → fit size b ≡ b ++ replicate (size - length b) 0
unfolding fit pad
fit_short size b h = ground (
  arith,
  length-append b (replicate (size - length b) 0),
  length-replicate {A = ℕ} (size - length b) 0,
)
