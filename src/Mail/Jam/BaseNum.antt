-- ===== src/Mail/Jam/BaseNum.antt =====
-- internal/mail/jam_rw.go: the number of the first message of a base stays what it is.
use ele_bbs_go.Base.{
  ℕ, ◌+◌, ◌≤◌, ◌<◌, ◌≡◌, refl, sym, ap, ◌∙◌, Bool, inl, inr, none, some, Option, [], ◌∷◌, ◌++◌,
  arith, Bytes, codes, leb, ltb, ◌==◌, if◌then◌else◌, length, take, drop, replicate, length-append,
  length-take, length-replicate, window-append, window-take, Bool-cases, leb→le, le→ltb_false,
  lt→leb_false, le→leb, ltb→lt, ltb_false→le,
}
use ele_bbs_go.Base.Int.{from_u32}
use ele_bbs_go.Base.Files.{
  u32_of, word_at, write_at, length-write_at, word-write_other, drop-write_at, u32_of-take,
  write_at-zero,
}
use ele_bbs_go.Pascal.Buf.Codec.{u32_bytes}
use ele_bbs_go.Mail.Jam.Store.{or_empty, at_least_one, jam_base_msg}
use ele_bbs_go.Mail.Jam.Change.{
  put_u32_at, jhd_buffer, jhd_dated, jhd_touched, jhd_numbered, jam_ensure_jhd,
}
use ele_bbs_go.Mail.Jam.Header.{u32_of-bytes}

-- A buffer of the size of the header of a base, and its word at 20.
record Holds (w : ℕ) (b : Bytes) : Type 0 where
  size : length b ≡ 1024
  word : word_at 20 b ≡ w

Holds-write :
    (w off : ℕ) (p b : Bytes) → off + length p ≤ 20 → Holds w b → Holds w (write_at p off b)
Holds-write w off p b before h =
    let inside : off + length p ≤ length b = omega (arith, before, h.size) in
    record {
      size = length-write_at p b off inside ∙ h.size;
      word = word-write_other p b off inside 20 (inr before) ∙ h.word;
    }

Holds-put : (w : ℕ) (b : Bytes) → w < 4294967296 → (x : ℕ) → Holds x b → Holds w (put_u32_at 20 w b)
Holds-put w b small x h =
    let inside : 24 ≤ length b = omega (arith, h.size) in
    record {
      size = length-write_at (u32_bytes w) b 20 inside ∙ h.size;
      word = ap u32_of (drop-write_at (u32_bytes w) b 20 inside) ∙ u32_of-bytes w small;
    }

-- The word of a file that is long enough.
abbrev word_of : Bytes → ℕ
word_of file = if leb 24 (length file) then word_at 20 file else 0

Holds-if :
    (w : ℕ) (test : Bool) (b c : Bytes) → Holds w b → Holds w c → Holds w (if test then b else c)
Holds-if w test b c h k = elim (Bool-cases test) [ inl e ↦ rw e h | inr e ↦ rw e k ]

start-Holds : (file : Bytes) → Holds (word_of file) (jhd_buffer file)
unfolding jhd_buffer
start-Holds file = elim (Bool-cases (leb 24 (length file))) [
  | inl e ↦ rw e (copied (leb→le 24 (length file) e))
  | inr e ↦ rw e (record { size = length-replicate {A = ℕ} 1024 0; word = refl })
]
  where
    copied :
        24 ≤ length file → Holds (word_at 20 file) (write_at (take 24 file) 0 (replicate 1024 0))
    copied long =
        let n : length (take 24 file) ≡ 24 = omega (arith, long, length-take 24 file) in
        let inside : 0 + length (take 24 file) ≤ length (replicate {A = ℕ} 1024 0) =
          omega (arith, n, length-replicate {A = ℕ} 1024 0) in
        record {
          size =
              length-write_at (take 24 file) (replicate 1024 0) 0 inside
              ∙ length-replicate {A = ℕ} 1024 0;
          word =
              ap (word_at 20) (drop-write_at (take 24 file) (replicate 1024 0) 0 inside)
              ∙ sym (u32_of-take (drop 20 (take 24 file ++ _)))
              ∙ ap u32_of (
                  window-append 4 20 (take 24 file) _ (omega (arith, n))
                  ∙ window-take 4 20 24 file (omega arith) long)
              ∙ u32_of-take (drop 20 file);
        }

dated-Holds : (w now : ℕ) (b : Bytes) → Holds w b → Holds w (jhd_dated now b)
unfolding jhd_dated
dated-Holds w now b h =
    Holds-if w (u32_of (drop 4 b) == 0) (put_u32_at 4 now b) b
      (Holds-write w 4 (u32_bytes now) b (omega arith) h) h

touched-Holds : (w now active : ℕ) (b : Bytes) → Holds w b → Holds w (jhd_touched now active b)
unfolding jhd_touched
touched-Holds w now active b h =
    let b2 : Bytes = jhd_dated now (write_at (codes "JAM" ++ 0 ∷ []) 0 b) in
    let h2 : Holds w b2 =
      dated-Holds w now (write_at (codes "JAM" ++ 0 ∷ []) 0 b)
        (Holds-write w 0 (codes "JAM" ++ 0 ∷ []) b (omega arith) h) in
    let v : ℕ = u32_of (drop 8 b2) + 1 in
    Holds-write w 12 (u32_bytes active) (put_u32_at 8 v b2) (omega arith)
      (Holds-write w 8 (u32_bytes v) b2 (omega arith) h2)

numbered-Holds :
    (w base_num : ℕ) (b : Bytes)
    → 1 ≤ base_num
    → base_num < 4294967296
    → Holds w b
    → Holds (if w == 0 then base_num else w) (jhd_numbered base_num b)
unfolding jhd_numbered
numbered-Holds w base_num b valid small h =
    rw (h.word, le→ltb_false base_num 1 valid)
      (elim (Bool-cases (w == 0)) [
        | inl e ↦ rw e (Holds-put base_num b small w h)
        | inr e ↦ rw e h
      ])

module _ (now active base_num : ℕ) (file : Bytes) where
  -- The word that `jamEnsureJhd` leaves.
  ensured :
      1 ≤ base_num
      → base_num < 4294967296
      → (word_at 20 (jam_ensure_jhd now active base_num file)
          ≡ (if word_of file == 0 then base_num else word_of file))
        × (24 ≤ length (jam_ensure_jhd now active base_num file))
  unfolding jam_ensure_jhd
  ensured valid small =
      let b : Bytes = jhd_numbered base_num (jhd_touched now active (jhd_buffer file)) in
      let h =
        numbered-Holds (word_of file) base_num (jhd_touched now active (jhd_buffer file)) valid
          small (touched-Holds (word_of file) now active (jhd_buffer file) (start-Holds file)) in
      rw (write_at-zero b file) (
        sym (u32_of-take (drop 20 (b ++ drop (length b) file)))
            ∙ ap u32_of (window-append 4 20 b (drop (length b) file) (omega (arith, h.size)))
            ∙ u32_of-take (drop 20 b)
            ∙ h.word,
        omega (arith, h.size, length-append b (drop (length b) file)),
      )

from_word : (w : ℕ) → (1 ≤ at_least_one (from_u32 w)) × (at_least_one (from_u32 w) < 4294967296)
from_word w = ground arith

-- A file that is too short counts like a word of 0.
jam_base_msg-word :
    (jhd : Option Bytes) → jam_base_msg jhd ≡ at_least_one (from_u32 (word_of (or_empty jhd)))
unfolding jam_base_msg
jam_base_msg-word none = refl
jam_base_msg-word (some f) = elim (Bool-cases (ltb (length f) 24)) [
  | inl e ↦ rw (e, lt→leb_false 24 (length f) (ltb→lt (length f) 24 e))
  | inr e ↦ rw (e, le→leb 24 (length f) (ltb_false→le (length f) 24 e))
]

-- Whatever `jamEnsureJhd` writes, the first number stays.
pub jam_base_msg-ensure :
    (now active : ℕ) (jhd : Option Bytes)
    → jam_base_msg (some (jam_ensure_jhd now active (jam_base_msg jhd) (or_empty jhd)))
      ≡ jam_base_msg jhd
jam_base_msg-ensure now active jhd = rw (jam_base_msg-word jhd) (
    let w : ℕ = word_of (or_empty jhd) in
    let (valid, small) = from_word w in
    let (e, long) = ensured now active (at_least_one (from_u32 w)) (or_empty jhd) valid small in
    jam_base_msg-word (some (jam_ensure_jhd now active (at_least_one (from_u32 w)) (or_empty jhd)))
    ∙ rw (le→leb 24 _ long, e) (stays w))
  where
    stays :
        (w : ℕ)
        → at_least_one (from_u32 (if w == 0 then at_least_one (from_u32 w) else w))
          ≡ at_least_one (from_u32 w)
    stays w = ground arith
