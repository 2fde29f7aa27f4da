-- ===== src/Mail/Jam/Header.antt =====
-- internal/mail/jam_rw.go: the header that `AppendMsg` stores, field by field.
use ele_bbs_go.Base.{ℕ, true, ◌<◌, ◌≡◌, refl, arith, Bytes, bytes_eq, codes, length, take}
use ele_bbs_go.Base.Files.{u32_of, word_at}
use ele_bbs_go.Pascal.Buf.Codec.{u32_bytes}
use ele_bbs_go.Mail.Jam.Change.{new_header}

pub u32_of-bytes : (v : ℕ) → v < 4294967296 → u32_of (u32_bytes v) ≡ v
u32_of-bytes v h = omega (arith, h)

module _ (sub_len date num attr text_ofs text_len : ℕ) where
  abbrev header : Bytes
  header = new_header sub_len date num attr text_ofs text_len

  pub length-new_header : length header ≡ 76
  unfolding new_header
  length-new_header = refl

  pub new_header-mark : bytes_eq (take 3 header) (codes "JAM") ≡ true
  unfolding new_header bytes_eq
  new_header-mark = refl

  pub new_header-sub_len : sub_len < 4294967296 → word_at 8 header ≡ sub_len
  unfolding new_header
  new_header-sub_len h = omega (arith, h)

  pub new_header-date : date < 4294967296 → word_at 36 header ≡ date
  unfolding new_header
  new_header-date h = omega (arith, h)

  pub new_header-num : num < 4294967296 → word_at 48 header ≡ num
  unfolding new_header
  new_header-num h = omega (arith, h)

  pub new_header-attr : attr < 4294967296 → word_at 52 header ≡ attr
  unfolding new_header
  new_header-attr h = omega (arith, h)

  pub new_header-text_ofs : text_ofs < 4294967296 → word_at 60 header ≡ text_ofs
  unfolding new_header
  new_header-text_ofs h = omega (arith, h)

  pub new_header-text_len : text_len < 4294967296 → word_at 64 header ≡ text_len
  unfolding new_header
  new_header-text_len h = omega (arith, h)
