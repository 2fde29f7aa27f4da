-- ===== src/Mail/Wrap.antt =====
-- internal/mail/wrap.go: message text cut into lines.
pub mod Width
pub mod Letters
use ele_bbs_go.Base.{
  ℕ, zero, suc, ◌+◌, ◌-◌, Bool, true, false, ◌||◌, List, [], ◌∷◌, ◌++◌, Option, none, some, Bytes,
  ltb, ◌==◌, if◌then◌else◌, length, take, drop,
}
use ele_bbs_go.Base.Int.{ℤ, pos, pos_part, ltb_ℤ}
use ele_bbs_go.Base.Space.{split}

abbrev pub soft_cr : ℕ
soft_cr = 0x8d

-- The variables of `wrapRun`; `none` is a `lastSpace` of -1.
pub record Run : Type 0 where
  pub out : List Bytes
  pub cur : Bytes
  pub last_space : Option ℕ

-- The loop at the end of `flush`, with the index of the first byte.
unfoldable pub find_space : ℕ → Bytes → Option ℕ → Option ℕ
find_space i [] found = found
find_space i (b ∷ s) found = find_space (suc i) s (if b == b' ' then some i else found)

-- One leading space is dropped.
unfoldable pub skip_space : Bytes → Bytes
skip_space [] = []
skip_space (b ∷ s) = if b == b' ' then s else b ∷ s

-- `flush` at a cut that is not negative.
unfoldable pub flush : ℕ → Run → Run
unfolding find_space skip_space
flush cut r =
    let rest = skip_space (drop cut r.cur) in
    record { out = r.out ++ take cut r.cur ∷ []; cur = rest; last_space = find_space 0 rest none }

abbrev pub flush_full : Option ℕ → Run → Run
flush_full none r = flush (length r.cur) r
flush_full (some zero) r = flush (length r.cur) r
flush_full (some (suc n)) r = flush (suc n) r

-- A byte that is appended to the line.
unfoldable pub append_byte : ℕ → ℕ → Run → Run
unfolding flush
append_byte max_len ch r =
    let r' : Run = record {
      out = r.out;
      cur = r.cur ++ ch ∷ [];
      last_space = if ch == b' ' then some (length r.cur) else r.last_space;
    } in
    if ltb (length r'.cur) max_len then r' else flush_full r'.last_space r'

-- The body of the loop of `wrapRun`.
unfoldable pub wrap_byte : ℕ → ℕ → Run → Run
unfolding append_byte flush
wrap_byte max_len ch r =
    if ch == soft_cr || ch == 0
    then r
    else if ch == b'\n'
    then flush (length r.cur) r
    else append_byte max_len ch r

unfoldable pub wrap_bytes : ℕ → Bytes → Run → Run
unfolding wrap_byte
wrap_bytes max_len [] r = r
wrap_bytes max_len (ch ∷ s) r = wrap_bytes max_len s (wrap_byte max_len ch r)

-- What is left becomes the last line; at least one line is returned.
abbrev pub last_line : Run → Bytes → List Bytes → List Bytes
last_line r [] [] = r.cur ∷ []
last_line r [] (l ∷ out) = l ∷ out
last_line r (b ∷ cur) out = out ++ r.cur ∷ []

unfoldable pub wrap_run : ℕ → Bytes → List Bytes
unfolding wrap_bytes
wrap_run max_len [] = [] ∷ []
wrap_run max_len (ch ∷ s) =
    let r = wrap_bytes max_len (ch ∷ s) (record { out = []; cur = []; last_space = none }) in
    last_line r r.cur r.out

-- `strings.ReplaceAll` of CR LF by LF, then of CR by LF.
unfoldable pub crlf_to_lf : Bytes → Bytes
crlf_to_lf [] = []
crlf_to_lf (a ∷ []) = a ∷ []
crlf_to_lf (a ∷ b ∷ s) = elim (a == b'\r') [
  | false ↦ a ∷ crlf_to_lf (b ∷ s)
  | true ↦ elim (b == b'\n') [ true ↦ b'\n' ∷ crlf_to_lf s | false ↦ a ∷ crlf_to_lf (b ∷ s) ]
]

unfoldable pub cr_to_lf : Bytes → Bytes
cr_to_lf [] = []
cr_to_lf (a ∷ s) = (if a == b'\r' then b'\n' else a) ∷ cr_to_lf s

unfoldable pub wrap_all : ℕ → List Bytes → List Bytes
unfolding wrap_run
wrap_all max_len [] = []
wrap_all max_len (para ∷ paras) = wrap_run max_len para ++ wrap_all max_len paras

abbrev pub width : ℤ → ℕ
width max_len = if ltb_ℤ max_len (pos 1) then 79 else pos_part max_len

-- `WrapLines`.
unfoldable pub wrap_lines : Bytes → ℤ → List Bytes
unfolding wrap_all crlf_to_lf cr_to_lf split
wrap_lines text max_len = wrap_all (width max_len) (split b'\n' (cr_to_lf (crlf_to_lf text)))
