-- ===== src/Mail/Wrap/Width.antt =====
-- No line is wider than the width asked for.
use ele_bbs_go.Base.{
  ℕ, zero, suc, ◌+◌, ◌≤◌, ◌<◌, inl, inr, ◌||◌, List, [], ◌∷◌, ◌++◌, Option, none, some, arith,
  Bytes, ltb, ltb→lt, ◌==◌, if_both, length, take, drop, All, All-append, length-append,
  length-take, length-drop, Bool-cases,
}
use ele_bbs_go.Base.Int.{ℤ, pos, negsuc}
use ele_bbs_go.Base.Space.{split}
use ele_bbs_go.Mail.Wrap.{
  Run, skip_space, flush, flush_full, append_byte, wrap_byte, wrap_bytes, last_line, wrap_run,
  wrap_all, crlf_to_lf, cr_to_lf, width, wrap_lines,
}

abbrev pub Fits : ℕ → Bytes → Type 0
Fits n line = length line ≤ n

-- Between two bytes: the lines made so far fit, and the current line has room for a byte.
pub record IsNarrow (n : ℕ) (r : Run) : Type 0 where
  pub out : All (Fits n) r.out
  pub cur : length r.cur < n

length-skip_space : (s : Bytes) → length (skip_space s) ≤ length s
unfolding skip_space
length-skip_space [] = omega arith
length-skip_space (b ∷ s) = ground arith

flush-IsNarrow :
    (n cut : ℕ) (r : Run)
    → All (Fits n) r.out
    → length r.cur ≤ n
    → length r.cur < n + cut
    → 0 < n
    → IsNarrow n (flush cut r)
unfolding flush
flush-IsNarrow n cut r o c d p = record {
  out =
      All-append (Fits n) r.out (take cut r.cur ∷ []) o (omega (arith, length-take cut r.cur), tt);
  cur = omega (arith, length-skip_space (drop cut r.cur), length-drop cut r.cur);
}

flush_full-IsNarrow :
    (n : ℕ) (r : Run) (space : Option ℕ)
    → All (Fits n) r.out
    → length r.cur ≤ n
    → 0 < n
    → IsNarrow n (flush_full space r)
flush_full-IsNarrow n r none o c p = flush-IsNarrow n (length r.cur) r o c (omega arith) p
flush_full-IsNarrow n r (some zero) o c p = flush-IsNarrow n (length r.cur) r o c (omega arith) p
flush_full-IsNarrow n r (some (suc k)) o c p = flush-IsNarrow n (suc k) r o c (omega arith) p

append_byte-IsNarrow : (n ch : ℕ) (r : Run) → IsNarrow n r → IsNarrow n (append_byte n ch r)
unfolding append_byte
append_byte-IsNarrow n ch r h = elim (Bool-cases (ltb (length (r.cur ++ ch ∷ [])) n)) [
  | inl e ↦ rw e (record { out = h.out; cur = ltb→lt _ n e })
  | inr e ↦ rw e (
      flush_full-IsNarrow n _ _ h.out (omega (arith, h.cur, length-append r.cur (ch ∷ [])))
        (omega (arith, h.cur)))
]

wrap_byte-IsNarrow : (n ch : ℕ) (r : Run) → IsNarrow n r → IsNarrow n (wrap_byte n ch r)
unfolding wrap_byte
wrap_byte-IsNarrow n ch r h = if_both (IsNarrow n) (ch == 0x8d || ch == 0) h (
    if_both (IsNarrow n) (ch == b'\n')
      (flush-IsNarrow n (length r.cur) r h.out (omega (arith, h.cur)) (omega (arith, h.cur))
        (omega (arith, h.cur)))
      (append_byte-IsNarrow n ch r h))

wrap_bytes-IsNarrow : (n : ℕ) (s : Bytes) (r : Run) → IsNarrow n r → IsNarrow n (wrap_bytes n s r)
unfolding wrap_bytes
wrap_bytes-IsNarrow n [] r h = h
wrap_bytes-IsNarrow n (ch ∷ s) r h =
    wrap_bytes-IsNarrow n s (wrap_byte n ch r) (wrap_byte-IsNarrow n ch r h)

last_line-Fits :
    (n : ℕ) (r : Run) (cur : Bytes) (out : List Bytes)
    → length r.cur ≤ n
    → All (Fits n) out
    → All (Fits n) (last_line r cur out)
last_line-Fits n r [] [] c o = (c, tt)
last_line-Fits n r [] (l ∷ out) c o = o
last_line-Fits n r (b ∷ cur) out c o = All-append (Fits n) out (r.cur ∷ []) o (c, tt)

wrap_run-Fits : (n : ℕ) (s : Bytes) → 0 < n → All (Fits n) (wrap_run n s)
unfolding wrap_run
wrap_run-Fits n [] p = (omega arith, tt)
wrap_run-Fits n (ch ∷ s) p =
    let fresh : Run = record { out = []; cur = []; last_space = none } in
    let r = wrap_bytes n (ch ∷ s) fresh in
    let h = wrap_bytes-IsNarrow n (ch ∷ s) fresh (record { out = tt; cur = p }) in
    last_line-Fits n r r.cur r.out (omega (arith, h.cur)) h.out

wrap_all-Fits : (n : ℕ) (paras : List Bytes) → 0 < n → All (Fits n) (wrap_all n paras)
unfolding wrap_all
wrap_all-Fits n [] p = tt
wrap_all-Fits n (para ∷ paras) p =
    All-append (Fits n) (wrap_run n para) (wrap_all n paras) (wrap_run-Fits n para p)
      (wrap_all-Fits n paras p)

width_pos : (max_len : ℤ) → 0 < width max_len
width_pos (pos n) = ground arith
width_pos (negsuc n) = ground arith

-- Every line that `WrapLines` returns has at most the width asked for, 79 where none was.
pub wrap_lines-Fits :
    (text : Bytes) (max_len : ℤ) → All (Fits (width max_len)) (wrap_lines text max_len)
unfolding wrap_lines
wrap_lines-Fits text max_len =
    wrap_all-Fits (width max_len) (split b'\n' (cr_to_lf (crlf_to_lf text))) (width_pos max_len)
