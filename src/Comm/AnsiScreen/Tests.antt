-- ===== src/Comm/AnsiScreen/Tests.antt =====
-- A screen that keeps a log of its calls.
use ele_bbs_go.Base.{
  ℕ, ◌<◌, ◌≡◌, refl, sym, List, [], ◌∷◌, ◌++◌, append_assoc, append-nil, arith, Bytes,
}
use ele_bbs_go.Comm.AnsiScreen.{ScreenOps, write, new_ansi_screen}
use ele_bbs_go.Comm.AnsiScreen.Contract.{Meets, IsSound, new_ansi_screen-IsSound, write-IsSound}
use ele_bbs_go.Comm.AnsiScreen.Pieces.{IsSerial, IsSettled, write-append}

-- 80 columns and 25 rows; text does not move the cursor.
record Log : Type 0 where
  x : ℕ
  y : ℕ
  shown : Bytes
  attrs : List ℕ

abbrev log_ops : ScreenOps Log
log_ops = record {
  text = λ b s. record s { shown = s.shown ++ b };
  set_attr = λ a s. record s { attrs = a ∷ s.attrs };
  cursor = λ s. (s.x, s.y);
  set_cursor = λ x y s. record s { x = x; y = y };
  size = λ s. (80, 25);
  fill = λ x y n s. record s { shown = [] };
}

record InWindow (s : Log) : Type 0 where
  column : s.x < 80
  row : s.y < 25

log-Meets : Meets log_ops InWindow
log-Meets = record {
  cursor_inside = λ s i. (i.column, i.row);
  text = λ b s i. record { column = i.column; row = i.row };
  set_attr = λ a s h i. record { column = i.column; row = i.row };
  set_cursor = λ x y s a b i. record { column = a; row = b };
  fill = λ x y k s a b c i. record { column = i.column; row = i.row };
}

log-IsSerial : IsSerial log_ops
log-IsSerial = record {
  empty = λ s. ap_shown s (append-nil s.shown);
  append = λ x y s. ap_shown s (sym (append_assoc s.shown x y));
}
  where
    ap_shown : (s : Log) {b c : Bytes} → b ≡ c → record s { shown = b } ≡ record s { shown = c }
    ap_shown s e = rw e refl

abbrev blank : Log
blank = record { x = 0; y = 0; shown = []; attrs = [] }

-- "a", ESC [ 2 ; 200 H, ESC [ 1 J.
abbrev far_right : Bytes
far_right =
    b'a' ∷ 27 ∷ b'[' ∷ b'2' ∷ b';' ∷ b'2' ∷ b'0' ∷ b'0' ∷ b'H' ∷ 27 ∷ b'[' ∷ b'1' ∷ b'J' ∷ []

write-IsSound_example : IsSound log-Meets (write log_ops far_right (new_ansi_screen log_ops blank))
write-IsSound_example =
    write-IsSound log-Meets far_right (new_ansi_screen log_ops blank)
      (new_ansi_screen-IsSound log-Meets blank (record { column = omega arith; row = omega arith }))

-- The cut falls inside the first control sequence.
write-append_example :
    write log_ops
      ((b'a' ∷ 27 ∷ b'[' ∷ b'2' ∷ []) ++ (b';' ∷ b'9' ∷ b'H' ∷ b'b' ∷ []))
      (new_ansi_screen log_ops blank)
    ≡ write log_ops
        (b';' ∷ b'9' ∷ b'H' ∷ b'b' ∷ [])
        (write log_ops (b'a' ∷ 27 ∷ b'[' ∷ b'2' ∷ []) (new_ansi_screen log_ops blank))
write-append_example =
    write-append log-IsSerial (b'a' ∷ 27 ∷ b'[' ∷ b'2' ∷ []) (b';' ∷ b'9' ∷ b'H' ∷ b'b' ∷ [])
      (new_ansi_screen log_ops blank) start
  where
    start : IsSettled log-IsSerial (new_ansi_screen log_ops blank)
    start = unfold IsSettled new_ansi_screen in tt
