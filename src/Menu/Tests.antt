-- ===== src/Menu/Tests.antt =====
-- An editor with an empty text, and keys for it.
use ele_bbs_go.Base.{ℕ, ◌≡◌, refl, true, false, [], ◌∷◌, arith, codes}
use ele_bbs_go.Menu.Fsed.{Editor}
use ele_bbs_go.Menu.Fsed.Typing.{add_char, backspace}
use ele_bbs_go.Menu.Fsed.Keys.{Key}
use ele_bbs_go.Menu.Fsed.Undo.{backspace-add_char}

abbrev blank : Editor
blank = record {
  lines = [];
  quotes = codes "> Hi" ∷ [];
  min_x = 1;
  max_x = 80;
  min_y = 4;
  max_y = 20;
  col = 1;
  row = 4;
  line = 0;
  insert = true;
  quoting = false;
  read_only = false;
  save_lines = [];
  save_min_y = 0;
  save_max_y = 0;
  save_col = 0;
  save_row = 0;
  save_line = 0;
}

abbrev typed : ℕ → Key
typed ch = record { ch = ch; slash_menu = 0; arrow = 0; menu = 0 }

abbrev short_line : Editor
short_line = record blank { lines = codes "ab" ∷ []; col = 2 }

backspace-add_char_example :
    ((backspace (add_char b'x' (record short_line { insert = true; read_only = false }))).lines
      ≡ codes "ab" ∷ [])
    × ((backspace (add_char b'x' (record short_line { insert = true; read_only = false }))).col ≡ 2)
backspace-add_char_example =
    backspace-add_char short_line b'x' (omega arith) refl (omega arith) (omega arith) (omega arith)
      (omega arith) (omega arith)
