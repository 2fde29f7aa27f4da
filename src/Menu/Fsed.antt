-- ===== src/Menu/Fsed.antt =====
-- internal/menu/fsed.go: the text and the cursor of the full-screen editor. What it shows is left
-- out; a line is its bytes. Where Go goes below 0 before it clamps, the number is 0 here, which is
-- clamped to the same.
pub mod Typing
pub mod Keys
pub mod Bounded
pub mod Edited
pub mod Handled
pub mod Undo
use ele_bbs_go.Base.{
  is_nil, ℕ, zero, suc, ◌+◌, ◌-◌, Bool, true, false, not, ◌&&◌, ◌||◌, List, [], ◌∷◌, ◌++◌, Option,
  none, some, Bytes, ltb, leb, ◌==◌, if◌then◌else◌, length, take, drop, replicate, get_or,
}
use ele_bbs_go.Base.Space.{trim_space}
use ele_bbs_go.Pascal.Text.{trim_left, trim_right}

-- `fsed`.
pub record Editor : Type 0 where
  pub lines : List Bytes
  pub quotes : List Bytes
  pub min_x : ℕ
  pub max_x : ℕ
  pub min_y : ℕ
  pub max_y : ℕ
  pub col : ℕ
  pub row : ℕ
  pub line : ℕ
  pub insert : Bool
  pub quoting : Bool
  pub read_only : Bool
  pub save_lines : List Bytes
  pub save_min_y : ℕ
  pub save_max_y : ℕ
  pub save_col : ℕ
  pub save_row : ℕ
  pub save_line : ℕ

abbrev pub max_edit_lines : ℕ
max_edit_lines = 400

abbrev pub is_blank_byte : ℕ → Bool
is_blank_byte c = c == 32

-- `get` and `put` on the lines.
abbrev pub get : List Bytes → ℕ → Bytes
get lines i = get_or lines i []

unfoldable pub put : List Bytes → ℕ → Bytes → List Bytes
put [] zero s = s ∷ []
put [] (suc i) s = [] ∷ put [] i s
put (x ∷ lines) zero s = s ∷ lines
put (x ∷ lines) (suc i) s = x ∷ put lines i s

-- `updateCursor`.
abbrev pub clamp : ℕ → ℕ → ℕ → ℕ
clamp low high x = let y = if ltb x low then low else x in if ltb high y then high else y

unfoldable pub update_cursor : Editor → Editor
update_cursor f = record f {
  col = clamp f.min_x f.max_x f.col;
  row = clamp f.min_y f.max_y f.row;
  line = if leb max_edit_lines f.line then max_edit_lines - 1 else f.line;
}

-- The moves of the cursor.
unfoldable pub cursor_up : Editor → Editor
cursor_up f = if ltb 0 f.line then record f { line = f.line - 1; row = f.row - 1 } else f

unfoldable pub cursor_down : Editor → Editor
cursor_down f =
    if ltb f.line (max_edit_lines - 1) then record f { line = f.line + 1; row = f.row + 1 } else f

abbrev pub goto_start : Editor → Editor
goto_start f = record f { col = 1 }

unfoldable pub goto_end : Editor → Editor
goto_end f =
    update_cursor (record f { col = length (trim_right is_blank_byte (get f.lines f.line)) + 1 })

unfoldable pub cursor_left : Editor → Editor
cursor_left f =
    let f' = record f { col = f.col - 1 } in
    if ltb f'.col 1 && ltb 0 f'.line then goto_end (cursor_up f') else f'

unfoldable pub cursor_right : Editor → Editor
cursor_right f =
    let f' = record f { col = f.col + 1 } in
    if ltb f'.max_x f'.col && ltb f'.line (max_edit_lines - 1)
    then record (cursor_down f') { col = 1 }
    else f'

unfoldable pub page_down : Editor → Editor
page_down f =
    let h = f.max_y - f.min_y in update_cursor (record f { row = f.row + h; line = f.line + h })

unfoldable pub page_up : Editor → Editor
page_up f =
    let h = f.max_y - f.min_y in update_cursor (record f { row = f.row - h; line = f.line - h })

-- `insertNewLine` on the lines, behind the line `at - 1`, which is there or is made.
unfoldable pub insert_at : List Bytes → ℕ → Bytes → List Bytes
insert_at lines zero s = s ∷ lines
insert_at [] (suc at) s = [] ∷ insert_at [] at s
insert_at (x ∷ lines) (suc at) s = x ∷ insert_at lines at s

unfoldable pub insert_new_line : Bytes → Editor → Editor
insert_new_line s f =
    if f.read_only
    then f
    else if ltb (max_edit_lines - 1) (f.line + 1)
    then f
    else record f { lines = take max_edit_lines (insert_at f.lines (f.line + 1) s) }

-- `deleteLine`.
unfoldable pub remove_at : List Bytes → ℕ → List Bytes
remove_at [] i = []
remove_at (x ∷ lines) zero = lines
remove_at (x ∷ lines) (suc i) = x ∷ remove_at lines i

unfoldable pub delete_line : Editor → Editor
delete_line f =
    if f.read_only
    then f
    else if leb (length f.lines) f.line
    then f
    else update_cursor (record f { lines = remove_at f.lines f.line; col = 1 })
