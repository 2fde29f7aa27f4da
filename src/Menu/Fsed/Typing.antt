-- ===== src/Menu/Fsed/Typing.antt =====
-- internal/menu/fsed.go: the keys that change the text, and the quotes.
use ele_bbs_go.Base.{
  is_nil, ℕ, suc, ◌+◌, ◌-◌, Bool, true, false, ◌&&◌, ◌||◌, [], ◌∷◌, ◌++◌, Option, none, some, Bytes,
  ltb, leb, ◌==◌, if◌then◌else◌, length, take, drop, replicate,
}
use ele_bbs_go.Base.Space.{trim_space}
use ele_bbs_go.Pascal.Text.{trim_left, trim_right}
use ele_bbs_go.Menu.Fsed.{
  Editor, is_blank_byte, get, put, update_cursor, cursor_up, cursor_down, goto_end, insert_new_line,
  delete_line,
}

-- `strings.LastIndexByte` of a blank, counted from `i` on.
abbrev pub or_index : Option ℕ → Option ℕ → Option ℕ
or_index none b = b
or_index (some k) b = some k

unfoldable pub last_blank : Bytes → ℕ → Option ℕ
last_blank [] i = none
last_blank (c ∷ s) i = or_index (last_blank s (suc i)) (if is_blank_byte c then some i else none)

-- `addChar`: the line with the character in it, and what follows once the line is too long.
unfoldable pub padded : ℕ → Bytes → Bytes
padded pos s = s ++ replicate (pos - length s) 32

unfoldable pub with_char : Bool → ℕ → ℕ → Bytes → Bytes
with_char insert pos ch s =
    if insert || leb (length s) pos
    then take pos s ++ ch ∷ drop pos s
    else take pos s ++ ch ∷ drop (pos + 1) s

abbrev pub keep_line : Bytes → Editor → Editor
keep_line s f = update_cursor (record f { lines = put f.lines f.line s; col = f.col + 1 })

abbrev pub wrap_line : Bytes → ℕ → Editor → Editor
wrap_line s sp f =
    let rest = trim_left is_blank_byte (drop (sp + 1) s) in
    let s' = trim_right is_blank_byte (take sp s) in
    let f' = cursor_down (insert_new_line rest (record f { lines = put f.lines f.line s' })) in
    update_cursor (record f' { col = length rest + 1 })

abbrev pub break_line : Bytes → Option ℕ → Editor → Editor
break_line s none f = keep_line (take (f.max_x - 1) s) f
break_line s (some sp) f = if ltb 0 sp then wrap_line s sp f else keep_line (take (f.max_x - 1) s) f

unfoldable pub add_char : ℕ → Editor → Editor
add_char ch f =
    if f.read_only || ltb ch 32
    then f
    else (let pos = f.col - 1 in
        let s = with_char f.insert pos ch (padded pos (get f.lines f.line)) in
        if leb f.max_x (length s)
        then break_line s (last_blank (take (f.max_x - 1) s) 0) f
        else keep_line s f)

-- `backspace`.
abbrev pub cut : ℕ → Bytes → Bytes
cut pos s = take pos s ++ drop (pos + 1) s

abbrev pub join_line : Editor → Editor
join_line f =
    let cur = get f.lines f.line in
    let prev = get f.lines (f.line - 1) in
    if is_nil (trim_space cur)
    then goto_end (cursor_up (delete_line f))
    else (let f' =
          cursor_up (delete_line (record f { lines = put f.lines (f.line - 1) (prev ++ cur) })) in
        update_cursor (record f' { col = length prev + 1 }))

unfoldable pub backspace : Editor → Editor
backspace f =
    if f.read_only
    then f
    else if leb f.col 1
    then if f.line == 0 then f else join_line f
    else (let s = get f.lines f.line in
        let pos = f.col - 2 in
        if leb (length s) pos
        then update_cursor (record f { col = f.col - 1 })
        else update_cursor (record f { lines = put f.lines f.line (cut pos s); col = f.col - 1 }))

-- `delChar`.
unfoldable pub del_char : Editor → Editor
del_char f =
    if f.read_only
    then f
    else (let s = get f.lines f.line in
        let pos = f.col - 1 in
        if ltb f.col 1 || leb (length s) pos
        then f
        else update_cursor (record f { lines = put f.lines f.line (cut pos s) }))

-- `showQuote` and `closeQuote`.
unfoldable pub show_quote : Editor → Editor
show_quote f =
    if f.quoting
    then f
    else (let top = if ltb (f.max_y - 7) (f.min_y + 1) then f.min_y + 1 else f.max_y - 7 in
        update_cursor (record f {
          save_lines = f.lines;
          save_min_y = f.min_y;
          save_max_y = f.max_y;
          save_col = f.col;
          save_row = f.row;
          save_line = f.line;
          lines = f.quotes;
          quoting = true;
          read_only = true;
          min_y = top;
          col = 1;
          row = top;
          line = 0;
        }))

abbrev pub restored : Editor → Editor
restored f = record f {
  lines = f.save_lines;
  min_y = f.save_min_y;
  max_y = f.save_max_y;
  col = f.save_col;
  row = f.save_row;
  line = f.save_line;
  quoting = false;
  read_only = false;
}

unfoldable pub close_quote : Bool → Editor → Editor
close_quote redraw f =
    if f.quoting then if redraw then update_cursor (restored f) else restored f else f

-- `quoteLine` and `doEnter`.
unfoldable pub quote_line : Editor → Editor
quote_line f =
    let f' = insert_new_line (get f.lines f.line) (close_quote false f) in
    show_quote (record f' { line = f'.line + 1; save_line = f'.line + 1 })

abbrev pub split_line : Editor → Editor
split_line f =
    let s = get f.lines f.line in
    let pos = f.col - 1 in
    if f.insert && leb 1 f.col && ltb pos (length s)
    then insert_new_line (drop pos s) (record f { lines = put f.lines f.line (take pos s) })
    else insert_new_line [] f

unfoldable pub do_enter : Editor → Editor
do_enter f =
    if f.quoting
    then quote_line f
    else update_cursor (cursor_down (record (split_line f) { col = 1 }))
