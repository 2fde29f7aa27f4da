-- ===== src/Menu/Fsed/Keys.antt =====
-- internal/menu/fsed.go: the keys of the full-screen editor.
use ele_bbs_go.Base.{
  is_nil, ℕ, Bool, true, false, not, ◌&&◌, ◌||◌, List, [], ◌∷◌, Bytes, ◌==◌, if◌then◌else◌,
}
use ele_bbs_go.Base.Space.{trim_space}
use ele_bbs_go.Menu.Fsed.{
  Editor, get, update_cursor, cursor_up, cursor_down, cursor_left, cursor_right, goto_start,
  goto_end, page_down, page_up, delete_line,
}
use ele_bbs_go.Menu.Fsed.Typing.{add_char, backspace, del_char, do_enter, show_quote, close_quote}

-- A key, and what the menus and `GetArrowKeys` answer if it comes to ask them: the menu gives 26 to
-- save, 27 to abort, and 0.
pub record Key : Type 0 where
  pub ch : ℕ
  pub slash_menu : ℕ
  pub arrow : ℕ
  pub menu : ℕ

pub data Verdict : Type 0 where
  go_on : Verdict
  save : Verdict
  abort : Verdict

abbrev pub menu_verdict : ℕ → Verdict
menu_verdict ch = if ch == 26 then save else if ch == 27 then abort else go_on

abbrev pub arrow_move : ℕ → Editor → Editor
arrow_move ak f =
    if ak == b'A'
    then cursor_up f
    else if ak == b'B'
    then cursor_down f
    else if ak == b'C'
    then cursor_right f
    else if ak == b'D'
    then cursor_left f
    else if ak == b'H'
    then goto_start f
    else if ak == b'K'
    then goto_end f
    else f

-- The switch on a key; the keys that open a menu or save leave the text.
unfoldable pub edit : Bool → ℕ → Editor → Editor
edit do_quotes ch f =
    if ch == 1 || ch == 23
    then goto_start f
    else if ch == 3
    then page_down f
    else if ch == 4
    then cursor_right f
    else if ch == 5
    then cursor_up f
    else if ch == 6 || ch == 16
    then goto_end f
    else if ch == 7 || ch == 127
    then del_char f
    else if ch == 8
    then backspace f
    else if ch == 12
    then update_cursor f
    else if ch == 13
    then do_enter f
    else if ch == 15
    then f
    else if ch == 17
    then if do_quotes then if f.quoting then close_quote true f else show_quote f else f
    else if ch == 18
    then page_up f
    else if ch == 19
    then cursor_left f
    else if ch == 22
    then update_cursor (record f { insert = not f.insert })
    else if ch == 24
    then cursor_down f
    else if ch == 25
    then delete_line f
    else if ch == 26
    then f
    else add_char ch f

abbrev pub edit_verdict : ℕ → ℕ → Verdict
edit_verdict ch menu = if ch == 15 then menu_verdict menu else if ch == 26 then save else go_on

-- One round of `handleKeys`, once the cursor is inside the screen.
abbrev pub after_slash : Bool → Key → ℕ → Editor → Editor × Verdict
after_slash do_quotes key ch f =
    if ch == 27
    then if key.arrow == 27 then (f, menu_verdict key.menu) else (arrow_move key.arrow f, go_on)
    else (edit do_quotes ch f, edit_verdict ch key.menu)

unfoldable pub handle_key : Bool → Key → Editor → Editor × Verdict
handle_key do_quotes key f =
    let f' = update_cursor f in
    if is_nil (trim_space (get f'.lines f'.line)) && key.ch == b'/'
    then after_slash do_quotes key key.slash_menu (update_cursor f')
    else after_slash do_quotes key key.ch f'

-- `handleKeys`: true is to save; where the keys end the caller is gone.
abbrev pub decided : Verdict → Editor → Editor × Bool → Editor × Bool
decided go_on f rest = rest
decided save f rest = (f, true)
decided abort f rest = (f, false)

unfoldable pub handle_keys : Bool → List Key → Editor → Editor × Bool
handle_keys do_quotes [] f = (update_cursor f, false)
handle_keys do_quotes (key ∷ keys) f =
    let (f', verdict) = handle_key do_quotes key f in
    decided verdict f' (handle_keys do_quotes keys f')

-- The end of `run`: blank lines at the end are dropped.
abbrev pub cons_text : Bytes → List Bytes → List Bytes
cons_text s [] = if is_nil (trim_space s) then [] else s ∷ []
cons_text s (x ∷ rest) = s ∷ x ∷ rest

unfoldable pub saved : List Bytes → List Bytes
saved [] = []
saved (s ∷ lines) = cons_text s (saved lines)

unfoldable pub run : Bool → List Key → Editor → List Bytes
run do_quotes keys f =
    let (f', is_save) = handle_keys do_quotes keys f in if is_save then saved f'.lines else []
