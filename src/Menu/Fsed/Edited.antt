-- ===== src/Menu/Fsed/Edited.antt =====
-- internal/menu/fsed.go: what is typed keeps the text within 400 lines.
use ele_bbs_go.Base.{
  is_nil, ℕ, ◌+◌, ◌-◌, ◌≤◌, ◌<◌, ◌≡◌, refl, ◌∙◌, Bool, true, false, ◌&&◌, ◌||◌, [], ◌++◌, Option,
  none, some, arith, Bytes, ltb, leb, ◌==◌, if◌then◌else◌, length, take, drop,
}
use ele_bbs_go.Base.Space.{trim_space}
use ele_bbs_go.Pascal.Text.{trim_left, trim_right}
use ele_bbs_go.Menu.Fsed.{
  Editor, get, put, is_blank_byte, update_cursor, cursor_up, goto_end, insert_new_line, delete_line,
}
use ele_bbs_go.Menu.Fsed.Typing.{
  last_blank, padded, with_char, keep_line, wrap_line, break_line, add_char, cut, join_line,
  backspace, del_char, show_quote, restored, close_quote, quote_line, split_line, do_enter,
}
use ele_bbs_go.Menu.Fsed.Bounded.{
  IsBounded, either-IsBounded, shown-short, update_cursor-IsBounded, cursor_up-IsBounded,
  cursor_down-IsBounded, insert_new_line-IsBounded, put-IsBounded, goto_end-IsBounded,
  delete_line-IsBounded,
}

not_quoting : false ≡ true → ⊥
not_quoting e = cc

pub close_quote-IsBounded :
    (redraw : Bool) (f : Editor) → IsBounded f → IsBounded (close_quote redraw f)
unfolding close_quote
close_quote-IsBounded redraw f b =
    either-IsBounded f.quoting (if redraw then update_cursor (restored f) else restored f) f
      (λ e.
        let r : IsBounded (restored f) = record {
          locked = refl;
          short = put_away f.quoting e b.short;
          shows = λ q. absurd (not_quoting q);
        } in
        either-IsBounded redraw _ _ (λ _. update_cursor-IsBounded _ r) (λ _. r))
      (λ _. b)
  where
    put_away :
        (q : Bool)
        → q ≡ true
        → length (if q then f.save_lines else f.lines) ≤ 400
        → length f.save_lines ≤ 400
    put_away true e l = l
    put_away false e l = absurd cc

pub show_quote-IsBounded : (f : Editor) → IsBounded f → IsBounded (show_quote f)
unfolding show_quote
show_quote-IsBounded f b =
    either-IsBounded f.quoting f _ (λ _. b)
      (λ e.
        update_cursor-IsBounded _
          (record { locked = refl; short = shown-short f b (b.locked ∙ e); shows = λ _. refl }))

pub quote_line-IsBounded : (f : Editor) → IsBounded f → IsBounded (quote_line f)
unfolding quote_line
quote_line-IsBounded f b =
    let n = insert_new_line-IsBounded _ (close_quote-IsBounded false f b) (get f.lines f.line) in
    show_quote-IsBounded _ (record { locked = n.locked; short = n.short; shows = n.shows })

module _ (f : Editor) (b : IsBounded f) (within : f.line < 400) where
  keep_line-IsBounded : (s : Bytes) → f.read_only ≡ false → IsBounded (keep_line s f)
  keep_line-IsBounded s e =
      let w = put-IsBounded f b f.line s e within in
      update_cursor-IsBounded _ (record { locked = w.locked; short = w.short; shows = w.shows })

  wrap_line-IsBounded : (s : Bytes) (sp : ℕ) → f.read_only ≡ false → IsBounded (wrap_line s sp f)
  wrap_line-IsBounded s sp e =
      let w = cursor_down-IsBounded _ (
        insert_new_line-IsBounded _
          (put-IsBounded f b f.line (trim_right is_blank_byte (take sp s)) e within)
          (trim_left is_blank_byte (drop (sp + 1) s))) in
      update_cursor-IsBounded _ (record { locked = w.locked; short = w.short; shows = w.shows })

  break_line-IsBounded :
      (s : Bytes) (sp : Option ℕ) → f.read_only ≡ false → IsBounded (break_line s sp f)
  break_line-IsBounded s none e = keep_line-IsBounded (take (f.max_x - 1) s) e
  break_line-IsBounded s (some sp) e =
      either-IsBounded (ltb 0 sp) _ _ (λ _. wrap_line-IsBounded s sp e)
        (λ _. keep_line-IsBounded (take (f.max_x - 1) s) e)

  not_locked : (c : Bool) → f.read_only || c ≡ false → f.read_only ≡ false
  not_locked c h = ground arith

  pub add_char-IsBounded : (ch : ℕ) → IsBounded (add_char ch f)
  unfolding add_char
  add_char-IsBounded ch =
      let s = with_char f.insert (f.col - 1) ch (padded (f.col - 1) (get f.lines f.line)) in
      either-IsBounded (f.read_only || ltb ch 32) f _ (λ _. b)
        (λ e.
          either-IsBounded (leb f.max_x (length s))
            (break_line s (last_blank (take (f.max_x - 1) s) 0) f) (keep_line s f)
            (λ _.
              break_line-IsBounded s (last_blank (take (f.max_x - 1) s) 0)
                (not_locked (ltb ch 32) e))
            (λ _. keep_line-IsBounded s (not_locked (ltb ch 32) e)))

  join_line-IsBounded : f.read_only ≡ false → IsBounded (join_line f)
  join_line-IsBounded e =
      let cur = get f.lines f.line in
      let prev = get f.lines (f.line - 1) in
      let f' = record f { lines = put f.lines (f.line - 1) (prev ++ cur) } in
      let w = cursor_up-IsBounded _ (
        delete_line-IsBounded f'
          (put-IsBounded f b (f.line - 1) (prev ++ cur) e (omega (arith, within)))) in
      either-IsBounded (is_nil (trim_space cur)) (goto_end (cursor_up (delete_line f)))
        (update_cursor (record (cursor_up (delete_line f')) { col = length prev + 1 }))
        (λ _. goto_end-IsBounded _ (cursor_up-IsBounded _ (delete_line-IsBounded f b)))
        (λ _.
          update_cursor-IsBounded (record (cursor_up (delete_line f')) { col = length prev + 1 })
            (record { locked = w.locked; short = w.short; shows = w.shows }))

  pub backspace-IsBounded : IsBounded (backspace f)
  unfolding backspace
  backspace-IsBounded =
      let s = cut (f.col - 2) (get f.lines f.line) in
      either-IsBounded f.read_only f _ (λ _. b)
        (λ e.
          let w = put-IsBounded f b f.line s e within in
          either-IsBounded (leb f.col 1) (if f.line == 0 then f else join_line f) _
            (λ _.
              either-IsBounded (f.line == 0) f (join_line f) (λ _. b) (λ _. join_line-IsBounded e))
            (λ _.
              either-IsBounded (leb (length (get f.lines f.line)) (f.col - 2))
                (update_cursor (record f { col = f.col - 1 }))
                (update_cursor (record f { lines = put f.lines f.line s; col = f.col - 1 }))
                (λ _.
                  update_cursor-IsBounded (record f { col = f.col - 1 })
                    (record { locked = b.locked; short = b.short; shows = b.shows }))
                (λ _.
                  update_cursor-IsBounded
                    (record f { lines = put f.lines f.line s; col = f.col - 1 })
                    (record { locked = w.locked; short = w.short; shows = w.shows }))))

  pub del_char-IsBounded : IsBounded (del_char f)
  unfolding del_char
  del_char-IsBounded =
      let s = cut (f.col - 1) (get f.lines f.line) in
      either-IsBounded f.read_only f _ (λ _. b)
        (λ e.
          either-IsBounded (ltb f.col 1 || leb (length (get f.lines f.line)) (f.col - 1)) f
            (update_cursor (record f { lines = put f.lines f.line s })) (λ _. b)
            (λ _. update_cursor-IsBounded _ (put-IsBounded f b f.line s e within)))

  split_line-IsBounded : f.read_only ≡ false → IsBounded (split_line f)
  split_line-IsBounded e =
      let s = get f.lines f.line in
      let pos = f.col - 1 in
      either-IsBounded (f.insert && leb 1 f.col && ltb pos (length s))
        (insert_new_line (drop pos s) (record f { lines = put f.lines f.line (take pos s) }))
        (insert_new_line [] f)
        (λ _.
          insert_new_line-IsBounded (record f { lines = put f.lines f.line (take pos s) })
            (put-IsBounded f b f.line (take pos s) e within) (drop pos s))
        (λ _. insert_new_line-IsBounded f b [])

  pub do_enter-IsBounded : IsBounded (do_enter f)
  unfolding do_enter
  do_enter-IsBounded =
      either-IsBounded f.quoting _ _ (λ _. quote_line-IsBounded f b)
        (λ e.
          let w = split_line-IsBounded (b.locked ∙ e) in
          update_cursor-IsBounded _ (
            cursor_down-IsBounded (record (split_line f) { col = 1 })
              (record { locked = w.locked; short = w.short; shows = w.shows })))
