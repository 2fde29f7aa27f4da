-- ===== src/Menu/Fsed/Bounded.antt =====
-- internal/menu/fsed.go: the text has at most 400 lines, and the quotes are shown as they are.
use ele_bbs_go.Base.{
  ℕ, zero, suc, ◌+◌, ◌-◌, ◌≤◌, ◌<◌, ◌≡◌, refl, sym, ◌∙◌, Bool, true, false, List, [], ◌∷◌, arith,
  Bytes, ltb, leb, if◌then◌else◌, length, length-take, take,
}
use ele_bbs_go.Menu.Fsed.{
  Editor, put, update_cursor, cursor_up, cursor_down, cursor_left, cursor_right, goto_end,
  page_down, page_up, insert_new_line, remove_at, insert_at, delete_line,
}

-- The text of the message, which is put away while the quotes are shown.
abbrev pub text : Editor → List Bytes
text f = if f.quoting then f.save_lines else f.lines

-- The text has at most 400 lines; what is shown is locked just while the quotes are shown, and is
-- then the quotes themselves.
pub record IsBounded (f : Editor) : Type 0 where
  pub locked : f.read_only ≡ f.quoting
  pub short : length (text f) ≤ 400
  pub shows : f.quoting ≡ true → f.lines ≡ f.quotes

length-put :
    (n : ℕ) (lines : List Bytes) (i : ℕ) (s : Bytes)
    → i < n
    → length lines ≤ n
    → length (put lines i s) ≤ n
unfolding put
length-put zero lines i s h l = absurd (omega (arith, h))
length-put (suc n) [] zero s h l = omega arith
length-put (suc n) [] (suc i) s h l =
    omega (arith, length-put n [] i s (omega (arith, h)) (omega arith))
length-put (suc n) (x ∷ lines) zero s h l = l
length-put (suc n) (x ∷ lines) (suc i) s h l =
    omega (arith, length-put n lines i s (omega (arith, h)) (omega (arith, l)))

length-remove_at : (lines : List Bytes) (i : ℕ) → length (remove_at lines i) ≤ length lines
unfolding remove_at
length-remove_at [] i = omega arith
length-remove_at (x ∷ lines) zero = omega arith
length-remove_at (x ∷ lines) (suc i) = omega (arith, length-remove_at lines i)

pub either-IsBounded :
    (r : Bool) (f g : Editor)
    → (r ≡ true → IsBounded f)
    → (r ≡ false → IsBounded g)
    → IsBounded (if r then f else g)
either-IsBounded true f g here there = here refl
either-IsBounded false f g here there = there refl

-- Where the text may be edited it is what is shown.
pub shown-short : (f : Editor) → IsBounded f → f.read_only ≡ false → length f.lines ≤ 400
shown-short f b e = by_quoting f.quoting (sym b.locked ∙ e) b.short
  where
    by_quoting :
        (q : Bool)
        → q ≡ false
        → length (if q then f.save_lines else f.lines) ≤ 400
        → length f.lines ≤ 400
    by_quoting true h l = absurd cc
    by_quoting false h l = l

not_both : true ≡ false → ⊥
not_both e = cc

pub with_lines-IsBounded :
    (f : Editor) (lines : List Bytes)
    → IsBounded f
    → f.read_only ≡ false
    → length lines ≤ 400
    → IsBounded (record f { lines = lines })
with_lines-IsBounded f lines b e l = record {
  locked = b.locked;
  short = by_quoting f.quoting (sym b.locked ∙ e);
  shows = λ q. absurd (not_both (sym q ∙ sym b.locked ∙ e));
}
  where
    by_quoting : (q : Bool) → q ≡ false → length (if q then f.save_lines else lines) ≤ 400
    by_quoting true h = absurd cc
    by_quoting false h = l

module _ (f : Editor) (b : IsBounded f) where
  pub update_cursor-IsBounded : IsBounded (update_cursor f)
  unfolding update_cursor
  update_cursor-IsBounded = record { locked = b.locked; short = b.short; shows = b.shows }

  pub cursor_up-IsBounded : IsBounded (cursor_up f)
  unfolding cursor_up
  cursor_up-IsBounded =
      either-IsBounded _ _ _ (λ _. record { locked = b.locked; short = b.short; shows = b.shows })
        (λ _. b)

  pub cursor_down-IsBounded : IsBounded (cursor_down f)
  unfolding cursor_down
  cursor_down-IsBounded =
      either-IsBounded _ _ _ (λ _. record { locked = b.locked; short = b.short; shows = b.shows })
        (λ _. b)

  pub insert_new_line-IsBounded : (s : Bytes) → IsBounded (insert_new_line s f)
  unfolding insert_new_line
  insert_new_line-IsBounded s =
      let lines = take 400 (insert_at f.lines (f.line + 1) s) in
      either-IsBounded f.read_only f _ (λ _. b)
        (λ e.
          either-IsBounded (ltb 399 (f.line + 1)) f (record f { lines = lines }) (λ _. b)
            (λ _.
              with_lines-IsBounded f lines b e
                (omega (arith, length-take 400 (insert_at f.lines (f.line + 1) s)))))

  pub put-IsBounded :
      (i : ℕ) (s : Bytes)
      → f.read_only ≡ false
      → i < 400
      → IsBounded (record f { lines = put f.lines i s })
  put-IsBounded i s e h =
      with_lines-IsBounded f _ b e (length-put 400 f.lines i s h (shown-short f b e))

-- A move of the cursor leaves the text.
pub moved-IsBounded :
    (f : Editor) (col row line : ℕ)
    → IsBounded f
    → IsBounded (record f { col = col; row = row; line = line })
moved-IsBounded f col row line b = record { locked = b.locked; short = b.short; shows = b.shows }

pub goto_end-IsBounded : (f : Editor) → IsBounded f → IsBounded (goto_end f)
unfolding goto_end
goto_end-IsBounded f b =
    update_cursor-IsBounded _ (record { locked = b.locked; short = b.short; shows = b.shows })

pub cursor_left-IsBounded : (f : Editor) → IsBounded f → IsBounded (cursor_left f)
unfolding cursor_left
cursor_left-IsBounded f b =
    let m = moved-IsBounded f (f.col - 1) f.row f.line b in
    either-IsBounded _ _ _ (λ _. goto_end-IsBounded _ (cursor_up-IsBounded _ m)) (λ _. m)

pub cursor_right-IsBounded : (f : Editor) → IsBounded f → IsBounded (cursor_right f)
unfolding cursor_right
cursor_right-IsBounded f b =
    let m = moved-IsBounded f (f.col + 1) f.row f.line b in
    let d = cursor_down-IsBounded _ m in
    either-IsBounded _ _ _ (λ _. record { locked = d.locked; short = d.short; shows = d.shows })
      (λ _. m)

pub page_down-IsBounded : (f : Editor) → IsBounded f → IsBounded (page_down f)
unfolding page_down
page_down-IsBounded f b =
    update_cursor-IsBounded _ (record { locked = b.locked; short = b.short; shows = b.shows })

pub page_up-IsBounded : (f : Editor) → IsBounded f → IsBounded (page_up f)
unfolding page_up
page_up-IsBounded f b =
    update_cursor-IsBounded _ (record { locked = b.locked; short = b.short; shows = b.shows })

pub delete_line-IsBounded : (f : Editor) → IsBounded f → IsBounded (delete_line f)
unfolding delete_line
delete_line-IsBounded f b =
    let lines = remove_at f.lines f.line in
    either-IsBounded f.read_only f _ (λ _. b)
      (λ e.
        let w =
          with_lines-IsBounded f lines b e
            (omega (arith, shown-short f b e, length-remove_at f.lines f.line)) in
        either-IsBounded (leb (length f.lines) f.line) f
          (update_cursor (record f { lines = lines; col = 1 })) (λ _. b)
          (λ _.
            update_cursor-IsBounded (record f { lines = lines; col = 1 })
              (record { locked = w.locked; short = w.short; shows = w.shows })))
