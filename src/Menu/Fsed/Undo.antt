-- ===== src/Menu/Fsed/Undo.antt =====
-- internal/menu/fsed.go: a character that is typed is taken back by a backspace.
use ele_bbs_go.Base.{
  ℕ, zero, suc, ◌+◌, ◌-◌, ◌≤◌, ◌<◌, ◌≡◌, refl, ap, ◌∙◌, true, false, List, [], ◌∷◌, ◌++◌, arith,
  Bytes, leb, if◌then◌else◌, length, take, drop, replicate, length-append, length-take, length-drop,
  append-nil, le→ltb_false, lt→leb_false,
}
use ele_bbs_go.Menu.Fsed.{Editor, get, put, clamp, update_cursor}
use ele_bbs_go.Menu.Fsed.Typing.{padded, with_char, add_char, cut, backspace}

get-put : (lines : List Bytes) (i : ℕ) (s : Bytes) → i < length lines → get (put lines i s) i ≡ s
unfolding put
get-put [] i s h = absurd (omega (arith, h))
get-put (x ∷ lines) zero s h = refl
get-put (x ∷ lines) (suc i) s h = get-put lines i s (omega (arith, h))

put-put :
    (lines : List Bytes) (i : ℕ) (s : Bytes)
    → i < length lines
    → put (put lines i s) i (get lines i) ≡ lines
unfolding put
put-put [] i s h = absurd (omega (arith, h))
put-put (x ∷ lines) zero s h = refl
put-put (x ∷ lines) (suc i) s h = ap (◌∷◌ x) (put-put lines i s (omega (arith, h)))

cut-typed : (pos ch : ℕ) (s : Bytes) → pos ≤ length s → cut pos (take pos s ++ ch ∷ drop pos s) ≡ s
cut-typed zero ch s h = refl
cut-typed (suc pos) ch [] h = absurd (omega (arith, h))
cut-typed (suc pos) ch (c ∷ s) h =
    let typed = take pos s ++ ch ∷ drop pos s in
    ap (λ (k : ℕ). c ∷ (take pos typed ++ drop k (c ∷ typed))) {x = suc pos + 1} {y = suc (pos + 1)}
      (omega arith)
    ∙ ap (◌∷◌ c) (cut-typed pos ch s (omega (arith, h)))

clamp-within : (low high x : ℕ) → low ≤ x → x ≤ high → clamp low high x ≡ x
clamp-within low high x l h = ground arith

module _ (f : Editor) (ch : ℕ) (printable : 32 ≤ ch) (left : f.min_x ≡ 1) (at_least : 1 ≤ f.col)
    (inside : f.col ≤ length (get f.lines f.line) + 1)
    (short : length (get f.lines f.line) + 1 < f.max_x) (there : f.line < length f.lines)
    (few : length f.lines ≤ 400) where
  abbrev shown : Bytes
  shown = get f.lines f.line

  abbrev longer : Bytes
  longer = take (f.col - 1) shown ++ ch ∷ drop (f.col - 1) shown

  abbrev typing : Editor
  typing = record f { insert = true; read_only = false }

  abbrev after : Editor
  after = record typing { lines = put f.lines f.line longer; col = f.col + 1 }

  length-longer : length longer ≡ length shown + 1
  length-longer = omega (
    arith,
    inside,
    length-append (take (f.col - 1) shown) (ch ∷ drop (f.col - 1) shown),
    length-take (f.col - 1) shown,
    length-drop (f.col - 1) shown,
  )

  no_padding : padded (f.col - 1) shown ≡ shown
  unfolding padded
  no_padding =
      ap (λ (k : ℕ). shown ++ replicate k 32) {x = f.col - 1 - length shown} {y = 0}
        (omega (arith, inside))
      ∙ append-nil shown

  add_char-after : add_char ch typing ≡ update_cursor after
  unfolding add_char with_char
  add_char-after =
      rw
        (
          le→ltb_false ch 32 printable,
          no_padding,
          lt→leb_false f.max_x (length longer) (omega (arith, length-longer, short)),
        )
        refl

  same_line : (if leb 400 f.line then 399 else f.line) ≡ f.line
  same_line = rw (lt→leb_false 400 f.line (omega (arith, there, few))) refl

  same_col : clamp f.min_x f.max_x (f.col + 1) ≡ f.col + 1
  same_col =
      clamp-within f.min_x f.max_x (f.col + 1) (omega (arith, left)) (omega (arith, inside, short))

  place : f.col + 1 - 2 ≡ f.col - 1
  place = omega arith

  back : f.col + 1 - 1 ≡ f.col
  back = omega arith

  backspace-after :
      ((backspace (update_cursor after)).lines ≡ f.lines)
      × ((backspace (update_cursor after)).col ≡ f.col)
  unfolding backspace update_cursor
  backspace-after =
      rw
        (
          same_line,
          same_col,
          lt→leb_false (f.col + 1) 1 (omega (arith, at_least)),
          get-put f.lines f.line longer there,
        )
        (rw
          (
            place,
            lt→leb_false (length longer) (f.col - 1) (omega (arith, length-longer, inside)),
            cut-typed (f.col - 1) ch shown (omega (arith, inside)),
            put-put f.lines f.line longer there,
            back,
            clamp-within f.min_x f.max_x f.col (omega (arith, left, at_least))
                (omega (arith, inside, short)),
          )
          (refl, refl))

-- In insert mode, with the cursor on a line of the text or right behind it, a backspace takes back
-- the character just typed, if the line stays below the width and the text has at most 400 lines.
pub backspace-add_char :
    (f : Editor) (ch : ℕ)
    → 32 ≤ ch
    → f.min_x ≡ 1
    → 1 ≤ f.col
    → f.col ≤ length (get f.lines f.line) + 1
    → length (get f.lines f.line) + 1 < f.max_x
    → f.line < length f.lines
    → length f.lines ≤ 400
    → ((backspace (add_char ch (record f { insert = true; read_only = false }))).lines ≡ f.lines)
      × ((backspace (add_char ch (record f { insert = true; read_only = false }))).col ≡ f.col)
backspace-add_char f ch printable left at_least inside short there few =
    rw (add_char-after f ch printable left at_least inside short there few)
      (backspace-after f ch printable left at_least inside short there few)
