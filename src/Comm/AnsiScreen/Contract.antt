-- ===== src/Comm/AnsiScreen/Contract.antt =====
-- The emulation keeps to the screen's window, whatever bytes a session sends.
use ele_bbs_go.Base.{
  ℕ, ◌+◌, ◌-◌, ◌*◌, ◌≤◌, ◌<◌, ◌≡◌, refl, ap, inl, inr, Bool, true, false, ◌&&◌, ◌||◌, List, [], ◌∷◌,
  ◌++◌, arith, Bytes, ltb, ltb→lt, leb, ◌==◌, if◌then◌else◌, length, length-append, all_below,
  all_below_sound, Bool-cases, if_both,
}
use ele_bbs_go.Base.Int.{ℤ, pos, negsuc, ◌+ℤ◌, ◌-ℤ◌}
use ele_bbs_go.Comm.AnsiScreen.{
  ScreenOps, Mode, ansi_text, ansi_esc, ansi_csi, Style, AnsiScreen, attr, sgr_param, sgr_params,
  params, param, scale, move_to, erase, erase_line, sgr, command, do_, flush, wrap64, eq_ℤ,
  default_sgr, by_mode, new_ansi_screen, text_byte, esc_byte, csi_byte, feed, write,
}

-- What a screen relies on: an invariant `I` of its state that holds through every call whose
-- arguments lie in the window, with attributes of one byte, and that puts the cursor inside.
pub record Meets {S : Type 0} (ops : ScreenOps S) (I : S → Type 0) : Type 0 where
  pub cursor_inside :
      (s : S) → I s → ((ops.cursor s).0 < (ops.size s).0) × ((ops.cursor s).1 < (ops.size s).1)
  pub text : (b : Bytes) (s : S) → I s → I (ops.text b s)
  pub set_attr : (a : ℕ) (s : S) → a < 256 → I s → I (ops.set_attr a s)
  pub set_cursor :
      (x y : ℕ) (s : S) → x < (ops.size s).0 → y < (ops.size s).1 → I s → I (ops.set_cursor x y s)
  pub fill :
      (x y k : ℕ) (s : S)
      → x < (ops.size s).0
      → y < (ops.size s).1
      → y * (ops.size s).0 + x + k ≤ (ops.size s).0 * (ops.size s).1
      → I s
      → I (ops.fill x y (pos k) s)

pub record IsColoured (s : Style) : Type 0 where
  pub fg : s.fg < 8
  pub bg : s.bg < 8

abbrev style : ℕ → ℕ → Bool → Bool → Bool → Style
style f b bold blink rev = record { fg = f; bg = b; bold = bold; blink = blink; rev = rev }

attr-below_256 :
    (bold blink rev : Bool)
    → all_below 8 (λ f. all_below 8 (λ b. ltb (attr (style f b bold blink rev)) 256)) ≡ true
unfolding attr all_below
attr-below_256 true true true = refl
attr-below_256 true true false = refl
attr-below_256 true false true = refl
attr-below_256 true false false = refl
attr-below_256 false true true = refl
attr-below_256 false true false = refl
attr-below_256 false false true = refl
attr-below_256 false false false = refl

attr-lt : (s : Style) → IsColoured s → attr s < 256
attr-lt s h =
    let row : (f : ℕ) → Bool =
      λ f. all_below 8 (λ b. ltb (attr (style f b s.bold s.blink s.rev)) 256) in
    ltb→lt (attr s) 256 (
      all_below_sound 8 (λ b. ltb (attr (style s.fg b s.bold s.blink s.rev)) 256) s.bg
        (all_below_sound 8 row s.fg (attr-below_256 s.bold s.blink s.rev) h.fg) h.bg)

sgr_param-IsColoured : (p : ℤ) (s : Style) → IsColoured s → IsColoured (sgr_param p s)
unfolding sgr_param
sgr_param-IsColoured (pos n) s h = record { fg = ground (arith, h.fg); bg = ground (arith, h.bg) }
sgr_param-IsColoured (negsuc n) s h = h

sgr_params-IsColoured : (ps : List ℤ) (s : Style) → IsColoured s → IsColoured (sgr_params ps s)
unfolding sgr_params
sgr_params-IsColoured [] s h = h
sgr_params-IsColoured (p ∷ ps) s h =
    sgr_params-IsColoured ps (sgr_param p s) (sgr_param-IsColoured p s h)

rows : (w y d : ℕ) → w * (y + 1 + d) ≡ y * w + w + d * w
rows w y d = grind arith

rest_fits : (w h x y : ℕ) → x < w → y < h → y * w + x + ((w - x) + (h - (y + 1)) * w) ≤ w * h
rest_fits w h x y a b =
    let d = h - (y + 1) in
    let e : h ≡ y + 1 + d = omega arith in omega (arith, rows w y d, ap (λ k. w * k) e)

line_fits : (w h x y : ℕ) → x ≤ w → y < h → y * w + x ≤ w * h
line_fits w h x y a b =
    let d = h - (y + 1) in
    let e : h ≡ y + 1 + d = omega arith in omega (arith, rows w y d, ap (λ k. w * k) e)

difference : (a b : ℕ) → b ≤ a → pos a -ℤ pos b ≡ pos (a - b)
unfolding ◌-ℤ◌
difference a b h = ground arith

sum : (a b : ℕ) → pos a +ℤ pos b ≡ pos (a + b)
unfolding ◌+ℤ◌
sum a b = ground arith

module _ {S : Type 0} {ops : ScreenOps S} {I : S → Type 0} (meets : Meets ops I) where
  move_to-keeps : (x y : ℤ) (s : S) → I s → I (move_to ops x y s)
  unfolding move_to
  move_to-keeps x y s i =
      let (w, h) = meets.cursor_inside s i in meets.set_cursor _ _ s (omega arith) (omega arith) i

  module _ (s : S) (i : I s) where
    abbrev w : ℕ
    w = (ops.size s).0

    abbrev h : ℕ
    h = (ops.size s).1

    abbrev x : ℕ
    x = (ops.cursor s).0

    abbrev y : ℕ
    y = (ops.cursor s).1

    inside : (x < w) × (y < h)
    inside = meets.cursor_inside s i

    to_end-keeps : I (ops.fill x y ((pos w -ℤ pos x) +ℤ scale (pos h -ℤ pos (y + 1)) w) s)
    to_end-keeps =
        rw
          (difference w x (omega (arith, inside.0)), difference h (y + 1) (omega (arith, inside.1)))
          (rw (sum (w - x) ((h - (y + 1)) * w)) (
            meets.fill x y ((w - x) + (h - (y + 1)) * w) s inside.0 inside.1
              (rest_fits w h x y inside.0 inside.1) i))

    from_start-keeps : I (ops.fill 0 0 (pos (y * w + x + 1)) s)
    from_start-keeps =
        meets.fill 0 0 (y * w + x + 1) s (omega (arith, inside.0)) (omega (arith, inside.1))
          (omega (arith, line_fits w h (x + 1) y (omega (arith, inside.0)) inside.1)) i

    whole-keeps : I (ops.set_cursor 0 0 (ops.fill 0 0 (pos (w * h)) s))
    whole-keeps =
        let j =
          meets.fill 0 0 (w * h) s (omega (arith, inside.0)) (omega (arith, inside.1)) (omega arith)
            i in
        let c = meets.cursor_inside _ j in
        meets.set_cursor 0 0 _ (omega (arith, c.0)) (omega (arith, c.1)) j

    line_part : (o k : ℕ) → o + k ≤ w → o < w → I (ops.fill o y (pos k) s)
    line_part o k b c =
        meets.fill o y k s c inside.1 (omega (arith, line_fits w h (o + k) y b inside.1)) i

    erase-keeps : (mode : ℤ) → I (erase ops mode s)
    unfolding erase
    erase-keeps mode = if_both I _ to_end-keeps (if_both I _ from_start-keeps whole-keeps)

    erase_line-keeps : (mode : ℤ) → I (erase_line ops mode s)
    unfolding erase_line
    erase_line-keeps mode = if_both I (eq_ℤ mode 0) to_end (
        if_both I (eq_ℤ mode 1)
          (line_part 0 (x + 1) (omega (arith, inside.0)) (omega (arith, inside.0)))
          (if_both I (eq_ℤ mode 2) (line_part 0 w (omega arith) (omega (arith, inside.0))) i))
      where
        to_end : I (ops.fill x y (pos w -ℤ pos x) s)
        to_end =
            rw (difference w x (omega (arith, inside.0)))
              (line_part x (w - x) (omega (arith, inside.0)) inside.0)

  -- What holds of the emulation between any two bytes.
  pub record IsSound (a : AnsiScreen S) : Type 0 where
    pub screen : I a.screen
    pub style : IsColoured a.style
    pub csi : length a.csi ≤ 32

  with_screen : {a : AnsiScreen S} {s : S} → IsSound a → I s → IsSound (record a { screen = s })
  with_screen h i = record { screen = i; style = h.style; csi = h.csi }

  sgr-IsSound : (ps : List ℤ) (a : AnsiScreen S) → IsSound a → IsSound (sgr ops ps a)
  unfolding sgr
  sgr-IsSound ps a k =
      let c = sgr_params-IsColoured (default_sgr ps) a.style k.style in
      record { screen = meets.set_attr _ a.screen (attr-lt _ c) k.screen; style = c; csi = k.csi }

  command-IsSound :
      (cmd : ℕ) (ps : List ℤ) (a : AnsiScreen S) → IsSound a → IsSound (command ops cmd ps a)
  unfolding command
  command-IsSound cmd ps a k =
      let n = param ps 0 (pos 1) in
      let x = pos (ops.cursor a.screen).0 in
      let y = pos (ops.cursor a.screen).1 in
      either (cmd == b'H' || cmd == b'f') (go (param ps 1 (pos 1) -ℤ pos 1) (n -ℤ pos 1)) (
        either (cmd == b'A') (go x (wrap64 (y -ℤ n))) (
          either (cmd == b'B') (go x (wrap64 (y +ℤ n))) (
            either (cmd == b'C') (go (wrap64 (x +ℤ n)) y) (
              either (cmd == b'D') (go (wrap64 (x -ℤ n)) y) (
                either (cmd == b'G') (go (n -ℤ pos 1) y) (
                  either (cmd == b'd') (go x (n -ℤ pos 1)) (
                    either (cmd == b'J')
                      (with_screen k (erase-keeps a.screen k.screen (param ps 0 (pos 0))))
                      (either (cmd == b'K')
                        (with_screen k (erase_line-keeps a.screen k.screen (param ps 0 (pos 0))))
                        (either (cmd == b's')
                          (record { screen = k.screen; style = k.style; csi = k.csi })
                          (either (cmd == b'u') (go (pos a.sx) (pos a.sy))
                            (either (cmd == b'm') (sgr-IsSound ps a k) k)))))))))))
    where
      either :
          (b : Bool) {t u : AnsiScreen S} → IsSound t → IsSound u → IsSound (if b then t else u)
      either b p q = if_both IsSound b p q

      go : (x' y' : ℤ) → IsSound (record a { screen = move_to ops x' y' a.screen })
      go x' y' = with_screen k (move_to-keeps x' y' a.screen k.screen)

  flush-IsSound : (a : AnsiScreen S) → IsSound a → IsSound (flush ops a)
  unfolding flush
  flush-IsSound a k = by_text a.text
    where
      by_text :
          (t : Bytes)
          → IsSound (elim t [
            | [] ↦ a
            | c ∷ t' ↦ record a { screen = ops.text (c ∷ t') a.screen; text = [] }
          ])
      by_text [] = k
      by_text (c ∷ t) = record {
        screen = meets.text (c ∷ t) a.screen k.screen;
        style = k.style;
        csi = k.csi;
      }

  enter-IsSound : (m : Mode) {a : AnsiScreen S} → IsSound a → IsSound (record a { st = m })
  enter-IsSound m k = record { screen = k.screen; style = k.style; csi = k.csi }

  do_-IsSound : (c : ℕ) (a : AnsiScreen S) → IsSound a → IsSound (do_ ops c a)
  unfolding do_
  do_-IsSound c a k = if_both IsSound _ k (command-IsSound c (params a.csi) a k)

  text_byte-IsSound : (c : ℕ) (a : AnsiScreen S) → IsSound a → IsSound (text_byte ops c a)
  unfolding text_byte
  text_byte-IsSound c a k =
      let f = flush-IsSound a k in
      if_both IsSound _ (enter-IsSound ansi_esc f) (
        if_both IsSound _ (with_screen f (erase-keeps (flush ops a).screen f.screen (pos 2)))
          (if_both IsSound _ k (record { screen = k.screen; style = k.style; csi = k.csi })))

  esc_byte-IsSound : (c : ℕ) (a : AnsiScreen S) → IsSound a → IsSound (esc_byte ops c a)
  unfolding esc_byte
  esc_byte-IsSound c a k =
      if_both IsSound _ (record { screen = k.screen; style = k.style; csi = omega arith })
        (enter-IsSound ansi_text k)

  csi_byte-IsSound : (c : ℕ) (a : AnsiScreen S) → IsSound a → IsSound (csi_byte ops c a)
  unfolding csi_byte
  csi_byte-IsSound c a k =
      if_both IsSound (leb 0x40 c && leb c 0x7e) (do_-IsSound c _ (enter-IsSound ansi_text k)) keep
    where
      keep : IsSound (
          if ltb (length a.csi) 32
          then record a { csi = a.csi ++ c ∷ [] }
          else record a { st = ansi_text })
      keep = elim (Bool-cases (ltb (length a.csi) 32)) [
        | inl e ↦ rw e (record {
          screen = k.screen;
          style = k.style;
          csi = omega (arith, length-append a.csi (c ∷ []), ltb→lt (length a.csi) 32 e);
        })
        | inr e ↦ rw e (enter-IsSound ansi_text k)
      ]

  by_mode-IsSound : (m : Mode) (c : ℕ) (a : AnsiScreen S) → IsSound a → IsSound (by_mode ops m c a)
  by_mode-IsSound ansi_text c a k = text_byte-IsSound c a k
  by_mode-IsSound ansi_esc c a k = esc_byte-IsSound c a k
  by_mode-IsSound ansi_csi c a k = csi_byte-IsSound c a k

  feed-IsSound : (b : Bytes) (a : AnsiScreen S) → IsSound a → IsSound (feed ops b a)
  unfolding feed
  feed-IsSound [] a k = k
  feed-IsSound (c ∷ b) a k = feed-IsSound b (by_mode ops a.st c a) (by_mode-IsSound a.st c a k)

  -- Whatever bytes are written, every call that the emulation makes meets the screen's contract:
  -- the cursor and what is cleared stay in the window, attributes take one byte, and at most 32
  -- bytes of a control sequence are kept.
  pub write-IsSound : (b : Bytes) (a : AnsiScreen S) → IsSound a → IsSound (write ops b a)
  unfolding write
  write-IsSound b a k = flush-IsSound (feed ops b a) (feed-IsSound b a k)

  -- The emulation starts sound.
  pub new_ansi_screen-IsSound : (s : S) → I s → IsSound (new_ansi_screen ops s)
  unfolding new_ansi_screen
  new_ansi_screen-IsSound s i =
      let c : IsColoured (record { fg = 7; bg = 0; bold = false; blink = false; rev = false }) =
        record { fg = omega arith; bg = omega arith } in
      record { screen = meets.set_attr _ s (attr-lt _ c) i; style = c; csi = omega arith }
