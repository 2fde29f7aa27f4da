-- ===== src/Comm/AnsiScreen/Pieces.antt =====
-- How the bytes are cut into writes makes no difference to the screen.
use ele_bbs_go.Base.{
  ℕ, ◌≡◌, refl, sym, ap, ◌∙◌, Bool, true, false, List, [], ◌∷◌, ◌++◌, append_assoc, append-nil,
  Bytes, ◌==◌, if◌then◌else◌, if_both, ◌||◌, leb, ◌&&◌, ltb, length,
}
use ele_bbs_go.Base.Int.{ℤ}
use ele_bbs_go.Comm.AnsiScreen.{
  ScreenOps, Mode, ansi_text, ansi_esc, ansi_csi, AnsiScreen, flush, text_byte, esc_byte, csi_byte,
  by_mode, sgr, params, enter, clear_screen, is_private, feed, write, do_, command,
}

-- A screen that shows a text byte by byte: in two parts it comes out as in one.
pub record IsSerial {S : Type 0} (ops : ScreenOps S) : Type 0 where
  pub empty : (s : S) → ops.text [] s ≡ s
  pub append : (x y : Bytes) (s : S) → ops.text (x ++ y) s ≡ ops.text y (ops.text x s)

module _ {S : Type 0} {ops : ScreenOps S} (serial : IsSerial ops) where
  flush_eq :
      (a : AnsiScreen S) → flush ops a ≡ record a { screen = ops.text a.text a.screen; text = [] }
  unfolding flush
  flush_eq a = by_text a.text refl
    where
      by_text :
          (t : Bytes)
          → a.text ≡ t
          → (elim t [
            | [] ↦ a
            | c ∷ t' ↦ record a { screen = ops.text (c ∷ t') a.screen; text = [] }
          ])
            ≡ record a { screen = ops.text t a.screen; text = [] }
      by_text [] e = rw (serial.empty a.screen, ← e) refl
      by_text (c ∷ t) e = refl

  -- The same emulation in text mode, once with the text `t` shown and `u` held back, once with
  -- both held back.
  shown : AnsiScreen S → Bytes → Bytes → AnsiScreen S
  shown a t u = record a { screen = ops.text t a.screen; text = u; st = ansi_text }

  held : AnsiScreen S → Bytes → AnsiScreen S
  held a v = record a { text = v; st = ansi_text }

  flush_shown :
      (a : AnsiScreen S) (t u : Bytes) → flush ops (shown a t u) ≡ flush ops (held a (t ++ u))
  unfolding shown held
  flush_shown a t u =
      flush_eq (shown a t u)
      ∙ ap (λ s. record a { screen = s; text = []; st = ansi_text })
          (sym (serial.append t u a.screen))
      ∙ sym (flush_eq (held a (t ++ u)))

  after : ℕ → Bool → Bool → Bool → AnsiScreen S → AnsiScreen S
  after c esc clear nul z =
      if esc
      then enter ops ansi_esc (flush ops z)
      else if clear
      then clear_screen ops (flush ops z)
      else if nul
      then z
      else record z { text = z.text ++ c ∷ [] }

  -- One more byte.
  after_shown :
      (b : Bytes) (a : AnsiScreen S) (t u : Bytes)
      → ((v : Bytes)
          → flush ops (feed ops b (shown a t v)) ≡ flush ops (feed ops b (held a (t ++ v))))
      → (c : ℕ) (esc clear nul : Bool)
      → flush ops (feed ops b (after c esc clear nul (shown a t u)))
        ≡ flush ops (feed ops b (after c esc clear nul (held a (t ++ u))))
  unfolding after shown held
  after_shown b a t u ih c true clear nul =
      ap (λ z. flush ops (feed ops b (enter ops ansi_esc z))) (flush_shown a t u)
  after_shown b a t u ih c false true nul =
      ap (λ z. flush ops (feed ops b (clear_screen ops z))) (flush_shown a t u)
  after_shown b a t u ih c false false true = ih u
  after_shown b a t u ih c false false false =
      ih (u ++ c ∷ [])
      ∙ ap (λ v. flush ops (feed ops b (held a v))) (sym (append_assoc t u (c ∷ [])))

  feed_shown :
      (b : Bytes) (a : AnsiScreen S) (t u : Bytes)
      → flush ops (feed ops b (shown a t u)) ≡ flush ops (feed ops b (held a (t ++ u)))
  unfolding feed text_byte after shown held
  feed_shown [] a t u = flush_shown a t u
  feed_shown (c ∷ b) a t u =
      after_shown b a t u (λ v. feed_shown b a t v) c (c == 0x1b) (c == 0x0c) (c == 0)

  -- Outside text mode no text is held back.
  abbrev Settled : Mode → Bytes → Type 0
  Settled ansi_text t = Unit
  Settled ansi_esc t = t ≡ []
  Settled ansi_csi t = t ≡ []

  unfoldable pub IsSettled : AnsiScreen S → Type 0
  IsSettled a = Settled a.st a.text

  nothing_Settled : (m : Mode) {t : Bytes} → t ≡ [] → Settled m t
  nothing_Settled ansi_text e = tt
  nothing_Settled ansi_esc e = e
  nothing_Settled ansi_csi e = e

  flush-IsSettled : (a : AnsiScreen S) → (flush ops a).text ≡ []
  flush-IsSettled a = ap (λ z. z.text) (flush_eq a)

  record Keeps (a z : AnsiScreen S) : Type 0 where
    text : z.text ≡ a.text

  abbrev holds : {a z : AnsiScreen S} → z.text ≡ a.text → Keeps a z
  holds e = record { text = e }

  command-Keeps : (cmd : ℕ) (ps : List ℤ) (a : AnsiScreen S) → Keeps a (command ops cmd ps a)
  unfolding command sgr
  command-Keeps cmd ps a = if_both (Keeps a) (cmd == b'H' || cmd == b'f') (holds refl) (
      if_both (Keeps a) (cmd == b'A') (holds refl) (
        if_both (Keeps a) (cmd == b'B') (holds refl) (
          if_both (Keeps a) (cmd == b'C') (holds refl) (
            if_both (Keeps a) (cmd == b'D') (holds refl) (
              if_both (Keeps a) (cmd == b'G') (holds refl) (
                if_both (Keeps a) (cmd == b'd') (holds refl) (
                  if_both (Keeps a) (cmd == b'J') (holds refl) (
                    if_both (Keeps a) (cmd == b'K') (holds refl) (
                      if_both (Keeps a) (cmd == b's') (holds refl) (
                        if_both (Keeps a) (cmd == b'u') (holds refl)
                          (if_both (Keeps a) (cmd == b'm') (holds refl) (holds refl))))))))))))

  do_-Keeps : (c : ℕ) (a : AnsiScreen S) → Keeps a (do_ ops c a)
  unfolding do_
  do_-Keeps c a =
      if_both (Keeps a) (is_private a.csi) (holds {z = a} refl) (command-Keeps c (params a.csi) a)

  IsSettled-nil : (a : AnsiScreen S) → a.text ≡ [] → IsSettled a
  unfolding IsSettled
  IsSettled-nil a e = nothing_Settled a.st e

  IsSettled-text : (a : AnsiScreen S) → a.st ≡ ansi_text → IsSettled a
  unfolding IsSettled
  IsSettled-text a e = rw e tt

  by_mode-IsSettled :
      (m : Mode) (c : ℕ) (a : AnsiScreen S)
      → a.st ≡ m
      → Settled m a.text
      → IsSettled (by_mode ops m c a)
  unfolding text_byte esc_byte csi_byte
  by_mode-IsSettled ansi_text c a e h =
      let f = flush-IsSettled a in
      if_both IsSettled (c == 0x1b) (IsSettled-nil _ f) (
        if_both IsSettled (c == 0x0c) (IsSettled-nil _ f)
          (if_both IsSettled (c == 0) (IsSettled-text _ e) (IsSettled-text _ e)))
  by_mode-IsSettled ansi_esc c a e h =
      if_both IsSettled (c == b'[') (IsSettled-nil (record a { st = ansi_csi; csi = [] }) h)
        (IsSettled-text (record a { st = ansi_text }) refl)
  by_mode-IsSettled ansi_csi c a e h =
      let ran = do_ ops c (enter ops ansi_text a) in
      if_both IsSettled (leb 0x40 c && leb c 0x7e)
        (IsSettled-nil ran ((do_-Keeps c (enter ops ansi_text a)).text ∙ h))
        (if_both IsSettled (ltb (length a.csi) 32)
          (IsSettled-nil (record a { csi = a.csi ++ c ∷ [] }) h)
          (IsSettled-text (record a { st = ansi_text }) refl))

  feed-IsSettled : (b : Bytes) (a : AnsiScreen S) → IsSettled a → IsSettled (feed ops b a)
  unfolding feed
  feed-IsSettled [] a h = h
  feed-IsSettled (c ∷ b) a h =
      feed-IsSettled b (by_mode ops a.st c a)
        (by_mode-IsSettled a.st c a refl (unfold IsSettled in h))

  feed-append : (x y : Bytes) (a : AnsiScreen S) → feed ops (x ++ y) a ≡ feed ops y (feed ops x a)
  unfolding feed
  feed-append [] y a = refl
  feed-append (c ∷ x) y a = feed-append x y (by_mode ops a.st c a)

  -- Showing what is held back now or later makes no difference.
  flush_early :
      (y : Bytes) (z : AnsiScreen S) (m : Mode)
      → z.st ≡ m
      → Settled m z.text
      → flush ops (feed ops y (flush ops z)) ≡ flush ops (feed ops y z)
  unfolding shown held
  flush_early y z ansi_text e h =
      ap (λ a. flush ops (feed ops y a)) (flush_eq z ∙ rw e refl)
      ∙ feed_shown y z z.text []
      ∙ ap (λ (t : Bytes). flush ops (feed ops y (record z { text = t; st = ansi_text })))
          (append-nil z.text)
      ∙ ap (λ m. flush ops (feed ops y (record z { st = m }))) (sym e)
  flush_early y z ansi_esc e h =
      ap (λ a. flush ops (feed ops y a)) (flush_eq z ∙ rw (h, serial.empty z.screen) refl)
  flush_early y z ansi_csi e h =
      ap (λ a. flush ops (feed ops y a)) (flush_eq z ∙ rw (h, serial.empty z.screen) refl)

  -- Where the screen shows a text byte by byte, writing bytes in two pieces leaves the same screen
  -- and the same emulation as writing them in one, wherever the cut falls, also inside a control
  -- sequence.
  pub write-append :
      (x y : Bytes) (a : AnsiScreen S)
      → IsSettled a
      → write ops (x ++ y) a ≡ write ops y (write ops x a)
  unfolding write
  write-append x y a h =
      let z = feed ops x a in
      ap (flush ops) (feed-append x y a)
      ∙ sym (flush_early y z z.st refl (unfold IsSettled in feed-IsSettled x a h))
