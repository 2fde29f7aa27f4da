-- ===== src/Comm/AnsiScreen.antt =====
-- internal/comm/ansiscreen.go: the ANSI.SYS emulation of the local screen. The screen is a
-- parameter, as in the source: operations on a state of any type. Go's `int` has 64 bits.
pub mod Contract
pub mod Pieces
mod Tests
use Prim.Native.Nat.{bit_and, bit_or}
use ele_bbs_go.Base.{
  ℕ, zero, suc, ◌+◌, ◌-◌, ◌*◌, ◌%◌, ◌<◌, min, Bool, true, false, not, ◌&&◌, ◌||◌, List, [], ◌∷◌,
  ◌++◌, map, Option, none, some, Bytes, ltb, leb, ◌==◌, if◌then◌else◌, length, get_or,
}
use ele_bbs_go.Base.Int.{ℤ, pos, negsuc, pos_part, ◌+ℤ◌, ◌-ℤ◌, ltb_ℤ, sub_ℕ}
use ele_bbs_go.Base.Decimal.{atoi}
use ele_bbs_go.Base.Space.{trim_space, split}

-- `screenOps`: sizes and positions count cells.
pub record ScreenOps (S : Type 0) : Type 0 where
  pub text : Bytes → S → S
  pub set_attr : ℕ → S → S
  pub cursor : S → ℕ × ℕ
  pub set_cursor : ℕ → ℕ → S → S
  pub size : S → ℕ × ℕ
  pub fill : ℕ → ℕ → ℤ → S → S

pub data Mode : Type 0 where
  ansi_text : Mode
  ansi_esc : Mode
  ansi_csi : Mode

-- The colours and attributes of `ansiScreen`.
pub record Style : Type 0 where
  pub fg : ℕ
  pub bg : ℕ
  pub bold : Bool
  pub blink : Bool
  pub rev : Bool

pub record AnsiScreen (S : Type 0) : Type 0 where
  pub screen : S
  pub st : Mode
  pub csi : Bytes
  pub text : Bytes
  pub style : Style
  pub sx : ℕ
  pub sy : ℕ

abbrev pub ansi_con_color : List ℕ
ansi_con_color = 0 ∷ 4 ∷ 2 ∷ 6 ∷ 1 ∷ 5 ∷ 3 ∷ 7 ∷ []

-- `attr`.
unfoldable pub attr : Style → ℕ
attr s =
    let f = if s.rev then s.bg else s.fg in
    let b = if s.rev then s.fg else s.bg in
    let v =
      bit_or (get_or ansi_con_color (bit_and f 7) 0) (get_or ansi_con_color (bit_and b 7) 0 * 16) in
    let v' = if s.bold then bit_or v 0x08 else v in if s.blink then bit_or v' 0x80 else v'

-- The result of an addition on `int`.
abbrev pub wrap64 : ℤ → ℤ
wrap64 (pos n) =
    let w = n % 18446744073709551616 in
    if ltb w 9223372036854775808 then pos w else negsuc (18446744073709551615 - w)
wrap64 (negsuc n) =
    let w = n % 18446744073709551616 in
    if ltb w 9223372036854775808 then negsuc w else pos (18446744073709551615 - w)

abbrev pub eq_ℤ : ℤ → ℕ → Bool
eq_ℤ (pos n) k = n == k
eq_ℤ (negsuc n) k = false

abbrev between : ℕ → ℕ → ℤ → Bool
between lo hi (pos n) = leb lo n && leb n hi
between lo hi (negsuc n) = false

-- One round of the loop of `sgr`.
unfoldable pub sgr_param : ℤ → Style → Style
sgr_param p s =
    if eq_ℤ p 0
    then record { fg = 7; bg = 0; bold = false; blink = false; rev = false }
    else if eq_ℤ p 1
    then record s { bold = true }
    else if eq_ℤ p 2 || eq_ℤ p 22
    then record s { bold = false }
    else if eq_ℤ p 5 || eq_ℤ p 6
    then record s { blink = true }
    else if eq_ℤ p 25
    then record s { blink = false }
    else if eq_ℤ p 7
    then record s { rev = true }
    else if eq_ℤ p 27
    then record s { rev = false }
    else if between 30 37 p
    then record s { fg = pos_part p - 30 }
    else if eq_ℤ p 39
    then record s { fg = 7 }
    else if between 40 47 p
    then record s { bg = pos_part p - 40 }
    else if eq_ℤ p 49
    then record s { bg = 0 }
    else if between 90 97 p
    then record s { fg = pos_part p - 90; bold = true }
    else if between 100 107 p
    then record s { bg = pos_part p - 100; blink = true }
    else s

unfoldable pub sgr_params : List ℤ → Style → Style
unfolding sgr_param
sgr_params [] s = s
sgr_params (p ∷ ps) s = sgr_params ps (sgr_param p s)

-- `params`.
unfoldable pub params : Bytes → List ℤ
params [] = []
params (c ∷ csi) = map (λ s. atoi (trim_space s)) (split b';' (c ∷ csi))

-- `param`.
unfoldable pub param : List ℤ → ℕ → ℤ → ℤ
param [] i def = def
param (p ∷ ps) zero def = if ltb_ℤ (pos 0) p then p else def
param (p ∷ ps) (suc i) def = param ps i def

abbrev pub is_private : Bytes → Bool
is_private [] = false
is_private (c ∷ csi) = c == b'?' || c == b'='

abbrev pub default_sgr : List ℤ → List ℤ
default_sgr [] = pos 0 ∷ []
default_sgr (p ∷ ps) = p ∷ ps

-- `n * w` for a factor that may be negative.
abbrev pub scale : ℤ → ℕ → ℤ
scale (pos n) w = pos (n * w)
scale (negsuc n) w = sub_ℕ 0 (suc n * w)

module _ {S : Type 0} (ops : ScreenOps S) where
  -- `moveTo`: `max(0, min(x, w-1))`.
  unfoldable pub move_to : ℤ → ℤ → S → S
  move_to x y s =
      let (w, h) = ops.size s in
      ops.set_cursor (min (pos_part x) (w - 1)) (min (pos_part y) (h - 1)) s

  -- `erase`.
  unfoldable pub erase : ℤ → S → S
  erase mode s =
      let (w, h) = ops.size s in
      let (x, y) = ops.cursor s in
      if eq_ℤ mode 0
      then ops.fill x y ((pos w -ℤ pos x) +ℤ scale (pos h -ℤ pos (y + 1)) w) s
      else if eq_ℤ mode 1
      then ops.fill 0 0 (pos (y * w + x + 1)) s
      else ops.set_cursor 0 0 (ops.fill 0 0 (pos (w * h)) s)

  -- The case 'K' of `do`.
  unfoldable pub erase_line : ℤ → S → S
  erase_line mode s =
      let (w, h) = ops.size s in
      let (x, y) = ops.cursor s in
      if eq_ℤ mode 0
      then ops.fill x y (pos w -ℤ pos x) s
      else if eq_ℤ mode 1
      then ops.fill 0 y (pos (x + 1)) s
      else if eq_ℤ mode 2
      then ops.fill 0 y (pos w) s
      else s

  -- `sgr`.
  unfoldable pub sgr : List ℤ → AnsiScreen S → AnsiScreen S
  unfolding sgr_params attr
  sgr ps a =
      let style = sgr_params (default_sgr ps) a.style in
      record a { style = style; screen = ops.set_attr (attr style) a.screen }

  -- The switch of `do`.
  unfoldable pub command : ℕ → List ℤ → AnsiScreen S → AnsiScreen S
  unfolding move_to erase erase_line sgr param
  command cmd ps a =
      let (x, y) = ops.cursor a.screen in
      let n = param ps 0 (pos 1) in
      let go : ℤ → ℤ → AnsiScreen S = λ x' y'. record a { screen = move_to x' y' a.screen } in
      if cmd == b'H' || cmd == b'f'
      then go (param ps 1 (pos 1) -ℤ pos 1) (n -ℤ pos 1)
      else if cmd == b'A'
      then go (pos x) (wrap64 (pos y -ℤ n))
      else if cmd == b'B'
      then go (pos x) (wrap64 (pos y +ℤ n))
      else if cmd == b'C'
      then go (wrap64 (pos x +ℤ n)) (pos y)
      else if cmd == b'D'
      then go (wrap64 (pos x -ℤ n)) (pos y)
      else if cmd == b'G'
      then go (n -ℤ pos 1) (pos y)
      else if cmd == b'd'
      then go (pos x) (n -ℤ pos 1)
      else if cmd == b'J'
      then record a { screen = erase (param ps 0 (pos 0)) a.screen }
      else if cmd == b'K'
      then record a { screen = erase_line (param ps 0 (pos 0)) a.screen }
      else if cmd == b's'
      then record a { sx = x; sy = y }
      else if cmd == b'u'
      then go (pos a.sx) (pos a.sy)
      else if cmd == b'm'
      then sgr ps a
      else a

  -- `do`.
  unfoldable pub do_ : ℕ → AnsiScreen S → AnsiScreen S
  unfolding command params
  do_ cmd a = if is_private a.csi then a else command cmd (params a.csi) a

  -- `flush`.
  unfoldable pub flush : AnsiScreen S → AnsiScreen S
  flush a = elim (a.text) [
    | [] ↦ a
    | c ∷ t ↦ record a { screen = ops.text (c ∷ t) a.screen; text = [] }
  ]

  abbrev pub enter : Mode → AnsiScreen S → AnsiScreen S
  enter m a = record a { st = m }

  abbrev pub clear_screen : AnsiScreen S → AnsiScreen S
  unfolding erase
  clear_screen a = record a { screen = erase (pos 2) a.screen }

  -- The cases of the switch in `Write`.
  unfoldable pub text_byte : ℕ → AnsiScreen S → AnsiScreen S
  unfolding flush erase
  text_byte c a =
      if c == 0x1b
      then enter ansi_esc (flush a)
      else if c == 0x0c
      then clear_screen (flush a)
      else if c == 0
      then a
      else record a { text = a.text ++ c ∷ [] }

  unfoldable pub esc_byte : ℕ → AnsiScreen S → AnsiScreen S
  esc_byte c a =
      if c == b'[' then record a { st = ansi_csi; csi = [] } else record a { st = ansi_text }

  unfoldable pub csi_byte : ℕ → AnsiScreen S → AnsiScreen S
  unfolding do_
  csi_byte c a =
      if leb 0x40 c && leb c 0x7e
      then do_ c (enter ansi_text a)
      else if ltb (length a.csi) 32
      then record a { csi = a.csi ++ c ∷ [] }
      else enter ansi_text a

  abbrev pub by_mode : Mode → ℕ → AnsiScreen S → AnsiScreen S
  by_mode ansi_text c a = text_byte c a
  by_mode ansi_esc c a = esc_byte c a
  by_mode ansi_csi c a = csi_byte c a

  -- The loop of `Write`.
  unfoldable pub feed : Bytes → AnsiScreen S → AnsiScreen S
  unfolding text_byte esc_byte csi_byte
  feed [] a = a
  feed (c ∷ b) a = feed b (by_mode a.st c a)

  unfoldable pub write : Bytes → AnsiScreen S → AnsiScreen S
  unfolding feed flush
  write b a = flush (feed b a)

  -- `newANSIScreen`.
  unfoldable pub new_ansi_screen : S → AnsiScreen S
  unfolding attr
  new_ansi_screen s =
      let plain : Style = record { fg = 7; bg = 0; bold = false; blink = false; rev = false } in
      record {
        screen = ops.set_attr (attr plain) s;
        st = ansi_text;
        csi = [];
        text = [];
        style = plain;
        sx = 0;
        sy = 0;
      }
