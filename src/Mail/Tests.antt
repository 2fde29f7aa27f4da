-- ===== src/Mail/Tests.antt =====
-- A line of text wrapped.
use ele_bbs_go.Base.{◌≡◌, refl, [], ◌∷◌, Bytes, All}
use ele_bbs_go.Base.Int.{pos}
use ele_bbs_go.Mail.Wrap.{wrap_lines, width}
use ele_bbs_go.Mail.Wrap.Width.{Fits, wrap_lines-Fits}
use ele_bbs_go.Mail.Wrap.Letters.{letters, all_letters, wrap_lines-letters}

-- "ab cd\r\nefghi".
abbrev two_lines : Bytes
two_lines = b'a' ∷ b'b' ∷ b' ' ∷ b'c' ∷ b'd' ∷ b'\r' ∷ b'\n' ∷ b'e' ∷ b'f' ∷ b'g' ∷ b'h' ∷ b'i' ∷ []

wrapped :
    wrap_lines two_lines (pos 4)
    ≡ (b'a' ∷ b'b' ∷ []) ∷ (b'c' ∷ b'd' ∷ []) ∷ (b'e' ∷ b'f' ∷ b'g' ∷ b'h' ∷ []) ∷ (b'i' ∷ []) ∷ []
unfolding wrap_lines
wrapped = refl

wrap_lines-Fits_example : All (Fits (width (pos 4))) (wrap_lines two_lines (pos 4))
wrap_lines-Fits_example = wrap_lines-Fits two_lines (pos 4)

wrap_lines-letters_example : all_letters (wrap_lines two_lines (pos 4)) ≡ letters two_lines
wrap_lines-letters_example = wrap_lines-letters two_lines (pos 4)
