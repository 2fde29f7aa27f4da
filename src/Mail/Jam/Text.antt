-- ===== src/Mail/Jam/Text.antt =====
-- internal/mail/jam.go and jam_rw.go: the text of a message, stored and read.
use ele_bbs_go.Base.{◌≡◌, ap, ◌∙◌, [], ◌∷◌, ◌++◌, arith, Bytes, All}
use ele_bbs_go.Base.Space.{split}
use ele_bbs_go.Mail.Wrap.{crlf_to_lf, cr_to_lf}
use ele_bbs_go.Mail.Jam.Message.{
  Article, split_jam_text, strings_crlf, ended, kludge_lines, raw_text,
}
use ele_bbs_go.Mail.Jam.Lines.{
  IsPlain, IsLine, ended_lf, lf_lines, norm, norm-crlf_loop, strings_crlf-ended, norm-kludge_lines,
}
use ele_bbs_go.Mail.Jam.Kept.{start_parts, ended_lf-last, sort-text}

anywhere : (t : Bytes) → IsPlain 10 t → IsPlain 0 t
anywhere [] p = tt
anywhere (c ∷ s) p = (p.0, (λ _ q. absurd (omega (arith, q))), p.2)

-- The text that `AppendMsg` stores is taken apart into the body, with its last line ended, and the
-- kludges, where the body has no carriage return and no line that starts with ^A, and each kludge
-- is one line.
pub split_jam_text-raw_text :
    (a : Article)
    → IsPlain 10 a.body
    → All IsLine a.kludges
    → split_jam_text (raw_text a) ≡ (ended_lf a.body, a.kludges)
unfolding split_jam_text raw_text
split_jam_text-raw_text a p h =
    ap (λ (t : Bytes). start_parts (split 10 t)) as_lines ∙ sort-text a.body a.kludges p h
  where
    as_lines :
        cr_to_lf (crlf_to_lf (strings_crlf (ended a.body) ++ kludge_lines a.kludges))
        ≡ ended_lf a.body ++ lf_lines a.kludges
    as_lines =
        ap (λ (t : Bytes). norm (t ++ kludge_lines a.kludges)) (strings_crlf-ended a.body p)
        ∙ norm-crlf_loop 0 (ended_lf a.body) (kludge_lines a.kludges)
            (λ q. absurd (omega (arith, q))) (anywhere (ended_lf a.body) (ended_lf-last a.body p).0)
        ∙ ap (λ (t : Bytes). ended_lf a.body ++ t) (norm-kludge_lines a.kludges h)
