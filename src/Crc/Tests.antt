-- ===== src/Crc/Tests.antt =====
-- Checksums of a few bytes.
use ele_bbs_go.Base.{◌≡◌, [], ◌∷◌, ◌++◌, arith}
use ele_bbs_go.Crc.{crc32, emsi16}
use ele_bbs_go.Crc.Bitwise.{bitwise_crc32, crc32-eq-bitwise}
use ele_bbs_go.Crc.Division.{divided, emsi16-eq-divided}

crc32-eq-bitwise_example :
    crc32 (b'a' ∷ 255 ∷ []) 4294967295 ≡ bitwise_crc32 (b'a' ∷ 255 ∷ []) 4294967295
crc32-eq-bitwise_example =
    crc32-eq-bitwise (b'a' ∷ 255 ∷ []) 4294967295 (omega arith, (omega arith, tt))

emsi16-eq-divided_example : emsi16 (b'E' ∷ b'M' ∷ []) ≡ divided ((b'E' ∷ b'M' ∷ []) ++ 0 ∷ 0 ∷ []) 0
emsi16-eq-divided_example = emsi16-eq-divided (b'E' ∷ b'M' ∷ []) (omega arith, (omega arith, tt))
