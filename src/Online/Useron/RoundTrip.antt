-- ===== src/Online/Useron/RoundTrip.antt =====
-- The on-line record is written and read back.
use ele_bbs_go.Base.{
  ℕ, ◌<◌, ◌≡◌, refl, sym, ap, ◌∙◌, [], ◌∷◌, ◌++◌, append-nil, arith, Bytes, length, replicate,
  take_all, le→ltb_false, length-append, length-replicate,
}
use ele_bbs_go.Base.Int.{to_u32, IsI32}
use ele_bbs_go.Pascal.Text.ShortString.{FitsString}
use ele_bbs_go.Pascal.Buf.{new_buf}
use ele_bbs_go.Pascal.Buf.Codec.{
  Reads, Writes, Reads-bind, Reads-last, Reads-run, Writes->>, pstring_bytes, length-pstring_bytes,
  u16_bytes, u32_bytes, Reads-i32, Reads-pstring, Reads-skip, Reads-u16, Reads-u8, Writes-i32,
  Writes-pad, Writes-pstring, Writes-u16, Writes-u8,
}
use ele_bbs_go.Online.Useron.{Record, read_record, write_record, encode, decode}

-- Each field holds a value that its place in the record can hold.
pub record FitsRecord (t : Record) : Type 0 where
  pub name : FitsString 35 t.name
  pub handle : FitsString 35 t.handle
  pub baud : t.baud < 65536
  pub city : FitsString 25 t.city
  pub stat_desc : FitsString 10 t.stat_desc
  pub no_calls : t.no_calls < 65536
  pub node_number : IsI32 t.node_number
  pub last_update : IsI32 t.last_update

-- The bytes of the record, field by field.
pub record_bytes : Record → Bytes
record_bytes t =
    pstring_bytes 35 t.name
    ++ (pstring_bytes 35 t.handle
        ++ ((t.line ∷ [])
            ++ (u16_bytes t.baud
                ++ (pstring_bytes 25 t.city
                    ++ ((t.status ∷ [])
                        ++ ((t.attribute ∷ [])
                            ++ (pstring_bytes 10 t.stat_desc
                                ++ (replicate 90 0
                                    ++ (u16_bytes t.no_calls
                                        ++ (u32_bytes (to_u32 t.node_number)
                                            ++ (u32_bytes (to_u32 t.last_update))))))))))))

pub write_record-bytes : (t : Record) → Writes (write_record t) (record_bytes t)
unfolding write_record record_bytes
write_record-bytes t = Writes->> _ _ (Writes-pstring 35 t.name) (
    Writes->> _ _ (Writes-pstring 35 t.handle) (
      Writes->> _ _ (Writes-u8 t.line) (
        Writes->> _ _ (Writes-u16 t.baud) (
          Writes->> _ _ (Writes-pstring 25 t.city) (
            Writes->> _ _ (Writes-u8 t.status) (
              Writes->> _ _ (Writes-u8 t.attribute) (
                Writes->> _ _ (Writes-pstring 10 t.stat_desc) (
                  Writes->> _ _ (Writes-pad 90) (
                    Writes->> _ _ (Writes-u16 t.no_calls)
                      (Writes->> _ _ (Writes-i32 t.node_number) (Writes-i32 t.last_update)))))))))))

pub read_record-bytes : (t : Record) → FitsRecord t → Reads read_record (record_bytes t) t
unfolding read_record record_bytes
read_record-bytes t h = Reads-bind _ (Reads-pstring 35 t.name (omega arith) h.name) (
    Reads-bind _ (Reads-pstring 35 t.handle (omega arith) h.handle) (
      Reads-bind _ (Reads-u8 t.line) (
        Reads-bind _ (Reads-u16 t.baud h.baud) (
          Reads-bind _ (Reads-pstring 25 t.city (omega arith) h.city) (
            Reads-bind _ (Reads-u8 t.status) (
              Reads-bind _ (Reads-u8 t.attribute) (
                Reads-bind _ (Reads-pstring 10 t.stat_desc (omega arith) h.stat_desc) (
                  Reads-bind _
                    (Reads-skip 90 (replicate 90 0) (length-replicate {A = ℕ} 90 0) (omega arith))
                    (Reads-bind _ (Reads-u16 t.no_calls h.no_calls) (
                      Reads-bind _ (Reads-i32 t.node_number h.node_number)
                        (Reads-last _ (Reads-i32 t.last_update h.last_update) refl)))))))))))

length-record_bytes : (t : Record) → length (record_bytes t) ≡ 214
unfolding record_bytes
length-record_bytes t = simp (length-append, length-pstring_bytes)

pub encode-bytes : (t : Record) → encode t ≡ record_bytes t
unfolding encode
encode-bytes t = rw ((write_record-bytes t).out []) (
    rw (le→ltb_false (length (record_bytes t)) 214 (omega (arith, length-record_bytes t)))
      (take_all 214 (record_bytes t) (omega (arith, length-record_bytes t))))

-- Every encoded record takes exactly 214 bytes, whatever its fields hold.
pub length-encode : (t : Record) → length (encode t) ≡ 214
length-encode t = rw (encode-bytes t) (length-record_bytes t)

-- A record whose fields fit their places is read back as it was written.
pub decode-encode : (t : Record) → FitsRecord t → decode (encode t) ≡ t
unfolding decode
decode-encode t h = rw (encode-bytes t) (
    rw (le→ltb_false (length (record_bytes t)) 214 (omega (arith, length-record_bytes t)), decode)
      (ap (λ (b : Bytes). (read_record (new_buf b)).0) (sym (append-nil (record_bytes t)))
        ∙ Reads-run [] (read_record-bytes t h)))
