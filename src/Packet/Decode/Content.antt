-- ===== src/Packet/Decode/Content.antt =====
-- What the part of `pkt_decode` behind the header does.
use projet_trtp.Base.{
  ℕ, ◌+◌, ◌≤◌, ◌≡◌, ◌≢◌, true, false, Bool, not, ◌||◌, ◌&&◌, ltb, refl, if◌then◌else◌, List, some,
  arith, ◌==◌, drop, le→ltb, ==_refl, ne→==,
}
use projet_trtp.Base.Bytes.{read_at, be_value, take_exactly}
use projet_trtp.Packet.Struct.{
  ptype_fec, ptype_data, StatusCode, pkt_ok, e_crc, e_unconsistent, type_is, ptype_ack, ptype_nack,
  block, Pkt, Libs,
}
use projet_trtp.Packet.Access.{pkt_set_payload, pkt_set_crc2}
use projet_trtp.Packet.Decode.{
  exit_if, next, exit, ◌>>=◌, attempt_copy, attempt, from_option, decode_payload, copy_in,
  check_payload, crc_of,
}
use projet_trtp.Packet.Decode.Steps.{fields}

module _ (libs : Libs) (bs source : List ℕ) (n w s c1 time : ℕ) where
  set_payload-data :
      (r : ℕ)
      → n ≢ 0
      → n ≤ 512
      → libs.malloc n ≡ true
      → take_exactly n source ≡ some bs
      → pkt_set_payload libs (fields ptype_data r w n s c1 0 time) source n
        ≡ some (pkt_ok, record (fields ptype_data r w n s c1 0 time) { payload = block bs })
  unfolding pkt_set_payload
  set_payload-data r ne small mem copied = ground arith

  set_payload-fec :
      libs.malloc 512 ≡ true
      → take_exactly 512 source ≡ some bs
      → pkt_set_payload libs (fields ptype_fec 0 w n s c1 0 time) source n
        ≡ some (pkt_ok, record (fields ptype_fec 0 w n s c1 0 time) { payload = block bs })
  unfolding pkt_set_payload
  set_payload-fec mem copied = rw (mem, copied)

exit_if-not :
    (b : Bool) (status : StatusCode) (pkt : Pkt)
    → exit_if (not b) status pkt ≡ (if b then next tt pkt else exit status pkt)
exit_if-not true status pkt = refl
exit_if-not false status pkt = refl

zero_ne_one : ◌≢◌ {A = ℕ} 0 1
zero_ne_one = omega arith

set_crc2-ok :
    (pkt : Pkt) (c2 : ℕ)
    → pkt.length ≢ 0
    → pkt.tr ≢ 1
    → pkt_set_crc2 pkt c2 ≡ (pkt_ok, record pkt { crc2 = c2 })
unfolding pkt_set_crc2
set_crc2-ok pkt c2 ne open_ = ground arith

set_crc2-bad :
    (pkt : Pkt) (c2 : ℕ)
    → ((pkt.length == 0) || (pkt.tr == 1)) ≡ true
    → pkt_set_crc2 pkt c2 ≡ (e_crc, pkt)
unfolding pkt_set_crc2
set_crc2-bad pkt c2 bad = rw bad

module _ (libs : Libs) (bytes bs word : List ℕ) (len offset n : ℕ) (w s c1 time : ℕ) where
  pub copy_in-data :
      n ≢ 0
      → n ≤ 512
      → libs.malloc n ≡ true
      → take_exactly n (drop offset bytes) ≡ some bs
      → read_at bytes (offset + n) 4 ≡ some word
      → copy_in libs bytes offset n (fields ptype_data 0 w n s c1 0 time)
        ≡ next (be_value 0 word) (record (fields ptype_data 0 w n s c1 0 time) {
          payload = block bs;
          crc2 = be_value 0 word;
        })
  unfolding copy_in
  copy_in-data ne small mem copied hw =
      let set = set_payload-data libs bs (drop offset bytes) n w s c1 time 0 ne small mem copied in
      rw (
        set, hw, set_crc2-ok, zero_ne_one, set_crc2-ok, zero_ne_one, ◌>>=◌, attempt_copy, attempt,
        from_option,
      )

  pub copy_in-fec :
      n ≢ 0
      → libs.malloc 512 ≡ true
      → take_exactly 512 (drop offset bytes) ≡ some bs
      → read_at bytes (offset + 512) 4 ≡ some word
      → copy_in libs bytes offset n (fields ptype_fec 0 w n s c1 0 time)
        ≡ next (be_value 0 word) (record (fields ptype_fec 0 w n s c1 0 time) {
          payload = block bs;
          crc2 = be_value 0 word;
        })
  unfolding copy_in
  copy_in-fec ne mem copied hw = rw (
    set_payload-fec libs bs (drop offset bytes) n w s c1 time mem copied,
    hw,
    set_crc2-ok,
    zero_ne_one,
    set_crc2-ok,
    zero_ne_one,
    ◌>>=◌,
    attempt_copy,
    attempt,
    from_option,
  )

  -- A truncated packet has no CRC2 to set.
  copy_in-truncated :
      n ≢ 0
      → n ≤ 512
      → libs.malloc n ≡ true
      → take_exactly n (drop offset bytes) ≡ some bs
      → read_at bytes (offset + n) 4 ≡ some word
      → copy_in libs bytes offset n (fields ptype_data 1 w n s c1 0 time)
        ≡ exit e_crc (record (fields ptype_data 1 w n s c1 0 time) { payload = block bs })
  unfolding copy_in
  copy_in-truncated ne small mem copied hw =
      let set = set_payload-data libs bs (drop offset bytes) n w s c1 time 1 ne small mem copied in
      let bad : ((n == 0) || (1 == 1)) ≡ true = ground arith in
      rw (set, hw, set_crc2-bad, bad, set_crc2-bad, ◌>>=◌, attempt_copy, attempt, from_option)

  -- Nor has a PTYPE_FEC packet whose length is 0.
  pub copy_in-fec_empty :
      libs.malloc 512 ≡ true
      → take_exactly 512 (drop offset bytes) ≡ some bs
      → read_at bytes (offset + 512) 4 ≡ some word
      → copy_in libs bytes offset 0 (fields ptype_fec 0 w 0 s c1 0 time)
        ≡ exit e_crc (record (fields ptype_fec 0 w 0 s c1 0 time) { payload = block bs })
  unfolding copy_in
  copy_in-fec_empty mem copied hw = rw (
    set_payload-fec libs bs (drop offset bytes) 0 w s c1 time mem copied,
    hw,
    set_crc2-bad,
    set_crc2-bad,
    ◌>>=◌,
    attempt_copy,
    attempt,
    from_option,
  )

  -- The packet that the receiver answers with a PTYPE_NACK.
  pub decode_payload-truncated :
      n ≢ 0
      → n ≤ 512
      → len ≤ 544
      → libs.malloc n ≡ true
      → take_exactly n (drop offset bytes) ≡ some bs
      → read_at bytes (offset + n) 4 ≡ some word
      → decode_payload libs bytes len offset n (fields ptype_data 1 w n s c1 0 time)
        ≡ exit e_crc (record (fields ptype_data 1 w n s c1 0 time) { payload = block bs })
  unfolding decode_payload
  decode_payload-truncated ne small fits mem copied hw =
      rw (ne→== n 0 ne, le→ltb 544 len fits, copy_in-truncated ne small mem copied hw, ◌>>=◌)

  -- Payload and CRC2 of a PTYPE_DATA packet that is not truncated.
  pub decode_payload-data :
      n ≢ 0
      → n ≤ 512
      → len ≤ 544
      → libs.malloc n ≡ true
      → take_exactly n (drop offset bytes) ≡ some bs
      → take_exactly n bs ≡ some bs
      → read_at bytes (offset + n) 4 ≡ some word
      → crc_of libs bs ≡ be_value 0 word
      → decode_payload libs bytes len offset n (fields ptype_data 0 w n s c1 0 time)
        ≡ next tt (record (fields ptype_data 0 w n s c1 0 time) {
          payload = block bs;
          crc2 = be_value 0 word;
        })
  unfolding decode_payload check_payload
  decode_payload-data ne small fits mem copied again hw crc = rw (
    ne→== n 0 ne,
    le→ltb 544 len fits,
    copy_in-data ne small mem copied hw,
    again,
    crc,
    ==_refl (be_value 0 word),
    ◌>>=◌,
  )

  -- The same for a PTYPE_FEC packet, whose payload has always 512 bytes.
  pub decode_payload-fec :
      n ≢ 0
      → len ≤ 544
      → libs.malloc 512 ≡ true
      → take_exactly 512 (drop offset bytes) ≡ some bs
      → take_exactly 512 bs ≡ some bs
      → read_at bytes (offset + 512) 4 ≡ some word
      → crc_of libs bs ≡ be_value 0 word
      → decode_payload libs bytes len offset n (fields ptype_fec 0 w n s c1 0 time)
        ≡ next tt (record (fields ptype_fec 0 w n s c1 0 time) {
          payload = block bs;
          crc2 = be_value 0 word;
        })
  unfolding decode_payload check_payload
  decode_payload-fec ne fits mem copied again hw crc = rw (
    le→ltb 544 len fits,
    copy_in-fec ne mem copied hw,
    again,
    crc,
    ==_refl (be_value 0 word),
    ◌>>=◌,
  )

  -- The comparison of CRC2, either way.
  pub check_payload-data :
      (c2 : ℕ)
      → take_exactly n bs ≡ some bs
      → check_payload libs c2 (record (fields ptype_data 0 w n s c1 c2 time) { payload = block bs })
        ≡ (if crc_of libs bs == c2
            then next tt (record (fields ptype_data 0 w n s c1 c2 time) { payload = block bs })
            else exit e_crc (record (fields ptype_data 0 w n s c1 c2 time) { payload = block bs }))
  unfolding check_payload
  check_payload-data c2 again = rw again (exit_if-not (crc_of libs bs == c2) e_crc _)

  pub check_payload-fec :
      (c2 : ℕ)
      → take_exactly 512 bs ≡ some bs
      → check_payload libs c2 (record (fields ptype_fec 0 w n s c1 c2 time) { payload = block bs })
        ≡ (if crc_of libs bs == c2
            then next tt (record (fields ptype_fec 0 w n s c1 c2 time) { payload = block bs })
            else exit e_crc (record (fields ptype_fec 0 w n s c1 c2 time) { payload = block bs }))
  unfolding check_payload
  check_payload-fec c2 again = rw again (exit_if-not (crc_of libs bs == c2) e_crc _)

-- A datagram longer than any packet.
pub decode_payload-long :
    (libs : Libs) (bytes : List ℕ) (len offset n : ℕ) (pkt : Pkt)
    → ((type_is pkt.type ptype_ack || type_is pkt.type ptype_nack)
        || (type_is pkt.type ptype_data && (pkt.length == 0)))
      ≡ false
    → ltb 544 len ≡ true
    → decode_payload libs bytes len offset n pkt ≡ exit e_unconsistent pkt
unfolding decode_payload
decode_payload-long libs bytes len offset n pkt content long = rw (content, long)

-- A packet with no payload is accepted here.
pub decode_payload-none :
    (libs : Libs) (bytes : List ℕ) (len offset n : ℕ) (pkt : Pkt)
    → ((type_is pkt.type ptype_ack || type_is pkt.type ptype_nack)
        || (type_is pkt.type ptype_data && (pkt.length == 0)))
      ≡ true
    → decode_payload libs bytes len offset n pkt ≡ exit pkt_ok pkt
unfolding decode_payload
decode_payload-none libs bytes len offset n pkt empty = rw empty

-- The copy of a payload, then the check of its CRC.
pub decode_payload-start :
    (libs : Libs) (bytes : List ℕ) (len offset n c2 : ℕ) (pkt pkt' : Pkt)
    → ((type_is pkt.type ptype_ack || type_is pkt.type ptype_nack)
        || (type_is pkt.type ptype_data && (pkt.length == 0)))
      ≡ false
    → len ≤ 544
    → copy_in libs bytes offset n pkt ≡ next c2 pkt'
    → decode_payload libs bytes len offset n pkt ≡ check_payload libs c2 pkt'
unfolding decode_payload
decode_payload-start libs bytes len offset n c2 pkt pkt' content fits copied =
    rw (content, le→ltb 544 len fits, copied, ◌>>=◌)

-- The copy of a payload that fails.
pub decode_payload-stop :
    (libs : Libs) (bytes : List ℕ) (len offset n : ℕ) (status : StatusCode) (pkt pkt' : Pkt)
    → ((type_is pkt.type ptype_ack || type_is pkt.type ptype_nack)
        || (type_is pkt.type ptype_data && (pkt.length == 0)))
      ≡ false
    → len ≤ 544
    → copy_in libs bytes offset n pkt ≡ exit status pkt'
    → decode_payload libs bytes len offset n pkt ≡ exit status pkt'
unfolding decode_payload
decode_payload-stop libs bytes len offset n status pkt pkt' content fits copied =
    rw (content, le→ltb 544 len fits, copied, ◌>>=◌)
