-- ===== src/Packet/Access.antt =====
-- `pkt_new`, the getters and the setters of src/packet_implem.c. A setter returns its status and
-- the packet; `none` is undefined behaviour of C (a double free, a read outside a block).
pub mod Laws
use projet_trtp.Base.{
  ℕ, ◌≤◌, ◌<◌, ◌^◌, Bool, true, false, ◌&&◌, ◌||◌, not, List, Option, none, some, ltb, ◌==◌,
  if◌then◌else◌,
}
use projet_trtp.Base.Bytes.{take_exactly}
use projet_trtp.Packet.Struct.{
  max_payload_size, max_window_size, sizeof_pkt, Ptypes, ptype_fec, ptype_data, ptype_ack,
  ptype_nack, type_is, ptype_of, StatusCode, pkt_ok, e_type, e_tr, e_length, e_crc, e_window,
  e_nomem, Payload, null, block, freed, Pkt, Libs,
}

-- The packet that `pkt_new` fills in.
abbrev pub pkt_zero : Pkt
pkt_zero = record {
  type = ptype_fec;
  tr = 0;
  window = 0;
  length = 0;
  seqnum = 0;
  timestamp = 0;
  crc1 = 0;
  payload = null;
  crc2 = 0;
}

-- `none` is NULL.
unfoldable pub pkt_new : Libs → Option Pkt
pkt_new libs = if libs.malloc sizeof_pkt then some pkt_zero else none

abbrev pub has_payload : Pkt → Bool
has_payload pkt = (type_is pkt.type ptype_data && (pkt.tr == 0)) || type_is pkt.type ptype_fec

unfoldable pub pkt_get_crc2 : Pkt → ℕ
pkt_get_crc2 pkt = if has_payload pkt then pkt.crc2 else 0

unfoldable pub pkt_get_payload : Pkt → Payload
pkt_get_payload pkt = if has_payload pkt then pkt.payload else null

unfoldable pub pkt_set_type : Pkt → ℕ → StatusCode × Pkt
unfolding ptype_of
pkt_set_type pkt type = elim (ptype_of type) [
  | none ↦ (e_type, pkt)
  | some t ↦ (pkt_ok, record pkt { type = t })
]

unfoldable pub pkt_set_tr : Pkt → ℕ → StatusCode × Pkt
pkt_set_tr pkt tr =
    if not (tr == 0) && not (tr == 1)
    then (e_tr, pkt)
    else if (tr == 1) && not (type_is pkt.type ptype_data)
    then (e_tr, pkt)
    else (pkt_ok, record pkt { tr = tr })

unfoldable pub pkt_set_window : Pkt → ℕ → StatusCode × Pkt
pkt_set_window pkt window =
    if ltb max_window_size window then (e_window, pkt) else (pkt_ok, record pkt { window = window })

unfoldable pub pkt_set_seqnum : Pkt → ℕ → StatusCode × Pkt
pkt_set_seqnum pkt seqnum = (pkt_ok, record pkt { seqnum = seqnum })

unfoldable pub pkt_set_length : Pkt → ℕ → StatusCode × Pkt
pkt_set_length pkt length =
    if (not (type_is pkt.type ptype_data) && not (type_is pkt.type ptype_fec))
      || ltb max_payload_size length
    then (e_length, pkt)
    else (pkt_ok, record pkt { length = length })

unfoldable pub pkt_set_timestamp : Pkt → ℕ → StatusCode × Pkt
pkt_set_timestamp pkt timestamp = (pkt_ok, record pkt { timestamp = timestamp })

unfoldable pub pkt_set_crc1 : Pkt → ℕ → StatusCode × Pkt
pkt_set_crc1 pkt crc1 = (pkt_ok, record pkt { crc1 = crc1 })

unfoldable pub pkt_set_crc2 : Pkt → ℕ → StatusCode × Pkt
pkt_set_crc2 pkt crc2 =
    if (pkt.length == 0) || (pkt.tr == 1)
    then (e_crc, pkt)
    else (pkt_ok, record pkt { crc2 = crc2 })

-- `free(pkt->payload)` under its guard; the pointer itself is not cleared.
unfoldable pub release_payload : Pkt → Option Pkt
unfolding pkt_get_payload
release_payload pkt = elim (pkt_get_payload pkt) [
  | null ↦ some pkt
  | block _ ↦ some (record pkt { payload = freed })
  | freed ↦ none
]

-- `pkt->payload = malloc(n)` and the copy of `n` bytes into it.
unfoldable pub copy_payload : Libs → Pkt → List ℕ → ℕ → Option (StatusCode × Pkt)
copy_payload libs pkt source n =
    if libs.malloc n
    then elim (take_exactly n source) [
      | none ↦ none
      | some bytes ↦ some (pkt_ok, record pkt { payload = block bytes })
    ]
    else some (e_nomem, record pkt { payload = null })

-- The part of `pkt_set_payload` behind the check of the length.
unfoldable pub replace_payload : Libs → Pkt → List ℕ → ℕ → Option (StatusCode × Pkt)
unfolding release_payload copy_payload
replace_payload libs pkt source length = elim (release_payload pkt) [
  | none ↦ none
  | some pkt' ↦ elim pkt.type [
    | ptype_data ↦ if length == 0 then some (pkt_ok, pkt') else copy_payload libs pkt' source length
    | ptype_fec ↦ copy_payload libs pkt' source max_payload_size
    | _ ↦ some (pkt_ok, pkt')
  ]
]

-- `source` is the readable memory from the pointer `data` on.
unfoldable pub pkt_set_payload : Libs → Pkt → List ℕ → ℕ → Option (StatusCode × Pkt)
unfolding pkt_set_length replace_payload
pkt_set_payload libs pkt source length =
    if type_is pkt.type ptype_data
    then (let (status, pkt') = pkt_set_length pkt length in
        elim status [
          | pkt_ok ↦ replace_payload libs pkt' source length
          | _ ↦ some (e_length, pkt')
        ])
    else replace_payload libs pkt source length

-- The header's length in bytes. The result -1 is for none of the four types.
unfoldable pub predict_header_length : Ptypes → ℕ
predict_header_length ptype_data = 8
predict_header_length ptype_fec = 8
predict_header_length ptype_ack = 6
predict_header_length ptype_nack = 6
