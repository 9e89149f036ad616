-- ===== src/Sender/Fill.antt =====
-- `fill_window` of src/read-write/read_write_sender.c.
use projet_trtp.Base.{
  ℕ, zero, suc, ◌+◌, ◌-◌, ◌*◌, ◌%◌, ◌^◌, Bool, true, false, ◌&&◌, not, List, [], ◌∷◌, ◌++◌, Option,
  none, some, ltb, map, ◌==◌, if◌then◌else◌, length, drop,
}
use projet_trtp.Packet.Struct.{max_payload_size, Pkt, Libs}
use projet_trtp.Packet.Access.{
  pkt_new, pkt_set_type, pkt_set_tr, pkt_set_window, pkt_set_seqnum, pkt_set_timestamp,
  pkt_set_payload,
}
use projet_trtp.Fec.{fec_generation}
use projet_trtp.Sender.{System, FecSlot, Sender, time_millis}
use projet_trtp.Sender.Buffer.{add_pkt, encode_write}

-- The setters in front of `pkt_set_payload`, whose statuses are not looked at.
unfoldable pub data_header : (windowsize seqnum : ℕ) → Pkt → Pkt
unfolding pkt_set_type pkt_set_seqnum pkt_set_window pkt_set_tr
data_header windowsize seqnum pkt =
    (pkt_set_tr (pkt_set_window (pkt_set_seqnum (pkt_set_type pkt 1).1 seqnum).1 windowsize).1 0).1

-- The packet with its payload, of which `bytes_read` is the length.
unfoldable pub data_pkt : System → (bytes_read : ℕ) → Sender → Option (Pkt × Sender)
unfolding pkt_set_timestamp
data_pkt system bytes_read s = elim (pkt_new system.libs) [
  | none ↦ none
  | some pkt ↦
      elim (pkt_set_payload system.libs (data_header s.window.windowsize (s.global_pkt % 256) pkt)
        s.copybuf (bytes_read % 2 ^ 16)) [
          | none ↦ none
          | some (status, pkt1) ↦
              (let (time, s1) = time_millis system s in some ((pkt_set_timestamp pkt1 time).1, s1))
        ]
]

-- `fec_generation` on the four pointers, each of which must be to a packet.
abbrev pub generate : Libs → List (Option Pkt) → Option Pkt
generate libs (some pkt1 ∷ some pkt2 ∷ some pkt3 ∷ some pkt4 ∷ []) =
    fec_generation libs pkt1 pkt2 pkt3 pkt4
generate libs _ = none

-- The parity packet, once four packets are there; the Boolean tells whether the loop goes on.
abbrev pub send_fec : System → Sender → Option (Bool × Sender)
send_fec system s =
    if length s.fec == 4
    then elim (generate system.libs (map (λ (slot : FecSlot). slot.pkt) s.fec)) [
      | none ↦ none
      | some fec_pkt ↦ elim (encode_write system fec_pkt s) [
        | none ↦ none
        | some (sent, s1) ↦
            if sent
            then some (
              true,
              record s1 { stats = record s1.stats { fec_sent = s1.stats.fec_sent + 1 }; fec = [] },
            )
            else some (false, s1)
      ]
    ]
    else some (true, s)

-- `fec->pkts[fec->i] = pkt; ++fec->i;`; the array has four places. The packet is the last of the list.
abbrev pub fec_turn : System → (fec_enable : Bool) → Pkt → Sender → Option (Bool × Sender)
fec_turn system fec_enable pkt s =
    if fec_enable
    then (if ltb (length s.fec) 4
        then send_fec system (record s {
          fec = s.fec ++ (record { place = length s.window.list - 1; pkt = some pkt } ∷ []);
        })
        else none)
    else some (true, s)

-- The last statements of a round.
abbrev pub count_pkt : Bool × Sender → Bool × Sender
count_pkt (true, s) = (
  true,
  record s {
    window = record s.window { seqnum_tail = s.global_pkt % 256 };
    global_pkt = s.global_pkt + 1;
    stats = record s.stats { data_sent = s.stats.data_sent + 1 };
  },
)
count_pkt (false, s) = (false, s)

-- `if (list->size == 0) window->seqnumHead = sendingSeqnum;`.
abbrev pub set_head : Sender → Sender
set_head s = elim s.window.list [
  | [] ↦ record s { window = record s.window { seqnum_head = s.global_pkt % 256 } }
  | _ ∷ _ ↦ s
]

-- From `linkedList_add_pkt` on.
unfoldable pub send_data : System → (fec_enable : Bool) → Pkt → Sender → Option (Bool × Sender)
send_data system fec_enable pkt s = elim (add_pkt system pkt s) [
  | none ↦ none
  | some s1 ↦ elim (encode_write system pkt s1) [
    | none ↦ none
    | some (sent, s2) ↦
        if sent
        then elim (fec_turn system fec_enable pkt s2) [ none ↦ none | some r ↦ some (count_pkt r) ]
        else some (false, s2)
  ]
]

-- What `pread` leaves in `copybuf`, and its result: -1 becomes 65535 as the `uint16_t` of
-- `pkt_set_payload`.
abbrev pub read_piece : Option (List ℕ) → List ℕ → List ℕ × ℕ
read_piece none copybuf = (copybuf, 2 ^ 16 - 1)
read_piece (some bytes) copybuf = (bytes ++ drop (length bytes) copybuf, length bytes)

-- A round of the loop; the Boolean tells whether it goes on.
abbrev pub fill_piece : System → (fec_enable : Bool) → Sender → List ℕ × ℕ → Option (Bool × Sender)
fill_piece system fec_enable s (copybuf, bytes_read) =
    if bytes_read == 0
    then some (false, record s { copybuf = copybuf; eof_reached = true })
    else elim (data_pkt system bytes_read (record s { copybuf = copybuf })) [
      | none ↦ none
      | some (pkt, s1) ↦ send_data system fec_enable pkt (set_head s1)
    ]

-- `MAX_PAYLOAD_SIZE * global_pkt`, a `uint64_t`.
unfoldable pub piece_offset : (global_pkt : ℕ) → ℕ
piece_offset global_pkt = max_payload_size * global_pkt % 2 ^ 64

unfoldable pub fill_round : System → (fec_enable : Bool) → Sender → Option (Bool × Sender)
fill_round system fec_enable s =
    fill_piece system fec_enable s (read_piece (system.pread (piece_offset s.global_pkt)) s.copybuf)

-- The loop, in at most `fuel` rounds.
unfoldable pub fill_loop : System → (fec_enable : Bool) → (fuel : ℕ) → Sender → Option Sender
fill_loop system fec_enable zero s = some s
fill_loop system fec_enable (suc fuel) s =
    if ltb (length s.window.list) s.window.windowsize && not s.eof_reached
    then elim (fill_round system fec_enable s) [
      | none ↦ none
      | some (goes_on, s1) ↦ elim goes_on [
        | true ↦ fill_loop system fec_enable fuel s1
        | false ↦ some s1
      ]
    ]
    else some s

-- A round that goes on fills a place, so that as many rounds as there are places are enough.
unfoldable pub fill_window : System → (fec_enable : Bool) → Sender → Option Sender
fill_window system fec_enable s = fill_loop system fec_enable s.window.windowsize s
