-- ===== src/Receiver/Flush.antt =====
-- `flush_file` of src/read-write/read_write_receiver.c.
use projet_trtp.Base.{
  ℕ, ◌+◌, ◌%◌, true, List, [], ◌∷◌, ◌++◌, Option, none, some, ◌==◌, if◌then◌else◌, take,
}
use projet_trtp.Packet.Struct.{Pkt}
use projet_trtp.Packet.Access.{pkt_get_payload}
use projet_trtp.Packet.Decode.{payload_bytes}
use projet_trtp.Window.{WindowPkt}
use projet_trtp.Receiver.{World, Receiver}

-- `window->seqnumHead = (window->seqnumHead + 1) % 256`.
abbrev pub next_head : WindowPkt → WindowPkt
next_head window = record window { seqnum_head = (window.seqnum_head + 1) % 256 }

-- The packet at the head is written: `n` bytes of it have left, and `pkts` are behind it.
unfoldable pub written : Pkt → List Pkt → List ℕ → Receiver → Receiver
written pkt pkts bytes s =
    let window = next_head s.window in
    record s {
      window = record window {
        list = pkts;
        seqnum_tail = (elim pkts [ [] ↦ window.seqnum_head | _ ∷ _ ↦ window.seqnum_tail ]);
      };
      last_timestamp = pkt.timestamp;
      output = s.output ++ bytes;
    }

-- The packet with which the file ends.
unfoldable pub file_end : Pkt → Receiver → Receiver
file_end pkt s = record s { window = next_head s.window; last_timestamp = pkt.timestamp }

-- The loop, on the window's list, with `packet_write`. The result `none` is -1. Where the list has
-- run empty the loop ends.
unfoldable pub flush_loop :
    World → (packet_write : ℕ) → List Pkt → Receiver → Option (Option ℕ × Receiver)
flush_loop world packet_write [] s = some (some packet_write, record s { resent_ack = true })
flush_loop world packet_write (pkt ∷ pkts) s =
    if s.window.seqnum_head == pkt.seqnum
    then (if pkt.length == 0
        then some (none, file_end pkt s)
        else elim (payload_bytes pkt.length (pkt_get_payload pkt)) [
          | none ↦ none
          | some bytes ↦ elim (world.write s.output bytes) [
            | none ↦ some (none, s)
            | some n ↦ flush_loop world (packet_write + 1) pkts (written pkt pkts (take n bytes) s)
          ]
        ])
    else some (some packet_write, s)

-- The number of packets written, or `none` for -1.
unfoldable pub flush_file : World → Receiver → Option (Option ℕ × Receiver)
flush_file world s = flush_loop world 0 s.window.list s
