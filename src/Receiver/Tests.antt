-- ===== src/Receiver/Tests.antt =====
-- Runs of the receiver of src/read-write/read_write_receiver.c, and the theorems about it at concrete
-- states.
use projet_trtp.Base.{
  ℕ, ◌+◌, ◌*◌, ◌≤◌, ◌<◌, ◌≡◌, refl, true, false, Bool, List, [], ◌∷◌, ◌++◌, some, none, arith,
  length, replicate,
}
use mathlib.Core.List.{foldr}
use projet_trtp.Packet.Struct.{ptype_data, ptype_ack, pkt_ok, block, Pkt}
use projet_trtp.Packet.Access.{pkt_zero, pkt_get_payload}
use projet_trtp.Packet.Decode.{pkt_decode}
use projet_trtp.Window.{is_in_window}
use projet_trtp.Receiver.{World, Receiver, initial}
use projet_trtp.Receiver.Response.{exit_success, decrease_window, send_ack}
use projet_trtp.Receiver.Shrink.{Shrunk, halved, decrease_window_lem}
use projet_trtp.Receiver.Answers.{send_ack_lem}
use projet_trtp.Receiver.Insert.{insert}
use projet_trtp.Receiver.Order.{Inserted, insert-Inserted}
use projet_trtp.Receiver.Flush.{flush_loop, flush_file, written}
use projet_trtp.Receiver.Flushes.{Flushed, flush_file-IsRun, flush_file-IsRun_end}
use projet_trtp.Receiver.Loop.{Turn, incoming, outgoing, read_write_receiver}
use projet_trtp.Receiver.History.{Decoded}
use projet_trtp.Receiver.Sound.{IsWindow}
use projet_trtp.Receiver.Delivery.{
  Delivered, read_write_receiver-IsWindow, read_write_receiver-Delivered,
}
use projet_trtp.Receiver.Progress.Transfer.{
  Chunk, Brings, Transferred, contents, read_write_receiver-Transferred,
}

-- A checksum in place of the CRC; every call of the system does all of its work.
abbrev world : World
world = record {
  libs = record { malloc = λ _. true; crc32 = λ bytes. foldr (λ b acc. b + 31 * acc) 7 bytes };
  send = λ _ _. true;
  write = λ _ bytes. some (length bytes);
}

abbrev numbered : ℕ → List ℕ → Pkt
numbered seqnum bytes = record pkt_zero {
  type = ptype_data;
  length = length bytes;
  seqnum = seqnum;
  payload = block bytes;
}

-- The packets 254, 255 and 0 are there, 1 is missing, 2 is there.
abbrev run : List Pkt
run = numbered 254 (1 ∷ 2 ∷ []) ∷ numbered 255 (3 ∷ []) ∷ numbered 0 (4 ∷ []) ∷ []

abbrev state : List Pkt → Receiver
state list = record (initial []) {
  window = record { seqnum_head = 254; seqnum_tail = 2; windowsize = 9; list = list };
}

flush_test :
    flush_file world (state (run ++ (numbered 2 (5 ∷ []) ∷ [])))
    ≡ some (
      some 3,
      record (state (numbered 2 (5 ∷ []) ∷ [])) {
        window = record {
          seqnum_head = 1;
          seqnum_tail = 2;
          windowsize = 9;
          list = numbered 2 (5 ∷ []) ∷ [];
        };
        output = 1 ∷ 2 ∷ 3 ∷ 4 ∷ [];
      },
    )
unfolding flush_file initial flush_loop pkt_get_payload written
flush_test = refl

flush_file-IsRun_example :
    (s' : Receiver) × (flush_file world (state (run ++ (numbered 2 (5 ∷ []) ∷ [])))
      ≡ some (some 3, s'))
    × Flushed
        (state (run ++ (numbered 2 (5 ∷ []) ∷ [])))
        s'
        run
        (numbered 2 (5 ∷ []) ∷ [])
        (1 ∷ 2 ∷ 3 ∷ 4 ∷ [])
unfolding pkt_get_payload
flush_file-IsRun_example =
    flush_file-IsRun world run (numbered 2 (5 ∷ []) ∷ []) (1 ∷ 2 ∷ 3 ∷ 4 ∷ [])
      (state (run ++ (numbered 2 (5 ∷ []) ∷ []))) (λ output bytes. refl) (omega arith) refl
      (
        refl,
        omega arith,
        (
          1 ∷ 2 ∷ [],
          3 ∷ 4 ∷ [],
          refl,
          refl,
          (
            refl,
            omega arith,
            (3 ∷ [], 4 ∷ [], refl, refl, (refl, omega arith, (4 ∷ [], [], refl, refl, refl))),
          ),
        ),
      )
      (omega arith)

flush_file-IsRun_end_example :
    (s' : Receiver) × (flush_file world (state (numbered 254 (1 ∷ []) ∷ numbered 255 [] ∷ []))
      ≡ some (none, s'))
    × (s'.output ≡ 1 ∷ [])
    × (s'.window.seqnum_head ≡ 0)
    × (s'.last_timestamp ≡ 0)
unfolding pkt_get_payload initial
flush_file-IsRun_end_example =
    flush_file-IsRun_end world (numbered 254 (1 ∷ []) ∷ []) (numbered 255 []) [] (1 ∷ [])
      (state (numbered 254 (1 ∷ []) ∷ numbered 255 [] ∷ [])) (λ output bytes. refl) (omega arith)
      refl (refl, omega arith, (1 ∷ [], [], refl, refl, refl)) refl refl

insert-Inserted_example :
    Inserted
      (state (run ++ (numbered 2 [] ∷ []))).window
      (numbered 1 [])
      (run ++ (numbered 2 [] ∷ []))
      (insert
        (state (run ++ (numbered 2 [] ∷ []))).window
        (numbered 1 [])
        (run ++ (numbered 2 [] ∷ [])))
unfolding is_in_window
insert-Inserted_example =
    insert-Inserted (state (run ++ (numbered 2 [] ∷ []))).window (numbered 1 [])
      (run ++ (numbered 2 [] ∷ [])) (omega arith) (omega arith, refl)
      (
        (omega arith, refl),
        (
          (omega arith, (omega arith, (omega arith, tt))),
          (
            (omega arith, refl),
            (
              (omega arith, (omega arith, tt)),
              ((omega arith, refl), ((omega arith, tt), ((omega arith, refl), (tt, tt)))),
            ),
          ),
        ),
      )

decrease_window_example :
    (s' : Receiver) × (decrease_window (state (run ++ run)) ≡ some s')
    × (4 < 9 → Shrunk (halved (state (run ++ run))) s'.window × (s'.eof_reached ≡ false))
    × (9 ≤ 4 → s' ≡ state (run ++ run))
decrease_window_example = decrease_window_lem (state (run ++ run))

send_ack_example :
    (s' : Receiver) × (out : List ℕ) × (pkt : Pkt) × (send_ack world 77 (state run)
      ≡ some (exit_success, s'))
    × (s'.sent ≡ [] ++ (out ∷ []))
    × (s'.window ≡ (state run).window)
    × (pkt_decode world.libs (out ++ (1 ∷ [])) (length out) pkt_zero ≡ some (pkt_ok, pkt))
    × (pkt.type ≡ ptype_ack)
    × (pkt.seqnum ≡ 254)
    × (pkt.window ≡ 9)
    × (pkt.timestamp ≡ 77)
unfolding initial
send_ack_example =
    send_ack_lem world (state run) 77 (1 ∷ []) (λ k. refl) (λ sent out. refl) (omega arith)
      (omega arith) (omega arith)

-- A datagram of noise, a failed read, and the acknowledgement.
abbrev noise : List Turn
noise = incoming (some (64 ∷ 1 ∷ 2 ∷ [])) ∷ incoming none ∷ outgoing ∷ []

read_write_receiver-IsWindow_example :
    (eof_wrote : Bool) × (s : Receiver) × (read_write_receiver world noise
        (initial (replicate 528 0))
      ≡ some (eof_wrote, s))
    × IsWindow (Decoded world.libs noise (replicate 528 0)) s.window
read_write_receiver-IsWindow_example =
    read_write_receiver-IsWindow world noise (replicate 528 0) (λ k. refl)
      ((omega arith, (omega arith, (omega arith, tt))), (tt, (tt, tt))) (omega arith, omega arith)

read_write_receiver-Delivered_example :
    (eof_wrote : Bool) × (s : Receiver) × (read_write_receiver world noise
        (initial (replicate 528 0))
      ≡ some (eof_wrote, s))
    × Delivered world.libs noise (replicate 528 0) s.window.seqnum_head s.output
read_write_receiver-Delivered_example =
    read_write_receiver-Delivered world noise (replicate 528 0) (λ k. refl) (λ output bytes. refl)
      ((omega arith, (omega arith, (omega arith, tt))), (tt, (tt, tt))) (omega arith, omega arith)

abbrev file : List Chunk
file =
    record { timestamp = 5; bytes = 72 ∷ 105 ∷ [] } ∷ record { timestamp = 6; bytes = 33 ∷ [] } ∷ []

read_write_receiver-Transferred_example :
    (turns : List Turn) × (s' : Receiver) × Brings world.libs 3 0 file turns
    × (read_write_receiver world turns (initial (replicate 528 0)) ≡ some (false, s'))
    × Transferred (initial (replicate 528 0)) s' (contents file) 2
unfolding initial
read_write_receiver-Transferred_example =
    read_write_receiver-Transferred world 3 file (initial (replicate 528 0)) (λ k. refl)
      (λ output bytes. refl) (omega arith)
      (
        record { timestamp = omega arith; full = omega arith; small = omega arith },
        (record { timestamp = omega arith; full = omega arith; small = omega arith }, tt),
      )
      (record {
        head = omega arith;
        low = omega arith;
        high = omega arith;
        empty = refl;
        more = refl;
      })
