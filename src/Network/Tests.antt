-- ===== src/Network/Tests.antt =====
-- A file in two pieces whose datagrams arrive out of order.
use projet_trtp.Base.{
  ℕ, ◌+◌, ◌*◌, ◌≡◌, refl, true, false, Bool, List, [], ◌∷◌, ◌++◌, none, some, arith, length, take,
  drop, replicate, inl,
}
use projet_trtp.Base.Bytes.{be32}
use mathlib.Core.List.{foldr}
use projet_trtp.Packet.Struct.{ptype_data, Pkt, Libs}
use projet_trtp.Packet.Access.{
  pkt_get_payload, pkt_new, pkt_set_type, pkt_set_seqnum, pkt_set_window, pkt_set_tr,
  pkt_set_length, pkt_set_timestamp, pkt_set_payload, replace_payload, release_payload,
  copy_payload,
}
use projet_trtp.Packet.Encode.{pkt_encode, encode_start}
use projet_trtp.Packet.Decode.{crc_of, pkt_decode, decode_steps}
use projet_trtp.Packet.Decode.Steps.{fields}
use projet_trtp.Receiver.{World, Receiver, initial}
use projet_trtp.Receiver.Loop.{Turn, incoming, outgoing, read_write_receiver}
use projet_trtp.Sender.Pieces.{piece}
use projet_trtp.Network.{contents, Datagram, whole, last, refused}
use projet_trtp.Network.Prefix.{read_write_receiver-Prefix}
use projet_trtp.Sender as S
use projet_trtp.Sender.{System, Sender}
use projet_trtp.Sender.Loop.{Ready, turn, write_turn, read_write_sender}
use projet_trtp.Sender.Buffer.{encode_write}
use projet_trtp.Sender.Fill.{
  data_header, data_pkt, send_data, fill_round, fill_loop, fill_window, piece_offset,
}
use projet_trtp.Sender.Resend.{resent_loop, resent_pkt}
use projet_trtp.Network.EndToEnd.{read_write_receiver-read_write_sender}

abbrev libs : Libs
libs = record { malloc = λ _. true; crc32 = λ bytes. foldr (λ b acc. b + 31 * acc) 7 bytes }

abbrev world : World
world = record { libs = libs; send = λ _ _. true; write = λ _ bytes. some (length bytes) }

abbrev file : List (List ℕ)
file = (72 ∷ 105 ∷ []) ∷ (33 ∷ []) ∷ []

abbrev datagram : Pkt → List ℕ → List ℕ
datagram pkt bytes = encode_start libs pkt ++ (bytes ++ be32 (crc_of libs bytes))

abbrev first : List ℕ
first = datagram (piece 3 0 50 (72 ∷ 105 ∷ [])) (72 ∷ 105 ∷ [])

abbrev second : List ℕ
second = datagram (piece 2 1 60 (33 ∷ [])) (33 ∷ [])

abbrev end : List ℕ
end = datagram (fields ptype_data 0 2 0 2 0 0 70) []

first-Datagram : Datagram libs file first
unfolding pkt_encode pkt_get_payload
first-Datagram = whole 0 3 50 (72 ∷ 105 ∷ []) first refl (omega arith) (omega arith) refl

second-Datagram : Datagram libs file second
unfolding pkt_encode pkt_get_payload
second-Datagram = whole 1 2 60 (33 ∷ []) second refl (omega arith) (omega arith) refl

end-Datagram : Datagram libs file end
unfolding pkt_encode pkt_get_payload
end-Datagram = last 2 70 end (omega arith) (omega arith) refl

empty-Datagram : Datagram libs file []
unfolding pkt_decode decode_steps
empty-Datagram = refused [] tt (λ old pkt b e. absurd (cc e))

abbrev turns : List Turn
turns =
    incoming (some second)
    ∷ incoming (some second)
    ∷ incoming (some [])
    ∷ outgoing
    ∷ incoming (some first)
    ∷ incoming (some first)
    ∷ incoming (some end)
    ∷ []

read_write_receiver-Prefix_example :
    (eof_wrote : Bool) × (s : Receiver) × (read_write_receiver world turns
        (initial (replicate 528 0))
      ≡ some (eof_wrote, s))
    × (s.output ≡ contents (take s.window.seqnum_head file))
    × (eof_wrote ≡ true → s.output ≡ contents file)
read_write_receiver-Prefix_example =
    read_write_receiver-Prefix world file turns (replicate 528 0) (λ k. refl) (λ output bytes. refl)
      ((omega arith, omega arith), ((omega arith, omega arith), tt)) (omega arith)
      (
        second-Datagram,
        (
          second-Datagram,
          (empty-Datagram, (tt, (first-Datagram, (first-Datagram, (end-Datagram, tt))))),
        ),
      )
      (omega arith, omega arith)

-- The same in one piece, sent in a round in which `poll` finds POLLOUT, and received twice.
abbrev text : List ℕ
text = 72 ∷ 105 ∷ 33 ∷ []

abbrev system : System
system = record {
  libs = libs;
  send = λ _ _. true;
  clock = λ n. n;
  pread = λ offset. some (take 512 (drop offset text));
}

abbrev text_datagram : List ℕ
text_datagram = datagram (piece 1 0 0 text) text

abbrev rounds : List Ready
rounds = record { writable = true; incoming = none } ∷ []

abbrev sent : Sender
sent = record (S.initial (replicate 528 0)) {
  window = record {
    seqnum_head = 0;
    seqnum_tail = 0;
    windowsize = 1;
    list = piece 1 0 0 text ∷ [];
  };
  copybuf = text_datagram ++ replicate 509 0;
  global_pkt = 1;
  stats = record (S.initial []).stats { data_sent = 1 };
  calls = 2;
  sent = text_datagram ∷ [];
}

sent_run : read_write_sender system false rounds (S.initial (replicate 528 0)) ≡ some (false, sent)
unfolding piece_offset read_write_sender turn write_turn fill_window fill_loop fill_round data_pkt
    data_header send_data encode_write resent_pkt resent_loop pkt_new pkt_set_type pkt_set_seqnum
    pkt_set_window pkt_set_tr pkt_set_length pkt_set_timestamp pkt_set_payload replace_payload
    release_payload copy_payload pkt_encode pkt_get_payload S.initial
sent_run = refl

read_write_receiver-read_write_sender_example :
    (eof_wrote : Bool) × (r : Receiver) × (read_write_receiver world
        (incoming (some text_datagram) ∷ outgoing ∷ incoming (some text_datagram) ∷ [])
        (initial (replicate 528 0))
      ≡ some (eof_wrote, r))
    × ((rest : List ℕ) × (r.output ++ rest ≡ text))
    × (eof_wrote ≡ true → r.output ≡ text)
unfolding S.initial
read_write_receiver-read_write_sender_example =
    read_write_receiver-read_write_sender system world text rounds
      (incoming (some text_datagram) ∷ outgoing ∷ incoming (some text_datagram) ∷ [])
      (replicate 528 0) (replicate 528 0) false sent refl (λ k. refl) (λ sent bytes. refl)
      (λ output bytes. refl) (λ offset. refl) (omega arith, (omega arith, (omega arith, tt)))
      (λ e. absurd (cc e)) (omega arith) (omega arith, omega arith) (omega arith, omega arith)
      (1, omega arith, (inl refl, tt), tt, tt) sent_run (inl (inl refl), (tt, (inl (inl refl), tt)))
