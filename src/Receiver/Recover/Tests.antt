-- ===== src/Receiver/Recover/Tests.antt =====
-- `deal_with_fec` of src/read-write/read_write_receiver.c on concrete lists.
use projet_trtp.Base.{ℕ, ◌<◌, ◌≡◌, refl, true, List, [], ◌∷◌, some, arith, length, get_elem?}
use projet_trtp.Packet.Struct.{ptype_data, block, Pkt, Libs}
use projet_trtp.Packet.Access.{pkt_zero}
use projet_trtp.Fec.Parity.{parity}
use projet_trtp.Receiver.{Receiver, initial}
use projet_trtp.Receiver.Insert.{linked_list_add_increasing}
use projet_trtp.Receiver.Recover.{recovered, deal_with_fec}
use projet_trtp.Receiver.Recover.Hole.{deal_with_fec_lem}

abbrev libs : Libs
libs = record { malloc = λ _. true; crc32 = λ _. 0 }

abbrev carrying : (seqnum : ℕ) → List ℕ → Pkt
carrying seqnum bytes = record pkt_zero {
  type = ptype_data;
  seqnum = seqnum;
  length = length bytes;
  payload = block bytes;
}

-- The packet between 0 and 2 is missing, in a group that starts at 255.
abbrev list : List Pkt
list =
    carrying 255 (1 ∷ []) ∷ carrying 0 (2 ∷ 3 ∷ []) ∷ carrying 2 (4 ∷ []) ∷ carrying 3 (5 ∷ []) ∷ []

abbrev state : Receiver
state = record (initial []) {
  window = record { seqnum_head = 255; seqnum_tail = 3; windowsize = 9; list = list };
}

abbrev fec_pkt : Pkt
fec_pkt = record pkt_zero { seqnum = 255; length = 1; payload = block (6 ∷ []) }

deal_with_fec_lem_example :
    (bytes : List ℕ) × (deal_with_fec libs fec_pkt state
      ≡ recovered 1 (
          linked_list_add_increasing libs
            (record pkt_zero { length = 3; seqnum = 1; payload = block bytes })
            state))
    × (length bytes ≡ 512)
    × ((i : ℕ) → i < 512 → get_elem? bytes i ≡ some (parity (1 ∷ []) (2 ∷ 3 ∷ []) (4 ∷ []) 1 i))
unfolding initial
deal_with_fec_lem_example =
    deal_with_fec_lem libs fec_pkt state (carrying 255 (1 ∷ [])) (carrying 0 (2 ∷ 3 ∷ []))
      (carrying 2 (4 ∷ [])) (carrying 3 (5 ∷ [])) [] refl (omega arith) refl refl (1 ∷ [])
      (2 ∷ 3 ∷ []) (4 ∷ []) (λ k. refl)
      (record { data_type = refl; untruncated = refl; held = refl; size = refl })
      (record { data_type = refl; untruncated = refl; held = refl; size = refl })
      (record { data_type = refl; untruncated = refl; held = refl; size = refl }) (omega arith) refl
