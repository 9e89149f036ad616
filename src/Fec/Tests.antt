-- ===== src/Fec/Tests.antt =====
-- `fec_generation` of src/fec.c at concrete packets.
use projet_trtp.Base.{ℕ, ◌<◌, ◌≡◌, refl, true, List, [], ◌∷◌, some, arith, get_elem?, length}
use projet_trtp.Packet.Struct.{ptype_data, block, Pkt, Libs}
use projet_trtp.Packet.Access.{pkt_zero}
use projet_trtp.Fec.{fec_generation}
use projet_trtp.Fec.Parity.{parity, fec_generation_same, fec_generation-parity}

abbrev libs : Libs
libs = record { malloc = λ _. true; crc32 = λ _. 0 }

abbrev carrying : List ℕ → Pkt
carrying bytes = record pkt_zero { type = ptype_data; length = length bytes; payload = block bytes }

fec_generation_same_example :
    fec_generation libs
      (carrying (1 ∷ []))
      (carrying (2 ∷ []))
      (carrying (4 ∷ []))
      (carrying (8 ∷ []))
    ≡ fec_generation libs
        (carrying (1 ∷ []))
        (carrying (2 ∷ []))
        (carrying (4 ∷ []))
        (carrying (9 ∷ []))
fec_generation_same_example =
    fec_generation_same libs (carrying (1 ∷ [])) (carrying (2 ∷ [])) (carrying (4 ∷ []))
      (carrying (8 ∷ [])) (carrying (9 ∷ [])) refl

fec_generation-parity_example :
    (bytes : List ℕ) × (fec_generation libs
        (carrying (1 ∷ []))
        (carrying (2 ∷ 3 ∷ []))
        (carrying (4 ∷ []))
        (carrying (8 ∷ []))
      ≡ some (record pkt_zero { length = 3; seqnum = 0; payload = block bytes }))
    × (length bytes ≡ 512)
    × ((i : ℕ) → i < 512 → get_elem? bytes i ≡ some (parity (1 ∷ []) (2 ∷ 3 ∷ []) (4 ∷ []) 1 i))
fec_generation-parity_example =
    fec_generation-parity (carrying (1 ∷ [])) (carrying (2 ∷ 3 ∷ [])) (carrying (4 ∷ []))
      (carrying (8 ∷ [])) (1 ∷ []) (2 ∷ 3 ∷ []) (4 ∷ [])
      (record { data_type = refl; untruncated = refl; held = refl; size = refl })
      (record { data_type = refl; untruncated = refl; held = refl; size = refl })
      (record { data_type = refl; untruncated = refl; held = refl; size = refl }) (omega arith) libs
      (λ k. refl)
