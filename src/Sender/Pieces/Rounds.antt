-- ===== src/Sender/Pieces/Rounds.antt =====
-- One round of `fill_window` of src/read-write/read_write_sender.c.
use projet_trtp.Base.{
  ℕ, suc, ◌+◌, ◌%◌, ◌^◌, ◌≤◌, ◌<◌, ◌≡◌, ◌≢◌, refl, ap, ◌∙◌, Bool, true, false, not, ◌&&◌, List, [],
  ◌∷◌, ◌++◌, Option, some, arith, length, drop, ltb, ne→==,
}
use projet_trtp.Packet.Struct.{Pkt}
use projet_trtp.Packet.RoundTrip.{decode-encode}
use projet_trtp.Packet.RoundTrip.Wire.{IsSendable}
use projet_trtp.Receiver.{overwrite}
use projet_trtp.Sender.{System, Sender}
use projet_trtp.Sender.Fill.{piece_offset, set_head, read_piece, fill_piece, fill_round, fill_loop}
use projet_trtp.Sender.Pieces.{piece, data_pkt_lem, Sent, send_data_lem, set_head_lem}

module _ (system : System) (mem : (k : ℕ) → system.libs.malloc k ≡ true)
    (sends : (sent : List (List ℕ)) (bytes : List ℕ) → system.send sent bytes ≡ true) where
  piece_round :
      (bytes rest : List ℕ) (s : Sender)
      → s.window.windowsize ≤ 31
      → length bytes ≢ 0
      → length bytes ≤ 512
      → (s' : Sender) × (time : ℕ) × (fill_piece system false s (bytes ++ rest, length bytes)
          ≡ some (true, s'))
        × (time < 2 ^ 32)
        × Sent system.libs
            (record s { copybuf = bytes ++ rest })
            s'
            (piece s.window.windowsize (s.global_pkt % 256) time bytes)
  piece_round bytes rest s small full fits =
      let time : ℕ = system.clock s.calls % 2 ^ 32 in
      let pkt : Pkt = piece s.window.windowsize (s.global_pkt % 256) time bytes in
      let s1 : Sender = record s { copybuf = bytes ++ rest; calls = s.calls + 1 } in
      let made =
        data_pkt_lem system bytes rest (record s { copybuf = bytes ++ rest }) mem small refl full
          fits in
      let fields : IsSendable pkt = record {
        window = omega arith;
        tr = refl;
        seqnum = omega arith;
        timestamp = omega arith;
      } in
      let (out, encoded, size, d) =
        decode-encode system.libs mem pkt bytes [] fields (refl, refl, full, fits) in
      let h = set_head_lem s1 in
      let (s', e, sent) = send_data_lem system pkt out (set_head s1) mem encoded sends in
      (
        s',
        time,
        rw (fill_piece, ne→== (length bytes) 0 full, made) e,
        omega arith,
        record {
          list = sent.list ∙ ap (λ (l : List Pkt). l ++ (pkt ∷ [])) h.list;
          windowsize = sent.windowsize ∙ h.windowsize;
          global_pkt = sent.global_pkt ∙ ap (λ (k : ℕ). k + 1) h.global_pkt;
          eof_reached = sent.eof_reached ∙ h.eof_reached;
          tail = sent.tail ∙ ap (λ (k : ℕ). k % 256) h.global_pkt;
          out = sent.out;
          encoded = sent.encoded;
          sent = sent.sent ∙ ap (λ (l : List (List ℕ)). l ++ (sent.out ∷ [])) h.sent;
          last_pkt = sent.last_pkt ∙ h.last_pkt;
          buffer = sent.buffer ∙ ap (overwrite sent.out) h.copybuf;
        },
      )

  pub round_end :
      (s : Sender)
      → system.pread (piece_offset s.global_pkt) ≡ some []
      → fill_round system false s ≡ some (false, record s { eof_reached = true })
  unfolding fill_round
  round_end s e = ap (λ (o : Option (List ℕ)). fill_piece system false s (read_piece o s.copybuf)) e

  pub round_piece :
      (bytes : List ℕ) (s : Sender)
      → system.pread (piece_offset s.global_pkt) ≡ some bytes
      → s.window.windowsize ≤ 31
      → length bytes ≢ 0
      → length bytes ≤ 512
      → (s' : Sender) × (time : ℕ) × (fill_round system false s ≡ some (true, s'))
        × (time < 2 ^ 32)
        × Sent system.libs
            (record s { copybuf = overwrite bytes s.copybuf })
            s'
            (piece s.window.windowsize (s.global_pkt % 256) time bytes)
  unfolding fill_round
  round_piece bytes s e small full fits =
      let (s', time, round, early, sent) =
        piece_round bytes (drop (length bytes) s.copybuf) s small full fits in
      (
        s',
        time,
        ap (λ (o : Option (List ℕ)). fill_piece system false s (read_piece o s.copybuf)) e ∙ round,
        early,
        sent,
      )

  abbrev pub HasPlace : Sender → Type 0
  HasPlace s = (ltb (length s.window.list) s.window.windowsize && not s.eof_reached) ≡ true

  pub step_on :
      (fuel : ℕ) (s s1 : Sender)
      → HasPlace s
      → fill_round system false s ≡ some (true, s1)
      → fill_loop system false (suc fuel) s ≡ fill_loop system false fuel s1
  unfolding fill_loop
  step_on fuel s s1 place round = rw (fill_loop, place, round)

  pub step_end :
      (fuel : ℕ) (s s1 : Sender)
      → HasPlace s
      → fill_round system false s ≡ some (false, s1)
      → fill_loop system false (suc fuel) s ≡ some s1
  unfolding fill_loop
  step_end fuel s s1 place round = rw (fill_loop, place, round)

  pub step_full :
      (fuel : ℕ) (s : Sender)
      → ltb (length s.window.list) s.window.windowsize ≡ false
      → fill_loop system false (suc fuel) s ≡ some s
  unfolding fill_loop
  step_full fuel s full = rw (fill_loop, full)

  pub has_place_lem :
      (s : Sender)
      → ltb (length s.window.list) s.window.windowsize ≡ true
      → s.eof_reached ≡ false
      → HasPlace s
  has_place_lem s place open_file =
      ap (λ (b : Bool). b && not s.eof_reached) place ∙ ap not open_file
