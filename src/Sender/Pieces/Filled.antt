-- ===== src/Sender/Pieces/Filled.antt =====
-- The pieces of the file that `fill_window` of src/read-write/read_write_sender.c sends.
use projet_trtp.Base.{
  nil_cases, ◌-◌, ℕ, zero, suc, ◌+◌, ◌%◌, ◌^◌, ◌<◌, ◌≤◌, ◌≡◌, ◌≢◌, refl, ap, sym, ◌∙◌, ◌⊎◌, inl,
  inr, true, false, List, [], ◌∷◌, ◌++◌, some, arith, length, ltb, ◌==◌, ltb→lt, ltb→le, Bool-cases,
  length-append, append_nil, append_assoc, subst,
}
use projet_trtp.Base.Bytes.{FirstByte}
use projet_trtp.Packet.Struct.{pkt_ok, Libs, Pkt}
use projet_trtp.Packet.Encode.{pkt_encode}
use projet_trtp.Packet.Encode.First.{encode-FirstByte}
use projet_trtp.Receiver.{overwrite}
use projet_trtp.Receiver.Sound.{IsBuffer}
use projet_trtp.Receiver.Sound.Keep.{overwrite-IsBuffer}
use projet_trtp.Sender.{System, Sender}
use projet_trtp.Sender.Fill.{piece_offset, fill_loop, fill_window}
use projet_trtp.Sender.Pieces.{piece, Sent}
use projet_trtp.Sender.Pieces.Rounds.{
  round_end, round_piece, step_on, step_end, step_full, has_place_lem,
}

-- The packet carries a piece of the file, under its number modulo 256.
abbrev pub IsPiece : System → (number : ℕ) → Pkt → Type 0
IsPiece system number pkt =
    (window timestamp : ℕ) × (bytes : List ℕ) × (window ≤ 31)
    × (timestamp < 2 ^ 32)
    × (system.pread (piece_offset number) ≡ some bytes)
    × (length bytes ≢ 0)
    × (length bytes ≤ 512)
    × (pkt ≡ piece window (number % 256) timestamp bytes)

-- The packets carry the pieces of the file from a number on, in order.
abbrev pub IsPieces : System → (number : ℕ) → List Pkt → Type 0
IsPieces system number [] = Unit {0}
IsPieces system number (pkt ∷ pkts) = IsPiece system number pkt × IsPieces system (number + 1) pkts

-- The datagrams are the packets as `pkt_encode` writes them.
abbrev pub AreEncoded : Libs → List Pkt → List (List ℕ) → Type 0
AreEncoded libs [] [] = Unit {0}
AreEncoded libs (pkt ∷ pkts) (out ∷ outs) =
    (pkt_encode libs pkt 528 ≡ some (pkt_ok, out)) × AreEncoded libs pkts outs
AreEncoded libs _ _ = ⊥

-- What `pread` finds begins with a byte.
abbrev pub BytesRead : System → Type 0
BytesRead system =
    (offset : ℕ) (bytes : List ℕ) → system.pread offset ≡ some bytes → FirstByte bytes

-- What a call of `fill_window` leaves: the new packets are behind the old ones, their datagrams have been
-- sent, and the window is full, or the file has ended.
pub record Filled (system : System) (s s' : Sender) : Type 0 where
  pub new : List Pkt
  pub list : s'.window.list ≡ s.window.list ++ new
  pub pieces : IsPieces system s.global_pkt new
  pub datagrams : List (List ℕ)
  pub encoded : AreEncoded system.libs new datagrams
  pub sent : s'.sent ≡ s.sent ++ datagrams
  pub windowsize : s'.window.windowsize ≡ s.window.windowsize
  pub global_pkt : s'.global_pkt ≡ s.global_pkt + length new
  pub end :
      (length s'.window.list ≡ s.window.windowsize)
      ⊎ ((s'.eof_reached ≡ true) × (system.pread (piece_offset s'.global_pkt) ≡ some []))
  pub last_pkt : s'.last_pkt ≡ s.last_pkt
  pub stopped : s'.eof_reached ≡ true → system.pread (piece_offset s'.global_pkt) ≡ some []
  pub tail :
      (new ≡ [] → s'.window.seqnum_tail ≡ s.window.seqnum_tail)
      × (new ≢ [] → s'.window.seqnum_tail ≡ (s'.global_pkt - 1) % 256)
  pub buffer : BytesRead system → IsBuffer s.copybuf → IsBuffer s'.copybuf

no_bytes : (bytes : List ℕ) → (length bytes == 0) ≡ true → bytes ≡ []
no_bytes [] h = refl
no_bytes (b ∷ bs) h = absurd (ground arith)

module _ (system : System) (mem : (k : ℕ) → system.libs.malloc k ≡ true)
    (sends : (sent : List (List ℕ)) (bytes : List ℕ) → system.send sent bytes ≡ true) where
  -- `pread` finds at most 512 bytes, and no error.
  abbrev pub Readable : Type 0
  Readable =
      (offset : ℕ) → (bytes : List ℕ) × (system.pread offset ≡ some bytes) × (length bytes ≤ 512)

  Filled-full :
      (s : Sender)
      → s.eof_reached ≡ false
      → length s.window.list ≡ s.window.windowsize
      → Filled system s s
  Filled-full s open_file full = record {
    new = [];
    list = sym (append_nil s.window.list);
    pieces = tt;
    datagrams = [];
    encoded = tt;
    sent = sym (append_nil s.sent);
    windowsize = refl;
    global_pkt = omega arith;
    end = inl full;
    last_pkt = refl;
    stopped = λ eof. absurd (cc (eof, open_file));
    tail = ((λ _. refl), λ some_new. absurd (some_new refl));
    buffer = λ read b. b;
  }

  later_tail :
      (s s1 s2 : Sender)
      → s1.window.seqnum_tail ≡ s.global_pkt % 256
      → s1.global_pkt ≡ s.global_pkt + 1
      → Filled system s1 s2
      → s2.window.seqnum_tail ≡ (s2.global_pkt - 1) % 256
  later_tail s s1 s2 tail next f = elim (nil_cases f.new) [
    | inl none_new ↦
        let kept = f.tail.0 none_new in
        let count = f.global_pkt in let size = ap length none_new in omega arith
    | inr some_new ↦ f.tail.1 some_new
  ]

  Filled-next :
      (bytes : List ℕ) (time : ℕ) (s s1 s2 : Sender)
      → system.pread (piece_offset s.global_pkt) ≡ some bytes
      → s.window.windowsize ≤ 31
      → time < 2 ^ 32
      → length bytes ≢ 0
      → length bytes ≤ 512
      → Sent system.libs
          (record s { copybuf = overwrite bytes s.copybuf })
          s1
          (piece s.window.windowsize (s.global_pkt % 256) time bytes)
      → Filled system s1 s2
      → Filled system s s2
  Filled-next bytes time s s1 s2 e small early full fits sent f =
      let pkt : Pkt = piece s.window.windowsize (s.global_pkt % 256) time bytes in
      let g = sent.global_pkt in
      record {
        new = pkt ∷ f.new;
        list =
            f.list
            ∙ ap (λ (l : List Pkt). l ++ f.new) sent.list
            ∙ append_assoc s.window.list (pkt ∷ []) f.new;
        pieces = (
          (s.window.windowsize, time, bytes, small, early, e, full, fits, refl),
          subst (λ (k : ℕ). IsPieces system k f.new) g f.pieces,
        );
        datagrams = sent.out ∷ f.datagrams;
        encoded = (sent.encoded, f.encoded);
        sent =
            f.sent
            ∙ ap (λ (l : List (List ℕ)). l ++ f.datagrams) sent.sent
            ∙ append_assoc s.sent (sent.out ∷ []) f.datagrams;
        windowsize = f.windowsize ∙ sent.windowsize;
        global_pkt = let h = f.global_pkt in omega arith;
        end =
            subst
              (λ (k : ℕ).
                (length s2.window.list ≡ k)
                ⊎ ((s2.eof_reached ≡ true) × (system.pread (piece_offset s2.global_pkt) ≡ some [])))
              sent.windowsize f.end;
        last_pkt = f.last_pkt ∙ sent.last_pkt;
        stopped = f.stopped;
        tail = (
          (λ none_new. absurd (cc none_new)),
          λ _. later_tail s s1 s2 (sent.tail) sent.global_pkt f,
        );
        buffer = λ read b. f.buffer read (
            subst IsBuffer (sym sent.buffer) (
              overwrite-IsBuffer sent.out (overwrite bytes s.copybuf)
                (encode-FirstByte system.libs pkt sent.out sent.encoded)
                (overwrite-IsBuffer bytes s.copybuf (read (piece_offset s.global_pkt) bytes e) b)));
      }

  fill_loop_lem :
      (fuel : ℕ) (s : Sender)
      → Readable
      → s.window.windowsize ≤ 31
      → s.eof_reached ≡ false
      → length s.window.list ≤ s.window.windowsize
      → s.window.windowsize ≤ fuel + length s.window.list
      → (s' : Sender) × (fill_loop system false fuel s ≡ some s') × Filled system s s'
  unfolding fill_loop
  fill_loop_lem zero s read small open_file room enough =
      (s, refl, Filled-full s open_file (omega arith))
  fill_loop_lem (suc fuel) s read small open_file room enough =
      elim (Bool-cases (ltb (length s.window.list) s.window.windowsize)) [
        | inr full ↦ (
          s,
          step_full system mem sends fuel s full,
          Filled-full s open_file (omega (arith, ltb→le _ _ full)),
        )
        | inl place ↦
            let (bytes, e, fits) = read (piece_offset s.global_pkt) in
            elim (Bool-cases (length bytes == 0)) [
              | inl empty ↦
                  let nothing : bytes ≡ [] = no_bytes bytes empty in
                  let e0 = e ∙ ap (λ (l : List ℕ). some l) nothing in
                  (
                    record s { eof_reached = true },
                    step_end system mem sends fuel s _
                        (has_place_lem system mem sends s place open_file)
                        (round_end system mem sends s e0),
                    record {
                      new = [];
                      list = sym (append_nil s.window.list);
                      pieces = tt;
                      datagrams = [];
                      encoded = tt;
                      sent = sym (append_nil s.sent);
                      windowsize = refl;
                      global_pkt = omega arith;
                      end = inr (refl, e0);
                      last_pkt = refl;
                      stopped = λ _. e0;
                      tail = ((λ _. refl), λ some_new. absurd (some_new refl));
                      buffer = λ read b. b;
                    },
                  )
              | inr more ↦
                  let nonzero : length bytes ≢ 0 = ground arith in
                  let (s1, time, round, early, sent) =
                    round_piece system mem sends bytes s e small nonzero fits in
                  let longer =
                    ap length sent.list
                    ∙ length-append s.window.list
                        (piece s.window.windowsize (s.global_pkt % 256) time bytes ∷ []) in
                  let size = sent.windowsize in
                  let lt = ltb→lt _ _ place in
                  let (s2, loop, f) =
                    fill_loop_lem fuel s1 read (omega arith) (sent.eof_reached ∙ open_file)
                      (omega arith) (omega arith) in
                  (
                    s2,
                    step_on system mem sends fuel s s1
                          (has_place_lem system mem sends s place open_file) round
                        ∙ loop,
                    Filled-next bytes time s s1 s2 e small early nonzero fits sent f,
                  )
            ]
      ]

-- Where `malloc` and every `write` succeed, FEC is off, `pread` finds at most 512 bytes and no error,
-- the file has not ended before and the window of at most 31 places is not over-full, `fill_window` is
-- defined: it puts the next pieces of the file behind the list, in order and with consecutive numbers,
-- sends each of them as `pkt_encode` writes it, and stops with a full window, or where the file has no
-- further byte.
pub fill_window-Filled :
    (system : System) (s : Sender)
    → ((k : ℕ) → system.libs.malloc k ≡ true)
    → ((sent : List (List ℕ)) (bytes : List ℕ) → system.send sent bytes ≡ true)
    → ((offset : ℕ) → (bytes : List ℕ) × (system.pread offset ≡ some bytes) × (length bytes ≤ 512))
    → s.window.windowsize ≤ 31
    → s.eof_reached ≡ false
    → length s.window.list ≤ s.window.windowsize
    → (s' : Sender) × (fill_window system false s ≡ some s') × Filled system s s'
unfolding fill_window
fill_window-Filled system s mem sends read small open_file room =
    fill_loop_lem system mem sends s.window.windowsize s read small open_file room (omega arith)
