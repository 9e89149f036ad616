-- ===== src/Network/Sent.antt =====
-- What the sender of src/read-write/read_write_sender.c sends of a file, where its window does not shrink.
use projet_trtp.Base.{
  nil_cases, ℕ, zero, suc, ◌+◌, ◌-◌, ◌*◌, ◌%◌, ◌^◌, ◌≤◌, ◌<◌, ◌≡◌, ◌≢◌, inl, inr, refl, sym, subst,
  ap, ◌∙◌, Bool, true, false, List, [], ◌∷◌, some, arith, length, take, drop, length-take,
  get_elem?, All,
}
use projet_trtp.Base.Bytes.{IsByte, FirstByte}
use projet_trtp.Packet.Struct.{ptype_data, Pkt}
use projet_trtp.Packet.Encode.{pkt_encode}
use projet_trtp.Packet.Decode.Steps.{fields}
use projet_trtp.Receiver.Sound.{IsBuffer}
use projet_trtp.Sender.{System, Sender, initial}
use projet_trtp.Sender.Loop.{Ready, read_write_sender}
use projet_trtp.Sender.Fill.{piece_offset}
use projet_trtp.Sender.Pieces.{piece}
use projet_trtp.Sender.Pieces.Filled.{IsPieces}
use projet_trtp.Sender.Sound.{IsOut, LetsEnd}
use projet_trtp.Sender.Sound.Acked.{LetsShrink}
use projet_trtp.Sender.Sound.Writes.{LetsFill}
use projet_trtp.Sender.Sound.Runs.{AreRounds, run-Stays}
use projet_trtp.Network.{IsFile, contents, IsRefused, Datagram, Carried}
use projet_trtp.Network
use projet_trtp.Network.Pieces.{pieces, pieces-PieceAt, piece-FirstByte}

-- `pread` finds the bytes of the file.
abbrev pub Reads : System → List ℕ → Type 0
Reads system file = (offset : ℕ) → system.pread offset ≡ some (take 512 (drop offset file))

-- The offset goes round at 2 ^ 64.
pub piece_offset_lem : (n : ℕ) → piece_offset n ≡ 512 * (n % 2 ^ 55)
unfolding piece_offset
piece_offset_lem n = omega arith

module _ (system : System) (file : List ℕ) (found : Reads system file) where
  abbrev pub count : ℕ
  count = length (pieces file)

  -- A piece that `pread` finds is one of the file's, and nothing is found behind the last one.
  pub at_piece :
      (n : ℕ) (bytes : List ℕ)
      → system.pread (piece_offset n) ≡ some bytes
      → length bytes ≢ 0
      → get_elem? (pieces file) (n % 2 ^ 55) ≡ some bytes
  at_piece n bytes e full =
      let here : some (take 512 (drop (512 * (n % 2 ^ 55)) file)) ≡ some bytes =
        sym (found (512 * (n % 2 ^ 55))) ∙ ap system.pread (sym (piece_offset_lem n)) ∙ e in
      let same : take 512 (drop (512 * (n % 2 ^ 55)) file) ≡ bytes = cc here in
      (pieces-PieceAt file (n % 2 ^ 55)).0 (λ empty. full (ap length (sym same ∙ empty)))
      ∙ ap (λ (l : List ℕ). some l) same

  at_end : (n : ℕ) → system.pread (piece_offset n) ≡ some [] → count ≤ n
  at_end n e =
      let here : some (take 512 (drop (512 * (n % 2 ^ 55)) file)) ≡ some [] =
        sym (found (512 * (n % 2 ^ 55))) ∙ ap system.pread (sym (piece_offset_lem n)) ∙ e in
      let same : take 512 (drop (512 * (n % 2 ^ 55)) file) ≡ [] = cc here in
      let most = (pieces-PieceAt file (n % 2 ^ 55)).1 same in omega arith

  pub get_elem?-lt :
      (ps : List (List ℕ)) (n : ℕ) (bytes : List ℕ) → get_elem? ps n ≡ some bytes → n < length ps
  get_elem?-lt [] n bytes e = absurd (cc e)
  get_elem?-lt (p ∷ ps) zero bytes e = omega arith
  get_elem?-lt (p ∷ ps) (suc n) bytes e = omega (arith, get_elem?-lt ps n bytes e)

  pieces_below :
      (number : ℕ) (pkts : List Pkt)
      → count < 255
      → IsPieces system number pkts
      → number ≤ count
      → number + length pkts ≤ count
  pieces_below number [] short h below = omega arith
  pieces_below number (pkt ∷ pkts) short ((window, time, bytes, hw, ht, e, full, fits, same), h)
        below =
      let lt = get_elem?-lt (pieces file) (number % 2 ^ 55) bytes (at_piece number bytes e full) in
      omega (arith, pieces_below (number + 1) pkts short h (omega arith))

  -- The file ends under the number of its pieces.
  abbrev pub EndsAt : ℕ → Type 0
  EndsAt seqnum = seqnum ≡ count

  -- No more is read than there is, the tail is the last piece read, and the end is found behind the pieces.
  abbrev pub InFile : (tail global : ℕ) (eof last : Bool) → Type 0
  InFile tail global eof last =
      (global ≤ count)
      × (last ≡ false → global ≢ 0 → tail ≡ (global - 1) % 256)
      × (eof ≡ true → global ≡ count)

  fills : count < 255 → LetsFill system EndsAt InFile
  fills short s s' f more (below, tail, eof) =
      let next = f.global_pkt in
      let below' = pieces_below s.global_pkt f.new short f.pieces below in
      (
        omega arith,
        (λ last some_read. elim (nil_cases f.new) [
          | inl none_new ↦
              let size = ap length none_new in
              let same : s'.global_pkt ≡ s.global_pkt = omega arith in
              f.tail.0 none_new
              ∙ tail (sym f.last_pkt ∙ last) (λ zero_read. some_read (same ∙ zero_read))
              ∙ ap (λ (k : ℕ). (k - 1) % 256) (sym same)
          | inr some_new ↦ f.tail.1 some_new
        ]),
        λ ended. let behind = at_end s'.global_pkt (f.stopped ended) in omega arith,
      )

  ends : count ≢ 0 → count < 255 → LetsEnd EndsAt InFile
  ends some_pieces short tail global eof last ended more (below, at_tail, at_eof) =
      let whole = at_eof ended in
      let here = at_tail more (λ e. some_pieces (sym whole ∙ e)) in
      (omega arith, (below, (λ e. absurd (cc e)), λ _. whole))

  shrinks : LetsShrink InFile ⊥
  shrinks never = absurd never

  start : InFile 0 0 false false
  start = (omega arith, (λ last some_read. absurd (some_read refl)), λ eof. absurd (cc eof))

  pub out-Datagram :
      (out : List ℕ)
      → count < 255
      → IsOut system EndsAt out
      → Datagram system.libs (pieces file) out
  out-Datagram out short
        (pkt, inl (number, (window, time, bytes, hw, ht, e, full, fits, same)), enc) =
      let at = at_piece number bytes e full in
      let lt = get_elem?-lt (pieces file) (number % 2 ^ 55) bytes at in
      let small : number % 256 ≡ number % 2 ^ 55 = omega arith in
      Network.whole (number % 2 ^ 55) window time bytes out at (omega arith) ht (
        ap (λ (k : ℕ). pkt_encode system.libs (piece window k time bytes) 528) (sym small)
        ∙ ap (λ (p : Pkt). pkt_encode system.libs p 528) (sym same)
        ∙ enc)
  out-Datagram out short (pkt, inr (window, time, seqnum, hw, ht, hs, he, same), enc) =
      Network.last window time out (omega arith) ht (
        ap (λ (k : ℕ). pkt_encode system.libs (fields ptype_data 0 window 0 k 0 0 time) 528)
          (sym he)
        ∙ ap (λ (p : Pkt). pkt_encode system.libs p 528) (sym same)
        ∙ enc)

drop_all : (n : ℕ) (xs : List ℕ) → length xs ≤ n → drop n xs ≡ []
drop_all zero [] h = refl
drop_all zero (x ∷ xs) h = absurd (omega arith)
drop_all (suc n) [] h = refl
drop_all (suc n) (x ∷ xs) h = drop_all n xs (omega arith)

pub pieces_fit : (file : List ℕ) → length file ≤ 512 * 254 → length (pieces file) < 255
pieces_fit file small =
    let beyond = (pieces-PieceAt file 254).1 (ap (take 512) (drop_all (512 * 254) file small)) in
    omega arith

some_piece : (file : List ℕ) → file ≢ [] → length (pieces file) ≢ 0
some_piece [] full = absurd (full refl)
some_piece (b ∷ bs) full = λ e. absurd (omega arith)

pub sender_run :
    (system : System) (file : List ℕ) (found : Reads system file) (rounds : List Ready)
    (copybuf : List ℕ) (left : Bool) (s : Sender)
    → ((k : ℕ) → system.libs.malloc k ≡ true)
    → ((sent : List (List ℕ)) (bytes : List ℕ) → system.send sent bytes ≡ true)
    → All IsByte file
    → file ≢ []
    → length file ≤ 512 * 254
    → IsBuffer copybuf
    → AreRounds system.libs ⊥ 1 rounds
    → read_write_sender system false rounds (initial copybuf) ≡ some (left, s)
    → All (IsOut system (EndsAt system file found)) s.sent
sender_run system file found rounds copybuf left s mem sends bytes full small b h e =
    let (left', s', e', (w, v), open_file) =
      run-Stays system mem sends
        (λ offset. (
          take 512 (drop offset file),
          found offset,
          omega (arith, length-take {0} 512 (drop offset file)),
        ))
        (λ offset own own_e.
          let same : take 512 (drop offset file) ≡ own = cc (own_e, found offset) in
          subst FirstByte same (piece-FirstByte offset file bytes))
        (EndsAt system file found) (InFile system file found) ⊥
        (fills system file found (pieces_fit file small)) (shrinks system file found)
        (ends system file found (some_piece file full) (pieces_fit file small)) rounds copybuf b
        (start system file found) h in
    let same : (left', s') ≡ (left, s) = cc (e, e') in
    subst (λ (r : Bool × Sender). All (IsOut system (EndsAt system file found)) r.1.sent) same
      v.outs
