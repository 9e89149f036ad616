-- ===== src/Receiver/Flushes.antt =====
-- What `flush_file` of src/read-write/read_write_receiver.c writes.
use projet_trtp.Base.{
  append_nil, append_assoc, ℕ, ◌+◌, ◌%◌, ◌<◌, ◌≡◌, ◌≢◌, refl, ap, ◌∙◌, sym, subst, true, List, [],
  ◌∷◌, ◌++◌, none, some, arith, ◌==◌, ==_iff, ==_refl, ne→==, length, take,
}
use projet_trtp.Packet.Struct.{Pkt}
use projet_trtp.Packet.Access.{pkt_get_payload}
use projet_trtp.Packet.Decode.{payload_bytes}
use projet_trtp.Window.{WindowPkt}
use projet_trtp.Receiver.{World, Receiver}
use projet_trtp.Receiver.Flush.{flush_loop, flush_file, written, file_end}

-- The packets have consecutive numbers from `head` on, none of them ends the file, and `bytes` are their
-- payloads.
abbrev pub IsRun : (head : ℕ) → List Pkt → (bytes : List ℕ) → Type 0
IsRun head [] bytes = bytes ≡ []
IsRun head (pkt ∷ pkts) bytes =
    (pkt.seqnum ≡ head)
    × (pkt.length ≢ 0)
    × ((own : List ℕ) × (rest : List ℕ) × (payload_bytes pkt.length (pkt_get_payload pkt)
          ≡ some own)
        × (bytes ≡ own ++ rest)
        × IsRun ((head + 1) % 256) pkts rest)

-- A write to the standard output takes all the bytes.
abbrev pub WritesAll : World → Type 0
WritesAll world = (output bytes : List ℕ) → world.write output bytes ≡ some (length bytes)

-- The state behind a run.
pub record Flushed (s s' : Receiver) (run rest : List Pkt) (bytes : List ℕ) : Type 0 where
  pub output : s'.output ≡ s.output ++ bytes
  pub head : s'.window.seqnum_head ≡ (s.window.seqnum_head + length run) % 256
  pub list : s'.window.list ≡ rest
  pub windowsize : s'.window.windowsize ≡ s.window.windowsize
  pub eof_reached : s'.eof_reached ≡ s.eof_reached

pub take-length : (xs : List ℕ) → take (length xs) xs ≡ xs
take-length [] = refl
take-length (x ∷ xs) = ap (λ (l : List ℕ). x ∷ l) (take-length xs)

module _ (world : World) (all : WritesAll world) where
  -- One packet.
  flush_one :
      (n : ℕ) (pkt : Pkt) (pkts : List Pkt) (own : List ℕ) (s : Receiver)
      → pkt.seqnum ≡ s.window.seqnum_head
      → pkt.length ≢ 0
      → payload_bytes pkt.length (pkt_get_payload pkt) ≡ some own
      → flush_loop world n (pkt ∷ pkts) s ≡ flush_loop world (n + 1) pkts (written pkt pkts own s)
  unfolding flush_loop
  flush_one n pkt pkts own s head more e =
      let here : (s.window.seqnum_head == pkt.seqnum) ≡ true = (==_iff _ _).1 (sym head) in
      rw (flush_loop, here, ne→== pkt.length 0 more, e, all s.output own, take-length own)

  flush_run :
      (n : ℕ) (run rest : List Pkt) (bytes : List ℕ) (s : Receiver)
      → s.window.seqnum_head < 256
      → s.window.list ≡ run ++ rest
      → IsRun s.window.seqnum_head run bytes
      → (s' : Receiver) × (flush_loop world n (run ++ rest) s
          ≡ flush_loop world (n + length run) rest s')
        × Flushed s s' run rest bytes
  unfolding written
  flush_run n [] rest bytes s small here h = (
    s,
    (let e : n + 0 ≡ n = omega arith in rw e refl),
    record {
      output = rw h (sym (append_nil s.output));
      head = omega arith;
      list = here;
      windowsize = refl;
      eof_reached = refl;
    },
  )
  flush_run n (pkt ∷ pkts) rest bytes s small here (num, more, (own, tail, e, split, h)) =
      let s1 = written pkt (pkts ++ rest) own s in
      let (s', run_lem, f) = flush_run (n + 1) pkts rest tail s1 (omega arith) refl h in
      (
        s',
        flush_one n pkt (pkts ++ rest) own s num more e
            ∙ run_lem
            ∙ ap (λ (k : ℕ). flush_loop world k rest s') (omega arith),
        record {
          output =
              f.output
              ∙ append_assoc s.output own tail
              ∙ ap (λ (l : List ℕ). s.output ++ l) (sym split);
          head = let e1 = f.head in omega arith;
          list = f.list;
          windowsize = f.windowsize;
          eof_reached = f.eof_reached;
        },
      )

-- The list begins with a packet that is not the next one, or is empty.
abbrev pub Blocked : ℕ → List Pkt → Type 0
Blocked head [] = Unit {0}
Blocked head (pkt ∷ pkts) = head ≢ pkt.seqnum

flush-Blocked :
    (world : World) (n : ℕ) (rest : List Pkt) (s : Receiver)
    → Blocked s.window.seqnum_head rest
    → (s' : Receiver) × (flush_loop world n rest s ≡ some (some n, s'))
      × (s'.window ≡ s.window)
      × (s'.output ≡ s.output)
      × (s'.eof_reached ≡ s.eof_reached)
unfolding flush_loop
flush-Blocked world n [] s h = (record s { resent_ack = true }, refl, refl, refl, refl)
flush-Blocked world n (pkt ∷ pkts) s h =
    (s, rw (flush_loop, ne→== s.window.seqnum_head pkt.seqnum h), refl, refl, refl)

ended :
    (world : World) (n : ℕ) (last : Pkt) (rest : List Pkt) (s : Receiver)
    → last.seqnum ≡ s.window.seqnum_head
    → last.length ≡ 0
    → flush_loop world n (last ∷ rest) s ≡ some (none, file_end last s)
unfolding flush_loop
ended world n last rest s next empty =
    rw (flush_loop, next, ==_refl s.window.seqnum_head, empty) refl

-- Where the standard output takes all bytes, and the list begins with packets of consecutive numbers
-- from the window's head on, behind which the next number does not come, `flush_file` writes the payloads of
-- just these packets in their order, takes them from the list, moves the head on by their number, going
-- round at 256, and returns how many they are.
pub flush_file-IsRun :
    (world : World) (run rest : List Pkt) (bytes : List ℕ) (s : Receiver)
    → WritesAll world
    → s.window.seqnum_head < 256
    → s.window.list ≡ run ++ rest
    → IsRun s.window.seqnum_head run bytes
    → Blocked ((s.window.seqnum_head + length run) % 256) rest
    → (s' : Receiver) × (flush_file world s ≡ some (some (length run), s'))
      × Flushed s s' run rest bytes
unfolding flush_file
flush_file-IsRun world run rest bytes s all small here h stop =
    let (s1, e, f) = flush_run world all 0 run rest bytes s small here h in
    let (s2, e2, w, o, r) =
      flush-Blocked world (0 + length run) rest s1
        (subst (λ (k : ℕ). Blocked k rest) (sym f.head) stop) in
    (
      s2,
      ap (λ (l : List Pkt). flush_loop world 0 l s) here
          ∙ e
          ∙ e2
          ∙ ap (λ (k : ℕ). some (some k, s2)) (omega arith),
      record {
        output = o ∙ f.output;
        head = ap WindowPkt.seqnum_head w ∙ f.head;
        list = ap WindowPkt.list w ∙ f.list;
        windowsize = ap WindowPkt.windowsize w ∙ f.windowsize;
        eof_reached = r ∙ f.eof_reached;
      },
    )

-- If the packet behind the run has the next number and the length 0, `flush_file` writes the run all the
-- same, returns -1 and moves the head on behind that packet.
pub flush_file-IsRun_end :
    (world : World) (run : List Pkt) (last : Pkt) (rest : List Pkt) (bytes : List ℕ) (s : Receiver)
    → WritesAll world
    → s.window.seqnum_head < 256
    → s.window.list ≡ run ++ (last ∷ rest)
    → IsRun s.window.seqnum_head run bytes
    → last.seqnum ≡ (s.window.seqnum_head + length run) % 256
    → last.length ≡ 0
    → (s' : Receiver) × (flush_file world s ≡ some (none, s'))
      × (s'.output ≡ s.output ++ bytes)
      × (s'.window.seqnum_head ≡ (s.window.seqnum_head + length run + 1) % 256)
      × (s'.last_timestamp ≡ last.timestamp)
unfolding flush_file flush_loop file_end
flush_file-IsRun_end world run last rest bytes s all small here h next empty =
    let (s1, e, f) = flush_run world all 0 run (last ∷ rest) bytes s small here h in
    (
      file_end last s1,
      ap (λ (l : List Pkt). flush_loop world 0 l s) here
          ∙ e
          ∙ ended world (0 + length run) last rest s1 (next ∙ sym f.head) empty,
      f.output,
      (let e1 = f.head in omega arith),
      refl,
    )
