-- ===== src/Receiver/Progress/Transfer.antt =====
-- A file that reaches the receiver of src/read-write/read_write_receiver.c in order.
use projet_trtp.Base.{
  append_nil, append_assoc, ℕ, ◌+◌, ◌%◌, ◌^◌, ◌≤◌, ◌<◌, ◌≡◌, ◌≢◌, refl, subst, sym, ◌∙◌, ap, Bool,
  true, false, List, [], ◌∷◌, ◌++◌, some, length, All, arith, min,
}
use projet_trtp.Packet.Struct.{pkt_ok, Libs}
use projet_trtp.Packet.Encode.{pkt_encode}
use projet_trtp.Receiver.{World, Receiver}
use projet_trtp.Receiver.Flushes.{WritesAll}
use projet_trtp.Receiver.Loop.{Turn, incoming, turn, read_write_receiver}
use projet_trtp.Receiver.Progress.{data_pkt, IsWaiting}
use projet_trtp.Receiver.Progress.Arrival.{turn_next}

-- A piece of the file, and the time at which it is sent.
pub record Chunk : Type 0 where
  pub timestamp : ℕ
  pub bytes : List ℕ

pub record IsChunk (chunk : Chunk) : Type 0 where
  pub timestamp : chunk.timestamp < 2 ^ 32
  pub full : length chunk.bytes ≢ 0
  pub small : length chunk.bytes ≤ 512

abbrev pub contents : List Chunk → List ℕ
contents [] = []
contents (chunk ∷ chunks) = chunk.bytes ++ contents chunks

-- The turns bring the pieces as the datagrams that `pkt_encode` makes of them, with consecutive numbers.
abbrev pub Brings : Libs → (window seqnum : ℕ) → List Chunk → List Turn → Type 0
Brings libs window seqnum [] turns = turns ≡ []
Brings libs window seqnum (chunk ∷ chunks) turns =
    (out : List ℕ) × (rest : List Turn) × (turns ≡ incoming (some out) ∷ rest)
    × (pkt_encode libs (data_pkt window seqnum chunk.timestamp chunk.bytes) 528
        ≡ some (pkt_ok, out))
    × Brings libs window ((seqnum + 1) % 256) chunks rest

-- The receiver has written the bytes, and waits for the number behind the `count` packets.
pub record Transferred (s s' : Receiver) (bytes : List ℕ) (count : ℕ) : Type 0 where
  pub output : s'.output ≡ s.output ++ bytes
  pub head : s'.window.seqnum_head ≡ (s.window.seqnum_head + count) % 256
  pub windowsize : s'.window.windowsize ≡ min 31 (s.window.windowsize + count)
  pub waiting : IsWaiting s'

one_more :
    (world : World) (t : Turn) (ts : List Turn) (s s1 : Receiver) (r : Bool × Receiver)
    → turn world t s ≡ some (false, s1)
    → read_write_receiver world ts s1 ≡ some r
    → read_write_receiver world (t ∷ ts) s ≡ some r
unfolding read_write_receiver
one_more world t ts s s1 r e f = rw (read_write_receiver, e, f)

-- Where `malloc` succeeds and the standard output takes all bytes, a file of any number of pieces of 1 to 512
-- bytes, which reach a waiting receiver in order as `pkt_encode` makes them, is written whole to the
-- standard output, and leaves the receiver waiting for the next number, with a window that has grown
-- by one for each piece, up to 31 places.
pub read_write_receiver-Transferred :
    (world : World) (window : ℕ) (chunks : List Chunk) (s : Receiver)
    → ((k : ℕ) → world.libs.malloc k ≡ true)
    → WritesAll world
    → window < 32
    → All IsChunk chunks
    → IsWaiting s
    → (turns : List Turn) × (s' : Receiver) × Brings world.libs window s.window.seqnum_head chunks
        turns
      × (read_write_receiver world turns s ≡ some (false, s'))
      × Transferred s s' (contents chunks) (length chunks)
unfolding read_write_receiver
read_write_receiver-Transferred world window [] s mem all hw h v =
    let head = v.head in
    let high = v.high in
    (
      [],
      s,
      refl,
      refl,
      record {
        output = sym (append_nil s.output);
        head = omega arith;
        windowsize = omega arith;
        waiting = v;
      },
    )
read_write_receiver-Transferred world window (chunk ∷ chunks) s mem all hw (c, cs) v =
    let (out, s1, encoded, e, a) =
      turn_next world mem window chunk.timestamp chunk.bytes s v all hw c.timestamp c.full
        c.small in
    let (turns, s2, b, f, t) =
      read_write_receiver-Transferred world window chunks s1 mem all hw cs a.waiting in
    let head = a.head in
    let size = a.windowsize in
    (
      incoming (some out) ∷ turns,
      s2,
      (
        out,
        turns,
        refl,
        encoded,
        subst (λ (k : ℕ). Brings world.libs window k chunks turns) head b,
      ),
      one_more world (incoming (some out)) turns s s1 (false, s2) e f,
      record {
        output =
            t.output
            ∙ ap (λ (l : List ℕ). l ++ contents chunks) a.output
            ∙ append_assoc s.output chunk.bytes (contents chunks);
        head = let h = t.head in omega arith;
        windowsize = let h = t.windowsize in omega arith;
        waiting = t.waiting;
      },
    )
