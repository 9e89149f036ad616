-- ===== src/Receiver.antt =====
-- The receiver, src/read-write/read_write_receiver.c: its static variables and its window as one
-- state, and what it asks of the system.
pub mod Response
pub mod Insert
pub mod Receive
pub mod Flush
pub mod Loop
pub mod Recover
pub mod Always
pub mod Shrink
pub mod Answers
pub mod Sound
pub mod Order
pub mod Flushes
pub mod History
pub mod Delivery
pub mod Progress
mod Tests
use projet_trtp.Base.{
  ℕ, ◌≡◌, Bool, true, false, ◌&&◌, List, [], ◌∷◌, ◌++◌, Option, none, some, if◌then◌else◌, length,
  drop,
}
use projet_trtp.Packet.Struct.{Libs}
use projet_trtp.Window.{WindowPkt, has_blocks}

-- The system: the libraries; whether a datagram is sent, given those before it; and how many of some
-- bytes are written to the standard output, given what is there (`none` is -1).
pub record World : Type 0 where
  pub libs : Libs
  pub send : List (List ℕ) → List ℕ → Bool
  pub write : List ℕ → List ℕ → Option ℕ

-- The counters that the receiver changes; the others stay 0.
pub record Stats : Type 0 where
  pub data_received : ℕ
  pub data_truncated_received : ℕ
  pub ack_sent : ℕ
  pub nack_sent : ℕ
  pub packet_ignored : ℕ
  pub packet_duplicated : ℕ

-- The static variables, with `window`, and what has left the program: the datagrams in order, and
-- the bytes on the standard output.
pub record Receiver : Type 0 where
  pub window : WindowPkt
  pub buffer : List ℕ
  pub eof_reached : Bool
  pub last_timestamp : ℕ
  pub resent_ack : Bool
  pub num_ack : ℕ
  pub eof_seqnum : ℕ
  pub stats : Stats
  pub sent : List (List ℕ)
  pub output : List ℕ

abbrev pub no_stats : Stats
no_stats = record {
  data_received = 0;
  data_truncated_received = 0;
  ack_sent = 0;
  nack_sent = 0;
  packet_ignored = 0;
  packet_duplicated = 0;
}

-- The variables before the loop, where every block is there; `buffer` is what `malloc` found.
unfoldable pub initial : (buffer : List ℕ) → Receiver
initial buffer = record {
  window = record { seqnum_head = 0; seqnum_tail = 0; windowsize = 1; list = [] };
  buffer = buffer;
  eof_reached = false;
  last_timestamp = 0;
  resent_ack = true;
  num_ack = 0;
  eof_seqnum = 0;
  stats = no_stats;
  sent = [];
  output = [];
}

-- Up to the loop, behind the test of `buffer`. The window, its list and the `struct pollfd` are written to
-- unchecked (the list in `linkedList_create`, before its result is tested): a NULL is undefined
-- behaviour, `none`.
unfoldable pub start_receiver : Libs → (buffer : List ℕ) → Option Receiver
start_receiver libs buffer = if has_blocks libs then some (initial buffer) else none

pub start_receiver_lem :
    (libs : Libs) (buffer : List ℕ)
    → ((k : ℕ) → libs.malloc k ≡ true)
    → start_receiver libs buffer ≡ some (initial buffer)
unfolding start_receiver
start_receiver_lem libs buffer mem = rw (mem 16, mem 24, mem 8)

-- Bytes written at the start of a buffer.
abbrev pub overwrite : (new old : List ℕ) → List ℕ
overwrite new old = new ++ drop (length new) old
