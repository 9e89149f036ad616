-- ===== src/Sender.antt =====
-- The sender, src/read-write/read_write_sender.c: its static variables and its window as one state, and
-- what it asks of the system.
pub mod Buffer
pub mod Fill
pub mod Resend
pub mod Nack
pub mod Acks
pub mod Loop
pub mod Removal
pub mod Resize
pub mod Pieces
pub mod Sound
mod Tests
use projet_trtp.Base.{
  ℕ, ◌+◌, ◌-◌, ◌%◌, ◌^◌, ◌≡◌, Bool, true, false, ◌&&◌, List, [], Option, none, some, if◌then◌else◌,
}
use projet_trtp.Packet.Struct.{Pkt, Libs}
use projet_trtp.Window.{WindowPkt, has_blocks}

-- The system: the libraries; whether a datagram is sent, given those before it; the time in
-- milliseconds at each call; and what `pread` finds of the file at an offset (`none` is -1).
pub record System : Type 0 where
  pub libs : Libs
  pub send : List (List ℕ) → List ℕ → Bool
  pub clock : ℕ → ℕ
  pub pread : (offset : ℕ) → Option (List ℕ)

-- The counters that the sender changes; the others stay 0.
pub record Stats : Type 0 where
  pub data_sent : ℕ
  pub fec_sent : ℕ
  pub ack_received : ℕ
  pub nack_received : ℕ
  pub packet_ignored : ℕ
  pub min_rtt : ℕ
  pub max_rtt : ℕ
  pub packet_retransmitted : ℕ

-- A pointer of `fec->pkts`: the place of its packet in the window's list when it was stored, from which only
-- `update_window` removes packets before `fec->i` is 0 again, and the packet, `none` where it has been freed.
pub record FecSlot : Type 0 where
  pub place : ℕ
  pub pkt : Option Pkt

-- The static variables, with `window`, the number of calls of the clock, and the datagrams sent. `fec` is
-- the first `i` pointers of `fec->pkts`. The source's `global_pkt` is this one modulo 2 ^ 64.
pub record Sender : Type 0 where
  pub window : WindowPkt
  pub copybuf : List ℕ
  pub eof_reached : Bool
  pub last_pkt : Bool
  pub last_rst : ℕ
  pub global_pkt : ℕ
  pub fec : List FecSlot
  pub stats : Stats
  pub calls : ℕ
  pub sent : List (List ℕ)

-- The variables before the loop, where every block is there; `copybuf` is what `malloc` found.
unfoldable pub initial : (copybuf : List ℕ) → Sender
initial copybuf = record {
  window = record { seqnum_head = 0; seqnum_tail = 0; windowsize = 1; list = [] };
  copybuf = copybuf;
  eof_reached = false;
  last_pkt = false;
  last_rst = 0;
  global_pkt = 0;
  fec = [];
  stats = record {
    data_sent = 0;
    fec_sent = 0;
    ack_received = 0;
    nack_received = 0;
    packet_ignored = 0;
    min_rtt = 2 ^ 32 - 1;
    max_rtt = 0;
    packet_retransmitted = 0;
  };
  calls = 0;
  sent = [];
}

-- `sizeof(fec_pkt_t)`.
abbrev pub sizeof_fec_pkt : ℕ
sizeof_fec_pkt = 40

-- Up to the loop, behind the test of `copybuf`. The other results of `malloc` are written to unchecked: a NULL
-- is undefined behaviour, `none`.
unfoldable pub start_sender : Libs → (copybuf : List ℕ) → Option Sender
start_sender libs copybuf =
    if libs.malloc sizeof_fec_pkt && has_blocks libs then some (initial copybuf) else none

pub start_sender_lem :
    (libs : Libs) (copybuf : List ℕ)
    → ((k : ℕ) → libs.malloc k ≡ true)
    → start_sender libs copybuf ≡ some (initial copybuf)
unfolding start_sender
start_sender_lem libs copybuf mem = rw (mem 40, mem 16, mem 24, mem 8)

-- The result of `time_millis`, and the state behind the call.
abbrev pub time_millis : System → Sender → ℕ × Sender
time_millis system s = (system.clock s.calls % 2 ^ 32, record s { calls = s.calls + 1 })
