-- ===== src/Program/Tests.antt =====
-- The programs of src/sender.c and src/receiver.c at concrete arguments.
use projet_trtp.Base.{
  ℕ, suc, ◌+◌, ◌≤◌, ◌≡◌, ◌≢◌, ◌⊎◌, inr, refl, subst, true, false, List, [], ◌∷◌, none, some, arith,
  All, replicate, length,
}
use projet_trtp.Packet.Struct.{Libs}
use projet_trtp.Sender as S
use projet_trtp.Sender.{System, Sender}
use projet_trtp.Sender.Loop.{turn, read_write_sender}
use projet_trtp.Receiver as R
use projet_trtp.Receiver.{World, Receiver}
use projet_trtp.Receiver.Loop.{read_write_receiver}
use projet_trtp.Program.{
  opt_s, opt_h, opt_c, Arguments, Address, Os, polled, bound, connected, ended,
}
use projet_trtp.Program.Port.{strtol, port_of}
use projet_trtp.Program.Port.Decimal.{decimal, port_of-decimal}
use projet_trtp.Program.Starts.{start, Fresh, HasErrno, Fails}
use projet_trtp.Program.Sending as P
use projet_trtp.Program.Receiving as Q
use projet_trtp.Program.Sends.{Sends, main_sends}
use projet_trtp.Program.Sends.Failures.{main_sends_or_Fails}
use projet_trtp.Program.Receives.{Receives, main_receives}
use projet_trtp.Program.Receives.Failures.{main_receives_or_Fails}

port_of-decimal_example : port_of (decimal 4 70000) ≡ some 4464
port_of-decimal_example = port_of-decimal 4 70000 (omega arith) (omega arith)

-- No digits at all are port 0, and a port may be negative.
port_empty : port_of [] ≡ some 0
unfolding port_of strtol
port_empty = refl

port_minus : port_of (32 ∷ 45 ∷ 49 ∷ []) ≡ some 65535
unfolding port_of strtol
port_minus = refl

port_not : port_of (49 ∷ 50 ∷ 120 ∷ []) ≡ none
unfolding port_of strtol
port_not = refl

abbrev total : List ℕ → ℕ
total [] = 0
total (x ∷ xs) = x + total xs

above : (k : ℕ) (xs : List ℕ) → total xs ≤ k → All (λ x. suc k ≢ x) xs
above k [] h = tt
above k (x ∷ xs) h = ((λ e. absurd (omega arith)), above k xs (omega arith))

abbrev libs : Libs
libs = record { malloc = λ _. true; crc32 = λ bytes. total bytes }

abbrev host : Address
host = record { host = 1 ∷ []; sin6_port = 0 }

abbrev os : Os
os = record {
  libs = libs;
  socket = λ fds. some (suc (total fds));
  bind = λ _ _. true;
  connect = λ _ _. true;
  getaddrinfo = λ name. some host;
  poll = λ _. polled;
  recvfrom = λ _. some (record host { sin6_port = 9 });
  open_read = λ _ fds. inr (suc (total fds));
  open_write = λ _ fds. inr (suc (total fds));
}

os-Fresh : Fresh os
os-Fresh = (
  λ fds fd e.
      let same : suc (total fds) ≡ fd = cc e in
      subst (λ (n : ℕ). All (λ x. n ≢ x) fds) same (above (total fds) fds (omega arith)),
  λ name fds fd e.
      let same : suc (total fds) ≡ fd = cc e in
      subst (λ (n : ℕ). All (λ x. n ≢ x) fds) same (above (total fds) fds (omega arith)),
)

os-HasErrno : HasErrno os
os-HasErrno = (λ name fds errno e. absurd (cc e), λ name fds errno e. absurd (cc e))

-- -c -s s -s t ip 4000
abbrev arguments : Arguments
arguments = record {
  options = opt_c ∷ opt_s (115 ∷ []) ∷ opt_s (116 ∷ []) ∷ [];
  positional = (58 ∷ 58 ∷ []) ∷ (52 ∷ 48 ∷ 48 ∷ 48 ∷ []) ∷ [];
}

abbrev system : System
system = record { libs = libs; send = λ _ _. true; clock = λ n. n; pread = λ offset. some [] }

abbrev sending : P.Transfer
sending = record {
  copybuf = some (replicate 528 0);
  system = λ _ _. system;
  rounds = record { writable = false; incoming = none } ∷ [];
  poll_fails = true;
}

sends : Sends os arguments
unfolding port_of strtol
sends = record {
  known = (tt, (tt, (tt, tt)));
  receiver_ip = 58 ∷ 58 ∷ [];
  receiver_port = 52 ∷ 48 ∷ 48 ∷ 48 ∷ [];
  two = refl;
  port = 4000;
  is_port = refl;
  address = host;
  resolved = refl;
  sfd = 4;
  has_socket = refl;
  connects = inr refl;
  fd = 8;
  has_file = refl;
  fd_stats = 16;
  has_stats = refl;
}

main_sends_example :
    P.main os sending arguments start
    ≡ some (
      ended (some (S.initial (replicate 528 0))),
      record { fds = 2 ∷ 1 ∷ 0 ∷ []; calls = connected 4 (record host { sin6_port = 40975 }) ∷ [] },
    )
unfolding sends read_write_sender turn
main_sends_example =
    main_sends os sending arguments (replicate 528 0) false (S.initial (replicate 528 0))
      (λ k. refl) os-Fresh sends refl refl refl

main_sends_or_Fails_example :
    Sends os (record { options = opt_h ∷ []; positional = [] })
    ⊎ Fails (P.main os sending (record { options = opt_h ∷ []; positional = [] }) start)
main_sends_or_Fails_example =
    main_sends_or_Fails os sending (record { options = opt_h ∷ []; positional = [] }) os-HasErrno

abbrev world : World
world = record { libs = libs; send = λ _ _. true; write = λ _ bytes. some (length bytes) }

abbrev receiving : Q.Transfer
receiving = record {
  buffer = some (replicate 528 0);
  world = λ _. world;
  turns = [];
  poll_fails = true;
}

abbrev plain : Arguments
plain = record arguments { options = [] }

receives : Receives os plain
unfolding port_of strtol
receives = record {
  known = tt;
  listen_ip = 58 ∷ 58 ∷ [];
  listen_port = 52 ∷ 48 ∷ 48 ∷ 48 ∷ [];
  two = refl;
  port = 4000;
  is_port = refl;
  address = host;
  resolved = refl;
  sfd = 4;
  has_socket = refl;
  binds = inr refl;
  polls = refl;
  client = record host { sin6_port = 9 };
  has_client = refl;
  connects = refl;
  fd_stats = 2;
  has_stats = refl;
}

main_receives_example :
    Q.main os receiving plain start
    ≡ some (
      ended (some (R.initial (replicate 528 0))),
      record {
        fds = 1 ∷ 0 ∷ [];
        calls =
            bound 4 (record host { sin6_port = 40975 })
            ∷ connected 4 (record host { sin6_port = 9 })
            ∷ [];
      },
    )
unfolding receives read_write_receiver
main_receives_example =
    main_receives os receiving plain (replicate 528 0) false (R.initial (replicate 528 0))
      (λ k. refl) os-Fresh receives refl refl refl

main_receives_or_Fails_example : Receives os arguments ⊎ Fails (Q.main os receiving arguments start)
main_receives_or_Fails_example =
    main_receives_or_Fails os receiving arguments os-HasErrno (λ k. refl) os-Fresh
