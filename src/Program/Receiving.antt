-- ===== src/Program/Receiving.antt =====
-- `main` of src/receiver.c. What `inet_pton` and `inet_ntop` leave is not used. `none` is undefined behaviour.
use projet_trtp.Base.{
  ℕ, Bool, true, false, ◌||◌, List, [], ◌∷◌, Option, none, some, ◌⊎◌, inl, inr, ltb, if◌then◌else◌,
}
use projet_trtp.Packet.Struct.{Libs}
use projet_trtp.Receiver.{World, Receiver, start_receiver}
use projet_trtp.Receiver.Loop.{Turn, read_write_receiver}
use projet_trtp.Program.{
  Opt, opt_f, opt_s, opt_h, opt_c, opt_unknown, Arguments, Address, Os, Process, Exit, refused,
  ended, running, exit_failure, print_usage, close, create_socket, wait_for_client, real_address,
  open_stats, with_stats,
}
use projet_trtp.Program.Port.{port_of}

-- What the transfer finds: the buffer of `malloc`, the world with the socket, the turns, and whether `poll`
-- fails behind them, which ends the transfer.
pub record Transfer : Type 0 where
  pub buffer : Option (List ℕ)
  pub world : (sfd : ℕ) → World
  pub turns : List Turn
  pub poll_fails : Bool

-- The loop over the options, with `stats_filename`; the other `none` is where usage is printed.
unfoldable pub parse : List Opt → Option (List ℕ) → Option (Option (List ℕ))
parse [] stats_filename = some stats_filename
parse (opt_h ∷ rest) stats_filename = none
parse (opt_s optarg ∷ rest) stats_filename = parse rest (some optarg)
parse (opt_f optarg ∷ rest) stats_filename = none
parse (opt_c ∷ rest) stats_filename = none
parse (opt_unknown ∷ rest) stats_filename = none

-- Behind `read_write_receiver`.
abbrev pub close_both : (sfd fd_stats : ℕ) → Process → Process
close_both sfd fd_stats p = close fd_stats (close sfd p)

abbrev pub transferred :
    (sfd fd_stats : ℕ)
    → (poll_fails : Bool) → Process
    → Option (Bool × Receiver)
    → Option (Exit Receiver × Process)
transferred sfd fd_stats poll_fails p none = none
transferred sfd fd_stats poll_fails p (some (eof_wrote, s)) = some (
    if eof_wrote || poll_fails then (ended (some s), close_both sfd fd_stats p) else (running s, p))

abbrev pub started :
    Transfer → (sfd fd_stats : ℕ) → Process → Option Receiver → Option (Exit Receiver × Process)
started t sfd fd_stats p none = none
started t sfd fd_stats p (some s) =
    transferred sfd fd_stats t.poll_fails p (read_write_receiver (t.world sfd) t.turns s)

abbrev pub transfer :
    Libs
    → Transfer
    → (sfd fd_stats : ℕ) → Process
    → Option (List ℕ)
    → Option (Exit Receiver × Process)
transfer libs t sfd fd_stats p none = some (ended none, close_both sfd fd_stats p)
transfer libs t sfd fd_stats p (some buffer) = started t sfd fd_stats p (start_receiver libs buffer)

abbrev pub with_stats_file :
    Libs
    → Transfer
    → Option (List ℕ)
    → (sfd : ℕ) → Process
    → ℕ ⊎ ℕ
    → Option (Exit Receiver × Process)
with_stats_file libs t stats_filename sfd p (inl errno) = some (refused errno, p)
with_stats_file libs t stats_filename sfd p (inr fd_stats) =
    transfer libs t sfd fd_stats (with_stats stats_filename fd_stats p) t.buffer

-- Behind `wait_for_client`.
abbrev pub with_client :
    Os
    → Transfer
    → Option (List ℕ)
    → (sfd : ℕ) → Option (Bool × Process)
    → Option (Exit Receiver × Process)
with_client os t stats_filename sfd none = none
with_client os t stats_filename sfd (some (false, p)) = some (refused exit_failure, close sfd p)
with_client os t stats_filename sfd (some (true, p)) =
    with_stats_file os.libs t stats_filename sfd p (open_stats os stats_filename p)

-- A socket under descriptor 0 waits for no client.
abbrev pub with_socket :
    Os → Transfer → Option (List ℕ) → Option ℕ × Process → Option (Exit Receiver × Process)
with_socket os t stats_filename (none, p) = some (refused exit_failure, p)
with_socket os t stats_filename (some sfd, p) =
    with_client os t stats_filename sfd
      (if ltb 0 sfd then wait_for_client os sfd p else some (true, p))

abbrev pub with_address :
    Os
    → Transfer
    → Option (List ℕ)
    → (listen_port : ℕ) → Process
    → Option Address
    → Option (Exit Receiver × Process)
with_address os t stats_filename listen_port p none = some (refused exit_failure, p)
with_address os t stats_filename listen_port p (some listener_addr) =
    with_socket os t stats_filename (create_socket os (some (listener_addr, listen_port)) none p)

abbrev pub with_port_number :
    Os
    → Transfer
    → Option (List ℕ)
    → (listen_ip : List ℕ) → Process
    → Option ℕ
    → Option (Exit Receiver × Process)
with_port_number os t stats_filename listen_ip p none = print_usage p
with_port_number os t stats_filename listen_ip p (some listen_port) =
    with_address os t stats_filename listen_port p (real_address os listen_ip)

abbrev pub with_positional :
    Os → Transfer → Option (List ℕ) → Process → List (List ℕ) → Option (Exit Receiver × Process)
with_positional os t stats_filename p (listen_ip ∷ listen_port ∷ []) =
    with_port_number os t stats_filename listen_ip p (port_of listen_port)
with_positional os t stats_filename p _ = print_usage p

abbrev pub with_options :
    Os
    → Transfer
    → Process
    → List (List ℕ)
    → Option (Option (List ℕ))
    → Option (Exit Receiver × Process)
with_options os t p positional none = print_usage p
with_options os t p positional (some stats_filename) =
    with_positional os t stats_filename p positional

unfoldable pub main : Os → Transfer → Arguments → Process → Option (Exit Receiver × Process)
main os t arguments p = with_options os t p arguments.positional (parse arguments.options none)
