-- ===== src/Program/Sending.antt =====
-- `main` of src/sender.c. What `inet_pton` and `inet_ntop` leave is not used. `none` is undefined behaviour.
use projet_trtp.Base.{
  ℕ, Bool, true, false, ◌||◌, List, [], ◌∷◌, Option, none, some, ◌⊎◌, inl, inr, ◌==◌, if◌then◌else◌,
}
use projet_trtp.Packet.Struct.{Libs}
use projet_trtp.Sender.{System, Sender, start_sender}
use projet_trtp.Sender.Loop.{Ready, read_write_sender}
use projet_trtp.Program.{
  Opt, opt_f, opt_s, opt_h, opt_c, opt_unknown, Arguments, Address, Os, Process, Exit, refused,
  ended, running, exit_failure, stderr_fileno, print_usage, close, opened, create_socket,
  real_address, open_stats, with_stats,
}
use projet_trtp.Program.Port.{port_of}

-- What the transfer finds: the buffer of `malloc`, the system with the socket and the file, the results of
-- `poll`, and whether `poll` fails behind them, which ends the transfer.
pub record Transfer : Type 0 where
  pub copybuf : Option (List ℕ)
  pub system : (sfd fd : ℕ) → System
  pub rounds : List Ready
  pub poll_fails : Bool

-- The variables that the options set.
pub record Options : Type 0 where
  pub filename : Option (List ℕ)
  pub stats_filename : Option (List ℕ)
  pub fec_enabled : Bool

-- The loop over the options; `none` where usage is printed.
unfoldable pub parse : List Opt → Options → Option Options
parse [] options = some options
parse (opt_f optarg ∷ rest) options = parse rest (record options { filename = some optarg })
parse (opt_h ∷ rest) options = none
parse (opt_s optarg ∷ rest) options = parse rest (record options { stats_filename = some optarg })
parse (opt_c ∷ rest) options = parse rest (record options { fec_enabled = true })
parse (opt_unknown ∷ rest) options = none

abbrev pub no_options : Options
no_options = record { filename = none; stats_filename = none; fec_enabled = false }

abbrev pub close_stats : ℕ → Process → Process
close_stats fd_stats p = if fd_stats == stderr_fileno then p else close fd_stats p

-- Behind `read_write_sender`.
abbrev pub close_all : (sfd fd fd_stats : ℕ) → Process → Process
close_all sfd fd fd_stats p = close sfd (close fd (close_stats fd_stats p))

abbrev pub transferred :
    (sfd fd fd_stats : ℕ)
    → (poll_fails : Bool) → Process
    → Option (Bool × Sender)
    → Option (Exit Sender × Process)
transferred sfd fd fd_stats poll_fails p none = none
transferred sfd fd fd_stats poll_fails p (some (left, s)) =
    some
      (if left || poll_fails then (ended (some s), close_all sfd fd fd_stats p) else (running s, p))

abbrev pub started :
    Transfer
    → (fec_enabled : Bool) → (sfd fd fd_stats : ℕ) → Process
    → Option Sender
    → Option (Exit Sender × Process)
started t fec_enabled sfd fd fd_stats p none = none
started t fec_enabled sfd fd fd_stats p (some s) =
    transferred sfd fd fd_stats t.poll_fails p
      (read_write_sender (t.system sfd fd) fec_enabled t.rounds s)

abbrev pub transfer :
    Libs
    → Transfer
    → (fec_enabled : Bool) → (sfd fd fd_stats : ℕ) → Process
    → Option (List ℕ)
    → Option (Exit Sender × Process)
transfer libs t fec_enabled sfd fd fd_stats p none = some (ended none, close_all sfd fd fd_stats p)
transfer libs t fec_enabled sfd fd fd_stats p (some copybuf) =
    started t fec_enabled sfd fd fd_stats p (start_sender libs copybuf)

abbrev pub with_stats_file :
    Libs → Transfer → Options → (sfd fd : ℕ) → Process → ℕ ⊎ ℕ → Option (Exit Sender × Process)
with_stats_file libs t options sfd fd p (inl errno) = some (refused errno, p)
with_stats_file libs t options sfd fd p (inr fd_stats) =
    transfer libs t options.fec_enabled sfd fd fd_stats
      (with_stats options.stats_filename fd_stats p) t.copybuf

abbrev pub with_file :
    Os → Transfer → Options → (sfd : ℕ) → Process → ℕ ⊎ ℕ → Option (Exit Sender × Process)
with_file os t options sfd p (inl errno) = some (refused errno, p)
with_file os t options sfd p (inr fd) =
    with_stats_file os.libs t options sfd fd (opened fd p)
      (open_stats os options.stats_filename (opened fd p))

abbrev pub with_socket :
    Os → Transfer → Options → Option ℕ × Process → Option (Exit Sender × Process)
with_socket os t options (none, p) = some (refused exit_failure, p)
with_socket os t options (some sfd, p) =
    with_file os t options sfd p (os.open_read options.filename p.fds)

abbrev pub with_address :
    Os
    → Transfer
    → Options
    → (receiver_port : ℕ) → Process
    → Option Address
    → Option (Exit Sender × Process)
with_address os t options receiver_port p none = some (refused exit_failure, p)
with_address os t options receiver_port p (some receiver_addr) =
    with_socket os t options (create_socket os none (some (receiver_addr, receiver_port)) p)

abbrev pub with_port_number :
    Os
    → Transfer
    → Options
    → (receiver_ip : List ℕ) → Process
    → Option ℕ
    → Option (Exit Sender × Process)
with_port_number os t options receiver_ip p none = print_usage p
with_port_number os t options receiver_ip p (some receiver_port) =
    with_address os t options receiver_port p (real_address os receiver_ip)

abbrev pub with_positional :
    Os → Transfer → Options → Process → List (List ℕ) → Option (Exit Sender × Process)
with_positional os t options p (receiver_ip ∷ receiver_port ∷ []) =
    with_port_number os t options receiver_ip p (port_of receiver_port)
with_positional os t options p _ = print_usage p

abbrev pub with_options :
    Os → Transfer → Process → List (List ℕ) → Option Options → Option (Exit Sender × Process)
with_options os t p positional none = print_usage p
with_options os t p positional (some options) = with_positional os t options p positional

unfoldable pub main : Os → Transfer → Arguments → Process → Option (Exit Sender × Process)
main os t arguments p =
    with_options os t p arguments.positional (parse arguments.options no_options)
