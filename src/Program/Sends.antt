-- ===== src/Program/Sends.antt =====
-- When `main` of src/sender.c starts the transfer, and what becomes of it.
pub mod Failures
use projet_trtp.Base.{
  ℕ, ◌+◌, ◌≡◌, ◌≢◌, ◌<◌, ◌⊎◌, inl, inr, refl, sym, ap, subst, ==_refl, ◌∙◌, Bool, true, false, ◌||◌,
  List, [], ◌∷◌, ◌++◌, Option, none, some, arith, All, ltb, ◌==◌, Bool-cases, ltb→lt, ltb→le, ne→==,
  if◌then◌else◌,
}
use projet_trtp.Sender.{Sender, initial, start_sender_lem}
use projet_trtp.Sender.Loop.{read_write_sender}
use projet_trtp.Program.{
  Opt, opt_f, opt_s, opt_h, opt_c, opt_unknown, Arguments, Address, Os, Process, Call, connected,
  Exit, refused, ended, exit_failure, with_port, create_socket, open_stats, with_stats,
  stderr_fileno,
}
use projet_trtp.Program.Starts.{start, Fresh, last_of, s_arg}
use projet_trtp.Program.Port.{port_of}
use projet_trtp.Program.Sending.{
  Transfer, Options, parse, no_options, with_options, with_positional, with_port_number,
  with_address, with_socket, with_file, with_stats_file, close_stats, close_all, transferred, main,
}

-- The options that the sender knows and that do not ask for its usage.
abbrev pub IsKnown : Opt → Type 0
IsKnown opt_h = ⊥
IsKnown opt_unknown = ⊥
IsKnown _ = Unit {0}

abbrev pub f_arg : Opt → Option (List ℕ)
f_arg (opt_f optarg) = some optarg
f_arg _ = none

abbrev pub has_c : List Opt → Bool → Bool
has_c [] before = before
has_c (opt_c ∷ opts) before = has_c opts true
has_c (_ ∷ opts) before = has_c opts before

abbrev pub described : List Opt → Options → Options
described opts o = record {
  filename = last_of f_arg opts o.filename;
  stats_filename = last_of s_arg opts o.stats_filename;
  fec_enabled = has_c opts o.fec_enabled;
}

pub parse_known :
    (opts : List Opt) (o : Options) → All IsKnown opts → parse opts o ≡ some (described opts o)
unfolding parse
parse_known [] o h = refl
parse_known (opt_f optarg ∷ opts) o (k, h) = parse_known opts _ h
parse_known (opt_s optarg ∷ opts) o (k, h) = parse_known opts _ h
parse_known (opt_h ∷ opts) o (k, h) = absurd k
parse_known (opt_c ∷ opts) o (k, h) = parse_known opts _ h
parse_known (opt_unknown ∷ opts) o (k, h) = absurd k

pub parse_cases : (opts : List Opt) (o : Options) → All IsKnown opts ⊎ (parse opts o ≡ none)
unfolding parse
parse_cases [] o = inl tt
parse_cases (opt_f optarg ∷ opts) o =
    elim (parse_cases opts (record o { filename = some optarg })) [
      | inl h ↦ inl (tt, h)
      | inr e ↦ inr e
    ]
parse_cases (opt_s optarg ∷ opts) o =
    elim (parse_cases opts (record o { stats_filename = some optarg })) [
      | inl h ↦ inl (tt, h)
      | inr e ↦ inr e
    ]
parse_cases (opt_h ∷ opts) o = inr refl
parse_cases (opt_c ∷ opts) o = elim (parse_cases opts (record o { fec_enabled = true })) [
  | inl h ↦ inl (tt, h)
  | inr e ↦ inr e
]
parse_cases (opt_unknown ∷ opts) o = inr refl

-- With port 0 the socket is connected to nobody.
abbrev pub connection : (sfd port : ℕ) → Address → List Call
connection sfd port address = if ltb 0 port then connected sfd (with_port address port) ∷ [] else []

-- What the sender needs for its transfer: its options, its port, the address of its receiver, and its
-- descriptors.
pub record Sends (os : Os) (arguments : Arguments) : Type 0 where
  pub known : All IsKnown arguments.options
  pub receiver_ip : List ℕ
  pub receiver_port : List ℕ
  pub two : arguments.positional ≡ receiver_ip ∷ receiver_port ∷ []
  pub port : ℕ
  pub is_port : port_of receiver_port ≡ some port
  pub address : Address
  pub resolved : os.getaddrinfo receiver_ip ≡ some address
  pub sfd : ℕ
  pub has_socket : os.socket start.fds ≡ some sfd
  pub connects : (ltb 0 port ≡ false) ⊎ (os.connect sfd (with_port address port) ≡ true)
  pub fd : ℕ
  pub has_file : os.open_read (last_of f_arg arguments.options none) (sfd ∷ start.fds) ≡ inr fd
  pub fd_stats : ℕ
  pub has_stats :
      open_stats os
        (last_of s_arg arguments.options none)
        (record { fds = fd ∷ sfd ∷ start.fds; calls = connection sfd port address })
      ≡ inr fd_stats

pub create_connected :
    (os : Os) (sfd port : ℕ) (address : Address)
    → os.socket start.fds ≡ some sfd
    → (ltb 0 port ≡ false) ⊎ (os.connect sfd (with_port address port) ≡ true)
    → create_socket os none (some (address, port)) start
      ≡ (some sfd, record { fds = sfd ∷ start.fds; calls = connection sfd port address })
unfolding create_socket
create_connected os sfd port address e (inl c) = rw (e, c)
create_connected os sfd port address e (inr c) = elim (Bool-cases (ltb 0 port)) [
  | inl h ↦ rw (e, h, c)
  | inr h ↦ rw (e, h)
]

close_all_lem :
    (os : Os) (name : Option (List ℕ)) (sfd fd fd_stats : ℕ) (calls : List Call)
    → Fresh os
    → open_stats os name (record { fds = fd ∷ sfd ∷ start.fds; calls = calls }) ≡ inr fd_stats
    → close_all sfd fd fd_stats
        (with_stats name fd_stats (record { fds = fd ∷ sfd ∷ start.fds; calls = calls }))
      ≡ record { fds = start.fds; calls = calls }
close_all_lem os none sfd fd fd_stats calls fresh e =
    let same : 2 ≡ fd_stats = cc e in
    subst
      (λ (n : ℕ).
        close_all sfd fd n (record { fds = fd ∷ sfd ∷ start.fds; calls = calls })
        ≡ record { fds = start.fds; calls = calls })
      same (rw (==_refl fd, ==_refl sfd))
close_all_lem os (some name) sfd fd fd_stats calls fresh e =
    let (f0, (f1, (f2, f3))) = fresh.1 name (fd ∷ sfd ∷ start.fds) fd_stats e in
    rw (ne→== fd_stats 2 f2, ==_refl fd_stats, ==_refl fd, ==_refl sfd)

-- Where `malloc` succeeds, and `socket` and `open` find descriptors that are not in use, `main` of the sender, with options that it
-- knows, two further arguments of which the second is a port, an address for the first, a socket that
-- `connect` connects to it unless the port is 0, the file that the last -f names and the file that the last -s
-- names or standard error, runs `read_write_sender` on the socket and the file, with FEC if -c is there.
-- When that ends, by itself or as `poll` fails, `main` returns EXIT_SUCCESS, the socket has been connected to the
-- address with the port, unless it is 0, and to nothing else, and only the standard descriptors are open.
pub main_sends :
    (os : Os) (t : Transfer) (arguments : Arguments) (copybuf : List ℕ) (left : Bool) (s : Sender)
    → ((k : ℕ) → os.libs.malloc k ≡ true)
    → Fresh os
    → (u : Sends os arguments) → t.copybuf ≡ some copybuf
    → read_write_sender
        (t.system u.sfd u.fd)
        (has_c arguments.options false)
        t.rounds
        (initial copybuf)
      ≡ some (left, s)
    → left || t.poll_fails ≡ true
    → main os t arguments start
      ≡ some (ended (some s), record { fds = start.fds; calls = connection u.sfd u.port u.address })
unfolding main
main_sends os t arguments copybuf left s mem fresh u b run stops = rw (
  parse_known arguments.options no_options u.known,
  u.two,
  u.is_port,
  u.resolved,
  create_connected os u.sfd u.port u.address u.has_socket u.connects,
  u.has_file,
  u.has_stats,
  b,
  start_sender_lem os.libs copybuf mem,
  run,
  stops,
  close_all_lem os (last_of s_arg arguments.options none) u.sfd u.fd u.fd_stats
      (connection u.sfd u.port u.address) fresh u.has_stats,
)
