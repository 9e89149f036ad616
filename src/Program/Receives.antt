-- ===== src/Program/Receives.antt =====
-- When `main` of src/receiver.c starts the transfer, and what becomes of it.
pub mod Failures
use projet_trtp.Base.{
  ℕ, ◌+◌, ◌≡◌, ◌≢◌, ◌<◌, ◌⊎◌, inl, inr, refl, sym, ap, subst, ==_refl, ◌∙◌, Bool, true, false, ◌||◌,
  List, [], ◌∷◌, ◌++◌, Option, none, some, arith, All, ltb, ◌==◌, Bool-cases, lt→ltb, ne→==,
  if◌then◌else◌,
}
use projet_trtp.Receiver.{Receiver, initial, start_receiver_lem}
use projet_trtp.Receiver.Loop.{read_write_receiver}
use projet_trtp.Program.{
  Opt, opt_f, opt_s, opt_h, opt_c, opt_unknown, Arguments, Address, Polled, polled, Os, Process,
  Call, bound, connected, Exit, refused, ended, exit_failure, with_port, create_socket,
  wait_for_client, open_stats, with_stats,
}
use projet_trtp.Program.Starts.{start, Fresh, last_of, s_arg}
use projet_trtp.Program.Port.{port_of}
use projet_trtp.Program.Receiving.{Transfer, parse, close_both, main}

-- The options that the receiver knows and that do not ask for its usage.
abbrev pub IsKnown : Opt → Type 0
IsKnown (opt_s optarg) = Unit {0}
IsKnown _ = ⊥

pub parse_known :
    (opts : List Opt) (name : Option (List ℕ))
    → All IsKnown opts
    → parse opts name ≡ some (last_of s_arg opts name)
unfolding parse
parse_known [] o h = refl
parse_known (opt_s optarg ∷ opts) o (k, h) = parse_known opts _ h
parse_known (opt_f optarg ∷ opts) o (k, h) = absurd k
parse_known (opt_h ∷ opts) o (k, h) = absurd k
parse_known (opt_c ∷ opts) o (k, h) = absurd k
parse_known (opt_unknown ∷ opts) o (k, h) = absurd k

pub parse_cases :
    (opts : List Opt) (name : Option (List ℕ)) → All IsKnown opts ⊎ (parse opts name ≡ none)
unfolding parse
parse_cases [] o = inl tt
parse_cases (opt_s optarg ∷ opts) o = elim (parse_cases opts (some optarg)) [
  | inl h ↦ inl (tt, h)
  | inr e ↦ inr e
]
parse_cases (opt_f optarg ∷ opts) o = inr refl
parse_cases (opt_h ∷ opts) o = inr refl
parse_cases (opt_c ∷ opts) o = inr refl
parse_cases (opt_unknown ∷ opts) o = inr refl

-- With port 0 the socket gets no address.
abbrev pub binding : (sfd port : ℕ) → Address → List Call
binding sfd port address = if ltb 0 port then bound sfd (with_port address port) ∷ [] else []

-- The calls up to the client's.
abbrev pub meeting : (sfd port : ℕ) → (address client : Address) → List Call
meeting sfd port address client = binding sfd port address ++ (connected sfd client ∷ [])

-- What the receiver needs for its transfer: its options, its port and address, a client and its
-- descriptors.
pub record Receives (os : Os) (arguments : Arguments) : Type 0 where
  pub known : All IsKnown arguments.options
  pub listen_ip : List ℕ
  pub listen_port : List ℕ
  pub two : arguments.positional ≡ listen_ip ∷ listen_port ∷ []
  pub port : ℕ
  pub is_port : port_of listen_port ≡ some port
  pub address : Address
  pub resolved : os.getaddrinfo listen_ip ≡ some address
  pub sfd : ℕ
  pub has_socket : os.socket start.fds ≡ some sfd
  pub binds : (ltb 0 port ≡ false) ⊎ (os.bind sfd (with_port address port) ≡ true)
  pub polls : os.poll sfd ≡ polled
  pub client : Address
  pub has_client : os.recvfrom sfd ≡ some client
  pub connects : os.connect sfd client ≡ true
  pub fd_stats : ℕ
  pub has_stats :
      open_stats os
        (last_of s_arg arguments.options none)
        (record { fds = sfd ∷ start.fds; calls = meeting sfd port address client })
      ≡ inr fd_stats

pub create_bound :
    (os : Os) (sfd port : ℕ) (address : Address)
    → os.socket start.fds ≡ some sfd
    → (ltb 0 port ≡ false) ⊎ (os.bind sfd (with_port address port) ≡ true)
    → create_socket os (some (address, port)) none start
      ≡ (some sfd, record { fds = sfd ∷ start.fds; calls = binding sfd port address })
unfolding create_socket
create_bound os sfd port address e (inl c) = rw (e, c)
create_bound os sfd port address e (inr c) = elim (Bool-cases (ltb 0 port)) [
  | inl h ↦ rw (e, h, c)
  | inr h ↦ rw (e, h)
]

pub sfd_lem : (os : Os) (sfd : ℕ) → Fresh os → os.socket start.fds ≡ some sfd → ltb 0 sfd ≡ true
sfd_lem os sfd fresh e =
    let (f2, (f1, (f0, _))) = fresh.0 start.fds sfd e in lt→ltb 0 sfd (omega arith)

-- What is left of the standard descriptors: where no file is given for the statistics, standard error is
-- closed.
abbrev pub left_open : Option (List ℕ) → List ℕ
left_open none = 1 ∷ 0 ∷ []
left_open (some name) = start.fds

close_both_lem :
    (os : Os) (name : Option (List ℕ)) (sfd fd_stats : ℕ) (calls : List Call)
    → Fresh os
    → open_stats os name (record { fds = sfd ∷ start.fds; calls = calls }) ≡ inr fd_stats
    → close_both sfd fd_stats
        (with_stats name fd_stats (record { fds = sfd ∷ start.fds; calls = calls }))
      ≡ record { fds = left_open name; calls = calls }
close_both_lem os none sfd fd_stats calls fresh e =
    let same : 2 ≡ fd_stats = cc e in
    subst
      (λ (n : ℕ).
        close_both sfd n (record { fds = sfd ∷ start.fds; calls = calls })
        ≡ record { fds = left_open none; calls = calls })
      same (rw (==_refl sfd))
close_both_lem os (some name) sfd fd_stats calls fresh e =
    let (f0, rest) = fresh.1 name (sfd ∷ start.fds) fd_stats e in
    rw (ne→== sfd fd_stats (λ same. f0 (sym same)), ==_refl sfd, ==_refl fd_stats)

-- Where `malloc` succeeds and `socket` and `open` find descriptors that are not in use, `main` of the receiver,
-- with no options but -s, two further arguments of which the second is a port, an address for the first, a
-- socket that `bind` binds to it unless the port is 0, a datagram on the socket to whose sender
-- `connect` connects it, and the file that the last -s names or standard error, runs `read_write_receiver` on
-- the socket. When that ends, by itself or as `poll` fails, `main` returns EXIT_SUCCESS, the socket has been
-- bound to the address with the port, unless it is 0, then connected to that sender, and of the
-- standard descriptors all are open if there was -s, and standard error is closed if not.
pub main_receives :
    (os : Os) (t : Transfer) (arguments : Arguments) (buffer : List ℕ) (eof_wrote : Bool)
    (s : Receiver)
    → ((k : ℕ) → os.libs.malloc k ≡ true)
    → Fresh os
    → (u : Receives os arguments) → t.buffer ≡ some buffer
    → read_write_receiver (t.world u.sfd) t.turns (initial buffer) ≡ some (eof_wrote, s)
    → eof_wrote || t.poll_fails ≡ true
    → main os t arguments start
      ≡ some (
        ended (some s),
        record {
          fds = left_open (last_of s_arg arguments.options none);
          calls = meeting u.sfd u.port u.address u.client;
        },
      )
unfolding main wait_for_client
main_receives os t arguments buffer eof_wrote s mem fresh u b run stops = rw (
  parse_known arguments.options none u.known,
  u.two,
  u.is_port,
  u.resolved,
  create_bound os u.sfd u.port u.address u.has_socket u.binds,
  sfd_lem os u.sfd fresh u.has_socket,
  mem 8,
  u.polls,
  u.has_client,
  u.connects,
  u.has_stats,
  b,
  start_receiver_lem os.libs buffer mem,
  run,
  stops,
  close_both_lem os (last_of s_arg arguments.options none) u.sfd u.fd_stats
      (meeting u.sfd u.port u.address u.client) fresh u.has_stats,
)
