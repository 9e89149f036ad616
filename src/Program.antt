-- ===== src/Program.antt =====
-- What src/sender.c and src/receiver.c share: the arguments of a program, its file descriptors and sockets,
-- with src/read-write/create_socket.c, src/read-write/wait_for_client.c and src/read-write/real_address.c.
pub mod Port
pub mod Sending
pub mod Receiving
pub mod Starts
pub mod Sends
pub mod Receives
mod Tests
use projet_trtp.Base.{
  ℕ, ◌+◌, ◌*◌, ◌/◌, ◌%◌, ◌^◌, Bool, true, false, ◌&&◌, List, [], ◌∷◌, ◌++◌, Option, none, some, ltb,
  ◌==◌, ◌⊎◌, inl, inr, if◌then◌else◌,
}
use projet_trtp.Packet.Struct.{Libs}
use projet_trtp.Window.{sizeof_pollfd}

-- What `getopt` finds: the options in their order, each with its argument, and what stands behind them.
pub data Opt : Type 0 where
  opt_f : (optarg : List ℕ) → Opt
  opt_s : (optarg : List ℕ) → Opt
  opt_h : Opt
  opt_c : Opt
  opt_unknown : Opt

pub record Arguments : Type 0 where
  pub options : List Opt
  pub positional : List (List ℕ)

-- `struct sockaddr_in6`: the host with what belongs to it, and the port in network order.
pub record Address : Type 0 where
  pub host : List ℕ
  pub sin6_port : ℕ

-- The result of `poll` with a timeout.
pub data Polled : Type 0 where
  poll_error : Polled
  timed_out : Polled
  polled : Polled

-- The system: `malloc`; what `socket` and `open` find, given the descriptors in use (`open` may leave an
-- errno instead); whether `bind` and `connect` succeed; what `getaddrinfo` finds (`none` is an error);
-- the result of `poll` on a socket, and the source of the datagram at which `recvfrom` looks there
-- (`none` where it fails).
pub record Os : Type 0 where
  pub libs : Libs
  pub socket : List ℕ → Option ℕ
  pub bind : (sfd : ℕ) → Address → Bool
  pub connect : (sfd : ℕ) → Address → Bool
  pub getaddrinfo : List ℕ → Option Address
  pub poll : (sfd : ℕ) → Polled
  pub recvfrom : (sfd : ℕ) → Option Address
  pub open_read : (filename : Option (List ℕ)) → List ℕ → ℕ ⊎ ℕ
  pub open_write : (filename : List ℕ) → List ℕ → ℕ ⊎ ℕ

-- The calls that give a socket an address and that have succeeded.
pub data Call : Type 0 where
  bound : (sfd : ℕ) → Address → Call
  connected : (sfd : ℕ) → Address → Call

-- A process: its descriptors in use, the latest first, and those calls.
pub record Process : Type 0 where
  pub fds : List ℕ
  pub calls : List Call

abbrev pub exit_failure : ℕ
exit_failure = 1

abbrev pub stderr_fileno : ℕ
stderr_fileno = 2

-- How a program ends: before the transfer with a status, behind it with EXIT_SUCCESS, or not yet. The
-- state of the transfer is there unless its buffer was not.
pub data Exit (S : Type 0) : Type 0 where
  refused : (status : ℕ) → Exit S
  ended : Option S → Exit S
  running : S → Exit S

-- Usage is printed, and the program fails.
abbrev pub print_usage : {S : Type 0} → Process → Option (Exit S × Process)
print_usage p = some (refused exit_failure, p)

abbrev pub remove : ℕ → List ℕ → List ℕ
remove fd [] = []
remove fd (x ∷ xs) = if fd == x then xs else x ∷ remove fd xs

-- The result of `close` is not looked at.
abbrev pub close : ℕ → Process → Process
close fd p = record p { fds = remove fd p.fds }

abbrev pub opened : ℕ → Process → Process
opened fd p = record p { fds = fd ∷ p.fds }

abbrev pub htons : ℕ → ℕ
htons port = 256 * (port % 256) + port / 256 % 256

abbrev pub with_port : Address → ℕ → Address
with_port address port = record address { sin6_port = htons port }

-- The two parts of `create_socket` behind `socket`; `none` is a NULL address with the port -1.
abbrev pub bind_source : Os → ℕ → Option (Address × ℕ) → Process → Bool × Process
bind_source os sfd none p = (true, p)
bind_source os sfd (some (address, port)) p =
    if ltb 0 port
    then (if os.bind sfd (with_port address port)
        then (true, record p { calls = p.calls ++ (bound sfd (with_port address port) ∷ []) })
        else (false, p))
    else (true, p)

abbrev pub connect_to : Os → ℕ → Address → Process → Bool × Process
connect_to os sfd address p =
    if os.connect sfd address
    then (true, record p { calls = p.calls ++ (connected sfd address ∷ []) })
    else (false, p)

abbrev pub connect_dest : Os → ℕ → Option (Address × ℕ) → Process → Bool × Process
connect_dest os sfd none p = (true, p)
connect_dest os sfd (some (address, port)) p =
    if ltb 0 port then connect_to os sfd (with_port address port) p else (true, p)

abbrev pub connect_socket : Os → ℕ → Option (Address × ℕ) → Bool × Process → Option ℕ × Process
connect_socket os sfd dest (false, p) = (none, p)
connect_socket os sfd dest (true, p) =
    let (done, p1) = connect_dest os sfd dest p in ((if done then some sfd else none), p1)

abbrev pub initialize :
    Os → (source dest : Option (Address × ℕ)) → Option ℕ → Process → Option ℕ × Process
initialize os source dest none p = (none, p)
initialize os source dest (some sfd) p =
    connect_socket os sfd dest (bind_source os sfd source (opened sfd p))

-- The socket (`none` is -1).
unfoldable pub create_socket :
    Os → (source dest : Option (Address × ℕ)) → Process → Option ℕ × Process
create_socket os source dest p = initialize os source dest (os.socket p.fds) p

abbrev pub connect_client : Os → ℕ → Option Address → Process → Bool × Process
connect_client os sfd none p = (false, p)
connect_client os sfd (some address) p = connect_to os sfd address p

-- Whether a client was there; a NULL of `malloc` is used.
unfoldable pub wait_for_client : Os → ℕ → Process → Option (Bool × Process)
wait_for_client os sfd p =
    if os.libs.malloc sizeof_pollfd
    then some (elim (os.poll sfd) [
      | poll_error ↦ (false, p)
      | timed_out ↦ (false, p)
      | polled ↦ connect_client os sfd (os.recvfrom sfd) p
    ])
    else none

-- `none` is an error message.
abbrev pub real_address : Os → List ℕ → Option Address
real_address os address = os.getaddrinfo address

-- The file for the statistics: standard error, unless a name is given.
abbrev pub open_stats : Os → Option (List ℕ) → Process → ℕ ⊎ ℕ
open_stats os none p = inr stderr_fileno
open_stats os (some name) p = os.open_write name p.fds

abbrev pub with_stats : Option (List ℕ) → ℕ → Process → Process
with_stats none fd_stats p = p
with_stats (some name) fd_stats p = opened fd_stats p
