-- ===== src/Program/Receives/Failures.antt =====
-- `main` of src/receiver.c fails where it lacks something.
use projet_trtp.Base.{
  ℕ, ◌≡◌, ◌⊎◌, inl, inr, refl, true, false, List, [], ◌∷◌, ◌++◌, Option, none, some, arith, All,
  ltb, Bool-cases,
}
use projet_trtp.Program.{
  Opt, Arguments, Address, Polled, poll_error, timed_out, polled, Os, Process, connected, close,
  with_port, create_socket, wait_for_client, open_stats,
}
use projet_trtp.Program.Starts.{
  start, Fresh, HasErrno, last_of, s_arg, Fails, option_result, sum_result, errno_stats,
  guarded_cases,
}
use projet_trtp.Program.Port.{port_of}
use projet_trtp.Program.Receiving.{Transfer, main}
use projet_trtp.Program.Receives.{
  IsKnown, parse_known, parse_cases, Receives, binding, meeting, create_bound, sfd_lem,
}

create_refused :
    (os : Os) (sfd port : ℕ) (address : Address)
    → os.socket start.fds ≡ some sfd
    → ltb 0 port ≡ true
    → os.bind sfd (with_port address port) ≡ false
    → create_socket os (some (address, port)) none start
      ≡ (none, record { fds = sfd ∷ start.fds; calls = [] })
unfolding create_socket
create_refused os sfd port address e h c = rw (e, h, c)

create_none :
    (os : Os) (source : Option (Address × ℕ))
    → os.socket start.fds ≡ none
    → create_socket os source none start ≡ (none, start)
unfolding create_socket
create_none os source e = rw e

polled_cases : (r : Polled) → (r ≡ poll_error) ⊎ ((r ≡ timed_out) ⊎ (r ≡ polled))
polled_cases poll_error = inl refl
polled_cases timed_out = inr (inl refl)
polled_cases polled = inr (inr refl)

-- Whether a client was there.
client_cases :
    (os : Os) (sfd : ℕ) (p : Process)
    → ((k : ℕ) → os.libs.malloc k ≡ true)
    → ((client : Address) × (os.poll sfd ≡ polled)
        × (os.recvfrom sfd ≡ some client)
        × (os.connect sfd client ≡ true)
        × (wait_for_client os sfd p
            ≡ some (true, record p { calls = p.calls ++ (connected sfd client ∷ []) })))
      ⊎ (wait_for_client os sfd p ≡ some (false, p))
unfolding wait_for_client
client_cases os sfd p mem = elim (polled_cases (os.poll sfd)) [
  | inl e ↦ inr (rw (mem 8, e))
  | inr (inl e) ↦ inr (rw (mem 8, e))
  | inr (inr e) ↦ elim (option_result (os.recvfrom sfd)) [
    | inl f ↦ inr (rw (mem 8, e, f))
    | inr (client, f) ↦ elim (Bool-cases (os.connect sfd client)) [
      | inl c ↦ inl (client, e, f, c, rw (mem 8, e, f, c))
      | inr c ↦ inr (rw (mem 8, e, f, c))
    ]
  ]
]

module _ (os : Os) (t : Transfer) (opts : List Opt) (known : All IsKnown opts) (errno : HasErrno os)
    (mem : (k : ℕ) → os.libs.malloc k ≡ true) (fresh : Fresh os)
    (listen_ip listen_port : List ℕ) where
  abbrev pub args : Arguments
  args = record { options = opts; positional = listen_ip ∷ listen_port ∷ [] }

  bound_socket :
      (port : ℕ) (address : Address) (sfd : ℕ)
      → port_of listen_port ≡ some port
      → os.getaddrinfo listen_ip ≡ some address
      → os.socket start.fds ≡ some sfd
      → (ltb 0 port ≡ false) ⊎ (os.bind sfd (with_port address port) ≡ true)
      → Receives os args ⊎ Fails (main os t args start)
  unfolding main
  bound_socket port address sfd e1 e2 e c =
      let parsed = parse_known opts none known in
      let made = create_bound os sfd port address e c in
      let some_fd = sfd_lem os sfd fresh e in
      let p1 : Process = record { fds = sfd ∷ start.fds; calls = binding sfd port address } in
      elim (client_cases os sfd p1 mem) [
        | inr w ↦ inr (1, close sfd p1, (omega arith), rw (parsed, e1, e2, made, some_fd, w))
        | inl (client, polls, f, k, w) ↦
            (let p2 : Process = record {
              fds = sfd ∷ start.fds;
              calls = meeting sfd port address client;
            } in
              elim (sum_result (open_stats os (last_of s_arg opts none) p2)) [
                | inl (code, g) ↦ inr (
                  code,
                  p2,
                  errno_stats os _ _ code errno g,
                  rw (parsed, e1, e2, made, some_fd, w, g),
                )
                | inr (fd_stats, g) ↦ inl (record {
                  known = known;
                  listen_ip = listen_ip;
                  listen_port = listen_port;
                  two = refl;
                  port = port;
                  is_port = e1;
                  address = address;
                  resolved = e2;
                  sfd = sfd;
                  has_socket = e;
                  binds = c;
                  polls = polls;
                  client = client;
                  has_client = f;
                  connects = k;
                  fd_stats = fd_stats;
                  has_stats = g;
                })
              ])
      ]

  two_arguments : Receives os args ⊎ Fails (main os t args start)
  unfolding main
  two_arguments =
      let parsed = parse_known opts none known in
      elim (option_result (port_of listen_port)) [
        | inl e ↦ inr (1, start, (omega arith), rw (parsed, e))
        | inr (port, e1) ↦ elim (option_result (os.getaddrinfo listen_ip)) [
          | inl e ↦ inr (1, start, (omega arith), rw (parsed, e1, e))
          | inr (address, e2) ↦ elim (option_result (os.socket start.fds)) [
            | inl e ↦ inr (
              1,
              start,
              (omega arith),
              rw (parsed, e1, e2, create_none os (some (address, port)) e),
            )
            | inr (sfd, e) ↦
                elim (guarded_cases (ltb 0 port) (os.bind sfd (with_port address port))) [
                  | inr (h, c) ↦ inr (
                    1,
                    record { fds = sfd ∷ start.fds; calls = [] },
                    (omega arith),
                    rw (parsed, e1, e2, create_refused os sfd port address e h c),
                  )
                  | inl c ↦ bound_socket port address sfd e1 e2 e c
                ]
          ]
        ]
      ]

known_or_Fails :
    (os : Os) (t : Transfer) (opts : List Opt) (positional : List (List ℕ))
    → HasErrno os
    → ((k : ℕ) → os.libs.malloc k ≡ true)
    → Fresh os
    → All IsKnown opts
    → Receives os (record { options = opts; positional = positional })
      ⊎ Fails (main os t (record { options = opts; positional = positional }) start)
unfolding main
known_or_Fails os t opts [] errno mem fresh known =
    inr (1, start, (omega arith), rw (parse_known opts none known))
known_or_Fails os t opts (a ∷ []) errno mem fresh known =
    inr (1, start, (omega arith), rw (parse_known opts none known))
known_or_Fails os t opts (a ∷ b ∷ []) errno mem fresh known =
    two_arguments os t opts known errno mem fresh a b
known_or_Fails os t opts (a ∷ b ∷ c ∷ rest) errno mem fresh known =
    inr (1, start, (omega arith), rw (parse_known opts none known))

-- Where `malloc` succeeds, an errno of `open` is not 0 and `socket` and `open` find descriptors that are not in
-- use, `main` of the receiver either finds all that it needs for its transfer (no options but -s, two
-- further arguments of which the second is a port, an address, a socket that is bound unless the port is
-- 0, a client to which it is connected, and the file for the statistics), or returns a status that is
-- not 0 without a transfer.
pub main_receives_or_Fails :
    (os : Os) (t : Transfer) (arguments : Arguments)
    → HasErrno os
    → ((k : ℕ) → os.libs.malloc k ≡ true)
    → Fresh os
    → Receives os arguments ⊎ Fails (main os t arguments start)
unfolding main
main_receives_or_Fails os t arguments errno mem fresh = elim (parse_cases arguments.options none) [
  | inl known ↦ known_or_Fails os t arguments.options arguments.positional errno mem fresh known
  | inr e ↦ inr (1, start, (omega arith), rw e)
]
