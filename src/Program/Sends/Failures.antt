-- ===== src/Program/Sends/Failures.antt =====
-- `main` of src/sender.c fails where it lacks something.
use projet_trtp.Base.{
  ℕ, ◌≡◌, ◌⊎◌, inl, inr, refl, true, false, List, [], ◌∷◌, Option, none, some, arith, All, ltb,
}
use projet_trtp.Program.{Opt, Arguments, Address, Os, with_port, create_socket, open_stats}
use projet_trtp.Program.Port.{port_of}
use projet_trtp.Program.Sending.{Transfer, no_options, main}
use projet_trtp.Program.Starts.{
  start, HasErrno, last_of, s_arg, Fails, option_result, sum_result, errno_stats, guarded_cases,
}
use projet_trtp.Program.Sends.{
  IsKnown, f_arg, parse_known, parse_cases, Sends, connection, create_connected,
}

create_refused :
    (os : Os) (sfd port : ℕ) (address : Address)
    → os.socket start.fds ≡ some sfd
    → ltb 0 port ≡ true
    → os.connect sfd (with_port address port) ≡ false
    → create_socket os none (some (address, port)) start
      ≡ (none, record { fds = sfd ∷ start.fds; calls = [] })
unfolding create_socket
create_refused os sfd port address e h c = rw (e, h, c)

create_none :
    (os : Os) (dest : Option (Address × ℕ))
    → os.socket start.fds ≡ none
    → create_socket os none dest start ≡ (none, start)
unfolding create_socket
create_none os dest e = rw e

module _ (os : Os) (t : Transfer) (opts : List Opt) (known : All IsKnown opts) (errno : HasErrno os)
    (receiver_ip receiver_port : List ℕ) where
  abbrev pub args : Arguments
  args = record { options = opts; positional = receiver_ip ∷ receiver_port ∷ [] }

  addressed :
      (port : ℕ) (address : Address)
      → port_of receiver_port ≡ some port
      → os.getaddrinfo receiver_ip ≡ some address
      → Sends os args ⊎ Fails (main os t args start)
  unfolding main
  addressed port address e1 e2 =
      let parsed = parse_known opts no_options known in
      elim (option_result (os.socket start.fds)) [
        | inl e ↦
            inr (
              1,
              start,
              (omega arith),
              rw (parsed, e1, e2, create_none os (some (address, port)) e),
            )
        | inr (sfd, e) ↦
            elim (guarded_cases (ltb 0 port) (os.connect sfd (with_port address port))) [
              | inr (h, c) ↦ inr (
                1,
                record { fds = sfd ∷ start.fds; calls = [] },
                (omega arith),
                rw (parsed, e1, e2, create_refused os sfd port address e h c),
              )
              | inl c ↦
                  (let made = create_connected os sfd port address e c in
                    elim (sum_result (os.open_read (last_of f_arg opts none) (sfd ∷ start.fds))) [
                      | inl (code, f) ↦ inr (
                        code,
                        record { fds = sfd ∷ start.fds; calls = connection sfd port address },
                        errno.0 _ _ code f,
                        rw (parsed, e1, e2, made, f),
                      )
                      | inr (fd, f) ↦
                          elim (sum_result (
                            open_stats os (last_of s_arg opts none) (record {
                              fds = fd ∷ sfd ∷ start.fds;
                              calls = connection sfd port address;
                            }))) [
                              | inl (code, g) ↦ inr (
                                code,
                                record {
                                  fds = fd ∷ sfd ∷ start.fds;
                                  calls = connection sfd port address;
                                },
                                errno_stats os _ _ code errno g,
                                rw (parsed, e1, e2, made, f, g),
                              )
                              | inr (fd_stats, g) ↦ inl (record {
                                known = known;
                                receiver_ip = receiver_ip;
                                receiver_port = receiver_port;
                                two = refl;
                                port = port;
                                is_port = e1;
                                address = address;
                                resolved = e2;
                                sfd = sfd;
                                has_socket = e;
                                connects = c;
                                fd = fd;
                                has_file = f;
                                fd_stats = fd_stats;
                                has_stats = g;
                              })
                            ]
                    ])
            ]
      ]

  two_arguments : Sends os args ⊎ Fails (main os t args start)
  unfolding main
  two_arguments =
      let parsed = parse_known opts no_options known in
      elim (option_result (port_of receiver_port)) [
        | inl e ↦ inr (1, start, (omega arith), rw (parsed, e))
        | inr (port, e1) ↦ elim (option_result (os.getaddrinfo receiver_ip)) [
          | inl e ↦ inr (1, start, (omega arith), rw (parsed, e1, e))
          | inr (address, e2) ↦ addressed port address e1 e2
        ]
      ]

known_or_Fails :
    (os : Os) (t : Transfer) (opts : List Opt) (positional : List (List ℕ))
    → HasErrno os
    → All IsKnown opts
    → Sends os (record { options = opts; positional = positional })
      ⊎ Fails (main os t (record { options = opts; positional = positional }) start)
unfolding main
known_or_Fails os t opts [] errno known =
    inr (1, start, (omega arith), rw (parse_known opts no_options known))
known_or_Fails os t opts (a ∷ []) errno known =
    inr (1, start, (omega arith), rw (parse_known opts no_options known))
known_or_Fails os t opts (a ∷ b ∷ []) errno known = two_arguments os t opts known errno a b
known_or_Fails os t opts (a ∷ b ∷ c ∷ rest) errno known =
    inr (1, start, (omega arith), rw (parse_known opts no_options known))

-- Where an errno of `open` is not 0, `main` of the sender either finds all that it needs for its transfer
-- (options that it knows, two further arguments of which the second is a port, an address, a socket that is
-- connected unless the port is 0, the file and the one for the statistics), or returns a status that is not 0
-- without a transfer.
pub main_sends_or_Fails :
    (os : Os) (t : Transfer) (arguments : Arguments)
    → HasErrno os
    → Sends os arguments ⊎ Fails (main os t arguments start)
unfolding main
main_sends_or_Fails os t arguments errno = elim (parse_cases arguments.options no_options) [
  | inl known ↦ known_or_Fails os t arguments.options arguments.positional errno known
  | inr e ↦ inr (1, start, (omega arith), rw e)
]
