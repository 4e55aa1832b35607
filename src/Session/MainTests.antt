-- ===== src/Session/MainTests.antt =====
-- The command line of assignment4 at concrete words.
use grnvs.Prelude.{◌↔◌, ◌≡◌, ◌≢◌, refl, true, false, arith, none, some, List, [], ◌∷◌}
use grnvs.Prelude.Int.{pos}
use grnvs.Args.{Word, argument, option, crashed, ran, parsed, argp_parse}
use grnvs.Netstring.{assign_first}
use grnvs.Netstring.Texts.{codes}
use grnvs.Args.Strtol.{print_long}
use grnvs.Session.{Calls, done}
use grnvs.Session.Arguments.{Arguments, parse_opt, parse_args}
use grnvs.Session.Parsing.{IsRead, parse_args-IsRead}
use grnvs.Session.Accepting.{Valid, parse_args-accepts}
use grnvs.Session.Peer.{split}
use grnvs.Session.Run.{server, spoken}
use grnvs.Session.Main.{cannot_open, holds, started, main}
use grnvs.Session.Started.{main-file, main-run}
use grnvs.Session.NotNull.{main-ne-crashed}

abbrev words : List Word
words =
    argument (codes "me")
    ∷ option b'm' (codes "one")
    ∷ argument (codes "::1")
    ∷ option b'm' (codes "hello")
    ∷ []

abbrev read : Arguments
read = record {
  nick = some (codes "me");
  dst = some (codes "::1");
  port = pos 1337;
  msg = some (codes "hello");
  file = none;
}

abbrev silent : Calls
silent = record {
  inet_pton = false;
  socket_control = false;
  connect = false;
  socket_listen = false;
  bind = false;
  listen = false;
  port = 0;
  accept = false;
}

abbrev calls : Calls
calls = record {
  inet_pton = true;
  socket_control = true;
  connect = true;
  socket_listen = true;
  bind = true;
  listen = true;
  port = 40123;
  accept = true;
}

read_run : parse_args words ≡ parsed read
unfolding parse_args argp_parse parse_opt
read_run = refl

parse_args-IsRead_example : IsRead words read
parse_args-IsRead_example = parse_args-IsRead words read read_run

parse_args-accepts_example : ((args : Arguments) × (parse_args words ≡ parsed args)) ↔ Valid words
parse_args-accepts_example = parse_args-accepts words

main-file_example :
    main assign_first 4
      (λ _. λ _. silent)
      []
      []
      (holds (codes "hi"))
      (argument (codes "me") ∷ argument (codes "::1") ∷ option b'f' (codes "text") ∷ [])
    ≡ main assign_first 4
        (λ _. λ _. silent)
        []
        []
        cannot_open
        (argument (codes "me") ∷ argument (codes "::1") ∷ option b'm' (codes "hi") ∷ [])
main-file_example =
    main-file assign_first (λ _. λ _. silent) 4 [] [] cannot_open (codes "me") (codes "::1")
      (codes "text") (codes "hi") (omega arith) (omega arith)

main-ne-crashed_example :
    main assign_first 4 (λ _. λ _. silent) [] [] (holds (codes "hi")) words ≢ crashed
main-ne-crashed_example =
    main-ne-crashed assign_first 4 (λ _. λ _. silent) [] [] (holds (codes "hi")) words

main-run_example :
    main assign_first 2
      (λ _. λ _. calls)
      (server split (codes "tok") (codes "dtok") (codes "hello") (started [] [])).control_in
      (server split (codes "tok") (codes "dtok") (codes "hello") (started [] [])).data_in
      cannot_open
      (option b'p' (print_long (pos 6112))
        ∷ argument (codes "me")
        ∷ argument (codes "::1")
        ∷ option b'm' (codes "hello")
        ∷ [])
    ≡ ran (done tt (spoken calls (codes "me") (codes "dtok") (codes "hello") (started [] [])))
main-run_example =
    main-run assign_first (λ _. λ _. calls) 0 split 6112 (codes "me") (codes "::1") (codes "tok")
      (codes "dtok") (codes "hello") cannot_open (omega arith)
      (refl, refl, refl, refl, refl, refl, refl) (omega arith) (omega arith) (omega arith)
      (omega arith) (omega arith) (omega arith) (omega arith)
