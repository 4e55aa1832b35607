-- ===== src/Session/Started.antt =====
-- `main` of assignment4 with a message on the command line and with one in a file.
use grnvs.Prelude.{
  ℕ, suc, ◌-◌, ◌≡◌, ◌<◌, ◌≤◌, refl, arith, none, some, List, [], ◌∷◌, ◌++◌, length, take, ap, ◌∙◌,
  sym,
}
use grnvs.Prelude.Int.{ℤ, pos, InRange}
use grnvs.Memory.{Bytes}
use grnvs.Memory.Strings.{Lacks, take_all, string_at-drop}
use grnvs.Args.{Word, argument, option, ran, parsed, argp_parse}
use grnvs.Args.Strtol.{print_long, strtol-print_long, to_int-same}
use grnvs.Netstring.{bufsize, Reply, Order}
use grnvs.Netstring.Messages.{filled}
use grnvs.Session.{Calls, done, assignment4}
use grnvs.Session.Arguments.{Arguments, parse_opt, parse_args}
use grnvs.Session.Parts.{AllSucceed}
use grnvs.Session.Peer.{Peer}
use grnvs.Session.Run.{server, spoken, assignment4-run}
use grnvs.Session.Main.{
  File, holds, file_text, message_text, port_of, started, start_session, launch, main,
}

file_text-string : (t : Bytes) → Lacks 0 t → length t < bufsize → file_text t ≡ some t
unfolding file_text
file_text-string t lacks h =
    let (junk, fill) = filled t h in
    let whole : take (bufsize - 1) t ≡ t = take_all (bufsize - 1) t (omega (arith, h)) in
    rw (whole, fill, file_text) (string_at-drop 0 (t ++ (0 ∷ junk)) t junk refl lacks)

parse-message :
    (nick dst msg : Bytes)
    → parse_args (argument nick ∷ argument dst ∷ option b'm' msg ∷ [])
      ≡ parsed (record {
        nick = some nick;
        dst = some dst;
        port = pos 1337;
        msg = some msg;
        file = none;
      })
unfolding parse_args argp_parse parse_opt
parse-message nick dst msg = refl

parse-file :
    (nick dst name : Bytes)
    → parse_args (argument nick ∷ argument dst ∷ option b'f' name ∷ [])
      ≡ parsed (record {
        nick = some nick;
        dst = some dst;
        port = pos 1337;
        msg = none;
        file = some name;
      })
unfolding parse_args argp_parse parse_opt
parse-file nick dst name = refl

parse-port :
    (nick dst msg : Bytes) (port : ℤ)
    → InRange 31 port
    → parse_args
        (option b'p' (print_long port) ∷ argument nick ∷ argument dst ∷ option b'm' msg ∷ [])
      ≡ parsed
          (record { nick = some nick; dst = some dst; port = port; msg = some msg; file = none })
unfolding parse_args parse_opt
parse-port nick dst msg port fits =
    let long : InRange 63 port = (omega (arith, fits), omega (arith, fits)) in
    rw (strtol-print_long port long, to_int-same port fits, parse_args, argp_parse) refl

message_text-holds :
    (t name : Bytes) (args : Arguments)
    → args.file ≡ some name
    → Lacks 0 t
    → length t < bufsize
    → message_text (holds t) args ≡ ran (some t)
unfolding message_text
message_text-holds t name args given lacks h =
    rw (given, file_text-string t lacks h, message_text) refl

module _ (order : Order) (calls : (dst : Bytes) → (port : ℕ) → Calls) (fuel : ℕ) where
  module _ (control_in data_in : List Reply) (file : File) where
    main-parsed :
        (words : List Word) (args : Arguments)
        → parse_args words ≡ parsed args
        → main order fuel calls control_in data_in file words
          ≡ launch order fuel calls control_in data_in file args
    unfolding main
    main-parsed words args e = rw (e, main) refl

    launch-text :
        (args : Arguments) (nick dst text : Bytes)
        → message_text file args ≡ ran (some text)
        → args.dst ≡ some dst
        → args.nick ≡ some nick
        → launch order fuel calls control_in data_in file args
          ≡ ran (
              assignment4 order fuel
                (calls dst (port_of args.port))
                nick
                text
                (started control_in data_in))
    unfolding launch
    launch-text args nick dst text e d n = rw (e, launch, start_session, d, n) refl

  -- Given by its name in place of a message, a file with a text of at most 4095 bytes without 0
  -- makes the program do what it does with that text as the message.
  pub main-file :
      (control_in data_in : List Reply) (file : File) (nick dst name text : Bytes)
      → Lacks 0 text
      → length text < bufsize
      → main order fuel calls control_in data_in
          (holds text)
          (argument nick ∷ argument dst ∷ option b'f' name ∷ [])
        ≡ main order fuel calls control_in data_in file
            (argument nick ∷ argument dst ∷ option b'm' text ∷ [])
  main-file control_in data_in file nick dst name text lacks h =
      let from_file : Arguments = record {
        nick = some nick;
        dst = some dst;
        port = pos 1337;
        msg = none;
        file = some name;
      } in
      let given : Arguments = record {
        nick = some nick;
        dst = some dst;
        port = pos 1337;
        msg = some text;
        file = none;
      } in
      main-parsed control_in data_in (holds text) _ from_file (parse-file nick dst name)
      ∙ launch-text control_in data_in (holds text) from_file nick dst text
          (message_text-holds text name from_file refl lacks h) refl refl
      ∙ sym (
          main-parsed control_in data_in file _ given (parse-message nick dst text)
          ∙ launch-text control_in data_in file given nick dst text (unfold message_text in refl)
              refl refl)

module _ (order : Order) (calls : (dst : Bytes) → (port : ℕ) → Calls) (fuel : ℕ) where
  -- The program, started with a port of 16 bits, a nick, a destination and a message, against a server
  -- there that follows the protocol and sends each text as one netstring, in as many segments as it
  -- likes, under the conditions of `readNet` on them. With tokens of at most 2045 bytes without 0, a
  -- nick and a message of at most 4087 bytes, a data port of 16 bits and calls on sockets that all
  -- succeed, two rounds of fuel for each text are enough for the program to come to its end, with
  -- the texts of the protocol sent, each as one netstring, and its three descriptors closed.
  pub main-run :
      (peer : Peer) (port : ℕ) (nick dst token dtoken msg : Bytes) (file : File)
      → port < 65536
      → AllSucceed (calls dst port)
      → (calls dst port).port < 65536
      → length nick ≤ 4087
      → length msg ≤ 4087
      → Lacks 0 token
      → length token ≤ 2045
      → Lacks 0 dtoken
      → length dtoken ≤ 2045
      → main order
          (suc (suc fuel))
          calls
          (server peer token dtoken msg (started [] [])).control_in
          (server peer token dtoken msg (started [] [])).data_in
          file
          (option b'p' (print_long (pos port))
            ∷ argument nick
            ∷ argument dst
            ∷ option b'm' msg
            ∷ [])
        ≡ ran (done tt (spoken (calls dst port) nick dtoken msg (started [] [])))
  main-run peer port nick dst token dtoken msg file small good own nick_room msg_room token_text
        token_room dtoken_text dtoken_room =
      let s = server peer token dtoken msg (started [] []) in
      let same : port_of (pos port) ≡ port = ground (arith, small) in
      let args : Arguments = record {
        nick = some nick;
        dst = some dst;
        port = pos port;
        msg = some msg;
        file = none;
      } in
      main-parsed order calls (suc (suc fuel)) s.control_in s.data_in file _ args
        (parse-port nick dst msg (pos port) (omega (arith, small), omega arith))
      ∙ launch-text order calls (suc (suc fuel)) s.control_in s.data_in file args nick dst msg
          (unfold message_text in refl) refl refl
      ∙ rw same (
          ap ran (
            assignment4-run peer order fuel (calls dst port) nick token dtoken msg (started [] [])
              good own nick_room msg_room token_text token_room dtoken_text dtoken_room))
