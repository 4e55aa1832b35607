-- ===== src/Session/Run.antt =====
-- `assignment4` against a server that follows the protocol and sends each text as a netstring of its own.
use grnvs.Prelude.{ℕ, suc, ◌≡◌, ◌<◌, ◌≤◌, true, [], ◌∷◌, ◌++◌, length}
use grnvs.Memory.{Bytes}
use grnvs.Memory.Strings.{Lacks}
use grnvs.Decimal.{decimal}
use grnvs.Netstring.{Order}
use grnvs.Netstring.Texts.{codes}
use grnvs.Session.{
  sd_control, sd_listen, sd_data, set_open, close_all, Calls, Client, done, control, data_socket,
  protocol, assignment4,
}
use grnvs.Session.Peer.{Peer}
use grnvs.Session.Exchange.{then-step, before, after, heard}
use grnvs.Session.Parts.{AllSucceed, greet-run, deliver-run, open_data-run, finish-run}

-- The texts that the server sends, in order: on the control socket, on the data socket, and again on
-- the control socket.
abbrev pub server : Peer → (token dtoken msg : Bytes) → Client → Client
server peer token dtoken msg s = before peer control (codes "S GRNVS V:1.0") (
    before peer control (codes "S " ++ token) (
      before peer control (codes "S " ++ decimal (length msg)) (
        before peer control (codes "S ACK") (
          before peer data_socket (codes "T GRNVS V:1.0") (
            before peer data_socket (codes "T " ++ token)
              (before peer data_socket (codes "T " ++ dtoken) (record s { start = 0 })))))))

-- The texts that `assignment4` sends, in order on each socket, and what it leaves in its variables.
abbrev pub spoken : Calls → (nick dtoken msg : Bytes) → Client → Client
spoken calls nick dtoken msg s =
    let greeted = after control (codes "C " ++ nick) (after control (codes "C GRNVS V:1.0") s) in
    let opened = after control (codes "C " ++ decimal calls.port) greeted in
    let delivered =
      after data_socket (codes "D " ++ msg) (after data_socket (codes "D " ++ nick) opened) in
    close_all (sd_control ∷ sd_listen ∷ sd_data ∷ []) (
      heard (codes "S ACK")
        (record (after control (codes "C " ++ dtoken) delivered) { token = dtoken }))

module _ (peer : Peer) (order : Order) (fuel : ℕ) (calls : Calls) (nick token dtoken msg : Bytes)
    (s : Client) where
  protocol-run :
      AllSucceed calls
      → calls.port < 65536
      → length nick ≤ 4087
      → length msg ≤ 4087
      → Lacks 0 token
      → length token ≤ 2045
      → Lacks 0 dtoken
      → length dtoken ≤ 2045
      → protocol order (suc (suc fuel)) calls nick msg (server peer token dtoken msg s)
        ≡ done tt (spoken calls nick dtoken msg s)
  unfolding protocol
  protocol-run good port nick_room msg_room token_text token_room dtoken_text dtoken_room =
      let s₁ = before peer control (codes "S " ++ decimal (length msg)) (
        before peer control (codes "S ACK") (
          before peer data_socket (codes "T GRNVS V:1.0") (
            before peer data_socket (codes "T " ++ token)
              (before peer data_socket (codes "T " ++ dtoken) (set_open sd_control true s))))) in
      let t = set_open sd_control true s in
      let s₂ = set_open sd_data true (
        after control (codes "C " ++ decimal calls.port) (
          set_open sd_listen true (
            heard (codes "S " ++ token) (
              after control (codes "C " ++ nick)
                (record (after control (codes "C GRNVS V:1.0") t) { token = token }))))) in
      let s₃ = after data_socket (codes "D " ++ msg) (after data_socket (codes "D " ++ nick) s₂) in
      rw (good.1, good.2)
        (then-step _ (greet-run peer order fuel nick token nick_room token_text token_room s₁) (
          then-step _
            (open_data-run order calls
              (heard (codes "S " ++ token) (
                after control (codes "C " ++ nick)
                  (record (after control (codes "C GRNVS V:1.0") s₁) { token = token })))
              good port)
            (then-step _
              (deliver-run peer order fuel nick token nick_room token_text token_room dtoken msg
                dtoken_text dtoken_room msg_room
                (before peer control (codes "S " ++ decimal (length msg))
                  (before peer control (codes "S ACK") s₂)))
              (finish-run peer order fuel msg dtoken msg_room dtoken_room (
                close_all (sd_listen ∷ sd_data ∷ [])
                  (heard (codes "T " ++ dtoken) (record s₃ { token = dtoken })))))))

  -- Against a server that follows the protocol and sends each text as one netstring, in as many
  -- segments as it likes: the first one up to the colon or further, the second of any length, each
  -- later one at least as long as the one before it, and each but the first while `readNet` waits and
  -- no longer than it asks for. With tokens of at most 2045 bytes without 0, a nick and a message of
  -- at most 4087 bytes, a port of 16 bits and calls that all succeed, two rounds of fuel for each
  -- text are enough for `assignment4` to come to its end. It has then sent, each as one netstring,
  -- the greeting, the nick, the port and the data token on the control socket, and the nick and the
  -- message on the data socket, has taken these segments from the connections, has printed nothing,
  -- and has closed its three descriptors.
  pub assignment4-run :
      AllSucceed calls
      → calls.port < 65536
      → length nick ≤ 4087
      → length msg ≤ 4087
      → Lacks 0 token
      → length token ≤ 2045
      → Lacks 0 dtoken
      → length dtoken ≤ 2045
      → assignment4 order (suc (suc fuel)) calls nick msg (server peer token dtoken msg s)
        ≡ done tt (spoken calls nick dtoken msg s)
  unfolding assignment4
  assignment4-run good port nick_room msg_room token_text token_room dtoken_text dtoken_room =
      rw (good.0)
        (protocol-run good port nick_room msg_room token_text token_room dtoken_text dtoken_room)
