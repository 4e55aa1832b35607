-- ===== src/Session/Parts.antt =====
-- The parts of `assignment4` against a server that follows the protocol and sends each text as a netstring of its own.
use grnvs.Prelude.{ℕ, suc, ◌≡◌, ◌≢◌, ◌<◌, ◌≤◌, refl, true, [], ◌∷◌, ◌++◌, arith, length}
use grnvs.Prelude.Int.{pos}
use grnvs.Memory.{Bytes}
use grnvs.Memory.Strings.{Lacks}
use grnvs.Decimal.{decimal}
use grnvs.Decimal.Laws.{AllDigits-Lacks, AllDigits-decimal, length-decimal_port}
use grnvs.Netstring.{Order}
use grnvs.Netstring.Texts.{codes}
use grnvs.Netstring.Receive.{IsText}
use grnvs.Session.{
  Cmd, sd_control, sd_listen, sd_data, set_open, close_all, close, Calls, Client, done, ◌>>◌,
  control, data_socket, advance, take_token, greet, open_data, deliver, finish,
}
use grnvs.Session.Peer.{Peer}
use grnvs.Session.Exchange.{
  then-step, receive_more-before, before, after, send_text-after, on-send, heard, receive-before,
  check-holding, advance-holding, check_kind-holding, take_token-holding, check_token-holding,
  send_dtoken-after,
}

-- Every call on a socket succeeds.
abbrev pub AllSucceed : Calls → Type 0
AllSucceed c =
    (c.inet_pton ≡ true)
    × (c.socket_control ≡ true)
    × (c.connect ≡ true)
    × (c.socket_listen ≡ true)
    × (c.bind ≡ true)
    × (c.listen ≡ true)
    × (c.accept ≡ true)

-- What `deliver` ends with.
abbrev close_data_sockets : Cmd (Unit {0})
close_data_sockets = close sd_listen >> close sd_data

-- A text of a letter, a space and a token.
IsText-kind : (kind : ℕ) (token : Bytes) → kind ≢ 0 → Lacks 0 token → IsText (kind ∷ b' ' ∷ token)
IsText-kind kind token ne lacks = ((ne, (omega arith, lacks)), omega arith)

module _ (peer : Peer) (order : Order) (fuel : ℕ) (nick token : Bytes)
    (nick_room : length nick ≤ 4087) (token_text : Lacks 0 token)
    (token_room : length token ≤ 2045) where
  pub greet-run :
      (s : Client)
      → greet order (suc (suc fuel)) nick (
          before peer control
            (codes "S GRNVS V:1.0")
            (before peer control (codes "S " ++ token) (record s { start = 0 })))
        ≡ done tt (
            heard (codes "S " ++ token) (
              after control
                (codes "C " ++ nick)
                (record (after control (codes "C GRNVS V:1.0") s) { token = token })))
  unfolding greet
  greet-run s =
      let hello = codes "S GRNVS V:1.0" in
      let s₁ = after control (codes "C GRNVS V:1.0") s in
      let s₂ = before peer control (codes "S " ++ token) s₁ in
      let s₃ = after control (codes "C " ++ nick) (heard hello s₁) in
      then-step _
        (on-send order
          (before peer control hello
            (before peer control (codes "S " ++ token) (record s { start = 0 })))
          control (codes "C GRNVS V:1.0") (omega arith))
        (then-step _
          (receive-before order s₂ peer fuel control hello (omega arith, omega arith) (omega arith))
          (then-step _ (check-holding order control hello s₂ (omega arith) (λ e. omega (arith, e)))
            (then-step _ (advance-holding hello s₂) (
              then-step _
                (send_text-after order (heard hello s₂) control (codes "C " ++ nick)
                  (omega (arith, nick_room)))
                (then-step _
                  (receive_more-before order s₃ peer fuel control (codes "S " ++ token)
                    (IsText-kind b'S' token (λ e. omega (arith, e)) token_text)
                    (omega (arith, token_room)))
                  (then-step (λ _. take_token 2 >> advance)
                    (check_kind-holding order control b'S' token (codes "S <token>") s₃)
                    (then-step (λ _. advance) (take_token-holding b'S' token s₃ token_text)
                      (advance-holding (codes "S " ++ token) (record s₃ { token = token })))))))))

  module _ (dtoken msg : Bytes) (dtoken_text : Lacks 0 dtoken) (dtoken_room : length dtoken ≤ 2045)
      (msg_room : length msg ≤ 4087) where
    pub deliver-run :
        (s : Client)
        → deliver order (suc (suc fuel)) nick msg (
            before peer data_socket (codes "T GRNVS V:1.0") (
              before peer data_socket
                (codes "T " ++ token)
                (before peer data_socket (codes "T " ++ dtoken) (record s { token = token }))))
          ≡ done tt (
              close_all (sd_listen ∷ sd_data ∷ []) (
                heard
                  (codes "T " ++ dtoken)
                  (record (after data_socket
                    (codes "D " ++ msg)
                    (after data_socket (codes "D " ++ nick) s)) { token = dtoken })))
    unfolding deliver
    deliver-run s =
        let hello = codes "T GRNVS V:1.0" in
        let again = codes "T " ++ token in
        let last = codes "T " ++ dtoken in
        let u₀ = record s { token = token } in
        let u =
          before peer data_socket hello
            (before peer data_socket again (before peer data_socket last u₀)) in
        let u₁ = before peer data_socket again (before peer data_socket last u₀) in
        let u₂ =
          after data_socket (codes "D " ++ nick) (heard hello (before peer data_socket last u₀)) in
        let u₃ =
          after data_socket (codes "D " ++ msg)
            (heard again (after data_socket (codes "D " ++ nick) (heard hello u₀))) in
        (then-step _
          (receive-before order u₁ peer fuel data_socket hello (omega arith, omega arith)
            (omega arith))
          (then-step _
            (check-holding order data_socket hello u₁ (omega arith) (λ e. omega (arith, e)))
            (then-step _ (advance-holding hello u₁) (
              then-step _
                (send_text-after order (heard hello u₁) data_socket (codes "D " ++ nick)
                  (omega (arith, nick_room)))
                (then-step _
                  (receive_more-before order u₂ peer fuel data_socket again
                    (IsText-kind b'T' token (λ e. omega (arith, e)) token_text)
                    (omega (arith, token_room)))
                  (then-step _
                    (check_token-holding order token
                      (after data_socket (codes "D " ++ nick)
                        (heard hello (before peer data_socket last s)))
                      token_text token_room)
                    (then-step _ (advance-holding again u₂) (
                      then-step _
                        (send_text-after order (heard again u₂) data_socket (codes "D " ++ msg)
                          (omega (arith, msg_room)))
                        (then-step _
                          (receive_more-before order u₃ peer fuel data_socket last
                            (IsText-kind b'T' dtoken (λ e. omega (arith, e)) dtoken_text)
                            (omega (arith, dtoken_room)))
                          (then-step (λ _. take_token 2 >> (advance >> close_data_sockets))
                            (check_kind-holding order data_socket b'T' dtoken (codes "T <dtoken>")
                              u₃)
                            (then-step (λ _. advance >> close_data_sockets)
                              (take_token-holding b'T' dtoken u₃ dtoken_text)
                              (then-step (λ _. close_data_sockets)
                                (advance-holding last (record u₃ { token = dtoken }))
                                refl))))))))))))

-- The ports that are a `u_int16_t`.
pub open_data-run :
    (order : Order) (calls : Calls) (s : Client)
    → AllSucceed calls
    → calls.port < 65536
    → open_data order calls s
      ≡ done tt (
          set_open sd_data true
            (after control (codes "C " ++ decimal calls.port) (set_open sd_listen true s)))
unfolding open_data
open_data-run order calls s (_, _, _, e₁, e₂, e₃, e₄) port =
    rw
      (
        e₁,
        e₂,
        e₃,
        send_text-after order (set_open sd_listen true s) control (codes "C " ++ decimal calls.port)
            (omega (arith, length-decimal_port calls.port port)),
        e₄,
      )
      refl

module _ (peer : Peer) (order : Order) (fuel : ℕ) (msg dtoken : Bytes)
    (msg_room : length msg ≤ 4087) (dtoken_room : length dtoken ≤ 2045) where
  pub finish-run :
      (s : Client)
      → finish order (suc (suc fuel)) msg (
          before peer control (codes "S " ++ decimal (length msg)) (
            before peer control
              (codes "S ACK")
              (record s { start = 0; nets_in_buf = pos 0; token = dtoken })))
        ≡ done tt (
            close_all (sd_control ∷ []) (
              heard
                (codes "S ACK")
                (after control (codes "C " ++ dtoken) (record s { token = dtoken }))))
  unfolding finish
  finish-run s =
      let count = codes "S " ++ decimal (length msg) in
      let ack = codes "S ACK" in
      let v₁ = before peer control ack (record s { token = dtoken }) in
      let v₂ = after control (codes "C " ++ dtoken) (heard count (record s { token = dtoken })) in
      let digits : length (decimal (length msg)) ≤ 5 =
        length-decimal_port (length msg) (omega (arith, msg_room)) in
      let no_zero : Lacks 0 count = (
        omega arith,
        (
          omega arith,
          AllDigits-Lacks 0 (decimal (length msg)) (ground arith) (AllDigits-decimal (length msg)),
        ),
      ) in
      then-step _
        (receive_more-before order v₁ peer fuel control count (no_zero, omega arith)
          (omega (arith, digits)))
        (then-step _ (check-holding order control count v₁ no_zero (λ e. omega (arith, e))) (
          then-step _ (advance-holding count v₁) (
            then-step _ (send_dtoken-after order (heard count v₁) dtoken_room) (
              then-step _
                (receive_more-before order v₂ peer fuel control ack (omega arith, omega arith)
                  (omega arith))
                (then-step _
                  (check-holding order control ack v₂ (omega arith) (λ e. omega (arith, e)))
                  (then-step (λ _. close sd_control) (advance-holding ack v₂) refl))))))
