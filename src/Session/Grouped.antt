-- ===== src/Session/Grouped.antt =====
-- `assignment4` against a server whose two messages with tokens on the data socket come in one segment.
use grnvs.Prelude.{
  ap, ℕ, suc, ◌≤◌, ◌≡◌, refl, arith, some, [], ◌∷◌, ◌++◌, length, length-append, drop, ◌∙◌,
  append_assoc, List,
}
use grnvs.Memory.{Bytes, string_at}
use grnvs.Memory.Strings.{Lacks, string_at-drop}
use grnvs.Decimal.Laws.{count_digits-small}
use grnvs.Netstring.{segment, Order}
use grnvs.Netstring.Texts.{codes}
use grnvs.Netstring.Write.{netstring, length-netstring}
use grnvs.Netstring.Receive.{netstrings, packed}
use grnvs.Session.{
  Client, Cmd, done, data_socket, control, check_token, check_kind, take_token, check, advance,
  deliver, send_dtoken, close_all, sd_listen, sd_data, close, ◌>>◌,
}
use grnvs.Session.Exchange.{
  then-step, before, after, heard, access-text, receive-before, check-holding, advance-holding,
  send_text-after, send_dtoken-after,
}
use grnvs.Session.Peer.{Peer}
use grnvs.Session.Queue.{
  Pending, IsGroup, stepped, took, receive-group, receive_more-empty, receive_more-held,
  check-Pending, advance-Pending,
}

module _ (token dtoken : Bytes) where
  -- The two messages
  abbrev pub both : List Bytes
  both = (codes "T " ++ token) ∷ (codes "T " ++ dtoken) ∷ []

  both-IsGroup :
      Lacks 0 token → length token ≤ 1000 → Lacks 0 dtoken → length dtoken ≤ 1000 → IsGroup both
  both-IsGroup lacks room lacks' room' =
      let again = codes "T " ++ token in
      let last = codes "T " ++ dtoken in
      (
        (
          ((omega arith, (omega arith, lacks)), omega arith),
          (((omega arith, (omega arith, lacks')), omega arith), tt),
        ),
        (omega (arith, room), (omega (arith, room, room'), tt)),
        ground (
          arith,
          length-append (netstring again) (netstring last ++ []),
          length-append (netstring last) [],
          length-netstring again,
          length-netstring last,
          count_digits-small (length again),
          count_digits-small (length last),
          room,
          room',
        ),
        omega arith,
      )

check_token-Pending :
    (order : Order) (token : Bytes) (ts : List Bytes) (s : Client)
    → Pending ((codes "T " ++ token) ∷ ts) s
    → Lacks 0 token
    → length token ≤ 2045
    → check_token order (record s { token = token }) ≡ done tt (record s { token = token })
unfolding check_token
check_token-Pending order token ts s pending lacks room =
    let text : Bytes = codes "T " ++ token in
    let s' = record s { token = token } in
    then-step (λ _. check order data_socket text) (access-text text s' (omega (arith, room)))
      (check-Pending order data_socket text ts s' pending (omega arith, (omega arith, lacks))
        (λ e. omega (arith, e)))

check_kind-Pending :
    (order : Order) (kind : ℕ) (t expected : Bytes) (ts : List Bytes) (s : Client)
    → Pending ((kind ∷ b' ' ∷ t) ∷ ts) s
    → check_kind order data_socket kind expected s ≡ done tt s
unfolding check_kind
check_kind-Pending order kind t expected ts s (junk, nets, there) = rw there (ground arith)

take_token-first :
    (kind : ℕ) (t rest : Bytes) (s : Client)
    → s.recvbuf ≡ (kind ∷ b' ' ∷ t) ++ (0 ∷ rest)
    → Lacks 0 t
    → take_token 2 s ≡ done tt (record s { token = t })
unfolding take_token
take_token-first kind t rest s e lacks =
    let there : string_at s.recvbuf 2 ≡ some t =
      string_at-drop 2 s.recvbuf t rest (ap (drop 2) e) lacks in
    rw (there, take_token) refl

-- The client before `deliver`: the server sends the first text, then both others in one segment.
abbrev pub waiting : Peer → (token dtoken : Bytes) → Client → Client
waiting peer token dtoken s =
    before peer data_socket (codes "T GRNVS V:1.0")
      (record s { data_in = segment (netstrings (both token dtoken)) ∷ s.data_in; token = token })

module _ (peer : Peer) (order : Order) (fuel : ℕ) (nick token dtoken msg : Bytes)
    (nick_room : length nick ≤ 4087) (msg_room : length msg ≤ 4087) (token_text : Lacks 0 token)
    (token_room : length token ≤ 1000) (dtoken_text : Lacks 0 dtoken)
    (dtoken_room : length dtoken ≤ 1000) where
  -- The server's message with the token and the one with the data token come in one segment on the data
  -- socket: `deliver` comes to its end, but has taken the first token as the data token, and that is
  -- what is sent back in its place. The tokens have at most 1000 bytes and no 0 byte, the nick and the
  -- message at most 4087 bytes. A fuel of 3 is enough.
  pub deliver-old_token :
      (s : Client)
      → (s' : Client) × (deliver order (suc (suc (suc fuel))) nick msg (waiting peer token dtoken s)
          ≡ done tt s')
        × (send_dtoken order s' ≡ done tt (after control (codes "C " ++ token) s'))
  unfolding deliver
  deliver-old_token s =
      let close_data : Cmd (Unit {0}) = close sd_listen >> close sd_data in
      let hello = codes "T GRNVS V:1.0" in
      let again = codes "T " ++ token in
      let last = codes "T " ++ dtoken in
      let group = both token dtoken in
      let group_good = both-IsGroup token dtoken token_text token_room dtoken_text dtoken_room in
      let u₀ = record s { data_in = segment (netstrings group) ∷ s.data_in; token = token } in
      let u₁ = after data_socket (codes "D " ++ nick) (heard hello u₀) in
      let (left, got) =
        receive-group order (suc (suc (suc fuel))) data_socket group s.data_in u₁ group_good
          (omega arith) refl in
      let u₂ = took data_socket s.data_in (packed group ++ left) 2 u₁ in
      let (nets, start, counted, pending) =
        advance-Pending again (last ∷ []) u₂ (left, refl, refl)
          (omega arith, (omega arith, token_text)) in
      let u₃ = after data_socket (codes "D " ++ msg) (stepped nets start u₂) in
      let (nets', start', counted', _) =
        advance-Pending last [] u₃ pending (omega arith, (omega arith, dtoken_text)) in
      let u₄ = stepped nets' start' u₃ in
      let end = close_all (sd_listen ∷ sd_data ∷ []) u₄ in
      (
        end,
        then-step _
            (receive-before order u₀ peer (suc fuel) data_socket hello (omega arith, omega arith)
              (omega arith))
            (then-step _
              (check-holding order data_socket hello u₀ (omega arith) (λ e. omega (arith, e)))
              (then-step _ (advance-holding hello u₀) (
                then-step _
                  (send_text-after order (heard hello u₀) data_socket (codes "D " ++ nick)
                    (omega (arith, nick_room)))
                  (then-step _
                    (receive_more-empty order (suc (suc (suc fuel))) data_socket u₁ refl ∙ got)
                    (then-step _
                      (check_token-Pending order token (last ∷ []) u₂ (left, refl, refl) token_text
                        (omega (arith, token_room)))
                      (then-step _ counted (
                        then-step _
                          (send_text-after order (stepped nets start u₂) data_socket
                            (codes "D " ++ msg) (omega (arith, msg_room)))
                          (then-step _
                            (receive_more-held order (suc (suc (suc fuel))) data_socket last [] u₃
                              pending)
                            (then-step (λ _. take_token 2 >> (advance >> close_data))
                              (check_kind-Pending order b'T' dtoken (codes "T <dtoken>") [] u₃
                                pending)
                              (then-step (λ _. advance >> close_data)
                                (take_token-first b'T' token (packed (last ∷ []) ++ left) u₃
                                  (append_assoc again (0 ∷ packed (last ∷ [])) left) token_text)
                                (then-step (λ _. close_data) counted' refl))))))))))),
        send_dtoken-after order end (omega (arith, token_room)),
      )
