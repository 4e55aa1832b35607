-- ===== src/Session/Exchange.antt =====
-- The steps of `assignment4` against a server that sends each text as one netstring, in segments.
use grnvs.Prelude.{
  ℕ, suc, ◌≡◌, ◌≢◌, ◌≤◌, refl, some, List, [], ◌∷◌, ◌++◌, arith, length, length-append, drop,
  get_or, ap, ◌∙◌, append_assoc,
}
use grnvs.Prelude.Int.{pos, ◌-ℤ◌}
use grnvs.Memory.{Bytes, zeros, string_at, write_at}
use grnvs.Memory.Strings.{Lacks, length-zeros, write_at-start, string_at-drop}
use grnvs.Netstring.{
  bufsize, Reply, World, Outcome, ok, Order, send_message, check_message, recv_message, update_nets,
}
use grnvs.Netstring.Texts.{codes}
use grnvs.Netstring.Write.{netstring, send_message-netstring}
use grnvs.Netstring.Check.{check_message-same}
use grnvs.Netstring.Receive.{IsText}
use grnvs.Netstring.Messages.{stored}
use grnvs.Netstring.Stream.{recv_message-segments}
use grnvs.Session.Peer.{Peer}
use grnvs.Session.{
  Client, Step, done, Cmd, access, then_do, Socket, control, data_socket, on, access, send_text,
  receive, receive_more, check, advance, check_kind, take_token, check_token, send_dtoken,
}

-- A step that is done, and what follows it.
pub then-step :
    {A B : Type 0} {o : Step A} {a : A} {s : Client} {r : Step B} (next : A → Cmd B)
    → o ≡ done a s
    → next a s ≡ r
    → then_do o next ≡ r
then-step next e h = ap (λ o. then_do o next) e ∙ h

-- The state before a text was received on a connection, and after a text was sent on it.
abbrev pub before : Peer → Socket → Bytes → Client → Client
before peer control t s = record s { control_in = peer.arrive t ++ s.control_in }
before peer data_socket t s = record s { data_in = peer.arrive t ++ s.data_in }

abbrev pub after : Socket → Bytes → Client → Client
after control text s = record s { control_out = s.control_out ++ netstring text ∷ [] }
after data_socket text s = record s { data_out = s.data_out ++ netstring text ∷ [] }

-- The state with a text in `recvbuf`, the only one.
abbrev pub holding : Bytes → Client → Client
holding t s = record s { recvbuf = stored t; nets_in_buf = pos 1; start = 0 }

-- The same, when it has been counted off.
abbrev pub heard : Bytes → Client → Client
heard t s = record (holding t s) { nets_in_buf = pos 0 }

pub access-text :
    (text : Bytes) (s : Client)
    → length text ≤ 4089
    → access (write_at 0 (text ++ 0 ∷ []) (zeros bufsize)) s
      ≡ done ((text ++ 0 ∷ []) ++ drop (length (text ++ 0 ∷ [])) (zeros bufsize)) s
access-text text s h =
    ap (λ o. access o s)
      (write_at-start (text ++ 0 ∷ []) (zeros bufsize)
        (omega (arith, length-append text (0 ∷ []), length-zeros bufsize)))

recv_message-peer :
    (order : Order) (fuel : ℕ) (peer : Peer) (t : Bytes) (w : World) (later : List Reply)
    → w.replies ≡ peer.arrive t ++ later
    → IsText t
    → length t ≤ 2047
    → recv_message order (suc (suc fuel)) w ≡ ok (stored t, some 1) (record w { replies = later })
recv_message-peer order fuel peer t w later e k h =
    let (p, qs, sends, parts, present, arrives) = peer.arrive-InSegments t k h in
    recv_message-segments order fuel t p qs w later (e ∙ ap (λ r. r ++ later) sends) parts present
      arrives k h

module _ (order : Order) (s : Client) where
  pub on-send :
      (fd : Socket) (text : Bytes)
      → length text ≤ 4089
      → on fd (send_message order text) s ≡ done tt (after fd text s)
  on-send control text h = rw (send_message-netstring order text _ h) refl
  on-send data_socket text h = rw (send_message-netstring order text _ h) refl

  pub send_text-after :
      (fd : Socket) (text : Bytes)
      → length text ≤ 4089
      → send_text order fd text s ≡ done tt (after fd text s)
  unfolding send_text
  send_text-after fd text h =
      rw
        (write_at-start (text ++ 0 ∷ []) (zeros bufsize)
          (omega (arith, length-append text (0 ∷ []), length-zeros bufsize)))
        (on-send fd text h)

  -- What the server sends for a text is received.
  pub receive-before :
      (peer : Peer) (fuel : ℕ) (fd : Socket) (t : Bytes)
      → IsText t
      → length t ≤ 2047
      → receive order (suc (suc fuel)) fd (before peer fd t (record s { start = 0 }))
        ≡ done tt (holding t s)
  unfolding receive
  receive-before peer fuel control t k h =
      rw
        (recv_message-peer order fuel peer t
          (record {
            replies = peer.arrive t ++ s.control_in;
            sent = s.control_out;
            printed = s.printed;
          })
          s.control_in refl k h)
        refl
  receive-before peer fuel data_socket t k h =
      rw
        (recv_message-peer order fuel peer t
          (record { replies = peer.arrive t ++ s.data_in; sent = s.data_out; printed = s.printed })
          s.data_in refl k h)
        refl

  pub on-pass :
      (fd : Socket) (c : World → Outcome (Unit {0}))
      → ((w : World) → c w ≡ ok tt w)
      → on fd c s ≡ done tt s
  on-pass control c h =
      rw (h (record { replies = s.control_in; sent = s.control_out; printed = s.printed })) refl
  on-pass data_socket c h =
      rw (h (record { replies = s.data_in; sent = s.data_out; printed = s.printed })) refl

pub receive_more-before :
    (order : Order) (s : Client) (peer : Peer) (fuel : ℕ) (fd : Socket) (t : Bytes)
    → IsText t
    → length t ≤ 2047
    → receive_more order
        (suc (suc fuel))
        fd
        (before peer fd t (record s { start = 0; nets_in_buf = pos 0 }))
      ≡ done tt (holding t s)
unfolding receive_more
receive_more-before order s peer fuel control t k h =
    receive-before order (record s { nets_in_buf = pos 0 }) peer fuel control t k h
receive_more-before order s peer fuel data_socket t k h =
    receive-before order (record s { nets_in_buf = pos 0 }) peer fuel data_socket t k h

-- What stands behind the first copy in `stored`.
abbrev second_copy : Bytes → Bytes
second_copy t =
    (t ++ 0 ∷ []) ++ drop (length (t ++ 0 ∷ [])) (drop (length (t ++ 0 ∷ [])) (zeros bufsize))

string_at-stored : (t : Bytes) → Lacks 0 t → string_at (stored t) 0 ≡ some t
string_at-stored t lacks =
    ap (λ b. string_at b 0) (append_assoc t (0 ∷ []) (second_copy t))
    ∙ string_at-drop 0 (t ++ (0 ∷ second_copy t)) t (second_copy t) refl lacks

pub check-holding :
    (order : Order) (fd : Socket) (t : Bytes) (s : Client)
    → Lacks 0 t
    → get_or t 0 0 ≢ b'E'
    → check order fd t (holding t s) ≡ done tt (holding t s)
unfolding check
check-holding order fd t s lacks h =
    on-pass order (holding t s) fd (check_message order t (stored t))
      (λ w. check_message-same order t (stored t) w (string_at-stored t lacks) h)

pub advance-holding : (t : Bytes) (s : Client) → advance (holding t s) ≡ done tt (heard t s)
unfolding advance update_nets ◌-ℤ◌
advance-holding t s = refl

pub check_kind-holding :
    (order : Order) (fd : Socket) (kind : ℕ) (t expected : Bytes) (s : Client)
    → check_kind order fd kind expected (holding (kind ∷ b' ' ∷ t) s)
      ≡ done tt (holding (kind ∷ b' ' ∷ t) s)
unfolding check_kind
check_kind-holding order fd kind t expected s = ground arith

pub take_token-holding :
    (kind : ℕ) (t : Bytes) (s : Client)
    → Lacks 0 t
    → take_token 2 (holding (kind ∷ b' ' ∷ t) s)
      ≡ done tt (record (holding (kind ∷ b' ' ∷ t) s) { token = t })
unfolding take_token
take_token-holding kind t s lacks =
    let text : Bytes = kind ∷ b' ' ∷ t in
    let there : string_at (stored text) 2 ≡ some t =
      string_at-drop 2 (stored text) t (second_copy text)
        (append_assoc t (0 ∷ []) (second_copy text)) lacks in
    rw (there, take_token) refl

pub check_token-holding :
    (order : Order) (token : Bytes) (s : Client)
    → Lacks 0 token
    → length token ≤ 2045
    → check_token order (holding (codes "T " ++ token) (record s { token = token }))
      ≡ done tt (holding (codes "T " ++ token) (record s { token = token }))
unfolding check_token
check_token-holding order token s lacks room =
    let text : Bytes = codes "T " ++ token in
    then-step (λ _. check order data_socket text)
      (access-text text (holding text (record s { token = token })) (omega (arith, room)))
      (check-holding order data_socket text (record s { token = token })
        (omega arith, (omega arith, lacks)) (λ e. omega (arith, e)))

pub send_dtoken-after :
    (order : Order) (s : Client)
    → length s.token ≤ 2045
    → send_dtoken order s ≡ done tt (after control (codes "C " ++ s.token) s)
unfolding send_dtoken
send_dtoken-after order s room =
    send_text-after order s control (codes "C " ++ s.token) (omega (arith, room))
