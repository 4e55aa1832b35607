-- ===== src/Session/Tests.antt =====
-- The theorems on `assignment4` at runs against a server that follows the protocol.
use grnvs.Prelude.{false, ◌≡◌, refl, true, arith, [], ◌∷◌, ◌++◌, length, map}
use grnvs.Prelude.Int.{pos, ◌-ℤ◌}
use grnvs.Memory.{Bytes, zeros, string_at, write_at, str_equal, c_string, index_of}
use grnvs.Decimal.{
  decimal, digits_loop, count_digits, count_loop, atol, scan, skip_spaces, signed_value,
}
use grnvs.Netstring as Net
use grnvs.Netstring.{Reply, segment, Order, assign_first}
use grnvs.Netstring.Texts.{codes}
use grnvs.Session.{
  Calls, Client, done, control, assignment4, protocol, greet, open_data, deliver, finish, receive,
  receive_more, check, check_kind, advance, take_token, send_text, restart, check_token,
  send_dtoken,
}
use grnvs.Session.Parts.{AllSucceed}
use grnvs.Netstring.Write
use grnvs.Netstring.Receive.{netstrings}
use grnvs.Session.Exchange.{after}
use grnvs.Session.Grouped.{waiting, deliver-old_token}
use grnvs.Session.Peer.{split}
use grnvs.Session.Queue.{Queue, Kept, take_text, read, take_text-Queue}
use grnvs.Session.Closing.{closed, Leaves}
use grnvs.Session.Closed.{assignment4-Leaves}

abbrev calls : Calls
calls = record {
  inet_pton = true;
  socket_control = true;
  connect = true;
  socket_listen = true;
  bind = true;
  listen = true;
  port = 40123;
  accept = true;
}

abbrev says : Bytes → Reply
says text = segment (decimal (length text) ++ (b':' ∷ (text ++ b',' ∷ [])))

abbrev client : Client
client = record {
  control_in = map says (codes "S GRNVS V:1.0" ∷ codes "S tok" ∷ codes "S 5" ∷ codes "S ACK" ∷ []);
  data_in = map says (codes "T GRNVS V:1.0" ∷ codes "T tok" ∷ codes "T dtok" ∷ []);
  control_out = [];
  data_out = [];
  printed = [];
  recvbuf = zeros 4096;
  nets_in_buf = pos 0;
  start = 0;
  token = [];
  control_open = false;
  listen_open = false;
  data_open = false;
}

abbrev end : Client
end = record {
  control_in = [];
  data_in = [];
  control_out =
      codes "13:C GRNVS V:1.0," ∷ codes "4:C me," ∷ codes "7:C 40123," ∷ codes "6:C dtok," ∷ [];
  data_out = codes "4:D me," ∷ codes "7:D hello," ∷ [];
  printed = [];
  recvbuf = codes "S ACK" ++ (0 ∷ (codes "S ACK" ++ zeros 4085));
  nets_in_buf = pos 0;
  start = 0;
  token = codes "dtok";
  control_open = false;
  listen_open = false;
  data_open = false;
}

run_end : assignment4 assign_first 4 calls (codes "me") (codes "hello") client ≡ done tt end
unfolding assignment4 protocol greet open_data deliver finish receive receive_more check check_kind
    advance take_token send_text restart check_token send_dtoken Net.send_message Net.write_net
    Net.net_text Net.argument Net.write Net.recv_message Net.recv_loop Net.read Net.read_net
    Net.complete Net.bad_start Net.bad_whole Net.check_message Net.update_nets zeros write_at
    string_at c_string index_of str_equal decimal digits_loop count_digits count_loop atol scan
    signed_value skip_spaces ◌-ℤ◌
run_end = refl

abbrev idle : Client
idle = record {
  control_in = [];
  data_in = [];
  control_out = [];
  data_out = [];
  printed = [];
  recvbuf = zeros 4096;
  nets_in_buf = pos 0;
  start = 0;
  token = [];
  control_open = false;
  listen_open = false;
  data_open = false;
}

calls-AllSucceed : AllSucceed calls
calls-AllSucceed = (refl, refl, refl, refl, refl, refl, refl)

assignment4-Leaves_example :
    Leaves calls closed (assignment4 assign_first 4 calls (codes "me") (codes "hello") client)
assignment4-Leaves_example =
    assignment4-Leaves calls assign_first 4 (codes "me") (codes "hello") client refl

-- Both texts that end the protocol come in one segment.
abbrev grouped : Client
grouped = record idle { control_in = segment (netstrings (codes "S 5" ∷ codes "S ACK" ∷ [])) ∷ [] }

grouped-short : length (netstrings (codes "S 5" ∷ codes "S ACK" ∷ [])) ≡ 14
unfolding Write.netstring decimal digits_loop count_digits count_loop
grouped-short = refl

take_text-Queue_example :
    (s' : Client) × (take_text assign_first 4096 control (codes "S 5") grouped ≡ done tt s')
    × Queue control (codes "S ACK" ∷ []) [] [] s'
    × Kept grouped s'
take_text-Queue_example =
    take_text-Queue assign_first 4096 control (codes "S 5") [] (codes "S ACK" ∷ [])
      ((codes "S 5" ∷ codes "S ACK" ∷ []) ∷ []) [] [] grouped
      (read (codes "S 5") (codes "S ACK" ∷ []) [])
      (
        (refl, refl),
        tt,
        (
          (
            ((omega arith, omega arith), ((omega arith, omega arith), tt)),
            (omega arith, (omega arith, tt)),
            omega (arith, grouped-short),
            omega arith,
          ),
          tt,
        ),
        refl,
      )
      (omega arith) (omega arith)

deliver-old_token_example :
    (s' : Client) × (deliver assign_first 3
        (codes "me")
        (codes "hello")
        (waiting split (codes "tok") (codes "dtok") idle)
      ≡ done tt s')
    × (send_dtoken assign_first s' ≡ done tt (after control (codes "C tok") s'))
deliver-old_token_example =
    deliver-old_token split assign_first 0 (codes "me") (codes "tok") (codes "dtok") (codes "hello")
      (omega arith) (omega arith) (omega arith) (omega arith) (omega arith) (omega arith) idle
