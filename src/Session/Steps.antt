-- ===== src/Session/Steps.antt =====
-- assignment4/src/assignment4.c, `assignment4`: its variables, the connections, and steps that may end
-- the process or leave a buffer.
use grnvs.Prelude.{ℕ, Bool, false, Option, none, some, List, [], ◌∷◌}
use grnvs.Prelude.Int.{ℤ, negsuc}
use grnvs.Memory.{Bytes}
use grnvs.Netstring as Net
use grnvs.Netstring.{
  bufsize, Reply, World, Order, is_zero, send_message, check_message, recv_message, update_nets,
}

-- What the calls on sockets answer: success or failure, the port the kernel chose (0 if
-- `getsockname` fails).
pub record Calls : Type 0 where
  pub inet_pton : Bool
  pub socket_control : Bool
  pub connect : Bool
  pub socket_listen : Bool
  pub bind : Bool
  pub listen : Bool
  pub port : ℕ
  pub accept : Bool

-- The two connections, what was printed, and the local variables of `assignment4`; of a descriptor,
-- whether it is open.
pub record Client : Type 0 where
  pub control_in : List Reply
  pub data_in : List Reply
  pub control_out : List Bytes
  pub data_out : List Bytes
  pub printed : List Bytes
  pub recvbuf : Bytes
  pub nets_in_buf : ℤ
  pub start : ℕ
  pub token : Bytes
  pub control_open : Bool
  pub listen_open : Bool
  pub data_open : Bool

-- The descriptors sdC, sdL and sdD.
pub data Descriptor : Type 0 where
  sd_control sd_listen sd_data : Descriptor

abbrev pub set_open : Descriptor → Bool → Client → Client
set_open sd_control is_open s = record s { control_open = is_open }
set_open sd_listen is_open s = record s { listen_open = is_open }
set_open sd_data is_open s = record s { data_open = is_open }

-- `close`, of one descriptor after the other
abbrev pub close_all : List Descriptor → Client → Client
close_all [] s = s
close_all (d ∷ ds) s = close_all ds (set_open d false s)

-- A step's outcome; `ended` is an `exit`, with its status.
pub data Step (A : Type 0) : Type 0 where
  done : A → Client → Step A
  ended : (status : ℤ) → Client → Step A
  crash : Step A
  out_of_fuel : Step A

abbrev pub Cmd : Type 0 → Type 0
Cmd A = Client → Step A

abbrev pub pure : {A : Type 0} → A → Cmd A
pure a s = done a s

abbrev pub then_do : {A B : Type 0} → Step A → (A → Cmd B) → Step B
then_do (done a s) next = next a s
then_do (ended status s) next = ended status s
then_do crash next = crash
then_do out_of_fuel next = out_of_fuel

infixl 5 ◌>>=◌ ◌>>◌
abbrev pub ◌>>=◌ : {A B : Type 0} → Cmd A → (A → Cmd B) → Cmd B
◌>>=◌ first next s = then_do (first s) next

abbrev pub ◌>>◌ : {A B : Type 0} → Cmd A → Cmd B → Cmd B
◌>>◌ first second s = then_do (first s) (λ _. second)

abbrev pub access : {A : Type 0} → Option A → Cmd A
access none s = crash
access (some a) s = done a s

-- A command on the control socket, and one on the data socket.
abbrev pub put_control : Client → World → Client
put_control s w = record s { control_in = w.replies; control_out = w.sent; printed = w.printed }

abbrev pub put_data : Client → World → Client
put_data s w = record s { data_in = w.replies; data_out = w.sent; printed = w.printed }

abbrev pub lift : {A : Type 0} → (World → Client) → Net.Outcome A → Step A
lift put (Net.ok a w) = done a (put w)
lift put (Net.exited w) = ended (negsuc 0) (put w)
lift put Net.crash = crash
lift put Net.out_of_fuel = out_of_fuel

pub data Socket : Type 0 where
  control data_socket : Socket

abbrev pub on : {A : Type 0} → Socket → Net.Net A → Cmd A
on control c s =
    lift (put_control s)
      (c (record { replies = s.control_in; sent = s.control_out; printed = s.printed }))
on data_socket c s =
    lift (put_data s) (c (record { replies = s.data_in; sent = s.data_out; printed = s.printed }))
