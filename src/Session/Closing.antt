-- ===== src/Session/Closing.antt =====
-- The descriptors of `assignment4`: which ones its steps leave open.
use grnvs.Prelude.{
  ℕ, ◌≡◌, ◌⊎◌, refl, Bool, true, false, ◌==◌, get_or, drop, ◌&&◌, Option, some, none, [], ◌∷◌, ◌++◌,
  List, if◌then◌else◌, ap, inl, inr,
}
use grnvs.Memory.{Bytes, zeros, string_at, write_at}
use grnvs.Prelude.Int.{ℤ, pos, negsuc, ◌-ℤ◌}
use grnvs.Netstring as Net
use grnvs.Netstring.{World, Order, send_message, check_message, recv_message, is_zero, update_nets}
use grnvs.Netstring.Texts.{codes}
use grnvs.Session.{
  Calls, Client, Step, done, ended, crash, out_of_fuel, Cmd, then_do, ◌>>=◌, ◌>>◌, pure, access,
  put_control, put_data, lift, Descriptor, sd_control, sd_listen, sd_data, close_all, opened, close,
  Socket, control, data_socket, on, require, send_text, receive, receive_more, check, check_token,
  check_kind, take_token, advance, send_dtoken,
}

-- Of sdC, sdL and sdD, which are open.
abbrev pub Flags : Type 0
Flags = Bool × Bool × Bool

abbrev pub flags : Client → Flags
flags s = (s.control_open, s.listen_open, s.data_open)

abbrev pub closed : Flags
closed = (false, false, false)

abbrev pub switch : Descriptor → Bool → Flags → Flags
switch sd_control b f = (b, f.1, f.2)
switch sd_listen b f = (f.0, b, f.2)
switch sd_data b f = (f.0, f.1, b)

module _ (calls : Calls) where
  -- How the process may end: by `checkMessage`, with status -1, or by a failed call, with nothing open, but
  -- with sdC open where the second `socket` failed.
  abbrev pub Exits : ℤ → Client → Type 0
  Exits status s =
      (status ≡ negsuc 0)
      ⊎ ((status ≡ pos 1)
          × ((flags s ≡ closed)
              ⊎ ((calls.socket_listen ≡ false) × (flags s ≡ (true, false, false)))))

  -- What is open behind a step that is done.
  abbrev pub Leaves : {A : Type 0} → Flags → Step A → Type 0
  Leaves f (done a s) = flags s ≡ f
  Leaves f (ended status s) = Exits status s
  Leaves f crash = Unit {0}
  Leaves f out_of_fuel = Unit {0}

  abbrev pub Takes : {A : Type 0} → (f f' : Flags) → Cmd A → Type 0
  Takes f f' c = (s : Client) → flags s ≡ f → Leaves f' (c s)

  abbrev pub Keeps : {A : Type 0} → Cmd A → Type 0
  Keeps c = (f : Flags) → Takes f f c

  Leaves-then :
      {A B : Type 0} (f f' : Flags) (o : Step A) (next : A → Cmd B)
      → Leaves f o
      → ((a : A) → Takes f f' (next a))
      → Leaves f' (then_do o next)
  Leaves-then f f' (done a s) next h k = k a s h
  Leaves-then f f' (ended status s) next h k = h
  Leaves-then f f' crash next h k = tt
  Leaves-then f f' out_of_fuel next h k = tt

  pub Takes-after :
      {A B : Type 0} (f f' f'' : Flags) (first : Cmd A) (second : Cmd B)
      → Takes f f' first
      → Takes f' f'' second
      → Takes f f'' (first >> second)
  Takes-after f f' f'' first second h k s e =
      Leaves-then f' f'' (first s) (λ _. second) (h s e) (λ _. k)

  pub Keeps-after :
      {A B : Type 0} (first : Cmd A) (second : Cmd B)
      → Keeps first
      → Keeps second
      → Keeps (first >> second)
  Keeps-after first second h k f = Takes-after f f f first second (h f) (k f)

  pub Keeps-bind :
      {A B : Type 0} (first : Cmd A) (next : A → Cmd B)
      → Keeps first
      → ((a : A) → Keeps (next a))
      → Keeps (first >>= next)
  Keeps-bind first next h k f s e = Leaves-then f f (first s) next (h f s e) (λ a. k a f)

  Keeps-access : {A : Type 0} (o : Option A) → Keeps (access o)
  Keeps-access none f s e = tt
  Keeps-access (some b) f s e = e

  Keeps-if :
      {A : Type 0} (test : Bool) (c d : Cmd A)
      → Keeps c
      → Keeps d
      → Keeps (λ s. (if test then c else d) s)
  Keeps-if true c d k l = k
  Keeps-if false c d k l = l

  lift-Leaves :
      {A : Type 0} (put : World → Client) (f : Flags)
      → ((w : World) → flags (put w) ≡ f)
      → (o : Net.Outcome A) → Leaves f (lift put o)
  lift-Leaves put f h (Net.ok b w) = h w
  lift-Leaves put f h (Net.exited w) = inl refl
  lift-Leaves put f h Net.crash = tt
  lift-Leaves put f h Net.out_of_fuel = tt

  pub Keeps-on : {A : Type 0} (socket : Socket) (c : Net.Net A) → Keeps (on socket c)
  Keeps-on control c f s e = lift-Leaves (put_control s) f (λ w. e) _
  Keeps-on data_socket c f s e = lift-Leaves (put_data s) f (λ w. e) _

  module _ (order : Order) where
    pub Keeps-send_text : (socket : Socket) (text : Bytes) → Keeps (send_text order socket text)
    unfolding send_text
    Keeps-send_text socket text =
        Keeps-after (access (write_at 0 (text ++ 0 ∷ []) (zeros Net.bufsize))) _
          (Keeps-access (write_at 0 (text ++ 0 ∷ []) (zeros Net.bufsize)))
          (Keeps-on socket (send_message order text))

    pub Keeps-receive : (fuel : ℕ) (socket : Socket) → Keeps (receive order fuel socket)
    unfolding receive
    Keeps-receive fuel socket =
        Keeps-bind (on socket (recv_message order fuel)) _
          (Keeps-on socket (recv_message order fuel)) (λ got f s e. e)

    pub Keeps-receive_more : (fuel : ℕ) (socket : Socket) → Keeps (receive_more order fuel socket)
    unfolding receive_more
    Keeps-receive_more fuel socket =
        Keeps-bind (λ s. done s.nets_in_buf s) _ (λ f s e. e)
          (λ n.
            Keeps-if (is_zero n) (receive order fuel socket) (pure tt) (Keeps-receive fuel socket)
              (λ f s e. e))

    pub Keeps-check : (socket : Socket) (expected : Bytes) → Keeps (check order socket expected)
    unfolding check
    Keeps-check socket expected =
        Keeps-bind {A = Bytes × ℕ} (λ s. done (s.recvbuf, s.start) s) _ (λ f s e. e)
          (λ at. Keeps-on socket (check_message order expected (drop (at.1) (at.0))))

    pub Keeps-check_token : Keeps (check_token order)
    unfolding check_token
    Keeps-check_token =
        Keeps-bind (λ s. done s.token s) _ (λ f s e. e)
          (λ token.
            Keeps-after (access (write_at 0 ((codes "T " ++ token) ++ 0 ∷ []) (zeros Net.bufsize)))
              _ (Keeps-access (write_at 0 ((codes "T " ++ token) ++ 0 ∷ []) (zeros Net.bufsize)))
              (Keeps-check data_socket (codes "T " ++ token)))

    pub Keeps-send_dtoken : Keeps (send_dtoken order)
    unfolding send_dtoken
    Keeps-send_dtoken f s e = Keeps-send_text control (codes "C " ++ s.token) f s e

    pub Keeps-check_kind :
        (socket : Socket) (kind : ℕ) (expected : Bytes)
        → Keeps (check_kind order socket kind expected)
    unfolding check_kind
    Keeps-check_kind socket kind expected f s =
        Keeps-if
          (get_or (drop s.start s.recvbuf) 0 0 == kind
            && get_or (drop s.start s.recvbuf) 1 0 == b' ')
          (pure tt) (check order socket expected) (λ f s e. e) (Keeps-check socket expected) f s

  Leaves-option :
      {A B : Type 0} (f : Flags) (o : Option A) (next : A → Step B)
      → ((a : A) → Leaves f (next a))
      → Leaves f (elim o [ none ↦ crash | some a ↦ next a ])
  Leaves-option f none next h = tt
  Leaves-option f (some a) next h = h a

  pub Keeps-advance : Keeps advance
  unfolding advance
  Keeps-advance f s e =
      Leaves-option f (update_nets (s.nets_in_buf -ℤ pos 1) s.start s.recvbuf)
        (λ start. done tt (record s { nets_in_buf = s.nets_in_buf -ℤ pos 1; start = start }))
        (λ _. e)

  pub Keeps-take_token : (offset : ℕ) → Keeps (take_token offset)
  unfolding take_token
  Keeps-take_token offset f s e =
      Leaves-option f (string_at s.recvbuf offset) (λ token. done tt (record s { token = token }))
        (λ _. e)

  -- The descriptor is open, or closed, behind the command.
  pub Takes-opened : (f : Flags) (d : Descriptor) → Takes f (switch d true f) (opened d)
  Takes-opened f sd_control s e = ap (switch sd_control true) e
  Takes-opened f sd_listen s e = ap (switch sd_listen true) e
  Takes-opened f sd_data s e = ap (switch sd_data true) e

  pub Takes-close : (f : Flags) (d : Descriptor) → Takes f (switch d false f) (close d)
  Takes-close f sd_control s e = ap (switch sd_control false) e
  Takes-close f sd_listen s e = ap (switch sd_listen false) e
  Takes-close f sd_data s e = ap (switch sd_data false) e

  -- A failed call closes what is open.
  pub Takes-require :
      (f : Flags) (success : Bool) (closing : List Descriptor)
      → ((s : Client)
          → flags s ≡ f
          → success ≡ false
          → (flags (close_all closing s) ≡ closed)
            ⊎ ((calls.socket_listen ≡ false)
                × (flags (close_all closing s) ≡ (true, false, false))))
      → Takes f f (require success closing)
  Takes-require f true closing h s e = e
  Takes-require f false closing h s e = inr (refl, h s e refl)
