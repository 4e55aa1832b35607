-- ===== src/Raw/Laws.antt =====
-- What raw.c promises its callers.
use grnvs.Prelude.{
  ℕ, ◌+◌, ◌-◌, ◌*◌, ◌/◌, ◌%◌, ◌^◌, ◌<◌, ◌≤◌, ◌≡◌, ◌≢◌, refl, arith, true, false, Option, none, some,
  List, [], ◌∷◌, ◌==◌, ==_ne, length, get_or, take, replicate, Option-cases, inl, inr, ap, ◌∙◌,
}
use grnvs.Prelude.Int.{ℤ, pos, negsuc}
use grnvs.Memory.{Bytes}
use grnvs.Timespec.{timespecsub, milliseconds}
use grnvs.Timespec.Laws.{time_of, timespecsub-time_of, timespecmset-time_of, milliseconds-time_of}
use grnvs.Raw.{
  Statics, returned, exited, negative, positive, is_global, IfAddr, Layer, sock_dgram, sock_raw,
  take_address, get_addresses, Answers, open_writers, open_interface, grnvs_open, Answer,
  interrupted, count, Round, read_loop, grnvs_read, grnvs_write, grnvs_close, grnvs_get_hwaddr,
  grnvs_get_ip6addr,
}

-- Rounds in which data was ready and the `read` was interrupted, each with the nanoseconds it took.
abbrev pub Clocked : Type 0
Clocked = List (ℕ × ℕ)

-- The round between two times of the clock.
abbrev pub round : Answer → (ℕ × ℕ) → Round
round answer (start, spent) = record {
  before = time_of start;
  after = time_of (start + spent);
  pselect = count 1;
  read = answer;
}

abbrev pub spent_in : Clocked → ℕ
spent_in [] = 0
spent_in (c ∷ cs) = c.1 + spent_in cs

abbrev pub interrupted_rounds : Clocked → List Round → List Round
interrupted_rounds [] rounds = rounds
interrupted_rounds (c ∷ cs) rounds = round interrupted c ∷ interrupted_rounds cs rounds

time_left :
    (k start spent : ℕ)
    → spent ≤ k
    → timespecsub (time_of k) (timespecsub (time_of (start + spent)) (time_of start))
      ≡ time_of (k - spent)
time_left k start spent h =
    let start_le : start ≤ start + spent = omega arith in
    let gap : start + spent - start ≡ spent = omega arith in
    rw (timespecsub-time_of (start + spent) start start_le, gap) (timespecsub-time_of k spent h)

read_loop-last :
    (k t : ℕ) (len : ℤ) (n : ℕ) (last : ℕ × ℕ) (cs : Clocked) (rest : List Round)
    → spent_in cs + last.1 ≤ k
    → read_loop (interrupted_rounds cs (round (count n) last ∷ rest)) (time_of k) (some t) len
      ≡ returned (pos n, some ((k - (spent_in cs + last.1)) / 1000000 % 2 ^ 32))
unfolding read_loop
read_loop-last k t len n last [] rest h =
    let none_before : 0 + last.1 ≡ last.1 = omega arith in
    rw (none_before, time_left k last.0 last.1 (omega arith), milliseconds-time_of (k - last.1))
      refl
read_loop-last k t len n last (c ∷ cs) rest h =
    let later =
      read_loop-last (k - c.1) (milliseconds (time_of (k - c.1))) (negsuc 0) n last cs rest
        (omega arith) in
    let gap : k - c.1 - (spent_in cs + last.1) ≡ k - (spent_in (c ∷ cs) + last.1) = omega arith in
    rw (time_left k c.0 c.1 (omega arith)) (rw (← gap) later)

-- However often the call is interrupted while it reads, a read of `n` bytes returns `n`, and leaves
-- in `*timeout` the milliseconds that are left of it, rounded down; the clock's times and the time
-- spent are in nanoseconds, and the time spent is at most the timeout.
pub grnvs_read-timeout :
    (timeout n : ℕ) (junk : ℤ) (s : Statics) (last : ℕ × ℕ) (cs : Clocked) (rest : List Round)
    → negative s.ifindex ≡ false
    → 0 < timeout
    → timeout < 2 ^ 32
    → spent_in cs + last.1 ≤ timeout * 1000000
    → grnvs_read (interrupted_rounds cs (round (count n) last ∷ rest)) junk (some timeout) s
      ≡ returned (pos n, some ((timeout * 1000000 - (spent_in cs + last.1)) / 1000000))
unfolding grnvs_read
grnvs_read-timeout timeout n junk s last cs rest up more small fits =
    let bound : (timeout * 1000000 - (spent_in cs + last.1)) / 1000000 % 2 ^ 32
        ≡ (timeout * 1000000 - (spent_in cs + last.1)) / 1000000 =
      omega arith in
    let some_left : (timeout == 0) ≡ false = ground arith in
    rw (up, some_left, timespecmset-time_of timeout)
      (rw (← bound) (read_loop-last (timeout * 1000000) timeout junk n last cs rest fits))

take_address-is_global :
    (ifname : Bytes) (ifc : IfAddr) (s : Statics)
    → is_global s.ip6 ≡ true
    → is_global (take_address ifname sock_dgram ifc s).ip6 ≡ true
unfolding take_address
take_address-is_global ifname ifc s h = ground arith

get_addresses-is_global :
    (ifname : Bytes) (ifs : List IfAddr) (s : Statics)
    → is_global s.ip6 ≡ true
    → is_global (get_addresses ifname sock_dgram ifs s).ip6 ≡ true
unfolding get_addresses
get_addresses-is_global ifname [] s h = h
get_addresses-is_global ifname (ifc ∷ ifs) s h =
    get_addresses-is_global ifname ifs (take_address ifname sock_dgram ifc s)
      (take_address-is_global ifname ifc s h)

-- The state behind a successful `grnvs_open`.
pub grnvs_open-stages :
    (ifname : Bytes) (layer : Layer) (a : Answers) (s s' : Statics) (fd : ℤ)
    → grnvs_open ifname layer a s ≡ returned (fd, s')
    → (s₁ : Statics) × (open_writers layer a (record s { ip6 = replicate 16 0 }) ≡ some s₁)
      × (open_interface ifname layer a.index a.hardware a.addresses s₁ ≡ some s')
unfolding grnvs_open
grnvs_open-stages ifname layer a s s' fd h =
    elim (Option-cases (open_writers layer a (record s { ip6 = replicate 16 0 }))) [
      | inl refused ↦ ground arith
      | inr (s₁, e) ↦
          elim (Option-cases (open_interface ifname layer a.index a.hardware a.addresses s₁)) [
            | inl refused ↦ ground arith
            | inr (s₂, e') ↦ (s₁, e, ground arith)
          ]
    ]

open_interface-is_global :
    (ifname : Bytes) (index : Option ℤ) (hardware : Option Bytes) (addresses : Option (List IfAddr))
    (s s' : Statics)
    → is_global s.ip6 ≡ true
    → open_interface ifname sock_dgram index hardware addresses s ≡ some s'
    → is_global s'.ip6 ≡ true
unfolding open_interface
open_interface-is_global ifname none hardware addresses s s' h e = cc
open_interface-is_global ifname (some index) none addresses s s' h e = cc
open_interface-is_global ifname (some index) (some hardware) none s s' h e = cc
open_interface-is_global ifname (some index) (some hardware) (some addresses) s s' h e =
    let s₁ : Statics = record s { ifindex = index; mac = take 6 hardware } in
    let kept = get_addresses-is_global ifname addresses s₁ h in cc

open_writers-ip6 :
    (layer : Layer) (a : Answers) (s s' : Statics)
    → open_writers layer a s ≡ some s'
    → s'.ip6 ≡ s.ip6
unfolding open_writers
open_writers-ip6 layer a s s' h = ground arith

zeros-is_global : is_global (replicate 16 0) ≡ true
unfolding is_global
zeros-is_global = refl

take_address-write_six :
    (ifname : Bytes) (layer : Layer) (ifc : IfAddr) (s : Statics)
    → (take_address ifname layer ifc s).write_six ≡ s.write_six
unfolding take_address
take_address-write_six ifname layer ifc s = ground arith

get_addresses-write_six :
    (ifname : Bytes) (layer : Layer) (ifs : List IfAddr) (s : Statics)
    → (get_addresses ifname layer ifs s).write_six ≡ s.write_six
unfolding get_addresses
get_addresses-write_six ifname layer [] s = refl
get_addresses-write_six ifname layer (ifc ∷ ifs) s =
    get_addresses-write_six ifname layer ifs (take_address ifname layer ifc s)
    ∙ take_address-write_six ifname layer ifc s

pub open_interface-write_six :
    (ifname : Bytes) (layer : Layer) (index : Option ℤ) (hardware : Option Bytes)
    (addresses : Option (List IfAddr)) (s s' : Statics)
    → open_interface ifname layer index hardware addresses s ≡ some s'
    → s'.write_six ≡ s.write_six
unfolding open_interface
open_interface-write_six ifname layer none hardware addresses s s' e = cc
open_interface-write_six ifname layer (some index) none addresses s s' e = cc
open_interface-write_six ifname layer (some index) (some hardware) none s s' e = cc
open_interface-write_six ifname layer (some index) (some hardware) (some addresses) s s' e =
    let s₁ : Statics = record s { ifindex = index; mac = take 6 hardware } in
    let kept = get_addresses-write_six ifname layer addresses s₁ in cc

-- Whatever addresses the interface has, the IPv6 address that a successful `grnvs_open` of a layer 3
-- socket leaves is no link-local one; it is all zeros where the interface has no other.
grnvs_open-is_global :
    (ifname : Bytes) (a : Answers) (s s' : Statics) (fd : ℤ)
    → grnvs_open ifname sock_dgram a s ≡ returned (fd, s')
    → is_global s'.ip6 ≡ true
unfolding grnvs_open
grnvs_open-is_global ifname a s s' fd h =
    let (s₁, writers, e) = grnvs_open-stages ifname sock_dgram a s s' fd h in
    open_interface-is_global ifname a.index a.hardware a.addresses s₁ s'
      (ap is_global (open_writers-ip6 sock_dgram a (record s { ip6 = replicate 16 0 }) s₁ writers)
        ∙ zeros-is_global)
      e

raw_writers :
    (a : Answers) (s s' : Statics)
    → open_writers sock_raw a (record (grnvs_close s) { ip6 = replicate 16 0 }) ≡ some s'
    → s'.write_six ≡ s.write_six
unfolding open_writers grnvs_close
raw_writers a s s' h = ground arith

-- A layer 3 socket was opened before, and `grnvs_close` closed it. A packet socket that is then
-- opened still takes the way of layer 3: a packet that does not begin like IPv6 or IPv4 is refused.
pub grnvs_write-reopened :
    (ifname : Bytes) (a : Answers) (answers : List Answer) (buf : Bytes) (s s' : Statics) (fd : ℤ)
    → positive s.write_six ≡ true
    → grnvs_open ifname sock_raw a (grnvs_close s) ≡ returned (fd, s')
    → negative s'.ifindex ≡ false
    → 40 ≤ length buf
    → get_or buf 0 0 / 16 ≢ 6
    → get_or buf 0 0 / 16 ≢ 4
    → grnvs_write answers buf s' ≡ returned (negsuc 21, none)
unfolding grnvs_write
grnvs_write-reopened ifname a answers buf s s' fd six opened up long not_six not_four =
    let (s₁, writers, e) = grnvs_open-stages ifname sock_raw a (grnvs_close s) s' fd opened in
    let kept : s'.write_six ≡ s.write_six =
      open_interface-write_six ifname sock_raw a.index a.hardware a.addresses s₁ s' e
      ∙ raw_writers a s s₁ writers in
    ground (arith, ==_ne (get_or buf 0 0 / 16) 6 not_six, ==_ne (get_or buf 0 0 / 16) 4 not_four)

grnvs_read-closed :
    (rounds : List Round) (junk : ℤ) (timeout : Option ℕ) (s : Statics)
    → grnvs_read rounds junk timeout (grnvs_close s) ≡ exited
unfolding grnvs_read grnvs_close
grnvs_read-closed rounds junk none s = refl
grnvs_read-closed rounds junk (some timeout) s = refl

-- After `grnvs_close` the hardware address and the IPv6 address are NULL, a read ends the process,
-- and so does a write of at least 40 bytes.
grnvs_close-closed :
    (rounds : List Round) (junk : ℤ) (timeout : Option ℕ) (answers : List Answer) (buf : Bytes)
    (s : Statics)
    → 40 ≤ length buf
    → (grnvs_read rounds junk timeout (grnvs_close s) ≡ exited)
      × (grnvs_write answers buf (grnvs_close s) ≡ exited)
      × (grnvs_get_hwaddr (grnvs_close s) ≡ none)
      × (grnvs_get_ip6addr (grnvs_close s) ≡ none)
unfolding grnvs_read grnvs_write grnvs_close grnvs_get_hwaddr grnvs_get_ip6addr
grnvs_close-closed rounds junk timeout answers buf s long =
    (grnvs_read-closed rounds junk timeout s, ground arith, refl, refl)
