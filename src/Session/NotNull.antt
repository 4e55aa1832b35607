-- ===== src/Session/NotNull.antt =====
-- `main` of assignment4 hands `assignment4` no NULL pointer, and every file fits into its buffer.
use grnvs.Prelude.{
  ℕ, zero, suc, ◌-◌, ◌≡◌, ◌≢◌, ◌≤◌, refl, arith, some, List, [], ◌∷◌, ◌++◌, ◌==◌, Bool-cases,
  Option-cases, inl, inr, length, take, ◌⊎◌,
}
use grnvs.Memory.{Bytes, c_string, string_at}
use grnvs.Args.{Word, message, crashed, ran}
use grnvs.Args.Rules.{Parse-cases}
use grnvs.Netstring.{bufsize, Reply, Order}
use grnvs.Netstring.Messages.{filled}
use grnvs.Session.{Calls}
use grnvs.Session.Arguments.{Arguments, parse_args}
use grnvs.Session.Parsing.{IsRead, parse_args-IsRead}
use grnvs.Session.Main.{
  File, cannot_open, cannot_read, holds, file_text, message_text, start_session, launch, main,
}

c_string-ended :
    (s rest : Bytes) → (t : Bytes) × (c_string (s ++ (0 ∷ rest)) ≡ some t) × (length t ≤ length s)
unfolding c_string
c_string-ended [] rest = ([], refl, omega arith)
c_string-ended (b ∷ s) rest = elim (Bool-cases (b == 0)) [
  | inl stop ↦ ([], rw stop refl, omega arith)
  | inr more ↦ let (t, e, h) = c_string-ended s rest in (b ∷ t, rw (more, e) refl, omega (arith, h))
]

length-take_le : (n : ℕ) (s : Bytes) → length (take n s) ≤ n
length-take_le zero s = omega arith
length-take_le (suc n) [] = omega arith
length-take_le (suc n) (b ∷ s) = omega (arith, length-take_le n s)

-- Of any file the start that fits is a string.
file_text-some : (bytes : Bytes) → (t : Bytes) × (file_text bytes ≡ some t) × (length t ≤ 4095)
unfolding file_text string_at
file_text-some bytes =
    let start = take (bufsize - 1) bytes in
    let short = length-take_le (bufsize - 1) bytes in
    let (junk, fill) = filled start (omega (arith, short)) in
    let (t, e, h) = c_string-ended start junk in
    (t, rw (fill, file_text) e, omega (arith, h, short))

module _ (words : List Word) (args : Arguments) (r : IsRead words args) where
  read-file :
      (file : File) (name : Bytes)
      → args.file ≡ some name
      → (message_text file args ≡ message)
        ⊎ ((msg : Bytes) × (message_text file args ≡ ran (some msg)))
  unfolding message_text
  read-file cannot_open name e = inl (rw (e, message_text) refl)
  read-file cannot_read name e = inl (rw (e, message_text) refl)
  read-file (holds bytes) name e =
      let (t, f, _) = file_text-some bytes in inr (t, rw (e, f, message_text) refl)

  message_text-some :
      (file : File)
      → (message_text file args ≡ message)
        ⊎ ((msg : Bytes) × (message_text file args ≡ ran (some msg)))
  unfolding message_text
  message_text-some file = elim (Option-cases args.file) [
    | inl no_file ↦ elim (Option-cases args.msg) [
      | inl no_msg ↦ absurd (ground (arith, r.given, no_file, no_msg))
      | inr (msg, e) ↦ inr (msg, rw (no_file, e, message_text) refl)
    ]
    | inr (name, e) ↦ read-file file name e
  ]

  module _ (order : Order) (fuel : ℕ) (calls : (dst : Bytes) → (port : ℕ) → Calls)
      (control_in data_in : List Reply) where
    start_session-ne :
        (msg : Bytes) → start_session order fuel calls control_in data_in args (some msg) ≢ crashed
    unfolding start_session
    start_session-ne msg h =
        let stopped = rw (r.dst_place, r.nick_place, start_session) at h in absurd (ground arith)

    launch-ne : (file : File) → launch order fuel calls control_in data_in file args ≢ crashed
    unfolding launch
    launch-ne file h = elim (message_text-some file) [
      | inl e ↦ let stopped = rw (e, launch) at h in absurd (ground arith)
      | inr (msg, e) ↦ start_session-ne msg (rw (e, launch) at h)
    ]

-- Whatever the command line and the file, `main` passes no NULL pointer to `assignment4` and reads
-- nothing behind the end of its buffer.
pub main-ne-crashed :
    (order : Order) (fuel : ℕ) (calls : (dst : Bytes) → (port : ℕ) → Calls)
    (control_in data_in : List Reply) (file : File) (words : List Word)
    → main order fuel calls control_in data_in file words ≢ crashed
unfolding main
main-ne-crashed order fuel calls control_in data_in file words h =
    elim (Parse-cases (parse_args words)) [
      | inl (args, e) ↦
          launch-ne words args (parse_args-IsRead words args e) order fuel calls control_in data_in
            file (rw (e, main) at h)
      | inr (inl e) ↦ let stopped = rw (e, main) at h in absurd (ground arith)
      | inr (inr e) ↦ let stopped = rw (e, main) at h in absurd (ground arith)
    ]
