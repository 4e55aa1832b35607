-- ===== src/Ethstats/Main.antt =====
-- assignment2/src/assignment2.c, `main`: the argument parser, `grnvs_open`, `assignment2` and
-- `grnvs_close`.
use grnvs.Prelude.{ℕ, ◌+◌, ◌≡◌, ◌<◌, refl, arith, false, none, some, List, [], ◌∷◌, if◌then◌else◌}
use grnvs.Prelude.Int.{ℤ, pos_part, InRange}
use grnvs.Prelude.Run.{Ends}
use grnvs.Memory.{Bytes}
use grnvs.TypeInfo.{Ptr, Heap, Cmd}
use grnvs.Args.{
  Word, argument, option, Program, message, shown_usage, exited, crashed, ran, parsed, failed,
  usage, argp_parse,
}
use grnvs.Args.Strtol.{print_long, strtol-print_long, to_int-same}
use grnvs.Raw as Raw
use grnvs.Raw.{Statics, Answers, sock_raw, negative, grnvs_open, grnvs_close, grnvs_get_hwaddr}
use grnvs.Ethstats.{Doubles, Reading, Line, assignment2}
use grnvs.Ethstats.Receive.{seen, Allocates}
use grnvs.Ethstats.Laws.{IsSummary, assignment2-IsSummary}
use grnvs.Ethstats.Arguments.{parse_opt, parse_args}

module _ (D : Doubles) (fuel : ℕ) (reads : ℕ → Reading) (recbuffer : Bytes) where
  -- The run of `assignment2` on an open socket, and the statics of raw.c behind `grnvs_close`.
  -- A negative descriptor ends the program with a message.
  unfoldable pub count_frames : (frames fd : ℤ) → Statics → Program (Cmd (List (Line D)) × Statics)
  unfolding grnvs_get_hwaddr grnvs_close assignment2
  count_frames frames fd s = if negative fd then message else elim (grnvs_get_hwaddr s) [
    | none ↦ crashed
    | some mac ↦ ran (assignment2 D fuel mac reads frames recbuffer, grnvs_close s)
  ]

  unfoldable pub main : List Word → Answers → Statics → Program (Cmd (List (Line D)) × Statics)
  unfolding parse_args count_frames grnvs_open
  main words answers s = elim (parse_args words) [
    | failed ↦ message
    | usage ↦ shown_usage
    | parsed args ↦ elim (grnvs_open args.interface sock_raw answers s) [
      | Raw.returned opened ↦ count_frames args.frames (opened.0) (opened.1)
      | Raw.exited ↦ exited
      | Raw.crash ↦ crashed
      | Raw.out_of_answers ↦ crashed
    ]
  ]

-- The number of frames and the interface are parsed as they were given.
parse_args-given :
    (frames : ℤ) (dev : Bytes)
    → InRange 31 frames
    → parse_args (argument (print_long frames) ∷ option b'i' dev ∷ [])
      ≡ parsed (record { interface = dev; frames = frames })
unfolding parse_args parse_opt
parse_args-given frames dev fits =
    let long : InRange 63 frames = (omega (arith, fits), omega (arith, fits)) in
    rw (strtol-print_long frames long, to_int-same frames fits, argp_parse) refl

open-ifindex : (s s' : Statics) → negative s'.ifindex ≡ false → grnvs_get_hwaddr s' ≡ some s'.mac
unfolding grnvs_get_hwaddr
open-ifindex s s' h = rw h refl

-- The program, started with a number of frames that is an int and with an interface that
-- `grnvs_open` can open, receives on it: it ends without a fault and prints the summary of the frames
-- it received before the first timeout, at most that number of them, against the hardware address
-- that `grnvs_open` left. All nodes are freed, and raw.c is left closed. Every
-- `malloc` succeeds, and there is more fuel than frames and one.
pub main-IsSummary :
    (D : Doubles) (fuel : ℕ) (reads : ℕ → Reading) (recbuffer : Bytes) (frames : ℤ) (dev : Bytes)
    (answers : Answers) (s s' : Statics) (fd : ℤ) (h : Heap)
    → InRange 31 frames
    → grnvs_open dev sock_raw answers s ≡ Raw.returned (fd, s')
    → negative fd ≡ false
    → negative s'.ifindex ≡ false
    → Allocates reads h
    → pos_part frames + 1 < fuel
    → (run : Cmd (List (Line D))) × (main D fuel reads recbuffer
          (argument (print_long frames) ∷ option b'i' dev ∷ [])
          answers
          s
        ≡ ran (run, grnvs_close s'))
      × Ends
          (λ out g.
            IsSummary D fuel s'.mac (seen D reads (pos_part frames) 0 recbuffer) out
            × ((a : Ptr) → g a ≡ h a))
          (run h)
unfolding main count_frames
main-IsSummary D fuel reads recbuffer frames dev answers s s' fd h fits opened good index alloc f =
    (
      assignment2 D fuel s'.mac reads frames recbuffer,
      rw (parse_args-given frames dev fits, main, opened, good, open-ifindex s s' index) refl,
      assignment2-IsSummary D fuel s'.mac reads frames recbuffer h alloc f,
    )
