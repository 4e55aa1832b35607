-- ===== src/Timespec/Laws.antt =====
-- The macros of timespec.h against numbers of nanoseconds.
use grnvs.Prelude.{
  ℕ, ◌+◌, ◌-◌, ◌*◌, ◌/◌, ◌%◌, ◌^◌, ◌<◌, ◌≤◌, ◌≡◌, true, false, arith, ltb, if◌then◌else◌, ap, ap₂,
  ◌∙◌, Bool-cases, inl, inr,
}
use grnvs.Prelude.Int.{ℤ, pos, negsuc, ◌+ℤ◌, ◌-ℤ◌, ltb_ℤ}
use grnvs.Timespec.{
  Timespec, timespecsub, timespecmset, milliseconds, timespecadd, timespeccmp, timespecmax,
}

abbrev time : ℤ → ℤ → Timespec
time s n = record { tv_sec = s; tv_nsec = n }

sub-pos : (a b : ℕ) → b ≤ a → pos a -ℤ pos b ≡ pos (a - b)
unfolding ◌-ℤ◌
sub-pos a b h = ground arith

sub-negsuc : (a b : ℕ) → a < b → pos a -ℤ pos b ≡ negsuc (b - a - 1)
unfolding ◌-ℤ◌
sub-negsuc a b h = ground arith

add-borrow : (a b c : ℕ) → a < b → b ≤ a + c → negsuc (b - a - 1) +ℤ pos c ≡ pos (a + c - b)
unfolding ◌+ℤ◌
add-borrow a b c h k = ground arith

negsuc-below : (n : ℕ) → ltb_ℤ (negsuc n) (pos 0) ≡ true
negsuc-below n = ground arith

pos-below : (n : ℕ) → ltb_ℤ (pos n) (pos 0) ≡ false
pos-below n = ground arith

-- The normal form of a number of nanoseconds.
abbrev pub time_of : ℕ → Timespec
time_of k = time (pos (k / 1000000000)) (pos (k % 1000000000))

-- `timespecsub` of normal forms is the normal form of the difference.
pub timespecsub-time_of : (k j : ℕ) → j ≤ k → timespecsub (time_of k) (time_of j) ≡ time_of (k - j)
unfolding timespecsub
timespecsub-time_of k j h = elim (Bool-cases (ltb (k % 1000000000) (j % 1000000000))) [
  | inl borrow ↦
      rw
        (
          sub-negsuc (k % 1000000000) (j % 1000000000) (ground arith),
          sub-pos (k / 1000000000) (j / 1000000000) (omega arith),
        )
        (rw (negsuc-below (j % 1000000000 - k % 1000000000 - 1)) (
          ap₂ time
            (sub-pos (k / 1000000000 - j / 1000000000) 1 (ground arith) ∙ ap pos (ground arith))
            (add-borrow (k % 1000000000) (j % 1000000000) 1000000000 (ground arith) (omega arith)
              ∙ ap pos (ground arith))))
  | inr keep ↦
      rw
        (
          sub-pos (k % 1000000000) (j % 1000000000) (ground arith),
          sub-pos (k / 1000000000) (j / 1000000000) (omega arith),
        )
        (rw (pos-below (k % 1000000000 - j % 1000000000))
          (ap₂ time (ap pos (ground arith)) (ap pos (ground arith))))
]

-- `timespecmset` gives the normal form of the milliseconds.
pub timespecmset-time_of : (msec : ℕ) → timespecmset msec ≡ time_of (msec * 1000000)
unfolding timespecmset
timespecmset-time_of msec =
    rw (sub-pos msec (msec / 1000 * 1000) (omega arith))
      (ap₂ time (ap pos (omega arith)) (ground arith))

-- The milliseconds of a normal form, as an `unsigned int`.
pub milliseconds-time_of : (k : ℕ) → milliseconds (time_of k) ≡ k / 1000000 % 2 ^ 32
unfolding milliseconds ◌+ℤ◌
milliseconds-time_of k = ground arith

ltb-pos : (a b : ℕ) → ltb_ℤ (pos a) (pos b) ≡ ltb a b
ltb-pos a b = ground arith

add-pos : (a b : ℕ) → pos a +ℤ pos b ≡ pos (a + b)
unfolding ◌+ℤ◌
add-pos a b = ground arith

-- `timespecadd` of normal forms is the normal form of the sum.
timespecadd-time_of : (k j : ℕ) → timespecadd (time_of k) (time_of j) ≡ time_of (k + j)
unfolding timespecadd
timespecadd-time_of k j = elim (Bool-cases (ltb (k % 1000000000 + j % 1000000000) 1000000000)) [
  | inl keep ↦
      rw (add-pos (k % 1000000000) (j % 1000000000), add-pos (k / 1000000000) (j / 1000000000))
        (rw (ltb-pos (k % 1000000000 + j % 1000000000) 1000000000)
          (rw keep (ap₂ time (ap pos (ground arith)) (ap pos (ground arith)))))
  | inr borrow ↦
      rw (add-pos (k % 1000000000) (j % 1000000000), add-pos (k / 1000000000) (j / 1000000000))
        (rw
          (
            ltb-pos (k % 1000000000 + j % 1000000000) 1000000000,
            add-pos (k / 1000000000 + j / 1000000000) 1,
            sub-pos (k % 1000000000 + j % 1000000000) 1000000000 (ground arith),
          )
          (rw borrow (ap₂ time (ap pos (ground arith)) (ap pos (ground arith)))))
]

-- Comparing normal forms compares the nanoseconds.
timespeccmp-time_of : (k j : ℕ) → timespeccmp (time_of k) (time_of j) ltb_ℤ ≡ ltb k j
unfolding timespeccmp
timespeccmp-time_of k j = ground arith

-- `timespecmax` is the later of two times.
timespecmax-time_of :
    (k j : ℕ) → timespecmax (time_of k) (time_of j) ≡ (if ltb j k then time_of k else time_of j)
unfolding timespecmax timespeccmp
timespecmax-time_of k j = ap (λ b. if b then time_of k else time_of j) (ground arith)
