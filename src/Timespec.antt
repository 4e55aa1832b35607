-- ===== src/Timespec.antt =====
-- assignment2/libraw/src/timespec.h: the macros on `struct timespec`.
-- `tv_sec` and `tv_nsec` are signed; their arithmetic is taken as exact, since raw.c stays far below
-- the bounds of `long`.
pub mod Laws
use grnvs.Prelude.{
  ℕ, ◌+◌, ◌-◌, ◌*◌, ◌/◌, ◌%◌, ◌^◌, Bool, false, not, ◌&&◌, ◌||◌, ◌==◌, ltb, if◌then◌else◌,
}
use grnvs.Prelude.Int.{ℤ, pos, negsuc, ◌+ℤ◌, ◌-ℤ◌, scale, ltb_ℤ}

-- `struct timespec`
pub record Timespec : Type 0 where
  pub tv_sec : ℤ
  pub tv_nsec : ℤ

-- `timespecsub(vvp, uvp)`: the new `*vvp`
unfoldable pub timespecsub : (vvp uvp : Timespec) → Timespec
timespecsub vvp uvp =
    let tv_sec = vvp.tv_sec -ℤ uvp.tv_sec in
    let tv_nsec = vvp.tv_nsec -ℤ uvp.tv_nsec in
    if ltb_ℤ tv_nsec (pos 0)
    then record { tv_sec = tv_sec -ℤ pos 1; tv_nsec = tv_nsec +ℤ pos 1000000000 }
    else record { tv_sec = tv_sec; tv_nsec = tv_nsec }

-- `timespecmset(tvp, msec)` of an unsigned `msec`: the new `*tvp`
unfoldable pub timespecmset : (msec : ℕ) → Timespec
timespecmset msec = record {
  tv_sec = pos (msec / 1000);
  tv_nsec = scale 1000000 (pos msec -ℤ pos (msec / 1000 * 1000));
}

-- A quotient, rounded towards zero.
abbrev pub quotient : ℤ → ℕ → ℤ
quotient (pos n) d = pos (n / d)
quotient (negsuc n) d = pos 0 -ℤ pos ((n + 1) / d)

-- `(unsigned int)(t.tv_sec*1000 + t.tv_nsec/1000000)`
unfoldable pub milliseconds : Timespec → ℕ
milliseconds t = elim (scale 1000 t.tv_sec +ℤ quotient t.tv_nsec 1000000) [
  | pos n ↦ n % 2 ^ 32
  | negsuc n ↦ 2 ^ 32 - 1 - n % 2 ^ 32
]

-- `timespecclear(tvp)`: the new `*tvp`
unfoldable pub timespecclear : Timespec
timespecclear = record { tv_sec = pos 0; tv_nsec = pos 0 }

abbrev pub is_zero : ℤ → Bool
is_zero (pos n) = n == 0
is_zero (negsuc n) = false

-- `timespecisset(tvp)`
unfoldable pub timespecisset : Timespec → Bool
timespecisset tvp = not (is_zero tvp.tv_sec) || not (is_zero tvp.tv_nsec)

abbrev pub eqb_ℤ : ℤ → ℤ → Bool
eqb_ℤ a b = not (ltb_ℤ a b) && not (ltb_ℤ b a)

-- `timespeccmp(tvp, uvp, cmp)` for a comparison of numbers
unfoldable pub timespeccmp : (tvp uvp : Timespec) → (ℤ → ℤ → Bool) → Bool
timespeccmp tvp uvp cmp =
    if eqb_ℤ tvp.tv_sec uvp.tv_sec then cmp tvp.tv_nsec uvp.tv_nsec else cmp tvp.tv_sec uvp.tv_sec

-- `timespecadd(vvp, uvp)`: the new `*vvp`
unfoldable pub timespecadd : (vvp uvp : Timespec) → Timespec
timespecadd vvp uvp =
    let tv_sec = vvp.tv_sec +ℤ uvp.tv_sec in
    let tv_nsec = vvp.tv_nsec +ℤ uvp.tv_nsec in
    if ltb_ℤ tv_nsec (pos 1000000000)
    then record { tv_sec = tv_sec; tv_nsec = tv_nsec }
    else record { tv_sec = tv_sec +ℤ pos 1; tv_nsec = tv_nsec -ℤ pos 1000000000 }

-- `timespecmax(vvp, uvp, wvp)`: the new `*vvp`
unfoldable pub timespecmax : (uvp wvp : Timespec) → Timespec
unfolding timespeccmp
timespecmax uvp wvp = if timespeccmp uvp wvp (λ a b. ltb_ℤ b a) then uvp else wvp
