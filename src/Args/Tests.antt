-- ===== src/Args/Tests.antt =====
-- `strtol` at concrete texts.
use grnvs.Prelude.{◌≡◌, refl, true, false, arith, []}
use grnvs.Prelude.Int.{pos, negsuc}
use grnvs.Decimal.{scan, skip_spaces}
use grnvs.Args.{number, signed, skip_digits, strtol, to_int}
use grnvs.Args.Strtol.{print_long, strtol-print_long}
use grnvs.Netstring.Texts.{codes}

text_behind : strtol (codes " -12x") ≡ record { value = negsuc 11; rest = codes "x"; moved = true }
unfolding strtol signed number skip_digits scan skip_spaces
text_behind = refl

-- An empty text is no number, but nothing stands at its end either.
empty_text : strtol [] ≡ record { value = pos 0; rest = []; moved = false }
unfolding strtol signed number skip_digits scan skip_spaces
empty_text = refl

wide : to_int (pos 4294967295) ≡ negsuc 0
unfolding to_int
wide = refl

strtol-print_long_example :
    strtol (print_long (negsuc 41)) ≡ record { value = negsuc 41; rest = []; moved = true }
strtol-print_long_example = strtol-print_long (negsuc 41) (omega arith, omega arith)
