-- ===== src/Netstring/Texts.antt =====
-- The fixed texts of assignment4.c, as bytes.
use Prim.Native.Char.{code}
use Prim.Native.String.{String}
use grnvs.Prelude.{[], ◌∷◌, ◌++◌}
use grnvs.Memory.{Bytes}

abbrev pub codes : String → Bytes
codes String.[] = []
codes (String.◌∷◌ c s) = code c ∷ codes s

unfoldable pub not_format : Bytes
not_format = codes "String in netstring format"

unfoldable pub no_zero : Bytes
no_zero = codes "no leading 0"

-- The error message that `checkMessage` sends.
unfoldable pub error_text : Bytes → Bytes → Bytes
error_text expected actual =
    codes "E expected: \"" ++ (expected ++ (codes "\" but received: \"" ++ (actual ++ b'"' ∷ [])))
