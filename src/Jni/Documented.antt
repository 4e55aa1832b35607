-- ===== src/Jni/Documented.antt =====
-- What GRNVS_RAW.c relies on in the Java native interface.
use grnvs.Prelude.{ℕ, ◌+◌, ◌≡◌, ◌<◌, ◌≤◌, none, some, ◌++◌, length, drop, take, replicate}
use grnvs.Prelude.Int.{pos}
use grnvs.Memory.{Bytes}
use grnvs.Jni.{JniEnv}

-- A region inside the array is copied; one that reaches behind its end raises an exception. A new
-- array, where there is one, has zeros; an exception leaves nothing.
pub record Documented (env : JniEnv) : Type 0 where
  pub inside :
      (array : Bytes) (start len : ℕ)
      → start + len ≤ length array
      → env.get_region array (pos start) (pos len) ≡ some (take len (drop start array))
  pub outside :
      (array : Bytes) (start len : ℕ)
      → length array < start + len
      → env.get_region array (pos start) (pos len) ≡ none
  pub stored :
      (array buf : Bytes) (len : ℕ)
      → len ≤ length array
      → len ≤ length buf
      → env.set_region array (pos 0) (pos len) buf ≡ some (take len buf ++ drop len array)
  pub fresh : (n : ℕ) (array : Bytes) → env.new_array n ≡ some array → array ≡ replicate n 0
