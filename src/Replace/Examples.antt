-- ===== src/Replace/Examples.antt =====
-- The theorems about `str_replace` at concrete inputs.
use watch_it.Base.{◌≡◌, ◌≢◌, refl, true, some, none, arith}
use watch_it.CString.{codes, strstr, starts_with}
use watch_it.Replace.{result, fault, overflow, str_replace}
use watch_it.Replace.Spec.{scan}
use watch_it.Replace.Bounds.{str_replace-found, str_replace-ne-fault}

str_replace-found_example :
    str_replace true (some (codes "a @0 b @0")) (some (codes "@0")) (some (codes "xyz"))
    ≡ result 12 (codes "a xyz b xyz")
unfolding strstr scan
str_replace-found_example =
    str_replace-found b'@' (codes "0") (codes "a @0 b @0") (some (codes "xyz")) 2 refl (omega arith)
      (omega arith)

str_replace-ne-fault_example :
    (str_replace true (some (codes "@0")) (some (codes "@0")) none ≢ fault)
    × (str_replace true (some (codes "@0")) (some (codes "@0")) none ≢ overflow)
unfolding strstr scan starts_with
str_replace-ne-fault_example =
    str_replace-ne-fault true (codes "@0") b'@' (codes "0") none (omega arith) (omega arith)
      (omega arith)
