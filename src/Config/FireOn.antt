-- ===== src/Config/FireOn.antt =====
-- `load_fire_on`: the words of `fire_on` and the inotify events that they stand for.
pub mod Flags
use watch_it.Base.{ℕ, Bool, true, false, List, [], ◌∷◌, if◌then◌else◌}
use Prim.Native.Nat.{bit_or}
use watch_it.CString.{Str, codes, strtok_all}
use watch_it.Handling.Types.{in_open, in_access, in_close, in_delete, in_delete_self}
use watch_it.Config.Types.{Conf, Ini, equals}

-- `config->fire_on |= …`
abbrev pub fire_open : ℕ → ℕ
fire_open mask = bit_or (bit_or mask in_open) in_access

abbrev pub fire_close : ℕ → ℕ
fire_close mask = bit_or (bit_or (bit_or mask in_close) in_delete) in_delete_self

-- The loop over the words: the mask, and whether every word was known.
unfoldable pub fire_loop : List Str → ℕ → ℕ × Bool
fire_loop [] mask = (mask, true)
fire_loop (pch ∷ rest) mask =
    let opened = fire_loop rest (fire_open mask) in
    let closed = fire_loop rest (fire_close mask) in
    if equals pch (codes "OPEN")
    then opened
    else if equals pch (codes "CLOSE")
    then closed
    else (mask, false)

-- `load_fire_on`; `false` is the return value -1.
unfoldable pub load_fire_on : Ini → Conf → Conf × Bool
unfolding fire_loop
load_fire_on dict config =
    let (mask, known) =
      fire_loop (strtok_all (codes " |") (dict.getstring (codes "folder:fire_on") []))
        config.fire_on in
    (record config { fire_on = mask }, known)
