-- ===== src/Config/Free.antt =====
-- `config_free`: the blocks that a configuration holds are given back.
pub mod Balance
use watch_it.Base.{ℕ, zero, suc, ◌-◌, Option, none, some}
use watch_it.CString.{Str}
use watch_it.Config.Types.{Conf}

-- `free` of an allocated block, and of NULL, on the number of live blocks.
abbrev pub free_block : ℕ → ℕ
free_block live = live - 1

free_cmd : Option Str → ℕ → ℕ
free_cmd none live = live
free_cmd (some cmd) live = free_block live

-- The loop over the names in `watch_dir`, with the rounds left.
free_names : ℕ → ℕ → ℕ
free_names zero live = live
free_names (suc left) live = free_names left (free_block live)

-- The live blocks after the call. The array `watch_dir` of a configuration is never NULL.
unfoldable pub config_free : Option Conf → ℕ → ℕ
unfolding free_cmd free_names
config_free none live = live
config_free (some config) live =
    let array = free_block (free_names config.watch_dir_count live) in
    free_block (free_cmd config.open_cmd (free_cmd config.close_cmd array))
