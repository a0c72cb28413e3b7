-- ===== src/Session/Memory.antt =====
-- What the main program says of its memory (cmd/red/main.go): `GetMemUsage`, `bToMb`.
use go_red.Base.{ℕ, ltb, if◌then◌else◌, ◌++◌, ◌/◌, ℤ, pos, wrap}
use go_red.Text.{Text, codes, itoa}

-- The fields of `runtime.MemStats` that are read, as the runtime fills them in.
pub record MemStats : Type 0 where
  pub heap_alloc : ℕ
  pub sys : ℕ
  pub num_gc : ℕ
  pub last_gc : ℕ

pub b_to_mb : ℕ → ℕ
b_to_mb b = b / 1024 / 1024

-- The part on the garbage collections, where there has been one. `kitchen` is the text of a time that is given
-- in nanoseconds as an `int64`, by `time.Unix` and `Format`.
pub gc_text : (ℤ → Text) → MemStats → Text
gc_text kitchen m =
    if ltb 0 m.num_gc
    then codes ", GC(#"
      ++ itoa (pos m.num_gc)
      ++ codes " @ "
      ++ kitchen (wrap (pos m.last_gc))
      ++ codes ")"
    else codes ""

pub get_mem_usage : (ℤ → Text) → MemStats → Text
unfolding b_to_mb gc_text
get_mem_usage kitchen m =
    codes "Heap="
    ++ itoa (pos (b_to_mb m.heap_alloc))
    ++ codes " MiB, Sys="
    ++ itoa (pos (b_to_mb m.sys))
    ++ codes " MiB"
    ++ gc_text kitchen m
