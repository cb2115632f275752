-- ===== src/Memory/Examples.antt =====
-- Runs of the block operations of mem/mem.c, and the theorems about them at concrete arguments.
use mimik.Base.{◌%◌, ◌≡◌, refl, if◌then◌else◌, arith, done, halted}
use mimik.Memory.{Ptr, null, Memory, within, spread, mem_set}
use mimik.Memory.Fill.{moved, mem_set-within}

abbrev pattern_memory : Memory
pattern_memory a = a % 256

-- A word and the single bytes behind it: `s = 9` fills 16 bytes.
set_nine : spread 8 0xab 0 ≡ 0xabab_abab_abab_abab
unfolding spread
set_nine = refl

mem_set-null : mem_set null 0 8 pattern_memory ≡ halted
unfolding mem_set
mem_set-null = refl

mem_set-within_example :
    (mem' : Memory) × (mem_set 0x1000 7 20 pattern_memory ≡ done mem')
    × ((x : Ptr) → mem' x ≡ (if within 0x1000 (moved 20) x then 7 else pattern_memory x))
mem_set-within_example = mem_set-within 0x1000 7 20 pattern_memory (omega arith) (omega arith)
