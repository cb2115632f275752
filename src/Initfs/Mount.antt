-- ===== src/Initfs/Mount.antt =====
-- `initfs_from_module` and `initfs_release` (common/initfs.c), over the page tables and the page
-- allocator; a `struct bootinfo_module` of include/boot/bootinfo.h gives the range of the archive.
use mimik.Base.{ℕ, ◌+◌, ◌-◌, ◌^◌, not, ◌==◌, u64, Bool, Outcome}
use mimik.Memory.{Ptr}
use mimik.Pm.State.{Pm}
use mimik.Pm.Lock.{pm_try_lock_pages, pm_try_release_pages}
use mimik.Vm.State.{Command, ◌>>=◌, ◌>>◌, pure, check}
use mimik.Vm.Unmap.{vmk_unmap_bytes}
use mimik.Vm.Map.{lift_pm, vmk_map_bytes}

pub record Module : Type 0 where
  pub start_address : ℕ
  pub end_address : ℕ

-- `struct initfs`.
pub record Fs : Type 0 where
  pub virt_start : ℕ
  pub virt_end : ℕ
  pub phys_start : ℕ
  pub phys_end : ℕ

abbrev pub zero_fs : Fs
zero_fs = record { virt_start = 0; virt_end = 0; phys_start = 0; phys_end = 0 }

-- A difference of two addresses, as the macros for ranges take it.
abbrev pub bytes_between : ℕ → ℕ → ℕ
bytes_between a b = u64 (b + 2 ^ 64 - a)

module _ (alloc : Pm → Outcome (Ptr × Pm)) (depth fuel : ℕ) where
  -- The macros `pm_try_lock_range` and `pm_try_release_range`.
  unfoldable pub try_lock_range : ℕ → ℕ → Command Bool
  try_lock_range a b s = lift_pm s (pm_try_lock_pages alloc depth fuel a (bytes_between a b) s.pm)

  unfoldable pub try_release_range : ℕ → ℕ → Command Bool
  try_release_range a b s =
      lift_pm s (pm_try_release_pages alloc depth fuel a (bytes_between a b) s.pm)

  -- Neither result is looked at.
  unfoldable pub initfs_from_module : (rounds vaddr_end : ℕ) → Module → Command Fs
  initfs_from_module rounds vaddr_end mod' =
      let phys_start = mod'.start_address in
      let phys_end = mod'.end_address in
      do
        ok ← try_lock_range phys_start phys_end
        (res, virt_start) ←
            vmk_map_bytes alloc depth fuel rounds vaddr_end phys_start
              (bytes_between phys_start phys_end) 0 0
        pure (record {
          virt_start = virt_start;
          virt_end = u64 (virt_start + bytes_between phys_start phys_end);
          phys_start = phys_start;
          phys_end = phys_end;
        })

  -- The result is what `*fs` holds afterwards; the 28 bytes behind it, which mem/mem.c clears as
  -- well, are not part of the state.
  unfoldable pub initfs_release : Fs → Command Fs
  initfs_release fs = do
    check (not (fs.virt_start == 0))
    n ← vmk_unmap_bytes fs.virt_start (bytes_between fs.virt_start fs.virt_end)
    ok ← try_release_range fs.phys_start fs.phys_end
    pure zero_fs
