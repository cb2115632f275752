-- ===== src/Initfs.antt =====
-- The archive of common/initfs.c: octal numbers and the search for a file, over the memory that the
-- archive is mapped in.
pub mod Archive
pub mod Mount
mod Examples
use mimik.Base.{
  ℕ, zero, suc, ◌+◌, ◌-◌, ◌*◌, ◌^◌, Bool, true, false, not, ◌&&◌, leb, ltb, ◌==◌, if◌then◌else◌,
  u64, Outcome, done, out_of_fuel, ◌>>=◌, ◌>>◌, assert, Status, error, enoent, success,
}
use mimik.Memory.{Ptr, null, Memory}
use mimik.Page.{align_up}
use mimik.Str.{str_length, str_equal, str_nequal}

-- `while (--len > 0)`, on the rounds left.
unfoldable pub oct_loop : ℕ → Memory → Ptr → ℕ → Outcome ℕ
oct_loop zero mem str num = done num
oct_loop (suc left) mem str num = do
  assert (leb 48 (mem str) && leb (mem str) 55)
  oct_loop left mem (str + 1) (u64 (u64 (num * 8) + (mem str - 48)))

unfoldable pub oct_str_to_num : Memory → Ptr → ℕ → Outcome ℕ
oct_str_to_num mem str len = oct_loop (u64 (len + (2 ^ 64 - 1))) mem str 0

-- Where the fields of a `struct ustar_header` stand, and how long the ones in use are.
abbrev pub header_size : ℕ
header_size = 512

abbrev pub file_name_size : ℕ
file_name_size = 100

abbrev pub file_size_at : Ptr → Ptr
file_size_at hdr = hdr + 124

abbrev pub file_size_size : ℕ
file_size_size = 12

abbrev pub type_flag_at : Ptr → Ptr
type_flag_at hdr = hdr + 156

abbrev pub ustar_string_at : Ptr → Ptr
ustar_string_at hdr = hdr + 257

abbrev pub ustar_version_at : Ptr → Ptr
ustar_version_at hdr = hdr + 263

abbrev pub type_flag_file : ℕ
type_flag_file = 1

-- What `initfs_lookup` returns and writes; `*file_ptr` and `*file_size` stay as they were unless it
-- succeeds.
pub record Found : Type 0 where
  pub status : Status
  pub file_ptr : Ptr
  pub file_size : ℕ

-- `fuel` bounds the strings; `ustar` and `version` are the addresses of the literals.
module _ (fuel : ℕ) (mem : Memory) (ustar version : Ptr) where
  unfoldable pub lookup_loop : ℕ → (virt_end hdr path : Ptr) → Found → Outcome Found
  lookup_loop zero virt_end hdr path old = out_of_fuel
  lookup_loop (suc rounds) virt_end hdr path old =
      let next = λ (sz : ℕ).
        lookup_loop rounds virt_end (align_up (u64 (hdr + header_size + sz)) header_size) path
          old in
      if ltb hdr virt_end
      then (do
        magic ← str_equal fuel mem (ustar_string_at hdr) ustar
        assert magic
        current ← str_nequal mem (ustar_version_at hdr) version 2
        assert current
        sz ← oct_str_to_num mem (file_size_at hdr) file_size_size
        same ← str_equal fuel mem hdr path
        if same
            then (do
              assert (mem (type_flag_at hdr) == type_flag_file)
              done (record { status = success; file_ptr = hdr + header_size; file_size = sz }))
            else next sz)
      else done (record old { status = error enoent })

  -- The pointers `file_ptr` and `file_size` are not null.
  unfoldable pub initfs_lookup : ℕ → (virt_start virt_end path : Ptr) → Found → Outcome Found
  initfs_lookup rounds virt_start virt_end path old = do
    assert (not (virt_start == null))
    assert (not (path == null))
    n ← str_length fuel mem path
    assert (ltb n file_name_size)
    lookup_loop rounds virt_end virt_start path old
