-- ===== src/Bitmap/Examples.antt =====
-- Runs of structs/bitmap.c, and the theorems about it at concrete bitmaps.
use mimik.Base.{
  ◌≡◌, refl, true, false, if◌then◌else◌, ◌==◌, leb, arith, code, error, einval, success,
}
use mimik.Memory.{Memory}
use mimik.Memory.Bytes.{IsBytes}
use mimik.Bitmap.{Bitmap, bit_at, put_bit, bitmap_get, bitmap_set, snochange}
use mimik.Bitmap.Access.{outside, view, cell_of, set_status, bitmap_set-view}
use mimik.Bitmap.Count.{IsBitmap, zeros, bitmap_set-IsBitmap}

abbrev blank : Memory
blank a = 0

abbrev twelve : Bitmap
twelve = record { bytes = 2; size = 12; unset = 12; map = 0x1000 }

blank-IsBytes : IsBytes blank
blank-IsBytes a = omega arith

twelve-IsBitmap : IsBitmap twelve blank
unfolding zeros bit_at
twelve-IsBitmap = record {
  memory = blank-IsBytes;
  sized = omega arith;
  bytes = refl;
  counted = refl;
}

runs :
    ((bitmap_set twelve blank 9 true).0 ≡ success)
    × ((bitmap_set twelve blank 9 true).1.unset ≡ 11)
    × ((bitmap_set twelve blank 9 true).2 0x1001 ≡ 2)
    × ((bitmap_set twelve blank 9 false).0 ≡ snochange)
    × ((bitmap_set twelve blank 12 true).0 ≡ error einval)
    × (bitmap_get twelve (bitmap_set twelve blank 9 true).2 9 ≡ code 1)
unfolding bitmap_set bitmap_get bit_at put_bit
runs = (refl, refl, refl, refl, refl, refl)

bitmap_set-view_example :
    let (s, b', mem') = bitmap_set twelve blank 9 true in
    (s ≡ set_status (view twelve blank 9) true)
    × (view b' mem' 9 ≡ (
        if 9 == 9
        then (if leb twelve.size 9 then outside else cell_of true)
        else view twelve blank 9))
bitmap_set-view_example = bitmap_set-view twelve blank 9 9 true blank-IsBytes

bitmap_set-IsBitmap_example :
    IsBitmap (bitmap_set twelve blank 9 true).1 (bitmap_set twelve blank 9 true).2
bitmap_set-IsBitmap_example = bitmap_set-IsBitmap twelve blank 9 true twelve-IsBitmap
