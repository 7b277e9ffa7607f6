-- ===== src/Nv21.antt =====
-- `test_bgr_to_yuv` of misce_tests/OpenCV/test_opencv.cpp: a picture in I420, where the plane of U comes
-- before that of V, is copied to NV21, where V and U alternate. The pictures are what OpenCV gives.
mod Layout
mod Tests
use miscellaneous.Base.{ℕ, zero, suc, ◌+◌, ◌*◌, ◌/◌, ltb, if◌then◌else◌, List}
use miscellaneous.Base.Array.{read, write}
use miscellaneous.Base.Run.{Run, ok, out_of_fuel, ◌>>=◌, ◌>>◌, require}

-- `memcpy`, so many bytes from the one at `i` on.
unfoldable pub memcpy : ℕ → ℕ → List ℕ → List ℕ → Run (List ℕ)
memcpy zero i src dst = ok dst
memcpy (suc n) i src dst = do x ← read src i; dst' ← write dst i x; memcpy n (suc i) src dst'

-- One round of the loop, with `n` for `w * h`.
unfoldable pub copy_uv : ℕ → ℕ → List ℕ → List ℕ → Run (List ℕ)
copy_uv n i src dst = do
  v ← read src (n + (n / 4 + i / 2))
  dst' ← write dst (n + i) v
  u ← read src (n + i / 2)
  write dst' (n + (i + 1)) u

unfoldable pub uv_loop : ℕ → ℕ → ℕ → List ℕ → List ℕ → Run (List ℕ)
uv_loop zero n i src dst = out_of_fuel
uv_loop (suc fuel) n i src dst =
    if ltb i (n / 2) then (copy_uv n i src dst >>= uv_loop fuel n (i + 2) src) else ok dst

-- `dst` is the new array, with whatever it holds.
unfoldable pub i420_to_nv21 : ℕ → ℕ → ℕ → List ℕ → List ℕ → Run (List ℕ)
i420_to_nv21 fuel w h src dst = do
  require (ltb (w * h * 3) 2147483648)
  dst' ← memcpy (w * h) 0 src dst
  uv_loop fuel (w * h) 0 src dst'
