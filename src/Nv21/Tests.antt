-- ===== src/Nv21/Tests.antt =====
-- test_opencv.cpp: a picture of four by two pixels.
use miscellaneous.Base.{ℕ, ◌*◌, ◌≡◌, refl, arith, List, [], ◌∷◌}
use miscellaneous.Base.Array.{read, write}
use miscellaneous.Base.Run.{ok, Yields}
use miscellaneous.Nv21.{memcpy, copy_uv, uv_loop, i420_to_nv21}
use miscellaneous.Nv21.Layout.{Placed, i420_to_nv21-Placed}

abbrev picture : List ℕ
picture = 1 ∷ 2 ∷ 3 ∷ 4 ∷ 5 ∷ 6 ∷ 7 ∷ 8 ∷ 11 ∷ 12 ∷ 21 ∷ 22 ∷ []

abbrev zeros : List ℕ
zeros = 0 ∷ 0 ∷ 0 ∷ 0 ∷ 0 ∷ 0 ∷ 0 ∷ 0 ∷ 0 ∷ 0 ∷ 0 ∷ 0 ∷ []

alternates :
    i420_to_nv21 13 4 2 picture zeros ≡ ok (1 ∷ 2 ∷ 3 ∷ 4 ∷ 5 ∷ 6 ∷ 7 ∷ 8 ∷ 21 ∷ 11 ∷ 22 ∷ 12 ∷ [])
unfolding i420_to_nv21 uv_loop copy_uv memcpy read write
alternates = refl

i420_to_nv21-Placed_example :
    Yields (Placed (4 * 2) (6 * 2) picture) (i420_to_nv21 13 4 2 picture zeros)
i420_to_nv21-Placed_example =
    i420_to_nv21-Placed 13 4 2 2 picture zeros refl (omega arith) refl refl (omega arith)
