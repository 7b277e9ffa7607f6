-- ===== src/Gaussian/Tests.antt =====
-- The blur of test_opencv.cpp on small pictures, with numbers in the place of `double`.
use miscellaneous.Base.{ℕ, ◌+◌, ◌*◌, ltb, ◌≡◌, refl, arith}
use miscellaneous.Base.Run.{fault, Yields}
use miscellaneous.Gaussian.{Double, Mat, gaussian}
use miscellaneous.Gaussian.Reference.{IsByteExact, byte, weight}
use miscellaneous.Gaussian.Correct.{IsBlurred, gaussian-IsBlurred}
use miscellaneous.Gaussian.Even.{gaussian-even_faults}

-- Every weight is 1.
abbrev numbers : Double ℕ
numbers = record {
  add = λ a b. a + b;
  mul = λ a b. a * b;
  div = λ a b. 1;
  neg = λ a. a;
  exp = λ a. a;
  less = λ a b. ltb a b;
  of_int = λ n. n;
  pi = 3;
  to_uchar = λ a. a;
}

-- Two rows of three pixels: 20 40 60 and 80 100 120.
abbrev picture : Mat
picture = record { rows = 2; cols = 3; channels = 1; pixel = λ i x. 60 * i + 20 * x + 20 }

numbers-IsByteExact : IsByteExact numbers
numbers-IsByteExact = record { not_less = refl; exact = λ n h. refl }

-- A sum of weights and samples that is beyond a byte is cut to 255.
saturates : byte numbers 300 ≡ 255
unfolding byte
saturates = refl

gaussian-IsBlurred_example :
    Yields
      (IsBlurred numbers (weight numbers (2 * 1 + 1) 1) 1 picture)
      (gaussian numbers (2 * 1 + 1) 1 picture)
gaussian-IsBlurred_example = gaussian-IsBlurred numbers numbers-IsByteExact 1 1 picture

gaussian-even_faults_example : gaussian numbers (2 * 2) 1 picture ≡ fault
gaussian-even_faults_example =
    gaussian-even_faults numbers 1 2 picture (omega arith) (omega arith) (omega arith)
