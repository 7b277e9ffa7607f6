-- ===== src/Pipes/Prime.antt =====
-- ipcCode/pipes/fifoReader.c: `is_prime`.
use Prim.Native.Nat.{◌∣◌}
use mathlib.Core.Path.{subst}
use native.Mathlib.Nat
use miscellaneous.Base.{
  ℕ, zero, suc, ◌+◌, ◌*◌, ◌/◌, ◌%◌, ◌^◌, ◌<◌, ◌≤◌, ◌≡◌, ◌≢◌, refl, sym, ap, ◌∙◌, arith, Bool, true,
  false, ◌||◌, ◌⊎◌, inl, inr, Bool-cases, ltb, leb, dec_lt, ℕ_discrete,
}
use miscellaneous.Base.Run.{Yields, yields, Yields-test}
use miscellaneous.Pipes.{u32, divides, prime_loop, is_prime}

-- No number from 2 to `n` - 1 divides `n`.
abbrev pub IsPrime : ℕ → Type 0
IsPrime n = (2 ≤ n) × ((d : ℕ) → 2 ≤ d → d < n → n % d ≢ 0)

-- What the answer of `is_prime` tells: that the number is prime, or that it is not, for less than 2 or
-- for a divisor.
abbrev pub Answers : ℕ → Bool → Type 0
Answers n true = IsPrime n
Answers n false = (n < 2) ⊎ ((d : ℕ) × (2 ≤ d) × (d < n) × (n % d ≡ 0))

-- What divides a divisor divides the number.
mod_of_mod : (n d e : ℕ) → n % d ≡ 0 → d % e ≡ 0 → n % e ≡ 0
mod_of_mod n d e p q =
    Nat.mod-eq-zero_of_dvd e
      (Nat.dvd_trans e (Nat.dvd_of_mod-eq-zero e q) (Nat.dvd_of_mod-eq-zero d p))

-- What is left to divide by, when 2 and 3 do not divide: the numbers next to the multiples of 6.
abbrev NoDivisor : ℕ → ℕ → Type 0
NoDivisor n i = (c : ℕ) → 5 ≤ c → c < i → (c % 6 ≡ 1) ⊎ (c % 6 ≡ 5) → n % c ≢ 0

divides_no : (d n : ℕ) → divides d n ≡ false → n % d ≢ 0
divides_no d n p = ground arith

divides_yes : (d n : ℕ) → divides d n ≡ true → n % d ≡ 0
divides_yes d n p = ground arith

square_le : (i j : ℕ) → i ≤ j → i * i ≤ j * j
square_le i j h = Nat.mul-le-mul h h

or-false : (a b : Bool) → (a || b) ≡ false → (a ≡ false) × (b ≡ false)
or-false true b h = grind arith
or-false false b h = (refl, h)

found_divisor :
    (n i : ℕ)
    → i * i ≤ n
    → 5 ≤ i
    → (divides i n || divides (i + 2) n) ≡ true
    → (d : ℕ) × (2 ≤ d) × (d < n) × (n % d ≡ 0)
found_divisor n i p five found =
    let far : 5 * i ≤ i * i = Nat.mul-le-mul_right i five in
    elim (Bool-cases (divides i n)) [
      | inl e ↦ (i, omega arith, omega (arith, far), divides_yes i n e)
      | inr e ↦ (
        i + 2,
        omega arith,
        omega (arith, far),
        divides_yes (i + 2) n (sym (ap (λ b. b || divides (i + 2) n) e) ∙ found),
      )
    ]

root_bound : {n : ℕ} (i : ℕ) → n < 2 ^ 31 → i * i ≤ n → i + 6 < 46352
root_bound i small p = elim (dec_lt i 46341) [
  | yes low ↦ omega arith
  | no high ↦ let much : 46341 * 46341 ≤ i * i = square_le 46341 i (omega arith) in omega arith
]

partner_large : {n : ℕ} (d q : ℕ) → 2 ≤ d → d < n → d * q ≡ n → 2 ≤ q
partner_large d zero l h split = omega (arith, split)
partner_large d (suc zero) l h split = omega (arith, split)
partner_large d (suc (suc q)) l h split = omega arith

partner_small : {n : ℕ} (d q i : ℕ) → d * q ≡ n → n < i * i → ¬ (d < i) → q < i
partner_small d q i split root large = elim (dec_lt q i) [
  | yes small ↦ small
  | no big ↦ absurd (
      omega (arith, Nat.mul-le-mul {n₁ = i} {m₁ = i} {n₂ = d} {m₂ = q} (omega arith) (omega arith)))
]

module _ (n : ℕ) (odd : n % 2 ≢ 0) (third : n % 3 ≢ 0) where
  no_small : (i : ℕ) → NoDivisor n i → (c : ℕ) → 2 ≤ c → c < i → n % c ≢ 0
  no_small i none c low high p = elim (ℕ_discrete (c % 2) 0) [
    | yes even ↦ odd (mod_of_mod n c 2 p even)
    | no odd' ↦ elim (ℕ_discrete (c % 3) 0) [
      | yes three ↦ third (mod_of_mod n c 3 p three)
      | no other ↦ none c (omega arith) high (omega arith) p
    ]
  ]

  -- With no divisor up to the root there is none.
  root_suffices : (i : ℕ) → n < i * i → 2 ≤ n → NoDivisor n i → IsPrime n
  root_suffices i root low none = (
    low,
    λ d l h p.
        let q = n / d in
        let split : d * q ≡ n = omega (arith, Nat.div-add-mod n d, p) in
        elim (dec_lt d i) [
          | yes small ↦ no_small i none d l small p
          | no large ↦
              no_small i none q (partner_large d q l h split) (partner_small d q i split root large)
                (Nat.mod-eq-zero_of_dvd q (subst (λ m. q ∣ m) split (Nat.dvd-mul_left q d)))
        ],
  )

  -- A round leaves no divisor below the next `i`.
  NoDivisor-step :
      (i : ℕ)
      → i % 6 ≡ 5
      → NoDivisor n i
      → divides i n ≡ false
      → divides (i + 2) n ≡ false
      → NoDivisor n (i + 6)
  NoDivisor-step i at none p q c low high side = elim (dec_lt c i) [
    | yes before ↦ none c low before side
    | no from ↦ elim (ℕ_discrete c i) [
      | yes same ↦ λ r. divides_no i n p (ap (λ m. n % m) (sym same) ∙ r)
      | no other ↦
          let last : c ≡ i + 2 = ground arith in
          λ r. divides_no (i + 2) n q (ap (λ m. n % m) (sym last) ∙ r)
    ]
  ]

  prime_loop-Answers :
      (fuel i : ℕ)
      → n < 2 ^ 31
      → 4 ≤ n
      → i % 6 ≡ 5
      → i < 46352
      → 46351 < 6 * fuel + i
      → NoDivisor n i
      → Yields (Answers n) (prime_loop fuel n i)
  unfolding prime_loop
  prime_loop-Answers zero i small low at bound enough none = absurd (omega arith)
  prime_loop-Answers (suc fuel) i small low at bound enough none =
      let i² : i * i ≤ 46352 * 46352 = square_le i 46352 (omega arith) in
      let exact : u32 (i * i) ≡ i * i = omega (arith, i²) in
      let exact₂ : u32 (i + 2) ≡ i + 2 = omega arith in
      let exact₆ : u32 (i + 6) ≡ i + 6 = omega arith in
      rw (exact, exact₂, exact₆)
        (Yields-test (leb (i * i) n)
          (λ below.
            Yields-test (divides i n || divides (i + 2) n)
              (λ found.
                yields (inr (found_divisor n i (ground (arith, below)) (omega arith) found)))
              (λ missing.
                prime_loop-Answers fuel (i + 6) small low (omega arith)
                  (root_bound i small (ground (arith, below))) (omega arith)
                  (NoDivisor-step i at none (or-false _ _ missing).0 (or-false _ _ missing).1)))
          (λ above. yields (root_suffices i (ground (arith, above)) (omega arith) none)))

tiny_answer : (n : ℕ) → n ≤ 3 → Answers n (ltb 1 n)
tiny_answer zero h = inl (omega arith)
tiny_answer (suc zero) h = inl (omega arith)
tiny_answer (suc (suc zero)) h = (omega arith, λ d l m p. absurd (omega arith))
tiny_answer (suc (suc (suc zero))) h = (
  omega arith,
  λ d l m p.
      let two : d ≡ 2 = omega arith in absurd (omega (arith, (sym (ap (λ x. 3 % x) two) ∙ p))),
)
tiny_answer (suc (suc (suc (suc n)))) h = absurd (omega arith)

even_or_third : (n : ℕ) → 3 < n → (divides 2 n || divides 3 n) ≡ true → Answers n false
even_or_third n h found = elim (Bool-cases (divides 2 n)) [
  | inl e ↦ inr (2, omega arith, omega arith, divides_yes 2 n e)
  | inr e ↦
      inr
        (3, omega arith, omega arith, divides_yes 3 n (sym (ap (λ b. b || divides 3 n) e) ∙ found))
]

-- `is_prime` is right on every number that a signed `int` can hold, and ends: 8000 rounds are enough.
pub is_prime-Answers :
    (fuel n : ℕ) → 8000 ≤ fuel → n < 2 ^ 31 → Yields (Answers n) (is_prime fuel n)
unfolding is_prime
is_prime-Answers fuel n enough small =
    Yields-test (leb n 3) (λ tiny. yields (tiny_answer n (ground (arith, tiny))))
      (λ more.
        Yields-test (divides 2 n || divides 3 n)
          (λ found. yields (even_or_third n (ground (arith, more)) found))
          (λ missing.
            prime_loop-Answers n (divides_no 2 n (or-false _ _ missing).0)
              (divides_no 3 n (or-false _ _ missing).1) fuel 5 small (ground (arith, more)) refl
              (omega arith) (omega arith) (λ c low high. absurd (omega arith))))

odd_square : (k : ℕ) → (t : ℕ) × ((2 * k + 1) * (2 * k + 1) ≡ 8 * t + 1)
odd_square zero = (0, refl)
odd_square (suc k) = let (t, h) = odd_square k in (t + k + 1, omega (arith, h))

-- The square of an odd number leaves 1 by 8, wrapped or not, so it stays 7 below 2^32.
odd_square_low : (i : ℕ) → i % 2 ≡ 1 → u32 (i * i) ≤ 4294967289
odd_square_low i odd =
    let half : 2 * (i / 2) + 1 ≡ i = omega (arith, odd) in
    let (t, h) = odd_square (i / 2) in
    let square : i * i ≡ 8 * t + 1 = sym (ap (λ x. x * x) half) ∙ h in omega (arith, square)

module _ (n : ℕ) (high : 4294967289 ≤ n) (fits : n < 2 ^ 32) (odd : n % 2 ≢ 0)
    (third : n % 3 ≢ 0) where
  -- The loop meets `n` itself among its divisors, as `i` or as `i + 2`.
  next_round : (i : ℕ) → i % 6 ≡ 5 → i ≤ n → n % i ≢ 0 → n % u32 (i + 2) ≢ 0 → i + 6 ≤ n
  next_round i at bound no_i no_i₂ = elim (ℕ_discrete i n) [
    | yes self ↦ absurd (no_i (ap (λ m. n % m) self ∙ Nat.mod_self n))
    | no below ↦ elim (ℕ_discrete (i + 2) n) [
      | yes self ↦
          let exact : u32 (i + 2) ≡ n = omega (arith, self) in
          absurd (no_i₂ (ap (λ m. n % m) exact ∙ Nat.mod_self n))
      | no other ↦ omega arith
    ]
  ]

  last_loop :
      (fuel i : ℕ)
      → i % 6 ≡ 5
      → i ≤ n
      → n < 6 * fuel + i
      → Yields (λ b. b ≡ false) (prime_loop fuel n i)
  unfolding prime_loop
  last_loop zero i at bound enough = absurd (omega arith)
  last_loop (suc fuel) i at bound enough =
      let low = odd_square_low i (omega arith) in
      Yields-test (leb (u32 (i * i)) n)
        (λ _.
          Yields-test (divides i n || divides (u32 (i + 2)) n) (λ _. yields refl)
            (λ missing.
              let (no_i, no_i₂) = or-false _ _ missing in
              let next =
                next_round i at bound (divides_no i n no_i) (divides_no (u32 (i + 2)) n no_i₂) in
              let exact : u32 (i + 6) ≡ i + 6 = omega (arith, next) in
              rw exact (last_loop fuel (i + 6) (omega arith) next (omega arith))))
        (λ above. absurd (ground (arith, above, low)))

-- `is_prime` ends on every `unsigned` from 4294967289 on, and denies that it is prime, whatever it is:
-- 715827883 rounds are enough.
pub is_prime_denies_last :
    (fuel n : ℕ)
    → 4294967289 ≤ n
    → n < 2 ^ 32
    → 715827883 ≤ fuel
    → Yields (λ b. b ≡ false) (is_prime fuel n)
unfolding is_prime
is_prime_denies_last fuel n high fits enough =
    Yields-test (leb n 3) (λ tiny. absurd (ground (arith, tiny, high)))
      (λ _.
        Yields-test (divides 2 n || divides 3 n) (λ _. yields refl)
          (λ missing.
            let (no₂, no₃) = or-false _ _ missing in
            last_loop n high fits (divides_no 2 n no₂) (divides_no 3 n no₃) fuel 5 refl
              (omega arith) (omega arith)))
