-- ===== src/Ipc/SharedMemory/Bytes.antt =====
-- ipcCode/shmem: what holds of the bytes in the memory, by where the two processes are.
use miscellaneous.Base.{
  ℕ, suc, ◌+◌, ◌<◌, ◌≤◌, ◌≡◌, ap, ◌⊎◌, inl, inr, arith, false, ◌==◌, refl, [], ◌∷◌, ◌++◌, Text,
  char_at, first, length, Bool-cases,
}
use miscellaneous.Ipc.SharedMemory.{
  Writer, copying, writer_posting, Reader, opening, waiting, printing, reader_posting, reader_done,
  reader_failed, store,
}

-- The first text is the second with so many bytes left out.
pub data Missing : ℕ → Text → Text → Type 0 where
  all_there : Missing 0 [] []
  kept : {k c : ℕ} {s t : Text} → Missing k s t → Missing k (c ∷ s) (c ∷ t)
  left_out : {k c : ℕ} {s t : Text} → Missing k s t → Missing (suc k) s (c ∷ t)

pub Missing-kept :
    {k : ℕ} {s t : Text} (c : ℕ) → Missing k s t → Missing k (s ++ (c ∷ [])) (t ++ (c ∷ []))
Missing-kept c all_there = kept all_there
Missing-kept c (kept m) = kept (Missing-kept c m)
Missing-kept c (left_out m) = left_out (Missing-kept c m)

pub Missing-left_out :
    {k : ℕ} {s t : Text} (c : ℕ) → Missing k s t → Missing (suc k) s (t ++ (c ∷ []))
Missing-left_out c all_there = left_out all_there
Missing-left_out c (kept m) = kept (Missing-left_out c m)
Missing-left_out c (left_out m) = left_out (Missing-left_out c m)

pub Missing-none : {k : ℕ} {s t : Text} → Missing k s t → k ≡ 0 → s ≡ t
Missing-none all_there e = refl
Missing-none (kept {c = c} m) e = ap (λ x. c ∷ x) (Missing-none m e)
Missing-none (left_out m) e = absurd (omega (arith, e))

module _ (contents : Text) where
  -- The first `n` bytes are there, of the contents and the null at their end.
  abbrev pub Has : ℕ → (ℕ → ℕ) → Type 0
  Has n memory = (i : ℕ) → i < n → memory i ≡ char_at contents i

  abbrev pub Written : (ℕ → ℕ) → Type 0
  Written memory = Has (length contents + 1) memory

  abbrev pub WriterInv : Writer → (ℕ → ℕ) → Type 0
  WriterInv (copying n) memory = Has n memory
  WriterInv writer_posting memory = Written memory
  WriterInv _ memory = Unit {0}

  abbrev pub ReaderInv : Reader → (ℕ → ℕ) → Text → ℕ → Type 0
  ReaderInv opening memory output lost = (output ≡ []) × (lost ≡ 0)
  ReaderInv waiting memory output lost = (output ≡ []) × (lost ≡ 0)
  ReaderInv (printing n) memory output lost =
      (n ≤ length contents) × Written memory × Missing lost output (first n contents)
  ReaderInv reader_posting memory output lost = Written memory × Missing lost output contents
  ReaderInv reader_done memory output lost = (output ≡ []) ⊎ Missing lost output contents
  ReaderInv reader_failed memory output lost = output ≡ []

  store_lem :
      (n i : ℕ) (memory : ℕ → ℕ)
      → ((i == n) ≡ false → memory i ≡ char_at contents i)
      → store memory n (char_at contents n) i ≡ char_at contents i
  store_lem n i memory h = elim (Bool-cases (i == n)) [
    | inl e ↦ let same : n ≡ i = ground (arith, e) in rw e (ap (char_at contents) same)
    | inr e ↦ rw e (h e)
  ]

  -- A copied byte breaks nothing that is there.
  pub store-Has :
      (n m : ℕ) (memory : ℕ → ℕ) → Has m memory → Has m (store memory n (char_at contents n))
  store-Has n m memory h i p = store_lem n i memory λ _. h i p

  pub store_next :
      (n : ℕ) (memory : ℕ → ℕ) → Has n memory → Has (suc n) (store memory n (char_at contents n))
  store_next n memory h i p = store_lem n i memory λ e. h i (ground (arith, e))

  pub store-ReaderInv :
      (n : ℕ) (r : Reader) (memory : ℕ → ℕ) (output : Text) (lost : ℕ)
      → ReaderInv r memory output lost
      → ReaderInv r (store memory n (char_at contents n)) output lost
  store-ReaderInv n opening memory output lost h = h
  store-ReaderInv n waiting memory output lost h = h
  store-ReaderInv n (printing k) memory output lost (p, w, o) = (p, store-Has n _ memory w, o)
  store-ReaderInv n reader_posting memory output lost (w, o) = (store-Has n _ memory w, o)
  store-ReaderInv n reader_done memory output lost h = h
  store-ReaderInv n reader_failed memory output lost h = h
