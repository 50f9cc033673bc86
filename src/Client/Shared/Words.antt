-- ===== src/Client/Shared/Words.antt =====
-- The types of 8 bytes that the workloads share: `size_t`, `intptr_t` and pointers, little-endian.
use concurrent_project.Prelude.{
  ℕ, zero, suc, ◌+◌, ◌*◌, ◌/◌, ◌%◌, ◌^◌, ◌<◌, ◌≡◌, refl, List, [], ◌∷◌, length, arith,
}
use native.Mathlib.Nat.{pow-suc}
use concurrent_project.Client.Shared.{Layout}

unfoldable pub bytes_of : (n word : ℕ) → List ℕ
bytes_of zero word = []
bytes_of (suc n) word = word % 256 ∷ bytes_of n (word / 256)

unfoldable pub word_of : List ℕ → ℕ
word_of [] = 0
word_of (b ∷ bytes) = b + 256 * word_of bytes

abbrev pub word : Layout ℕ
word = record { sizeof = 8; alignof = 8; to_bytes = bytes_of 8; of_bytes = word_of }

pub length-bytes_of : (n w : ℕ) → length (bytes_of n w) ≡ n
unfolding bytes_of
length-bytes_of zero w = refl
length-bytes_of (suc n) w = omega (arith, length-bytes_of n (w / 256))

pub word_of-bytes_of : (n w : ℕ) → w < 256 ^ n → word_of (bytes_of n w) ≡ w
unfolding bytes_of word_of
word_of-bytes_of zero w small = omega (arith, small)
word_of-bytes_of (suc n) w small =
    omega (arith, word_of-bytes_of n (w / 256) (omega (arith, small, pow-suc 256 n)))
