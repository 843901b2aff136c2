-- ===== src/Billing/Bytes.antt =====
-- The bytes in which a balance is stored: `i64::to_le_bytes` and `decode_balance`.
use native.Mathlib.Nat.{pow-suc}
use gptload_rs.Prelude.{
  ap, ◌∙◌, ℕ, zero, suc, ◌+◌, ◌-◌, ◌*◌, ◌/◌, ◌%◌, ◌^◌, ◌<◌, ◌≡◌, refl, Option, none, some, List, [],
  ◌∷◌, length, ltb, ◌==◌, if◌then◌else◌, arith,
}
use gptload_rs.Prelude.Int.{ℤ, pos, negsuc, IsI64}

-- The two's complement of a number as an unsigned word, and back.
unfoldable pub to_word : ℤ → ℕ
to_word (pos n) = n
to_word (negsuc n) = 2 ^ 64 - (n + 1)

unfoldable pub of_word : ℕ → ℤ
of_word w = if ltb w (2 ^ 63) then pos w else negsuc (2 ^ 64 - w - 1)

-- The lowest `n` bytes of a word, the lowest first, and the word of some bytes.
unfoldable pub bytes_of : ℕ → ℕ → List ℕ
bytes_of zero w = []
bytes_of (suc n) w = w % 256 ∷ bytes_of n (w / 256)

unfoldable pub word_of : List ℕ → ℕ
word_of [] = 0
word_of (b ∷ bs) = b + 256 * word_of bs

unfoldable pub to_le_bytes : ℤ → List ℕ
unfolding to_word bytes_of
to_le_bytes balance = bytes_of 8 (to_word balance)

unfoldable pub decode_balance : List ℕ → Option ℤ
unfolding of_word word_of
decode_balance bytes = if length bytes == 8 then some (of_word (word_of bytes)) else none

length-bytes_of : (n w : ℕ) → length (bytes_of n w) ≡ n
unfolding bytes_of
length-bytes_of zero w = refl
length-bytes_of (suc n) w = ap suc (length-bytes_of n (w / 256))

word_of-bytes_of : (n w : ℕ) → w < 256 ^ n → word_of (bytes_of n w) ≡ w
unfolding bytes_of word_of
word_of-bytes_of zero w h = omega arith
word_of-bytes_of (suc n) w h =
    let wide : w < 256 ^ n * 256 = rw (pow-suc 256 n) at h in
    omega (arith, word_of-bytes_of n (w / 256) (omega arith))

of_word-to_word :
    (balance : ℤ)
    → IsI64 balance
    → (of_word (to_word balance) ≡ balance) × (to_word balance < 2 ^ 64)
unfolding of_word to_word
of_word-to_word (pos n) h = (ground arith, omega arith)
of_word-to_word (negsuc n) h = (ground arith, omega arith)

decode_balance-word :
    (bytes : List ℕ) (balance : ℤ)
    → length bytes ≡ 8
    → of_word (word_of bytes) ≡ balance
    → decode_balance bytes ≡ some balance
unfolding decode_balance
decode_balance-word bytes balance size word = ground arith

to_le_bytes-word :
    (balance : ℤ)
    → (length (to_le_bytes balance) ≡ 8)
      × (word_of (to_le_bytes balance) ≡ word_of (bytes_of 8 (to_word balance)))
unfolding to_le_bytes
to_le_bytes-word balance = (length-bytes_of 8 (to_word balance), refl)

-- What is written for a balance is read back as that balance.
pub decode_balance-to_le_bytes :
    (balance : ℤ) → IsI64 balance → decode_balance (to_le_bytes balance) ≡ some balance
decode_balance-to_le_bytes balance h =
    let (back, small) = of_word-to_word balance h in
    let (size, word) = to_le_bytes-word balance in
    let same = word ∙ word_of-bytes_of 8 (to_word balance) small in
    decode_balance-word (to_le_bytes balance) balance size (ap of_word same ∙ back)
