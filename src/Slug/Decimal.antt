-- ===== src/Slug/Decimal.antt =====
-- The number that a suffix prints can be read back: two suffixes of one base differ.
use Prim.Native.Char.{code}
use Prim.Native.String.{◌++◌ as ◌++s◌}
use nativ.Prelude.{
  ℕ, zero, suc, ◌+◌, ◌*◌, ◌-◌, ◌/◌, ◌%◌, ◌<◌, ◌==◌, ◌&&◌, ◌≡◌, refl, ap, sym, ◌∙◌, arith, String,
  Bool, true, ltb, Bool-cases, inl, inr, ltb→lt,
}
use text.Mathlib.TextLemmas.{append_cancel_left}
use nativ.Slug.{digit, emit, decimal, numbered}

-- `int(s)` on digits, from a number read before
read_from : ℕ → String → ℕ
read_from n String.[] = n
read_from n (String.◌∷◌ c s) = read_from (n * 10 + (code c - 48)) s

below_ten : ℕ → Bool
unfolding digit
below_ten zero = true
below_ten (suc n) = (code (digit n) - 48 == n) && below_ten n

below_ten_sound : (n : ℕ) → below_ten n ≡ true → (d : ℕ) → d < n → code (digit d) - 48 ≡ d
unfolding below_ten
below_ten_sound zero h d lt = absurd (omega arith)
below_ten_sound (suc n) h d lt = ground (arith, λ (k : below_ten n ≡ true). below_ten_sound n k d)

code-digit : (d : ℕ) → d < 10 → code (digit d) - 48 ≡ d
unfolding below_ten
code-digit d h = below_ten_sound 10 refl d h

read_from-emit :
    (rounds n : ℕ) (out : String) → n < rounds → read_from 0 (emit rounds n out) ≡ read_from n out
unfolding emit read_from
read_from-emit zero n out h = absurd (omega arith)
read_from-emit (suc rounds) n out h = elim (Bool-cases (ltb n 10)) [
  | inl last ↦ rw last (ap (λ k. read_from k out) (omega (arith, code-digit n (ltb→lt n 10 last))))
  | inr more ↦ rw more (
      read_from-emit rounds (n / 10) (String.◌∷◌ (digit (n % 10)) out) (ground arith)
      ∙ ap (λ k. read_from k out) (omega (arith, code-digit (n % 10) (omega arith))))
]

read-decimal : (n : ℕ) → read_from 0 (decimal n) ≡ n
unfolding decimal read_from
read-decimal n = read_from-emit (suc n) n String.[] (omega arith)

pub decimal-injective : (n m : ℕ) → decimal n ≡ decimal m → n ≡ m
decimal-injective n m h = sym (read-decimal n) ∙ ap (read_from 0) h ∙ read-decimal m

pub numbered-injective : (base : String) (n m : ℕ) → numbered base n ≡ numbered base m → n ≡ m
unfolding numbered
numbered-injective base n m h = decimal-injective n m (
    append_cancel_left "-" (decimal n) (decimal m)
      (append_cancel_left base ("-" ++s decimal n) ("-" ++s decimal m) h))
