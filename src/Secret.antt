-- ===== src/Secret.antt =====
-- crates/hermesmq-core/src/lib.rs: `secret_eq`, the comparison of tokens in a time that does not depend
-- on where they differ.
use Prim.Native.Nat.{bit_or, bit_xor, digits, bit_or-bitwise, bit_xor-bitwise, differ}
use hermesmq.Prelude.{
  ℕ, zero, suc, ◌/◌, ◌%◌, ◌≤◌, max, [], ◌∷◌, Bool, true, ◌&&◌, ◌≡◌, ◌↔◌, refl, ap, sym, ◌∙◌, arith,
  length, ◌==◌,
}
use hermesmq.Types.{Bytes}

-- `zip(b).fold(acc, |acc, (x, y)| acc | (x ^ y))`
unfoldable pub differences : ℕ → Bytes → Bytes → ℕ
differences acc [] ys = acc
differences acc (x ∷ xs) [] = acc
differences acc (x ∷ xs) (y ∷ ys) = differences (bit_or acc (bit_xor x y)) xs ys

unfoldable pub secret_eq : Bytes → Bytes → Bool
secret_eq a b = (length a == length b) && (differences 0 a b == 0)

differ_zero : (x y : ℕ) → differ x y ≡ 0 → x ≡ y
differ_zero zero y e = sym e
differ_zero (suc x) zero e = e
differ_zero (suc x) (suc y) e = ap suc (differ_zero x y e)

differ_self : (x : ℕ) → differ x x ≡ 0
differ_self zero = refl
differ_self (suc x) = differ_self x

xor_digits_zero : (n a b : ℕ) → a ≤ n → digits (λ b. b) differ n a b ≡ 0 → a ≡ b
xor_digits_zero zero a b h e = omega (arith, e)
xor_digits_zero (suc n) zero b h e = sym e
xor_digits_zero (suc n) (suc a) b h e =
    let half = xor_digits_zero n (suc a / 2) (b / 2) (omega arith) (omega (arith, e)) in
    let low = differ_zero (suc a % 2) (b % 2) (omega (arith, e)) in omega (arith, half, low)

xor_digits_self : (n a : ℕ) → a ≤ n → digits (λ b. b) differ n a a ≡ 0
xor_digits_self zero zero h = refl
xor_digits_self zero (suc a) h = absurd (omega (arith, h))
xor_digits_self (suc n) zero h = refl
xor_digits_self (suc n) (suc a) h =
    omega (arith, xor_digits_self n (suc a / 2) (omega arith), differ_self (suc a % 2))

pub bit_xor-zero : (a b : ℕ) → bit_xor a b ≡ 0 → a ≡ b
bit_xor-zero a b e = xor_digits_zero a a b (omega arith) (sym (bit_xor-bitwise a b) ∙ e)

or_digits_zero : (n a b : ℕ) → a ≤ n → digits (λ b. b) max n a b ≡ 0 → (a ≡ 0) × (b ≡ 0)
or_digits_zero zero a b h e = (omega arith, e)
or_digits_zero (suc n) zero b h e = (refl, e)
or_digits_zero (suc n) (suc a) b h e =
    let half = or_digits_zero n (suc a / 2) (b / 2) (omega arith) (omega (arith, e)) in
    (omega (arith, half.0, e), omega (arith, half.1, e))

bit_or-zero : (a b : ℕ) → bit_or a b ≡ 0 → (a ≡ 0) × (b ≡ 0)
bit_or-zero a b e = or_digits_zero a a b (omega arith) (sym (bit_or-bitwise a b) ∙ e)

bit_xor_self : (a : ℕ) → bit_xor a a ≡ 0
bit_xor_self a = bit_xor-bitwise a a ∙ xor_digits_self a a (omega arith)

differences_self : (xs : Bytes) → differences 0 xs xs ≡ 0
unfolding differences
differences_self [] = refl
differences_self (x ∷ xs) = rw (bit_xor_self x, bit_or-bitwise 0 0) (differences_self xs)

same_of_differences :
    (acc : ℕ) (xs ys : Bytes)
    → length xs ≡ length ys
    → differences acc xs ys ≡ 0
    → (acc ≡ 0) × (xs ≡ ys)
unfolding differences
same_of_differences acc [] [] h e = (e, refl)
same_of_differences acc [] (y ∷ ys) h e = absurd (omega (arith, h))
same_of_differences acc (x ∷ xs) [] h e = absurd (omega (arith, h))
same_of_differences acc (x ∷ xs) (y ∷ ys) h e =
    let (zero_here, rest) =
      same_of_differences (bit_or acc (bit_xor x y)) xs ys (omega (arith, h)) e in
    let (none_before, same) = bit_or-zero acc (bit_xor x y) zero_here in
    let equal : x ≡ y = bit_xor-zero x y same in (none_before, rw (equal, rest) refl)

-- secret_eq holds of a token and itself, and of no two different tokens.
pub secret_eq-same : (a b : Bytes) → (secret_eq a b ≡ true) ↔ (a ≡ b)
unfolding secret_eq
secret_eq-same a b = (
  λ e. (same_of_differences 0 a b (ground (arith, e)) (ground (arith, e))).1,
  λ e. rw e (ground (arith, differences_self b)),
)
