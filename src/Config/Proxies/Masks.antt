-- ===== src/Config/Proxies/Masks.antt =====
-- The conjunction of digits with a mask, as division.
use epistole.Prelude.{
  ℕ, zero, suc, ◌+◌, ◌-◌, ◌*◌, ◌/◌, ◌%◌, ◌^◌, ◌≤◌, ◌<◌, ◌≡◌, refl, sym, ap, ◌∙◌, ◌↔◌, subst, ◌==◌,
  if◌then◌else◌, false, arith,
}
use native.Mathlib.Nat.{
  two-pow-succ, pow-succ', div-div-eq-div-mul, mul_assoc, mul_comm, pow-suc, mul-sub,
  le-mul_of_pos_right, mul-div_cancel, add-mul-mod_self_left, mod-eq_of_lt,
}
use Prim.Native.Nat.{bit_and, bit_and-bitwise, digits, min}

abbrev both : ℕ → ℕ → ℕ → ℕ
both n a b = digits (λ c. 0) min n a b

-- More digits than the first number has change nothing.
both-fuel : (n m a b : ℕ) → a ≤ n → a ≤ m → both n a b ≡ both m a b
both-fuel zero zero a b h k = refl
both-fuel zero (suc m) zero b h k = refl
both-fuel zero (suc m) (suc a) b h k = absurd (omega arith)
both-fuel (suc n) zero zero b h k = refl
both-fuel (suc n) zero (suc a) b h k = absurd (omega arith)
both-fuel (suc n) (suc m) zero b h k = refl
both-fuel (suc n) (suc m) (suc a) b h k =
    ap (λ c. c * 2 + min (suc a % 2) (b % 2))
      (both-fuel n m (suc a / 2) (b / 2) (omega arith) (omega arith))

bit_and-both : (a b : ℕ) → bit_and a b ≡ both a a b
bit_and-both a b = bit_and-bitwise a b

bit_and-zero : (b : ℕ) → bit_and 0 b ≡ 0
bit_and-zero b = bit_and-both 0 b

-- One digit at a time.
bit_and-halves : (a b : ℕ) → bit_and a b ≡ bit_and (a / 2) (b / 2) * 2 + min (a % 2) (b % 2)
bit_and-halves zero b = rw (bit_and-zero b, bit_and-zero (b / 2)) (omega arith)
bit_and-halves (suc a) b =
    bit_and-both (suc a) b
    ∙ ap (λ c. c * 2 + min (suc a % 2) (b % 2))
        (both-fuel a (suc a / 2) (suc a / 2) (b / 2) (omega arith) (omega arith)
          ∙ sym (bit_and-both (suc a / 2) (b / 2)))

min-one : (x : ℕ) → x < 2 → min x 1 ≡ x
min-one zero h = refl
min-one (suc zero) h = refl
min-one (suc (suc x)) h = absurd (omega arith)

min-nil : (x : ℕ) → min x 0 ≡ 0
min-nil x = omega arith

pow_pos : (n : ℕ) → 1 ≤ 2 ^ n
pow_pos zero = omega arith
pow_pos (suc n) = let double = two-pow-succ n in let positive = pow_pos n in omega arith

-- A conjunction with ones keeps a number that has no more digits.
bit_and-ones : (n a : ℕ) → a < 2 ^ n → bit_and a (2 ^ n - 1) ≡ a
bit_and-ones zero a h = let none : a ≡ 0 = omega arith in rw none (bit_and-zero 0)
bit_and-ones (suc n) a h =
    let double = two-pow-succ n in
    let positive = pow_pos n in
    let half = bit_and-ones n (a / 2) (omega arith) in
    let front : (2 ^ suc n - 1) / 2 ≡ 2 ^ n - 1 = omega arith in
    let last : (2 ^ suc n - 1) % 2 ≡ 1 = omega arith in
    bit_and-halves a (2 ^ suc n - 1)
    ∙ rw (front, last, half, min-one (a % 2) (omega arith)) (omega arith)

-- A conjunction with `n` ones above `k` zeros clears the last `k` digits.
pub bit_and-mask :
    (k n a : ℕ) → a < 2 ^ k * 2 ^ n → bit_and a (2 ^ k * (2 ^ n - 1)) ≡ a / 2 ^ k * 2 ^ k
bit_and-mask zero n a h =
    let same : 1 * (2 ^ n - 1) ≡ 2 ^ n - 1 = omega arith in
    rw (same, bit_and-ones n a (omega arith)) (omega arith)
bit_and-mask (suc k) n a h =
    let double = pow-succ' 2 k in
    let bound : 2 ^ suc k * 2 ^ n ≡ 2 * (2 ^ k * 2 ^ n) = rw double (mul_assoc 2 (2 ^ k) (2 ^ n)) in
    let twice : 2 ^ suc k * (2 ^ n - 1) ≡ 2 * (2 ^ k * (2 ^ n - 1)) =
      rw double (mul_assoc 2 (2 ^ k) (2 ^ n - 1)) in
    let half = bit_and-mask k n (a / 2) (omega arith) in
    let front : 2 ^ suc k * (2 ^ n - 1) / 2 ≡ 2 ^ k * (2 ^ n - 1) = omega arith in
    let last : 2 ^ suc k * (2 ^ n - 1) % 2 ≡ 0 = omega arith in
    bit_and-halves a (2 ^ suc k * (2 ^ n - 1))
    ∙ rw (front, last, half, min-nil (a % 2), div-div-eq-div-mul a 2 (2 ^ k), double)
        (omega (arith, mul_assoc (a / (2 * 2 ^ k)) (2 ^ k) 2, mul_comm (2 ^ k) 2))

pow_add : (k n : ℕ) → 2 ^ (k + n) ≡ 2 ^ k * 2 ^ n
pow_add k zero = let same : k + 0 ≡ k = omega arith in rw same (omega arith)
pow_add k (suc n) =
    let next : k + suc n ≡ suc (k + n) = omega arith in
    rw (next, pow-suc 2 (k + n), pow-suc 2 n, pow_add k n) (mul_assoc (2 ^ k) (2 ^ n) 2)

shifted_sum : (p q w : ℕ) → 1 ≤ p → 1 ≤ q → w ≡ p * q → (w - 1) * p ≡ p * (q - 1) + w * (p - 1)
shifted_sum p q w low high width =
    let product = mul_comm (w - 1) p in
    let less : p ≤ p * q = le-mul_of_pos_right p (omega arith) in
    let more : w ≤ w * p = le-mul_of_pos_right w (omega arith) in
    omega (arith, mul-sub p w 1, mul-sub p q 1, mul-sub w p 1, mul_comm p w)

-- A shift of `k + n` ones by `k`, reduced to `k + n` digits, is `n` ones above `k` zeros.
pub shifted_ones : (k n : ℕ) → (2 ^ (k + n) - 1) * 2 ^ k % 2 ^ (k + n) ≡ 2 ^ k * (2 ^ n - 1)
shifted_ones k n =
    let width = pow_add k n in
    let low = pow_pos k in
    let high = pow_pos n in
    let sum = shifted_sum (2 ^ k) (2 ^ n) (2 ^ (k + n)) low high width in
    let less : 2 ^ k ≤ 2 ^ k * 2 ^ n = le-mul_of_pos_right (2 ^ k) (omega arith) in
    let small : 2 ^ k * (2 ^ n - 1) < 2 ^ (k + n) = omega (arith, mul-sub (2 ^ k) (2 ^ n) 1) in
    rw (sum, add-mul-mod_self_left (2 ^ k * (2 ^ n - 1)) (2 ^ (k + n)) (2 ^ k - 1))
      (mod-eq_of_lt small)

-- The masks of the program: a prefix of no digits apart.
pub mask_ones :
    (w n : ℕ)
    → n ≤ w
    → (if n == 0 then 0 else (2 ^ w - 1) * 2 ^ (w - n) % 2 ^ w) ≡ 2 ^ (w - n) * (2 ^ n - 1)
mask_ones w zero h = omega arith
mask_ones w (suc n) h =
    let sum : w - suc n + suc n ≡ w = omega arith in
    let positive : (suc n == 0) ≡ false = ground arith in
    rw positive (
      subst (λ v. (2 ^ v - 1) * 2 ^ (w - suc n) % 2 ^ v ≡ 2 ^ (w - suc n) * (2 ^ suc n - 1)) sum
        (shifted_ones (w - suc n) (suc n)))

-- Two numbers agree under such a mask exactly when they agree without their last `k` digits.
pub same_front :
    (k n a b : ℕ)
    → a < 2 ^ (k + n)
    → b < 2 ^ (k + n)
    → (bit_and a (2 ^ k * (2 ^ n - 1)) ≡ bit_and b (2 ^ k * (2 ^ n - 1))) ↔ (a / 2 ^ k ≡ b / 2 ^ k)
same_front k n a b ha hb =
    let width = pow_add k n in
    let positive = pow_pos k in
    rw (bit_and-mask k n a (omega arith), bit_and-mask k n b (omega arith))
      (
        λ same.
            sym (mul-div_cancel (a / 2 ^ k) (omega arith))
            ∙ ap (λ c. c / 2 ^ k) same
            ∙ mul-div_cancel (b / 2 ^ k) (omega arith),
        λ same. ap (λ c. c * 2 ^ k) same,
      )
