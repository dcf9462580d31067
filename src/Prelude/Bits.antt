-- ===== src/Prelude/Bits.antt =====
-- 64-bit words bit by bit: `&`, `|`, shifts, and the scans `std::countr_zero` and
-- `std::countl_zero` of the C++ library.
use Prim.Native.Nat.{bit_and, bit_or, digits, bit_and-bitwise, bit_or-bitwise, max}
use native.Mathlib.Nat.{
  pow-suc, pow-succ', one-le-pow, div-add-mod, mod-eq_of_lt, add-mul-mod_self_left,
  div-div-eq-div-mul,
}
use c_order_book.Prelude.{
  ℕ, zero, suc, ◌+◌, ◌-◌, ◌*◌, ◌/◌, ◌%◌, ◌^◌, ◌≤◌, ◌<◌, min, ◌≡◌, ◌≢◌, refl, Bool, true, false, not,
  ◌&&◌, ◌||◌, arith, ltb, leb, ◌==◌, if◌then◌else◌, ap, sym, ◌∙◌, Bool-cases, inl, inr,
}

-- bit `k` of `w`
unfoldable pub bit : ℕ → ℕ → Bool
bit w zero = w % 2 == 1
bit w (suc k) = bit (w / 2) k

pub bit-zero : (k : ℕ) → bit 0 k ≡ false
unfolding bit
bit-zero zero = refl
bit-zero (suc k) = bit-zero k

and_digits-bit : (n a b k : ℕ) → a ≤ n → bit (digits (λ _. 0) min n a b) k ≡ (bit a k && bit b k)
unfolding bit
and_digits-bit zero zero b k h = rw bit-zero
and_digits-bit zero (suc a) b k h = absurd (omega arith)
and_digits-bit (suc n) zero b k h = rw bit-zero
and_digits-bit (suc n) (suc a) b zero h = ground arith
and_digits-bit (suc n) (suc a) b (suc k) h =
    ap (λ w. bit w k) (omega arith) ∙ and_digits-bit n (suc a / 2) (b / 2) k (omega arith)

pub bit-bit_and : (a b k : ℕ) → bit (bit_and a b) k ≡ (bit a k && bit b k)
bit-bit_and a b k = ap (λ w. bit w k) (bit_and-bitwise a b) ∙ and_digits-bit a a b k (omega arith)

or_digits-bit : (n a b k : ℕ) → a ≤ n → bit (digits (λ y. y) max n a b) k ≡ (bit a k || bit b k)
unfolding bit
or_digits-bit zero zero b k h = rw bit-zero
or_digits-bit zero (suc a) b k h = absurd (omega arith)
or_digits-bit (suc n) zero b k h = rw bit-zero
or_digits-bit (suc n) (suc a) b zero h = ground arith
or_digits-bit (suc n) (suc a) b (suc k) h =
    ap (λ w. bit w k) (omega arith) ∙ or_digits-bit n (suc a / 2) (b / 2) k (omega arith)

pub bit-bit_or : (a b k : ℕ) → bit (bit_or a b) k ≡ (bit a k || bit b k)
bit-bit_or a b k = ap (λ w. bit w k) (bit_or-bitwise a b) ∙ or_digits-bit a a b k (omega arith)

-- The bits of `2 ^ j`.
pub bit-pow : (j k : ℕ) → bit (2 ^ j) k ≡ (j == k)
unfolding bit
bit-pow zero zero = refl
bit-pow zero (suc k) = bit-zero k ∙ ground arith
bit-pow (suc j) zero = ground (arith, pow-suc 2 j)
bit-pow (suc j) (suc k) =
    ap (λ w. bit w k) (omega (arith, pow-suc 2 j)) ∙ bit-pow j k ∙ ground arith

-- A word below `2 ^ n` has no bit from `n` on.
pub bit_of_lt : (n w k : ℕ) → w < 2 ^ n → n ≤ k → bit w k ≡ false
unfolding bit
bit_of_lt zero w k h l = let e : w ≡ 0 = omega arith in rw e (bit-zero k)
bit_of_lt (suc n) w zero h l = absurd (omega arith)
bit_of_lt (suc n) w (suc k) h l = bit_of_lt n (w / 2) k (omega (arith, pow-suc 2 n)) (omega arith)

-- The complement within `n` bits.
pub bit-complement : (n w k : ℕ) → w < 2 ^ n → k < n → bit (2 ^ n - 1 - w) k ≡ not (bit w k)
unfolding bit
bit-complement zero w k h l = absurd (omega arith)
bit-complement (suc n) w zero h l = ground (arith, pow-suc 2 n)
bit-complement (suc n) w (suc k) h l =
    ap (λ v. bit v k) (omega (arith, pow-suc 2 n))
    ∙ bit-complement n (w / 2) k (omega (arith, pow-suc 2 n)) (omega arith)

-- A word is zero if its bits are.
pub zero_of_bits : (n w : ℕ) → w < 2 ^ n → ((k : ℕ) → k < n → bit w k ≡ false) → w ≡ 0
unfolding bit
zero_of_bits zero w h f = omega arith
zero_of_bits (suc n) w h f =
    let half : w / 2 ≡ 0 =
      zero_of_bits n (w / 2) (omega (arith, pow-suc 2 n)) (λ k l. f (suc k) (omega arith)) in
    ground (arith, f 0)

-- a word is below `2 ^ n` if it has no bit from `n` on
pub lt_of_bits : (m n w : ℕ) → w < 2 ^ m → ((k : ℕ) → n ≤ k → bit w k ≡ false) → w < 2 ^ n
unfolding bit
lt_of_bits m zero w h f =
    let e : w ≡ 0 = zero_of_bits m w h (λ k l. f k (omega arith)) in omega arith
lt_of_bits zero (suc n) w h f = omega (arith, one-le-pow (suc n) 2)
lt_of_bits (suc m) (suc n) w h f = omega (
  arith,
  pow-suc 2 n,
  lt_of_bits m n (w / 2) (omega (arith, pow-suc 2 m)) (λ k l. f (suc k) (omega arith)),
)

pub bit-mul-pow : (v s k : ℕ) → bit (v * 2 ^ s) k ≡ (leb s k && bit v (k - s))
unfolding bit
bit-mul-pow v zero k = ground arith
bit-mul-pow v (suc s) zero = ground (arith, ap (λ (t : ℕ). v * t) (pow-suc 2 s))
bit-mul-pow v (suc s) (suc k) =
    ap (λ w. bit w k) (omega (arith, ap (λ (t : ℕ). v * t) (pow-suc 2 s)))
    ∙ bit-mul-pow v s k
    ∙ ground arith

half_mod : (w p : ℕ) → 0 < p → w % (p * 2) / 2 ≡ w / 2 % p
half_mod w p h =
    let q : ℕ = w / (p * 2) in
    let r : ℕ = w % (p * 2) in
    let split : p * 2 * q + r ≡ w = div-add-mod w (p * 2) in
    let halves : w / 2 ≡ r / 2 + p * q = omega (arith, split) in
    let small : r < p * 2 = omega arith in
    sym (rw halves (add-mul-mod_self_left (r / 2) p q ∙ mod-eq_of_lt (omega (arith, small))))

even_mod : (w p : ℕ) → 0 < p → w % (p * 2) % 2 ≡ w % 2
even_mod w p h = omega (arith, div-add-mod w (p * 2))

pub bit-mod-pow : (w n k : ℕ) → bit (w % 2 ^ n) k ≡ (ltb k n && bit w k)
unfolding bit
bit-mod-pow w zero k = let e : w % 2 ^ 0 ≡ 0 = omega arith in rw e (bit-zero k ∙ ground arith)
bit-mod-pow w (suc n) zero =
    ground (arith, pow-suc 2 n, even_mod w (2 ^ n) (one-le-pow n 2 (omega arith)))
bit-mod-pow w (suc n) (suc k) =
    ap (λ v. bit v k)
      (ap (λ m. w % m / 2) (pow-suc 2 n) ∙ half_mod w (2 ^ n) (one-le-pow n 2 (omega arith)))
    ∙ bit-mod-pow (w / 2) n k
    ∙ ground arith

pub bit-div-pow : (v s k : ℕ) → bit (v / 2 ^ s) k ≡ bit v (s + k)
unfolding bit
bit-div-pow v zero k = ground arith
bit-div-pow v (suc s) k =
    let e : v / 2 ^ suc s ≡ v / 2 / 2 ^ s =
      ap (λ (m : ℕ). v / m) (pow-succ' 2 s) ∙ sym (div-div-eq-div-mul v 2 (2 ^ s)) in
    let f : suc s + k ≡ suc (s + k) = omega arith in rw (e, f) (bit-div-pow (v / 2) s k)

-- `std::countr_zero` and `std::countl_zero` of an `n`-bit word.
unfoldable pub countr_zero : ℕ → ℕ → ℕ
countr_zero zero w = 0
countr_zero (suc n) w = if w % 2 == 1 then 0 else suc (countr_zero n (w / 2))

unfoldable pub countl_zero : ℕ → ℕ → ℕ
countl_zero zero w = 0
countl_zero (suc n) w = if bit w n then 0 else suc (countl_zero n w)

pub countr_zero-bit : (n w : ℕ) → w < 2 ^ n → w ≢ 0 → bit w (countr_zero n w) ≡ true
unfolding countr_zero bit
countr_zero-bit zero w h ne = absurd (omega arith)
countr_zero-bit (suc n) w h ne = ground (arith, pow-suc 2 n, countr_zero-bit n (w / 2))

pub countr_zero_below : (n w k : ℕ) → k < countr_zero n w → bit w k ≡ false
unfolding countr_zero bit
countr_zero_below zero w k h = absurd (omega arith)
countr_zero_below (suc n) w zero h = ground arith
countr_zero_below (suc n) w (suc k) h = ground (arith, countr_zero_below n (w / 2) k)

pub countl_zero-bit :
    (n w : ℕ) → w < 2 ^ n → w ≢ 0 → (countl_zero n w < n) × (bit w (n - 1 - countl_zero n w) ≡ true)
unfolding countl_zero
countl_zero-bit zero w h ne = absurd (omega arith)
countl_zero-bit (suc n) w h ne = elim (Bool-cases (bit w n)) [
  | inl t ↦ let e : suc n - 1 - 0 ≡ n = omega arith in rw (t, e) (omega arith, t)
  | inr f ↦
      let ih = countl_zero-bit n w (lt_of_bits (suc n) n w h (λ k l. high k f l)) ne in
      let e : suc n - 1 - suc (countl_zero n w) ≡ n - 1 - countl_zero n w = omega arith in
      rw (f, e) (omega (arith, ih.0), ih.1)
]
  where
    high : (k : ℕ) → bit w n ≡ false → n ≤ k → bit w k ≡ false
    high k f l = elim (Bool-cases (k == n)) [
      | inl e ↦ ground arith
      | inr e ↦ bit_of_lt (suc n) w k h (ground arith)
    ]

pub countl_zero_above : (n w k : ℕ) → k < n → n - 1 - countl_zero n w < k → bit w k ≡ false
unfolding countl_zero
countl_zero_above zero w k l h = absurd (omega arith)
countl_zero_above (suc n) w k l h = elim (Bool-cases (bit w n)) [
  | inl t ↦ ground arith
  | inr f ↦ ground (arith, countl_zero_above n w k)
]

lt-pow : (w : ℕ) → w < 2 ^ w
lt-pow zero = omega arith
lt-pow (suc w) = omega (arith, lt-pow w, pow-suc 2 w)

-- A number with no bit from `n` on is below `2 ^ n`.
pub lt_pow_of_bits : (n w : ℕ) → ((k : ℕ) → n ≤ k → bit w k ≡ false) → w < 2 ^ n
lt_pow_of_bits n w f = lt_of_bits w n w (lt-pow w) f

pub bit_or-lt : (n a b : ℕ) → a < 2 ^ n → b < 2 ^ n → bit_or a b < 2 ^ n
bit_or-lt n a b h k =
    lt_pow_of_bits n (bit_or a b)
      λ j l. ground (arith, bit-bit_or a b j, bit_of_lt n a j h l, bit_of_lt n b j k l)

pub bit_and-lt : (n a b : ℕ) → a < 2 ^ n → bit_and a b < 2 ^ n
bit_and-lt n a b h =
    lt_pow_of_bits n (bit_and a b) λ j l. ground (arith, bit-bit_and a b j, bit_of_lt n a j h l)
