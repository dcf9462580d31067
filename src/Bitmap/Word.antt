-- ===== src/Bitmap/Word.antt =====
-- One word of the index: its masks, and the least and the greatest of its bits in a range.
use Prim.Native.Nat.{bit_and}
use native.Mathlib.Nat.{pow-le-pow_right}
use c_order_book.Prelude.{
  ℕ, ◌+◌, ◌-◌, ◌*◌, ◌^◌, ◌≤◌, ◌<◌, ◌≡◌, ◌≢◌, Bool, true, false, not, ◌&&◌, arith, ltb, leb, ◌==◌,
  ap, sym, ◌∙◌, Bool-cases, inl, inr,
}
use c_order_book.Prelude.Bits.{
  bit, bit-zero, bit-bit_and, bit-pow, bit_of_lt, bit-complement, bit-mul-pow, bit-mod-pow,
  bit-div-pow, countr_zero-bit, countr_zero_below, countl_zero-bit, countl_zero_above, bit_and-lt,
}
use c_order_book.Bitmap.{ones, shl, shl_safe, shr_safe, ctz, bsr, drop_bit}

-- `j` is the least number from `i` on with `p`; the greatest below `i`; there is none.
pub record IsNext (p : ℕ → Bool) (i j : ℕ) : Type 0 where
  pub holds : p j ≡ true
  pub from : i ≤ j
  pub least : (k : ℕ) → i ≤ k → k < j → p k ≡ false

pub record IsPrev (p : ℕ → Bool) (i j : ℕ) : Type 0 where
  pub holds : p j ≡ true
  pub below : j < i
  pub greatest : (k : ℕ) → j < k → k < i → p k ≡ false

abbrev pub NoneFrom : (ℕ → Bool) → ℕ → Type 0
NoneFrom p i = (k : ℕ) → i ≤ k → p k ≡ false

abbrev pub NoneBelow : (ℕ → Bool) → ℕ → Type 0
NoneBelow p i = (k : ℕ) → k < i → p k ≡ false

bit-ones : (k : ℕ) → bit ones k ≡ ltb k 64
bit-ones k = elim (Bool-cases (ltb k 64)) [
  | inl l ↦ bit-complement 64 0 k (omega arith) (ground arith) ∙ ground (arith, bit-zero k)
  | inr g ↦ bit_of_lt 64 ones k (omega arith) (ground arith) ∙ sym g
]

pub bit-shl : (s k : ℕ) → bit (shl ones s) k ≡ (ltb k 64 && leb s k)
bit-shl s k =
    ground (arith, bit-mod-pow (ones * 2 ^ s) 64 k, bit-mul-pow ones s k, bit-ones (k - s))

pub bit-shl_safe : (s k : ℕ) → bit (shl_safe ones s) k ≡ (ltb k 64 && leb s k)
bit-shl_safe s k = elim (Bool-cases (leb 64 s)) [
  | inl big ↦ rw big (bit-zero k ∙ ground arith)
  | inr small ↦ rw small (bit-shl s k)
]

pub bit-shr_safe : (s k : ℕ) → bit (shr_safe ones s) k ≡ ltb (s + k) 64
bit-shr_safe s k = elim (Bool-cases (leb 64 s)) [
  | inl big ↦ rw big (bit-zero k ∙ ground arith)
  | inr small ↦ rw small (bit-div-pow ones s k ∙ bit-ones (s + k))
]

pub bit-drop_bit : (w k j : ℕ) → k < 64 → j < 64 → bit (drop_bit w k) j ≡ (bit w j && not (k == j))
bit-drop_bit w k j h l =
    bit-bit_and w (ones - 2 ^ k) j
    ∙ ap (λ b. bit w j && b)
        (bit-complement 64 (2 ^ k) j
            (omega (arith, pow-le-pow_right {n = 2} (omega arith) {i = k} {j = 63} (omega arith))) l
          ∙ ap not (bit-pow k j))

-- The scans of a masked word.
module _ (x : ℕ) (word : x < 2 ^ 64) (s : ℕ) where
  pub ctz-IsNext :
      (mask : ℕ)
      → ((k : ℕ) → bit mask k ≡ (ltb k 64 && leb s k))
      → bit_and x mask ≢ 0
      → IsNext (bit x) s (ctz (bit_and x mask)) × (ctz (bit_and x mask) < 64)
  ctz-IsNext mask e ne =
      let m = bit_and x mask in
      let hit = countr_zero-bit 64 m (bit_and-lt 64 x mask word) ne in
      (
        record {
          holds = ground (arith, bit-bit_and x mask (ctz m), hit);
          from = ground (arith, bit-bit_and x mask (ctz m), e (ctz m), hit);
          least = λ k l h.
              ground (
                arith,
                bit-bit_and x mask k,
                e k,
                countr_zero_below 64 m k h,
                bit_of_lt 64 x k word,
              );
        },
        ground (arith, bit-bit_and x mask (ctz m), e (ctz m), hit),
      )

  pub mask-NoneFrom :
      (mask : ℕ)
      → ((k : ℕ) → bit mask k ≡ (ltb k 64 && leb s k))
      → bit_and x mask ≡ 0
      → NoneFrom (bit x) s
  mask-NoneFrom mask e z k l =
      ground
        (arith, bit-bit_and x mask k, e k, bit_of_lt 64 x k word, bit-zero k, ap (λ w. bit w k) z)

  pub bsr-IsPrev :
      (mask : ℕ)
      → ((k : ℕ) → k < 64 → bit mask k ≡ ltb k s)
      → bit_and x mask ≢ 0
      → IsPrev (bit x) s (bsr (bit_and x mask)) × (bsr (bit_and x mask) < 64)
  bsr-IsPrev mask e ne =
      let m = bit_and x mask in
      let hit = countl_zero-bit 64 m (bit_and-lt 64 x mask word) ne in
      (
        record {
          holds = ground (arith, bit-bit_and x mask (bsr m), hit);
          below = ground (arith, bit-bit_and x mask (bsr m), e (bsr m), hit);
          greatest = λ k l h. elim (Bool-cases (ltb k 64)) [
            | inl lt ↦ ground (arith, bit-bit_and x mask k, e k, countl_zero_above 64 m k)
            | inr ge ↦ bit_of_lt 64 x k word (ground arith)
          ];
        },
        omega arith,
      )

  pub mask-NoneBelow :
      (mask : ℕ)
      → ((k : ℕ) → k < 64 → bit mask k ≡ ltb k s)
      → bit_and x mask ≡ 0
      → NoneBelow (bit x) s
  mask-NoneBelow mask e z k l =
      ground
        (arith, bit-bit_and x mask k, e k, bit_of_lt 64 x k word, bit-zero k, ap (λ w. bit w k) z)

module _ (x : ℕ) (word : x < 2 ^ 64) (ne : x ≢ 0) where
  pub least_bit : IsNext (bit x) 0 (ctz x) × (ctz x < 64)
  least_bit =
      let hit = countr_zero-bit 64 x word ne in
      (
        record { holds = hit; from = omega arith; least = λ k l h. countr_zero_below 64 x k h },
        ground (arith, hit, bit_of_lt 64 x (ctz x) word),
      )

  pub greatest_bit : IsPrev (bit x) 64 (bsr x)
  greatest_bit = record {
    holds = ground (arith, countl_zero-bit 64 x word ne);
    below = omega arith;
    greatest = λ k l h. countl_zero_above 64 x k (omega arith) (omega arith);
  }
