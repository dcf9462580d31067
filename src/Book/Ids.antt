-- ===== src/Book/Ids.antt =====
-- Order ids: a slot's number plus one in the low half, its generation in the high half.
use Prim.Native.Nat.{bit_or}
use native.Mathlib.Nat.{pow-suc}
use c_order_book.Prelude.{
  ℕ, zero, suc, ◌+◌, ◌*◌, ◌/◌, ◌%◌, ◌^◌, ◌<◌, ◌≡◌, ◌∙◌, ltb, arith, Bool-cases, inl, inr,
}
use c_order_book.Prelude.Word.{sub64}
use c_order_book.Prelude.Bits.{
  bit, bit-bit_or, bit-mul-pow, bit-mod-pow, bit-div-pow, bit_of_lt, bit_or-lt,
}
use c_order_book.Book.Links.{make_id, slot_of, generation_of}

eq_of_bits : (n w v : ℕ) → w < 2 ^ n → v < 2 ^ n → ((k : ℕ) → bit w k ≡ bit v k) → w ≡ v
unfolding bit
eq_of_bits zero w v h l f = omega arith
eq_of_bits (suc n) w v h l f =
    let half =
      eq_of_bits n (w / 2) (v / 2) (omega (arith, pow-suc 2 n)) (omega (arith, pow-suc 2 n))
        (λ k. f (suc k)) in
    ground (arith, f 0)

-- Above and below the halves' border.
halves-low : (g s : ℕ) → s < 2 ^ 32 → bit_or (g * 2 ^ 32) s % 2 ^ 32 ≡ s
halves-low g s h = eq_of_bits 32 _ s (omega arith) h λ k. elim (Bool-cases (ltb k 32)) [
  | inl below ↦
      bit-mod-pow (bit_or (g * 2 ^ 32) s) 32 k
      ∙ ground (arith, bit-bit_or (g * 2 ^ 32) s k, bit-mul-pow g 32 k)
  | inr above ↦ bit-mod-pow (bit_or (g * 2 ^ 32) s) 32 k ∙ ground (arith, bit_of_lt 32 s k h)
]

halves-high : (g s : ℕ) → g < 2 ^ 32 → s < 2 ^ 32 → bit_or (g * 2 ^ 32) s / 2 ^ 32 ≡ g
halves-high g s h l =
    let wide = bit_or-lt 64 (g * 2 ^ 32) s (omega arith) (omega arith) in
    eq_of_bits 32 _ g (omega arith) h λ k.
      bit-div-pow (bit_or (g * 2 ^ 32) s) 32 k
      ∙ bit-bit_or (g * 2 ^ 32) s (32 + k)
      ∙ ground (arith, bit-mul-pow g 32 (32 + k), bit_of_lt 32 s (32 + k) l)

pub make_id-lt : (g s : ℕ) → g < 2 ^ 32 → s + 1 < 2 ^ 32 → make_id g s < 2 ^ 64
unfolding make_id
make_id-lt g s h l = bit_or-lt 64 (g * 2 ^ 32) (s + 1) (omega arith) (omega arith)

pub slot_of-make_id : (g s : ℕ) → s + 1 < 2 ^ 32 → slot_of (make_id g s) ≡ s
unfolding slot_of make_id sub64
slot_of-make_id g s h = omega (arith, halves-low g (s + 1) h)

pub generation_of-make_id :
    (g s : ℕ) → g < 2 ^ 32 → s + 1 < 2 ^ 32 → generation_of (make_id g s) ≡ g
unfolding generation_of make_id
generation_of-make_id g s h l = omega (arith, halves-high g (s + 1) h l)

-- An id is made of its parts, unless its low half is zero.
pub make_id-parts :
    (id : ℕ) → id < 2 ^ 64 → slot_of id < 2 ^ 32 → make_id (generation_of id) (slot_of id) ≡ id
unfolding generation_of make_id slot_of sub64
make_id-parts id h l =
    let g = id / 2 ^ 32 % 2 ^ 32 in
    let s : sub64 (id % 2 ^ 32) 1 + 1 ≡ id % 2 ^ 32 = omega arith in
    rw s (
      omega (
        arith,
        halves-low g (id % 2 ^ 32) (omega arith),
        halves-high g (id % 2 ^ 32) (omega arith) (omega arith),
      ))
