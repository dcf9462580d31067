-- ===== src/Bitmap/Occupied.antt =====
-- Which levels the index marks, the relation between its three levels of words, and what `set` and
-- `reset` do to both.
use Prim.Native.Nat.{bit_or}
use native.Mathlib.Nat.{pow-le-pow_right}
use c_order_book.Prelude.{
  ℕ, ◌+◌, ◌-◌, ◌/◌, ◌%◌, ◌^◌, ◌<◌, ◌≡◌, Bool, false, not, ◌&&◌, ◌||◌, arith, ◌==◌, ap, ◌∙◌,
  Bool-cases, inl, inr,
}
use c_order_book.Prelude.Word.{update}
use c_order_book.Prelude.Bits.{
  bit, bit-zero, bit-bit_and, bit-bit_or, bit-pow, bit_of_lt, zero_of_bits, bit-div-pow, bit_and-lt,
  bit_or-lt,
}
use c_order_book.Bitmap.{Bitmap, ones, drop_bit, clear, set, reset, test}
use c_order_book.Bitmap.Word.{bit-drop_bit}

-- level `i` is marked
abbrev pub marked : Bitmap → ℕ → Bool
marked b i = bit (b.l0 (i / 64)) (i % 64)

-- An `l1_` bit says that its `l0_` word is not zero, an `l2_` bit that its `l1_` word is not.
pub record IsIndex (b : Bitmap) : Type 0 where
  pub words0 : (w : ℕ) → b.l0 w < 2 ^ 64
  pub words1 : (u : ℕ) → b.l1 u < 2 ^ 64
  pub word2 : b.l2 < 2 ^ 64
  pub summary1 : (w : ℕ) → bit (b.l1 (w / 64)) (w % 64) ≡ not (b.l0 w == 0)
  pub summary2 : (u : ℕ) → bit b.l2 u ≡ not (b.l1 u == 0)

pub clear-IsIndex : IsIndex clear
clear-IsIndex = record {
  words0 = λ w. omega arith;
  words1 = λ w. omega arith;
  word2 = omega arith;
  summary1 = λ w. bit-zero (w % 64);
  summary2 = λ u. bit-zero u;
}

pub clear-marked : (i : ℕ) → marked clear i ≡ false
clear-marked i = bit-zero (i % 64)

pow-word : (k : ℕ) → k < 64 → 2 ^ k < 2 ^ 64
pow-word k h = omega (arith, pow-le-pow_right {n = 2} (omega arith) {i = k} {j = 63} (omega arith))

-- A word with a bit in it is not zero.
or_pow_ne_zero : (w k : ℕ) → (bit_or w (2 ^ k) == 0) ≡ false
or_pow_ne_zero w k = elim (Bool-cases (bit_or w (2 ^ k) == 0)) [
  | inl z ↦ ground (
    arith,
    bit-bit_or w (2 ^ k) k,
    bit-pow k k,
    bit-zero k,
    ap (λ v. bit v k) {x = bit_or w (2 ^ k)} {y = 0} (ground arith),
  )
  | inr n ↦ n
]

drop_zero : (w k : ℕ) → w ≡ 0 → drop_bit w k ≡ 0
drop_zero w k e =
    zero_of_bits 64 (drop_bit w k) (bit_and-lt 64 w (ones - 2 ^ k) (omega arith))
      λ j l. ground (arith, bit-bit_and w (ones - 2 ^ k) j, bit-zero j)

pub test-marked : (i : ℕ) (b : Bitmap) → test i b ≡ marked b i
unfolding test bit
test-marked i b =
    let e : i % 64 + 0 ≡ i % 64 = omega arith in
    bit-div-pow (b.l0 (i / 64)) (i % 64) 0 ∙ ap (bit (b.l0 (i / 64))) e

-- `set` marks its level and no other.
pub set-marked : (i j : ℕ) (b : Bitmap) → marked (set i b) j ≡ ((i == j) || marked b j)
unfolding set
set-marked i j b =
    ground (arith, bit-bit_or (b.l0 (i / 64)) (2 ^ (i % 64)) (j % 64), bit-pow (i % 64) (j % 64))

pub reset_l0 :
    (i w : ℕ) (b : Bitmap)
    → (reset i b).l0 w ≡ update b.l0 (i / 64) (drop_bit (b.l0 (i / 64)) (i % 64)) w
unfolding reset
reset_l0 i w b = ground arith

-- `reset` unmarks its level and no other.
pub reset-marked : (i j : ℕ) (b : Bitmap) → marked (reset i b) j ≡ (not (i == j) && marked b j)
reset-marked i j b =
    ground (arith, reset_l0 i (j / 64) b, bit-drop_bit (b.l0 (i / 64)) (i % 64) (j % 64))

-- `set` keeps the three levels in step.
pub set-IsIndex : (i : ℕ) (b : Bitmap) → i < 2 ^ 18 → IsIndex b → IsIndex (set i b)
unfolding set
set-IsIndex i b h v = record {
  words0 = λ w. ground (
    arith,
    v.words0 w,
    bit_or-lt 64 (b.l0 (i / 64)) (2 ^ (i % 64)) (v.words0 _) (pow-word (i % 64) (omega arith)),
  );
  words1 = λ w. ground (
    arith,
    v.words1 w,
    bit_or-lt 64 (b.l1 (i / 4096)) (2 ^ (i / 64 % 64)) (v.words1 _)
        (pow-word (i / 64 % 64) (omega arith)),
  );
  word2 = bit_or-lt 64 b.l2 (2 ^ (i / 4096)) v.word2 (pow-word (i / 4096) (omega arith));
  summary1 = λ w. ground (
    arith,
    v.summary1 w,
    bit-bit_or (b.l1 (i / 4096)) (2 ^ (i / 64 % 64)) (w % 64),
    bit-pow (i / 64 % 64) (w % 64),
    or_pow_ne_zero (b.l0 (i / 64)) (i % 64),
  );
  summary2 = λ u. ground (
    arith,
    v.summary2 u,
    bit-bit_or b.l2 (2 ^ (i / 4096)) u,
    bit-pow (i / 4096) u,
    or_pow_ne_zero (b.l1 (i / 4096)) (i / 64 % 64),
  );
}

-- `reset` keeps the three levels in step.
pub reset-IsIndex : (i : ℕ) (b : Bitmap) → i < 2 ^ 18 → IsIndex b → IsIndex (reset i b)
unfolding reset
reset-IsIndex i b h v = record {
  words0 = λ w.
      ground (arith, v.words0 w, bit_and-lt 64 (b.l0 (i / 64)) (ones - 2 ^ (i % 64)) (v.words0 _));
  words1 = λ w.
      ground (
        arith,
        v.words1 w,
        bit_and-lt 64 (b.l1 (i / 4096)) (ones - 2 ^ (i / 64 % 64)) (v.words1 _),
      );
  word2 = ground (arith, v.word2, bit_and-lt 64 b.l2 (ones - 2 ^ (i / 4096)) v.word2);
  summary1 = λ w. ground (
    arith,
    v.summary1 w,
    drop_zero (b.l0 (i / 64)) (i % 64),
    bit-drop_bit (b.l1 (i / 4096)) (i / 64 % 64) (w % 64),
  );
  summary2 = λ u. ground (
    arith,
    v.summary2 u,
    v.summary1 (i / 64),
    drop_zero (b.l1 (i / 4096)) (i / 64 % 64),
    bit-drop_bit b.l2 (i / 4096) u,
    bit-bit_and b.l2 (ones - 2 ^ (i / 4096)) u,
    bit_of_lt 64 b.l2 u v.word2,
  );
}

-- On an index whose levels are in step, `set` of a level below 2 ^ 18 marks that level and no other,
-- `reset` unmarks it and no other, and both leave the levels in step.
pub IsIndex-operations :
    (i : ℕ) (b : Bitmap)
    → i < 2 ^ 18
    → IsIndex b
    → IsIndex (set i b)
      × IsIndex (reset i b)
      × ((j : ℕ) → marked (set i b) j ≡ ((i == j) || marked b j))
      × ((j : ℕ) → marked (reset i b) j ≡ (not (i == j) && marked b j))
IsIndex-operations i b h v =
    (set-IsIndex i b h v, reset-IsIndex i b h v, λ j. set-marked i j b, λ j. reset-marked i j b)
