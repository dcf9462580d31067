-- ===== src/Bitmap.antt =====
-- include/lob/level_bitmap.hpp: the three-level occupancy index. Words are numbers below 2 ^ 64, and
-- the arrays `l0_` and `l1_` are functions of the word's index.
pub mod Occupied
pub mod Scan
pub mod Above
pub mod Below
pub mod Nearest
pub mod Word
use Prim.Native.Nat.{bit_and, bit_or}
use c_order_book.Prelude.{ℕ, ◌+◌, ◌-◌, ◌*◌, ◌/◌, ◌%◌, ◌^◌, Bool, arith, leb, ◌==◌, if◌then◌else◌}
use c_order_book.Prelude.Word.{u64_mod, add64, sub64, update}
use c_order_book.Prelude.Bits.{bit, countr_zero, countl_zero}

pub record Bitmap : Type 0 where
  pub l0 : ℕ → ℕ
  pub l1 : ℕ → ℕ
  pub l2 : ℕ

-- `~0ull`, which is NPOS too.
abbrev pub ones : ℕ
ones = u64_mod - 1

abbrev pub npos : ℕ
npos = ones

abbrev pub clear : Bitmap
clear = record { l0 = λ _. 0; l1 = λ _. 0; l2 = 0 }

-- `v << s`, at a shift below 64
abbrev pub shl : ℕ → ℕ → ℕ
shl v s = v * 2 ^ s % u64_mod

abbrev pub shl_safe : ℕ → ℕ → ℕ
shl_safe v s = if leb 64 s then 0 else shl v s

abbrev pub shr_safe : ℕ → ℕ → ℕ
shr_safe v s = if leb 64 s then 0 else v / 2 ^ s

abbrev pub ctz : ℕ → ℕ
ctz v = countr_zero 64 v

abbrev pub bsr : ℕ → ℕ
bsr v = 63 - countl_zero 64 v

-- `w & ~(1ull << k)`
abbrev pub drop_bit : ℕ → ℕ → ℕ
drop_bit w k = bit_and w (ones - 2 ^ k)

unfoldable pub set : ℕ → Bitmap → Bitmap
set i b = record {
  l0 = update b.l0 (i / 64) (bit_or (b.l0 (i / 64)) (2 ^ (i % 64)));
  l1 = update b.l1 (i / 4096) (bit_or (b.l1 (i / 4096)) (2 ^ (i / 64 % 64)));
  l2 = bit_or b.l2 (2 ^ (i / 4096));
}

unfoldable pub reset : ℕ → Bitmap → Bitmap
reset i b =
    let w0 = drop_bit (b.l0 (i / 64)) (i % 64) in
    let w1 = drop_bit (b.l1 (i / 4096)) (i / 64 % 64) in
    let b0 = record b { l0 = update b.l0 (i / 64) w0 } in
    let b1 = record b0 { l1 = update b.l1 (i / 4096) w1 } in
    if w0 == 0 then (if w1 == 0 then record b1 { l2 = drop_bit b.l2 (i / 4096) } else b1) else b0

unfoldable pub test : ℕ → Bitmap → Bool
test i b = b.l0 (i / 64) / 2 ^ (i % 64) % 2 == 1

-- `NumBits` is the template's argument.
unfoldable pub next_set : (num_bits : ℕ) → ℕ → Bitmap → ℕ
next_set num_bits i b =
    let w = i / 64 in
    let m0 = bit_and (b.l0 w) (shl ones (i % 64)) in
    let w1 = w / 64 in
    let m1 = bit_and (b.l1 w1) (shl_safe ones (w % 64 + 1)) in
    let v = w1 * 64 + ctz m1 in
    let m2 = bit_and b.l2 (shl_safe ones (w1 + 1)) in
    let u = ctz m2 in
    let x = u * 64 + ctz (b.l1 u) in
    if leb num_bits i
    then npos
    else if m0 == 0
    then (if m1 == 0
        then (if m2 == 0 then npos else x * 64 + ctz (b.l0 x))
        else v * 64 + ctz (b.l0 v))
    else w * 64 + ctz m0

unfoldable pub prev_set : ℕ → Bitmap → ℕ
prev_set i b =
    let w = i / 64 in
    let m0 = bit_and (b.l0 w) (shr_safe ones (63 - i % 64)) in
    let w1 = w / 64 in
    let m1 = bit_and (b.l1 w1) (shr_safe ones (64 - w % 64)) in
    let v = w1 * 64 + bsr m1 in
    let m2 = bit_and b.l2 (shr_safe ones (add64 (sub64 63 w1) 1)) in
    let u = bsr m2 in
    let x = u * 64 + bsr (b.l1 u) in
    if m0 == 0
    then (if m1 == 0
        then (if m2 == 0 then npos else x * 64 + bsr (b.l0 x))
        else v * 64 + bsr (b.l0 v))
    else w * 64 + bsr m0
