-- ===== src/Bitmap/Scan.antt =====
-- `next_set` and `prev_set` find the nearest marked level, however far it is.
use c_order_book.Prelude.{ℕ, ◌+◌, ◌-◌, ◌*◌, ◌/◌, ◌%◌, ◌^◌, ◌≤◌, ◌<◌, Bool, not, arith, ◌==◌}
use c_order_book.Prelude.Bits.{bit, bit-zero}
use c_order_book.Bitmap.{ctz, bsr}
use c_order_book.Bitmap.Word.{IsNext, IsPrev, NoneFrom, NoneBelow, least_bit, greatest_bit}

-- An array of words `f`, and its bits as one sequence.
abbrev pub bits : (ℕ → ℕ) → ℕ → Bool
bits f i = bit (f (i / 64)) (i % 64)

abbrev pub nonzero : (ℕ → ℕ) → ℕ → Bool
nonzero f w = not (f w == 0)

-- `u` and `s` are a word and a place in it.
module _ (f : ℕ → ℕ) (words : (w : ℕ) → f w < 2 ^ 64) where
  pub IsNext-here :
      (u s j : ℕ) → j < 64 → IsNext (bit (f u)) s j → IsNext (bits f) (u * 64 + s) (u * 64 + j)
  IsNext-here u s j l n = record {
    holds = ground (arith, n.holds);
    from = omega (arith, n.from);
    least = λ k a b. ground (arith, n.least (k - u * 64));
  }

  pub IsNext-later :
      (u s w : ℕ)
      → NoneFrom (bit (f u)) s
      → s ≤ 64
      → IsNext (nonzero f) (u + 1) w
      → IsNext (bits f) (u * 64 + s) (w * 64 + ctz (f w))
  IsNext-later u s w none_here h n =
      let low = least_bit (f w) (words w) (ground (arith, n.holds)) in
      record {
        holds = ground (arith, low.0.holds, low.1);
        from = omega (arith, n.from);
        least = λ k a b. ground (
          arith,
          none_here (k - u * 64),
          n.least (k / 64),
          low.0.least (k % 64),
          low.1,
          bit-zero (k % 64),
        );
      }

  pub none_from :
      (u s : ℕ)
      → NoneFrom (bit (f u)) s
      → s ≤ 64
      → NoneFrom (nonzero f) (u + 1)
      → NoneFrom (bits f) (u * 64 + s)
  none_from u s none_here h n =
      λ k a. ground (arith, none_here (k - u * 64), n (k / 64), bit-zero (k % 64))

  pub IsPrev-here :
      (u s j : ℕ) → s ≤ 64 → IsPrev (bit (f u)) s j → IsPrev (bits f) (u * 64 + s) (u * 64 + j)
  IsPrev-here u s j l n = record {
    holds = ground (arith, n.holds, n.below);
    below = omega (arith, n.below);
    greatest = λ k a b. ground (arith, n.greatest (k - u * 64));
  }

  pub IsPrev-later :
      (u s w : ℕ)
      → NoneBelow (bit (f u)) s
      → s ≤ 64
      → IsPrev (nonzero f) u w
      → IsPrev (bits f) (u * 64 + s) (w * 64 + bsr (f w))
  IsPrev-later u s w none_here h n =
      let high = greatest_bit (f w) (words w) (ground (arith, n.holds)) in
      record {
        holds = ground (arith, high.holds, high.below);
        below = omega (arith, n.below, high.below);
        greatest = λ k a b. ground (
          arith,
          none_here (k - u * 64),
          n.greatest (k / 64),
          high.greatest (k % 64),
          high.below,
          bit-zero (k % 64),
        );
      }

  pub none_below :
      (u s : ℕ)
      → NoneBelow (bit (f u)) s
      → s ≤ 64
      → NoneBelow (nonzero f) u
      → NoneBelow (bits f) (u * 64 + s)
  none_below u s none_here h n =
      λ k a. ground (arith, none_here (k - u * 64), n (k / 64), bit-zero (k % 64))
