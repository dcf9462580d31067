-- ===== src/Bitmap/Nearest.antt =====
-- What the two scans return: the nearest marked level, or NPOS.
use c_order_book.Prelude.{ℕ, ◌≡◌, Bool, arith, sym, ◌∙◌}
use c_order_book.Bitmap.{Bitmap, npos}
use c_order_book.Bitmap.Word.{IsNext, IsPrev, NoneFrom, NoneBelow}
use c_order_book.Bitmap.Occupied.{marked}

-- What a scan upwards from `i` returned: the least marked level, or NPOS where there is none.
pub data Found (b : Bitmap) (i j : ℕ) : Type 0 where
  at : IsNext (marked b) i j → Found b i j
  nowhere : j ≡ npos → NoneFrom (marked b) i → Found b i j

pub data FoundBelow (b : Bitmap) (i j : ℕ) : Type 0 where
  at : IsPrev (marked b) i j → FoundBelow b i j
  nowhere : j ≡ npos → NoneBelow (marked b) i → FoundBelow b i j

pub IsNext-eq :
    {p q : ℕ → Bool} {i i' j : ℕ} → ((k : ℕ) → p k ≡ q k) → i ≡ i' → IsNext p i j → IsNext q i' j
IsNext-eq {p} {q} {i} {i'} {j} e f n = record {
  holds = sym (e j) ∙ n.holds;
  from = omega (arith, f, n.from);
  least = λ k a b. sym (e k) ∙ n.least k (omega (arith, f)) b;
}

pub IsPrev-eq :
    {p q : ℕ → Bool} {i i' j : ℕ} → ((k : ℕ) → p k ≡ q k) → i ≡ i' → IsPrev p i j → IsPrev q i' j
IsPrev-eq {p} {q} {i} {i'} {j} e f n = record {
  holds = sym (e j) ∙ n.holds;
  below = omega (arith, f, n.below);
  greatest = λ k a b. sym (e k) ∙ n.greatest k a (omega (arith, f));
}
