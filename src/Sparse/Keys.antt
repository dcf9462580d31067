-- ===== src/Sparse/Keys.antt =====
-- The keys of the hash gateway.
use c_order_book.Prelude.{ℕ, ◌*◌, ◌%◌, ◌<◌, ◌≡◌, ◌≢◌, ◌∙◌, ap, sym, arith}
use c_order_book.Prelude.Word.{u64_mod}
use c_order_book.Sparse.{sparse}

-- the inverse of the multiplier modulo 2 ^ 64
abbrev pub inverse : ℕ
inverse = 0xba79078168d4baf

-- A reference below 2 ^ 64 is recovered from its key by the inverse of the multiplier.
pub sparse_recovers : (ref : ℕ) → ref < u64_mod → sparse ref * inverse % u64_mod ≡ ref
unfolding sparse
sparse_recovers ref l = omega arith

-- No two references below 2 ^ 64 have the same key.
pub sparse-injective : (a b : ℕ) → a < u64_mod → b < u64_mod → sparse a ≡ sparse b → a ≡ b
sparse-injective a b l k e =
    sym (sparse_recovers a l) ∙ ap (λ x. x * inverse % u64_mod) e ∙ sparse_recovers b k

-- A reference other than 0 does not have the key of an empty slot.
pub sparse-nonzero : (a : ℕ) → a < u64_mod → a ≢ 0 → sparse a ≢ 0
unfolding sparse
sparse-nonzero a l n e = n (sparse-injective a 0 l (omega arith) (e ∙ omega arith))
