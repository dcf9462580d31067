-- ===== src/Itch/Loads.antt =====
-- The swapped load is the big-endian value of the bytes.
use c_order_book.Prelude.{ℕ, zero, suc, ◌+◌, ◌*◌, ◌/◌, ◌%◌, ◌^◌, ◌<◌, ◌≡◌, refl, ap, arith}
use c_order_book.Itch.{bswap, load_native, load_be}

low : (b v : ℕ) → b < 256 → (b + 256 * v) % 256 ≡ b
low b v h = omega arith

high : (b v : ℕ) → b < 256 → (b + 256 * v) / 256 ≡ v
high b v h = omega arith

module _ (buf : ℕ → ℕ) where
  -- The bytes from `p` on as digits in base 256, the most significant first.
  abbrev pub big_endian : (n : ℕ) → ℕ → ℕ
  big_endian zero p = 0
  big_endian (suc n) p = buf p * 256 ^ n + big_endian n (p + 1)

  -- Where memory holds bytes, the load of any width through `bswap` is the big-endian value.
  pub load_be-big_endian : (n p : ℕ) → ((i : ℕ) → buf i < 256) → load_be buf n p ≡ big_endian n p
  unfolding bswap load_native
  load_be-big_endian zero p bytes = refl
  load_be-big_endian (suc n) p bytes =
      rw
        (
          low (buf p) (load_native buf n (p + 1)) (bytes p),
          high (buf p) (load_native buf n (p + 1)) (bytes p),
        )
        (ap (λ t. buf p * 256 ^ n + t) (load_be-big_endian n (p + 1) bytes))
