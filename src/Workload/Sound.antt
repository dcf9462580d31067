-- ===== src/Workload/Sound.antt =====
-- The messages of the workload stay on the ladder.
use c_order_book.Prelude.{
  ℕ, zero, suc, ◌+◌, ◌-◌, ◌%◌, ◌^◌, ◌≡◌, refl, List, [], ◌∷◌, length, ltb, Bool-cases, inl, inr,
  arith,
}
use c_order_book.Prelude.Int.{pos, ◌≤ℤ◌}
use c_order_book.Order.{MsgType, Message}
use c_order_book.Feed.{base_price, rng_next}
use c_order_book.Workload.{message_for, make_workload}

-- A new order within 32 ticks of the middle of the ladder for 1 to 23 lots, or a cancel.
pub data Sound (m : Message) : Type 0 where
  order :
      m.type ≡ MsgType.new_order
      → pos (base_price + 2 ^ 15 - 32) ≤ℤ m.price
      → m.price ≤ℤ pos (base_price + 2 ^ 15 + 32)
      → pos 1 ≤ℤ m.qty
      → m.qty ≤ℤ pos 23
      → Sound m
  cancels : m.type ≡ MsgType.cancel → m.id ≡ 0 → Sound m

abbrev pub AllSound : List Message → Type 0
AllSound [] = Unit {0}
AllSound (m ∷ ms) = Sound m × AllSound ms

message_for-Sound : (r : ℕ) → Sound (message_for r)
unfolding message_for
message_for-Sound r = elim (Bool-cases (ltb (r % 100) 58)) [
  | inl e ↦ rw (e) (order refl (ground arith) (ground arith) (ground arith) (ground arith))
  | inr e ↦ elim (Bool-cases (ltb (r % 100) 94)) [
    | inl f ↦ rw (e, f) (order refl (ground arith) (ground arith) (ground arith) (ground arith))
    | inr f ↦ rw (e, f) (cancels refl refl)
  ]
]

-- A workload of `n` messages has that length, and each of its messages is a new order within 32 ticks
-- of the middle of the ladder for 1 to 23 lots, or a cancel whose id the driver fills in.
pub make_workload-AllSound :
    (n seed : ℕ) → (length (make_workload n seed) ≡ n) × AllSound (make_workload n seed)
unfolding make_workload
make_workload-AllSound zero s = (refl, tt)
make_workload-AllSound (suc n) s =
    let rest = make_workload-AllSound n (rng_next s).0 in
    (omega (arith, rest.0), (message_for-Sound (rng_next s).1, rest.1))
