-- ===== src/Book/Rest/Outcome.antt =====
-- What `rest` and `rest_iceberg` return, and the book that they leave.
use c_order_book.Prelude.{
  ℕ, ◌+◌, ◌^◌, ◌%◌, ◌<◌, ◌≤◌, ◌≡◌, sym, refl, false, none, some, List, [], ◌∷◌,
}
use mathlib.Core.Path.{subst}
use c_order_book.Prelude.Int.{ℤ, pos, ◌-ℤ◌, ◌<ℤ◌, ◌≤ℤ◌, min_ℤ, min_ℤ-positive, min_ℤ-rest, int_laws}
use c_order_book.Pool.Free.{IsFree, acquire-nil, acquire-cons, taken}
use c_order_book.Order.{Side, blank}
use c_order_book.Book.State.{Book, and_then}
use c_order_book.Book.Links.{make_id, rest, rest_iceberg, acquire_order, place}
use c_order_book.Book.Engine.{crosses}
use c_order_book.Book.Queue.{to_snoc}
use c_order_book.Book.Valid.{View, price_of, IsBook}
use c_order_book.Book.Returns.{Returns, returns, weaken}
use c_order_book.Book.Rest.{rested, behind}
use c_order_book.Book.Rest.Kept.{place-IsBook}

-- An exhausted arena rejects the order and leaves the book. Otherwise the order stands last in the
-- queue of its level, in the first free slot, under an id made of the slot and its new generation.
pub data Rests (num_ticks pool_cap : ℕ) (b : Book) (v : View) (side : Side) (idx : ℕ)
    (visible display hidden : ℤ) : ℕ → Book → Type 0 where
  exhausted : v.free ≡ [] → Rests num_ticks pool_cap b v side idx visible display hidden 0 b
  queued :
      {b2 : Book} (x : ℕ) (xs : List ℕ)
      → v.free ≡ x ∷ xs
      → IsBook num_ticks pool_cap b2
          (behind v side idx (rested b.generations x visible display hidden) xs)
      → b2.trades ≡ b.trades
      → Rests num_ticks pool_cap b v side idx visible display hidden
          (make_id ((b.generations x + 1) % 2 ^ 32) x)
          b2

acquire_order-nil : (b : Book) → IsFree b.pool [] → acquire_order b ≡ some (none, b)
unfolding acquire_order
acquire_order-nil b f = rw (acquire-nil blank b.pool f, acquire_order) refl

acquire_order-cons :
    (b : Book) (x : ℕ) (xs : List ℕ)
    → IsFree b.pool (x ∷ xs)
    → acquire_order b ≡ some (some x, record b { pool = taken blank x xs b.pool })
unfolding acquire_order
acquire_order-cons b x xs f = rw (acquire-cons blank b.pool x xs f, acquire_order) refl

module _ {num_ticks pool_cap : ℕ} (small : num_ticks ≤ 2 ^ 18) {b : Book} {v : View}
    (w : IsBook num_ticks pool_cap b v) (side : Side) (idx : ℕ) (inside : idx < num_ticks)
    (apart : crosses side idx b ≡ false) where
  -- both functions, with the fields of the order that rests
  Rests-acquired :
      (visible display hidden : ℤ)
      → pos 0 <ℤ visible
      → pos 0 ≤ℤ hidden
      → (pos 0 <ℤ hidden → pos 0 <ℤ display)
      → (l : List ℕ) → v.free ≡ l
      → Returns (Rests num_ticks pool_cap b v side idx visible display hidden) (
          and_then (acquire_order b) (λ got. elim got [
            | none ↦ λ b1. some (0, b1)
            | some slot ↦ place side idx (price_of b idx) visible display hidden slot
          ]))
  Rests-acquired visible display hidden lots reserve clip [] e =
      rw (acquire_order-nil b (subst (IsFree b.pool) e w.stored.free), and_then)
        (returns (exhausted e))
  Rests-acquired visible display hidden lots reserve clip (x ∷ xs) e =
      rw (acquire_order-cons b x xs (subst (IsFree b.pool) e w.stored.free), and_then)
        (weaken
          (place-IsBook small w side idx visible display hidden x xs e inside apart lots reserve
            clip (to_snoc (v.queue idx)) refl)
          (λ id b2 h.
            subst (λ i. Rests num_ticks pool_cap b v side idx visible display hidden i b2) (sym h.0)
              (queued x xs e h.1 h.2)))

  -- In a well-formed book of at most 2 ^ 18 levels, `rest` of a positive quantity at a level inside
  -- the ladder that it does not cross returns. With the arena exhausted it returns 0 and leaves the
  -- book; otherwise the book stays well formed, the order stands last in the queue of its level with
  -- all its lots shown, in the first free slot and under an id of that slot and its new generation,
  -- no trade is reported, and all other orders stand where they stood.
  pub rest-Rests :
      (qty : ℤ)
      → pos 0 <ℤ qty
      → Returns
          (Rests num_ticks pool_cap b v side idx qty (pos 0) (pos 0))
          (rest side idx (price_of b idx) qty b)
  unfolding rest
  rest-Rests qty lots =
      Rests-acquired qty (pos 0) (pos 0) lots (omega int_laws) (λ h. absurd (omega (int_laws, h)))
        v.free refl

  -- The same for `rest_iceberg` with a positive clip, where the order that stands last shows the
  -- lesser of its clip and its lots, and holds the other lots in reserve.
  pub rest_iceberg-Rests :
      (display remaining : ℤ)
      → pos 0 <ℤ display
      → pos 0 <ℤ remaining
      → Returns
          (Rests num_ticks pool_cap b v side idx
            (min_ℤ display remaining)
            display
            (remaining -ℤ min_ℤ display remaining))
          (rest_iceberg side idx (price_of b idx) display remaining b)
  unfolding rest_iceberg
  rest_iceberg-Rests display remaining d r =
      Rests-acquired (min_ℤ display remaining) display (remaining -ℤ min_ℤ display remaining)
        (min_ℤ-positive display remaining d r) (min_ℤ-rest display remaining) (λ _. d) v.free refl
