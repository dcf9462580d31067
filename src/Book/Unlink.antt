-- ===== src/Book/Unlink.antt =====
-- An order that leaves its level: `unlink_and_release`, and what `cancel` and `reduce` do with it.
pub mod Links
pub mod Stored
pub mod Run
pub mod Kept
pub mod Finds
pub mod Lessened
pub mod Outcome
use c_order_book.Prelude.{
  ℕ, ◌<◌, ◌≡◌, refl, Bool, true, false, ◌||◌, arith, ◌==◌, Bool-cases, inl, inr, Option, List, [],
  ◌∷◌, ◌++◌,
}
use c_order_book.Prelude.Word.{update}
use c_order_book.Pool.{Cell, Pool, object}
use c_order_book.Pool.Free.{IsFree, is_free, store-IsFree}
use c_order_book.Order.{Order}
use c_order_book.Prelude.Int.{ℤ}
use c_order_book.Order.{Side}
use c_order_book.Book.Queue.{Entry, has_slot, Seg, Seg-update}
use c_order_book.Book.Valid.{View}

-- The entry of the slot `n` with what is before and behind it.
pub data Located (n : ℕ) : List Entry → Type 0 where
  located :
      (ys : List Entry) (e : Entry) (zs : List Entry) → e.slot ≡ n → Located n (ys ++ (e ∷ zs))

pub locate : (n : ℕ) (es : List Entry) → has_slot n es ≡ true → Located n es
locate n [] h = absurd (ground arith)
locate n (x ∷ xs) h = elim (Bool-cases (n == x.slot)) [
  | inl here ↦ located [] x xs (ground arith)
  | inr later ↦ further (locate n xs (ground arith))
]
  where
    further : {q : List Entry} → Located n q → Located n (x ∷ q)
    further (located ys e zs h) = located (x ∷ ys) e zs h

-- The view with the queue `q` at level `idx` and the free slots `free`.
abbrev pub requeued : View → ℕ → List Entry → List ℕ → View
requeued v idx q free = record { queue = update v.queue idx q; side = v.side; free = free }

-- `d` is `c` with at most one of the orders of `es` written.
pub data Relinked (c : ℕ → Cell Order) (es : List Entry) : (ℕ → Cell Order) → Type 0 where
  as_was : Relinked c es c
  written :
      (n : ℕ) (o w : Order)
      → has_slot n es ≡ true
      → c n ≡ object o
      → Relinked c es (update c n (object w))

module _ {c : ℕ → Cell Order} {es : List Entry} where
  pub Relinked-is_free :
      {d : ℕ → Cell Order} → Relinked c es d → (n : ℕ) → is_free (d n) ≡ is_free (c n)
  Relinked-is_free as_was n = refl
  Relinked-is_free (written m o w h e) n = ground (arith, e)

  pub Relinked-other :
      {d : ℕ → Cell Order} → Relinked c es d → (n : ℕ) → has_slot n es ≡ false → d n ≡ c n
  Relinked-other as_was n out = refl
  Relinked-other (written m o w h e) n out = ground (arith, h, out)

  pub Relinked-Seg :
      {d : ℕ → Cell Order} (px : ℤ) (side : Side) (pv nx : Option ℕ) (xs : List Entry)
      → Relinked c es d
      → ((n : ℕ) → has_slot n es ≡ true → has_slot n xs ≡ false)
      → Seg px side c pv xs nx
      → Seg px side d pv xs nx
  Relinked-Seg px side pv nx xs as_was apart s = s
  Relinked-Seg px side pv nx xs (written m o w h e) apart s =
      Seg-update px side c m (object w) pv nx xs (apart m h) s

pub Relinked-IsFree :
    {es : List Entry} (p : Pool Order) (xs : List ℕ) {d : ℕ → Cell Order}
    → Relinked p.cells es d
    → ((n : ℕ) → has_slot n es ≡ true → n < p.capacity)
    → IsFree p xs
    → IsFree (record p { cells = d }) xs
Relinked-IsFree p xs as_was inside f = f
Relinked-IsFree p xs (written n o w h e) inside f = store-IsFree p n o w xs e (inside n h) f
