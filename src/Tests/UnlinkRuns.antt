-- ===== src/Tests/UnlinkRuns.antt =====
-- `cancel` and `reduce` of the one order of a book.
use c_order_book.Prelude.{ℕ, sym, refl, arith, Option, none, some, List, [], ◌∷◌, ◌+◌, ◌^◌}
use mathlib.Core.Path.{subst}
use c_order_book.Prelude.Int.{pos}
use c_order_book.Order.{Side}
use c_order_book.Book.State.{Book}
use c_order_book.Book.Links.{new_book, rest, generation_of}
use c_order_book.Book.Engine.{cancel}
use c_order_book.Book.Valid.{View, IsBook, price_of}
use c_order_book.Book.Fresh.{no_orders, new_book-IsBook}
use c_order_book.Book.Returns.{Returns, returns}
use c_order_book.Book.Rest.{rested, behind}
use c_order_book.Book.Rest.Outcome.{Rests, exhausted, queued, rest-Rests}
use c_order_book.Book.Unlink.Outcome.{Cancels, cancel-Cancels}

abbrev pub ladder : Book
ladder = new_book 64 4 (pos 1000)

-- the book after an order to buy 5 lots at 1003, and what it stands for
abbrev pub answer : Option (ℕ × Book) → ℕ × Book
answer none = (0, ladder)
answer (some r) = r

abbrev pub held : Book
held = (answer (rest Side.buy 3 (price_of ladder 3) (pos 5) ladder)).1

abbrev pub front : List ℕ → ℕ
front [] = 0
front (x ∷ xs) = x

abbrev pub others : List ℕ → List ℕ
others [] = []
others (x ∷ xs) = xs

abbrev pub held_view_at : List ℕ → View
held_view_at l =
    behind (no_orders 4) Side.buy 3 (rested ladder.generations (front l) (pos 5) (pos 0) (pos 0))
      (others l)

abbrev pub held_view : View
held_view = held_view_at (no_orders 4).free

answer-Returns :
    {P : ℕ → Book → Type 0} {r : Option (ℕ × Book)} → Returns P r → P (answer r).0 (answer r).1
answer-Returns (returns p) = p

queued-IsBook :
    {id : ℕ} {b : Book}
    → Rests 64 4 ladder (no_orders 4) Side.buy 3 (pos 5) (pos 0) (pos 0) id b
    → IsBook 64 4 b held_view
queued-IsBook (exhausted e) = absurd (cc (e))
queued-IsBook {b = b} (queued x xs e w _) = subst (λ l. IsBook 64 4 b (held_view_at l)) (sym e) w

pub held-IsBook : IsBook 64 4 held held_view
unfolding new_book
held-IsBook = queued-IsBook (
    answer-Returns (
      rest-Rests (omega arith) (new_book-IsBook 64 4 (pos 1000)) Side.buy 3 (omega arith) refl
        (pos 5) (omega arith)))

-- generation 1, slot 0
abbrev pub held_id : ℕ
held_id = 2 ^ 32 + 1

cancel-Cancels_example : Returns (Cancels 64 4 held held_view held_id) (cancel 64 4 held_id held)
unfolding generation_of
cancel-Cancels_example =
    cancel-Cancels (omega arith) (omega arith) held-IsBook held_id (omega arith) refl
