-- ===== src/Book/Returns.antt =====
-- Total correctness of a command: no undefined behaviour, enough fuel, and a postcondition.
use c_order_book.Prelude.{Option, some}
use c_order_book.Book.State.{Book, Cmd, and_then}

pub data Returns {A : Type 0} (P : A → Book → Type 0) : Option (A × Book) → Type 0 where
  returns : {a : A} {b : Book} → P a b → Returns P (some (a, b))

module _ {A : Type 0} {P : A → Book → Type 0} where
  pub bind :
      {B : Type 0} {Q : B → Book → Type 0} {r : Option (A × Book)} {k : A → Cmd B}
      → Returns P r
      → ((a : A) (b : Book) → P a b → Returns Q (k a b))
      → Returns Q (and_then r k)
  bind (returns p) rest = rest _ _ p

  pub weaken :
      {Q : A → Book → Type 0} {r : Option (A × Book)}
      → Returns P r
      → ((a : A) (b : Book) → P a b → Q a b)
      → Returns Q r
  weaken (returns p) f = returns (f _ _ p)
