-- ===== src/Book/Matching/Outcome.antt =====
-- What `new_order` and `new_iceberg_order` return, and the book that they leave.
use c_order_book.Prelude.{
  ℕ, ◌-◌, ◌^◌, ◌<◌, ◌≤◌, ◌≡◌, ◌⊎◌, inl, inr, ◌∙◌, ap, sym, refl, Bool, true, false, ◌&&◌, ◌||◌,
  arith, leb, Bool-cases, List, ◌++◌,
}
use mathlib.Core.Path.{subst}
use c_order_book.Prelude.Int.{
  ℤ, pos, negsuc, ◌+ℤ◌, ◌-ℤ◌, ◌<ℤ◌, ◌≤ℤ◌, leb_ℤ, eq_ℤ, eq_of_parts, min_ℤ,
}
use c_order_book.Order.{Side, Trade}
use c_order_book.Book.State.{Book, Cmd, and_then, tick}
use c_order_book.Book.Links.{taker_filled_id, rest, rest_iceberg}
use c_order_book.Book.Engine.{
  match_loop, crosses, far_best, new_order, new_iceberg_order, finish, rounds,
}
use c_order_book.Book.Valid.{View, IsBook, price_of, price-tick}
use c_order_book.Book.Returns.{Returns, returns, bind, weaken}
use c_order_book.Book.Rest.Outcome.{Rests, exhausted, queued, rest-Rests, rest_iceberg-Rests}
use c_order_book.Book.Matching.{makers_at, as_good, Matched}
use c_order_book.Book.Matching.Best.{far_best-IsBest, far_best-as_good, crosses-nobody}
use c_order_book.Book.Matching.Loop.{match_loop-Matches}

-- The lots that an order shows, its clip and its reserve, when it comes to rest with some lots.
pub record Shape : Type 0 where
  pub visible : ℤ → ℤ
  pub display : ℤ → ℤ
  pub hidden : ℤ → ℤ

abbrev pub plain : Shape
plain = record { visible = λ left. left; display = λ _. pos 0; hidden = λ _. pos 0 }

abbrev pub iceberg : ℤ → Shape
iceberg clip = record {
  visible = λ left. min_ℤ clip left;
  display = λ _. clip;
  hidden = λ left. left -ℤ min_ℤ clip left;
}

-- The order was matched; all its lots were filled, or what is left was put to rest.
pub data Accepted (num_ticks pool_cap : ℕ) (b : Book) (v : View) (side : Side) (idx : ℕ) (qty : ℤ)
    (shape : Shape) : ℕ → Book → Type 0 where
  filled :
      {b2 : Book} (v2 : View) (ts : List Trade)
      → Matched b.base side idx v qty ts v2 (pos 0)
      → IsBook num_ticks pool_cap b2 v2
      → b2.trades ≡ b.trades ++ ts
      → Accepted num_ticks pool_cap b v side idx qty shape taker_filled_id b2
  remains :
      {id : ℕ} {b1 b2 : Book} (v1 : View) (ts : List Trade) (left : ℤ)
      → Matched b.base side idx v qty ts v1 left
      → pos 0 <ℤ left
      → IsBook num_ticks pool_cap b1 v1
      → Rests num_ticks pool_cap b1 v1 side idx
          (shape.visible left)
          (shape.display left)
          (shape.hidden left)
          id
          b2
      → b2.trades ≡ b.trades ++ ts
      → Accepted num_ticks pool_cap b v side idx qty shape id b2

-- What `new_order` refuses: a price off the ladder, no lots, and a trade of a post-only order.
abbrev pub Refused : ℕ → View → Side → ℕ → ℤ → Bool → Type 0
Refused num_ticks v side idx qty post_only =
    (num_ticks ≤ idx)
    ⊎ ((qty ≤ℤ pos 0)
        ⊎ ((post_only ≡ true)
            × (i : ℕ) × (makers_at side v i ≡ true)
            × (as_good side i idx ≡ true)))

pub data Ordered (num_ticks pool_cap : ℕ) (b : Book) (v : View) (side : Side) (idx : ℕ) (qty : ℤ)
    (post_only : Bool) : ℕ → Book → Type 0 where
  refused :
      Refused num_ticks v side idx qty post_only
      → Ordered num_ticks pool_cap b v side idx qty post_only 0 b
  accepted :
      {id : ℕ} {b2 : Book}
      → (post_only ≡ true → (i : ℕ) → makers_at side v i ≡ true → as_good side i idx ≡ false)
      → Accepted num_ticks pool_cap b v side idx qty plain id b2
      → Ordered num_ticks pool_cap b v side idx qty post_only id b2

trades-Rests :
    {num_ticks pool_cap : ℕ} {b : Book} {v : View} {side : Side} {idx : ℕ} {x y z : ℤ} {id : ℕ}
    {b2 : Book}
    → Rests num_ticks pool_cap b v side idx x y z id b2
    → b2.trades ≡ b.trades
trades-Rests (exhausted e) = refl
trades-Rests (queued x xs e w h) = h

module _ {num_ticks pool_cap : ℕ} (small : num_ticks ≤ 2 ^ 18) {b : Book} {v : View}
    (w : IsBook num_ticks pool_cap b v) (side : Side) (idx : ℕ) (inside : idx < num_ticks) (qty : ℤ)
    (lots : pos 0 <ℤ qty) (shape : Shape) (k : ℤ → Cmd ℕ) where
  -- both functions, with the command that puts the rest of the lots in the book
  finish-Accepted :
      ((left : ℤ) (b1 : Book) (v1 : View)
        → IsBook num_ticks pool_cap b1 v1
        → b1.base ≡ b.base
        → crosses side idx b1 ≡ false
        → pos 0 <ℤ left
        → Returns
            (Rests num_ticks pool_cap b1 v1 side idx
              (shape.visible left)
              (shape.display left)
              (shape.hidden left))
            (k left b1))
      → Returns (Accepted num_ticks pool_cap b v side idx qty shape) (
          and_then
            (match_loop num_ticks pool_cap (rounds num_ticks pool_cap qty) side idx qty b)
            (λ left. finish num_ticks pool_cap left (k left)))
  finish-Accepted rests =
      bind
        (match_loop-Matches small side idx inside (rounds num_ticks pool_cap qty) qty w
          (omega (arith, lots)) (omega arith))
        λ left b1 m. elim (Bool-cases (eq_ℤ left (pos 0))) [
          | inl none_left ↦
              let zero_left : left ≡ pos 0 = eq_of_parts left (pos 0) (ground (arith, none_left)) in
              rw none_left (
                returns (
                  filled m.view m.trades
                    (subst (λ t. Matched b.base side idx v qty m.trades m.view t) zero_left
                      m.matched)
                    m.book m.reported))
          | inr some_left ↦
              let more : pos 0 <ℤ left = ground (arith, some_left, m.lots) in
              rw some_left (
                weaken (rests left b1 m.view m.book m.base (ground (arith, more, m.over)) more)
                  (λ id b2 r.
                    remains m.view m.trades left m.matched more m.book r
                      (trades-Rests r ∙ m.reported)))
        ]

module _ {num_ticks pool_cap : ℕ} (small : num_ticks ≤ 2 ^ 18) {b : Book} {v : View}
    (w : IsBook num_ticks pool_cap b v) (side : Side) (price : ℤ)
    (near : negsuc (2 ^ 63 - 1) ≤ℤ price -ℤ b.base)
    (far : price -ℤ b.base ≤ℤ pos (2 ^ 63 - 1)) where
  abbrev pub idx_of : ℕ
  idx_of = tick price b.base

  -- the price of the level, in the book after the matching
  same_price : idx_of < num_ticks → (b1 : Book) → b1.base ≡ b.base → price_of b1 idx_of ≡ price
  same_price l b1 e =
      ap (λ z. z +ℤ pos idx_of) e ∙ sym (price-tick b.base price near far (omega (arith, l)))

  off :
      (qty : ℤ) (post_only : Bool)
      → (leb num_ticks idx_of || leb_ℤ qty (pos 0)) ≡ true
      → Refused num_ticks v side idx_of qty post_only
  off qty post_only bad = elim (Bool-cases (leb num_ticks idx_of)) [
    | inl out ↦ inl (ground (arith, out))
    | inr in_range ↦ inr (inl (ground (arith, in_range, bad)))
  ]

  accepts :
      (qty : ℤ) (inside : idx_of < num_ticks)
      → pos 0 <ℤ qty
      → Returns (Accepted num_ticks pool_cap b v side idx_of qty plain) (
          and_then
            (match_loop num_ticks pool_cap (rounds num_ticks pool_cap qty) side idx_of qty b)
            (λ left. finish num_ticks pool_cap left (rest side idx_of price left)))
  accepts qty inside lots =
      finish-Accepted small w side idx_of inside qty lots plain
        (λ left. rest side idx_of price left)
        λ left b1 v1 w1 e quiet more.
          subst
            (λ p.
              Returns (Rests num_ticks pool_cap b1 v1 side idx_of left (pos 0) (pos 0))
                (rest side idx_of p left b1))
            (same_price inside b1 e) (rest-Rests small w1 side idx_of inside quiet left more)

  -- In a well-formed book of at most 2 ^ 18 levels, `new_order` at a price whose distance from the base
  -- is a signed 64-bit number returns. It refuses an order, with 0 and no change, if its tick is off
  -- the ladder, if it has no lots, or if it is post-only and a level it reaches holds makers. Otherwise
  -- the order is matched by price, then time: while it has lots and the best level of the other side is
  -- as good as its limit, it fills that level's queue first in, first out. If all lots are filled, the
  -- special id is returned; otherwise the rest comes to rest as `rest` does. The book stays well
  -- formed, and the trades reported are those of the matching, in its order.
  pub new_order-Ordered :
      (qty : ℤ) (post_only : Bool)
      → Returns
          (Ordered num_ticks pool_cap b v side idx_of qty post_only)
          (new_order num_ticks pool_cap side price qty post_only b)
  unfolding new_order
  new_order-Ordered qty post_only = elim (Bool-cases (leb num_ticks idx_of || leb_ℤ qty (pos 0))) [
    | inl bad ↦ rw bad (returns (refused (off qty post_only bad)))
    | inr fine ↦
        let inside : idx_of < num_ticks = ground (arith, fine) in
        elim (Bool-cases (post_only && crosses side idx_of b)) [
          | inl cross ↦
              let meets : crosses side idx_of b ≡ true = ground (arith, cross) in
              rw (fine, cross)
                (returns (
                  refused (
                    inr (
                      inr (
                        ground (arith, cross),
                        far_best side b,
                        (far_best-IsBest v w.top idx_of inside side meets).0,
                        far_best-as_good v w.top idx_of inside side meets,
                      )))))
          | inr quiet ↦
              rw (fine, quiet)
                (weaken (accepts qty inside (ground (arith, fine))) λ id b2 a.
                  accepted
                    (λ p. crosses-nobody v w.top idx_of inside side (ground (arith, p, quiet))) a)
        ]
  ]

  -- Under the same conditions `new_iceberg_order` with a positive clip and total and a tick on the ladder
  -- returns: all its lots are matched as those of `new_order`, and what is left comes to rest as
  -- `rest_iceberg` does, with the lesser of the clip and what is left shown.
  pub new_iceberg_order-Accepted :
      (display_qty total_qty : ℤ)
      → pos 0 <ℤ display_qty
      → pos 0 <ℤ total_qty
      → idx_of < num_ticks
      → Returns
          (Accepted num_ticks pool_cap b v side idx_of total_qty (iceberg display_qty))
          (new_iceberg_order num_ticks pool_cap side price display_qty total_qty b)
  unfolding new_iceberg_order
  new_iceberg_order-Accepted display_qty total_qty clip lots inside =
      let fine : (leb num_ticks idx_of || (leb_ℤ total_qty (pos 0) || leb_ℤ display_qty (pos 0)))
          ≡ false =
        ground (arith, clip, lots, inside) in
      rw fine (
        finish-Accepted small w side idx_of inside total_qty lots (iceberg display_qty)
          (λ left. rest_iceberg side idx_of price display_qty left)
          λ left b1 v1 w1 e quiet more.
            subst
              (λ p.
                Returns
                  (Rests num_ticks pool_cap b1 v1 side idx_of (min_ℤ display_qty left) display_qty
                    (left -ℤ min_ℤ display_qty left))
                  (rest_iceberg side idx_of p display_qty left b1))
              (same_price inside b1 e)
              (rest_iceberg-Rests small w1 side idx_of inside quiet display_qty left clip more))
