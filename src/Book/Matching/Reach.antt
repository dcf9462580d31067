-- ===== src/Book/Matching/Reach.antt =====
-- The books that the operations reach from the constructor.
use c_order_book.Prelude.{
  ℕ, ◌-◌, ◌%◌, ◌^◌, ◌<◌, ◌≤◌, ◌≡◌, ◌*◌, length, Bool, false, Option, none, some, ◌||◌, leb, arith,
  Bool-cases, inl, inr, refl,
}
use mathlib.Core.Path.{subst}
use native.Mathlib.Nat.{mul-le-mul_right}
use c_order_book.Prelude.Int.{
  ℤ, pos, negsuc, ◌-ℤ◌, ◌<ℤ◌, ◌≤ℤ◌, leb_ℤ, min_ℤ, min_ℤ-positive, -ℤ_parts,
}
use c_order_book.Order.{Side, Message, MsgType}
use c_order_book.Book.State.{Book, tick}
use c_order_book.Book.Links.{new_book, generation_of}
use c_order_book.Book.Engine.{apply, cancel, reduce, new_order, new_iceberg_order}
use c_order_book.Book.Fresh.{no_orders, new_book-IsBook}
use c_order_book.Book.Valid.{View, IsBook}
use c_order_book.Book.Returns.{Returns, returns, bind, weaken}
use c_order_book.Book.Fills.Enter.{length-queue}
use c_order_book.Book.Matching.Bounded.{
  SmallView, AllSmall-append, updated_small, removed_small, lessened_at_small, Matched-SmallView,
  total_bounds,
}
use c_order_book.Book.Rest.Outcome.{Rests, exhausted, queued}
use c_order_book.Book.Unlink.Outcome
use c_order_book.Book.Unlink.Outcome.{Cancels, Reduces, cancel-Cancels, reduce-Reduces}
use c_order_book.Book.Matching.Outcome.{
  Shape, plain, iceberg, Accepted, filled, remains, Ordered, refused, accepted, new_order-Ordered,
  new_iceberg_order-Accepted,
}

module _ (num_ticks pool_cap most : ℕ) where
  -- The book is well formed, whatever it stands for, and no order shows or reserves more than `most` lots.
  abbrev pub Sane : Book → Type 0
  Sane b = (v : View) × IsBook num_ticks pool_cap b v × SmallView most v

  -- A price whose distance from the base is a signed 64-bit number.
  abbrev pub Near : Book → ℤ → Type 0
  Near b price = (negsuc (2 ^ 63 - 1) ≤ℤ price -ℤ b.base) × (price -ℤ b.base ≤ℤ pos (2 ^ 63 - 1))

  -- A 64-bit id whose generation is odd, as that of every slot with an order in it is.
  abbrev pub Given : ℕ → Type 0
  Given id = (id < 2 ^ 64) × (generation_of id % 2 ≡ 1)

  abbrev pub Fits : Book → Message → Type 0
  Fits b m = elim m.type [
    | MsgType.new_order ↦ Near b m.price × (m.qty ≤ℤ pos most)
    | MsgType.cancel ↦ Given m.id
    | MsgType.execute ↦ Given m.id × (pos 0 ≤ℤ m.qty)
    | MsgType.reduce ↦ Given m.id × (pos 0 ≤ℤ m.qty)
  ]

  -- One call on the book that returned.
  pub data Step (b b2 : Book) : Type 0 where
    message : (m : Message) → Fits b m → apply num_ticks pool_cap m b ≡ some (tt, b2) → Step b b2
    order :
        (side : Side) (price qty : ℤ) (post_only : Bool) (id : ℕ)
        → Near b price
        → qty ≤ℤ pos most
        → new_order num_ticks pool_cap side price qty post_only b ≡ some (id, b2)
        → Step b b2
    iceberg_order :
        (side : Side) (price display_qty total_qty : ℤ) (id : ℕ)
        → Near b price
        → total_qty ≤ℤ pos most
        → new_iceberg_order num_ticks pool_cap side price display_qty total_qty b ≡ some (id, b2)
        → Step b b2

  pub data Reachable (base : ℤ) : Book → Type 0 where
    fresh : Reachable base (new_book num_ticks pool_cap base)
    after_step : {b b2 : Book} → Reachable base b → Step b b2 → Reachable base b2

abbrev message_of_fields : MsgType → ℤ → ℤ → ℕ → Side → Message
message_of_fields type price qty id side = record {
  price = price;
  qty = qty;
  id = id;
  type = type;
  side = side;
}

abbrev HoldsOf : {A : Type 0} → (A → Book → Type 0) → Option (A × Book) → Type 0
HoldsOf P none = Unit {0}
HoldsOf P (some (a, b)) = P a b

-- the postcondition, at a result that is known
Returns-result :
    {A : Type 0} (P : A → Book → Type 0) {r : Option (A × Book)} (a : A) (b : Book)
    → Returns P r
    → r ≡ some (a, b)
    → P a b
Returns-result P a b h e = subst (HoldsOf P) e (held h)
  where
    held : {r : Option (_ × Book)} → Returns P r → HoldsOf P r
    held (returns p) = p

Returns-itself :
    {A : Type 0} {P : A → Book → Type 0} {r : Option (A × Book)}
    → Returns P r
    → Returns (λ a b. r ≡ some (a, b)) r
Returns-itself (returns p) = returns refl

Rests-Sane :
    {num_ticks pool_cap most : ℕ} {b : Book} {v : View} {side : Side} {idx : ℕ} {x y z : ℤ} {id : ℕ}
    {b2 : Book}
    → IsBook num_ticks pool_cap b v
    → SmallView most v
    → (pos 0 <ℤ x) × (x ≤ℤ pos most) × (z ≤ℤ pos most) × (pos 0 <ℤ z → pos 0 <ℤ y)
    → Rests num_ticks pool_cap b v side idx x y z id b2
    → Sane num_ticks pool_cap most b2
Rests-Sane {v = v} w s lots (exhausted e) = (v, w, s)
Rests-Sane {most = most} {v = v} {idx = idx} w s (shown, few, kept, clip) (queued x xs e w2 h) = (
  _,
  w2,
  updated_small most v.queue idx _ s (
      AllSmall-append most (v.queue idx) _ (s idx)
        (record { shown = shown; few = few; kept = kept; clip = clip }, tt)),
)

-- What an order shows and reserves is in bounds when what is left of it is.
abbrev Modest : ℕ → ℤ → Shape → Type 0
Modest most qty shape =
    (left : ℤ)
    → pos 0 <ℤ left
    → left ≤ℤ qty
    → (pos 0 <ℤ shape.visible left)
      × (shape.visible left ≤ℤ pos most)
      × (shape.hidden left ≤ℤ pos most)
      × (pos 0 <ℤ shape.hidden left → pos 0 <ℤ shape.display left)

plain-Modest : (most : ℕ) (qty : ℤ) → qty ≤ℤ pos most → Modest most qty plain
plain-Modest most qty h left some_left few =
    (some_left, omega (arith, few), omega arith, λ r. absurd (omega (arith, r)))

iceberg-Modest :
    (most : ℕ) (clip qty : ℤ) → pos 0 <ℤ clip → qty ≤ℤ pos most → Modest most qty (iceberg clip)
iceberg-Modest most clip qty c h left some_left few = (
  min_ℤ-positive clip left c some_left,
  ground (arith, few, h),
  ground (arith, few, h, c, some_left, -ℤ_parts left (min_ℤ clip left)),
  λ r. c,
)

Accepted-Sane :
    {num_ticks pool_cap most : ℕ} {b : Book} {v : View} {side : Side} {idx : ℕ} {qty : ℤ}
    {shape : Shape} {id : ℕ} {b2 : Book}
    → SmallView most v
    → Modest most qty shape
    → Accepted num_ticks pool_cap b v side idx qty shape id b2
    → Sane num_ticks pool_cap most b2
Accepted-Sane {most = most} s fits (filled v2 ts m w h) = (v2, w, (Matched-SmallView most m s).0)
Accepted-Sane {most = most} s fits (remains v1 ts left m more w r h) =
    let (s1, fewer) = Matched-SmallView most m s in Rests-Sane w s1 (fits left more fewer) r

module _ {num_ticks pool_cap most : ℕ} (small : num_ticks ≤ 2 ^ 18)
    (addressable : pool_cap < 2 ^ 32) {b : Book} (v : View) (w : IsBook num_ticks pool_cap b v)
    (s : SmallView most v) where
  order-Sane :
      (side : Side) (price qty : ℤ) (post_only : Bool)
      → Near num_ticks pool_cap most b price
      → qty ≤ℤ pos most
      → Returns
          (λ _ b2. Sane num_ticks pool_cap most b2)
          (new_order num_ticks pool_cap side price qty post_only b)
  order-Sane side price qty post_only near fits =
      weaken (new_order-Ordered small w side price near.0 near.1 qty post_only) (λ id b2 o. from o)
    where
      from :
          {idx id : ℕ} {b2 : Book}
          → Ordered num_ticks pool_cap b v side idx qty post_only id b2
          → Sane num_ticks pool_cap most b2
      from (refused r) = (v, w, s)
      from (accepted p a) = Accepted-Sane s (plain-Modest most qty fits) a

  iceberg-Sane :
      (side : Side) (price display_qty total_qty : ℤ)
      → Near num_ticks pool_cap most b price
      → total_qty ≤ℤ pos most
      → Returns
          (λ _ b2. Sane num_ticks pool_cap most b2)
          (new_iceberg_order num_ticks pool_cap side price display_qty total_qty b)
  unfolding new_iceberg_order
  iceberg-Sane side price display_qty total_qty near fits =
      elim (Bool-cases (
        leb num_ticks (tick price b.base)
        || (leb_ℤ total_qty (pos 0) || leb_ℤ display_qty (pos 0)))) [
          | inl bad ↦ rw bad (returns (v, w, s))
          | inr fine ↦
              weaken
                (new_iceberg_order-Accepted small w side price near.0 near.1 display_qty total_qty
                  (ground (arith, fine)) (ground (arith, fine)) (ground (arith, fine)))
                (λ id b2 a.
                  Accepted-Sane s
                    (iceberg-Modest most display_qty total_qty (ground (arith, fine)) fits) a)
        ]

  cancel-Sane :
      (id : ℕ)
      → Given num_ticks pool_cap most id
      → Returns (λ _ b2. Sane num_ticks pool_cap most b2) (cancel num_ticks pool_cap id b)
  cancel-Sane id given =
      weaken (cancel-Cancels small addressable w id given.0 given.1) (λ ok b2 c. from c)
    where
      from :
          {ok : Bool} {b2 : Book}
          → Cancels num_ticks pool_cap b v id ok b2
          → Sane num_ticks pool_cap most b2
      from (Outcome.Cancels.unknown h) = (v, w, s)
      from (Outcome.Cancels.cancelled idx ys zs e at w2 h) =
          (_, w2, removed_small most v idx ys zs e at s)

  reduce-Sane :
      (id : ℕ) (q : ℤ)
      → Given num_ticks pool_cap most id
      → pos 0 ≤ℤ q
      → Returns (λ _ b2. Sane num_ticks pool_cap most b2) (reduce num_ticks pool_cap id q b)
  reduce-Sane id q given more =
      weaken (reduce-Reduces small addressable w id given.0 given.1 q) (λ n b2 r. from r)
    where
      from :
          {n : ℤ} {b2 : Book}
          → Reduces num_ticks pool_cap b v id q n b2
          → Sane num_ticks pool_cap most b2
      from (Outcome.Reduces.unknown h) = (v, w, s)
      from (Outcome.Reduces.lessens idx ys zs e at l w2) =
          (_, w2, lessened_at_small most v idx ys zs e at q more l s)
      from (Outcome.Reduces.exhausts idx ys zs e at l m w2 h) =
          (_, w2, removed_small most v idx ys zs e at s)

  apply_fields-Sane :
      (type : MsgType) (price qty : ℤ) (id : ℕ) (side : Side)
      → Fits num_ticks pool_cap most b (message_of_fields type price qty id side)
      → Returns
          (λ _ b2. Sane num_ticks pool_cap most b2)
          (apply num_ticks pool_cap (message_of_fields type price qty id side) b)
  unfolding apply
  apply_fields-Sane MsgType.new_order price qty id side fits =
      bind (order-Sane side price qty false fits.0 fits.1) (λ _ b2 k. returns k)
  apply_fields-Sane MsgType.cancel price qty id side fits =
      bind (cancel-Sane id fits) (λ _ b2 k. returns k)
  apply_fields-Sane MsgType.execute price qty id side fits =
      bind (reduce-Sane id qty fits.0 fits.1) (λ _ b2 k. returns k)
  apply_fields-Sane MsgType.reduce price qty id side fits =
      bind (reduce-Sane id qty fits.0 fits.1) (λ _ b2 k. returns k)

  pub apply-Sane :
      (m : Message)
      → Fits num_ticks pool_cap most b m
      → Returns (λ _ b2. Sane num_ticks pool_cap most b2) (apply num_ticks pool_cap m b)
  apply-Sane m fits = apply_fields-Sane m.type m.price m.qty m.id m.side fits

  step-Sane : {b2 : Book} → Step num_ticks pool_cap most b b2 → Sane num_ticks pool_cap most b2
  step-Sane {b2} (message m fits e) =
      Returns-result (λ _ c. Sane num_ticks pool_cap most c) tt b2 (apply-Sane m fits) e
  step-Sane {b2} (order side price qty post_only id near fits e) =
      Returns-result (λ _ c. Sane num_ticks pool_cap most c) id b2
        (order-Sane side price qty post_only near fits) e
  step-Sane {b2} (iceberg_order side price display_qty total_qty id near fits e) =
      Returns-result (λ _ c. Sane num_ticks pool_cap most c) id b2
        (iceberg-Sane side price display_qty total_qty near fits) e

level_total-bounds :
    {num_ticks pool_cap : ℕ} (most : ℕ) {b : Book} (v : View)
    → IsBook num_ticks pool_cap b v
    → SmallView most v
    → pool_cap * most < 2 ^ 63
    → (i : ℕ) → (pos 0 ≤ℤ (b.levels i).total_qty) × ((b.levels i).total_qty <ℤ pos (2 ^ 63))
level_total-bounds {num_ticks} {pool_cap} most v w s room i =
    let (low, high) = total_bounds most (v.queue i) (s i) in
    let many : length (v.queue i) * most ≤ pool_cap * most =
      mul-le-mul_right most (length-queue w i) in
    rw (w.stored.sum i) (low, omega (arith, high, many, room))

module _ {num_ticks pool_cap most : ℕ} (small : num_ticks ≤ 2 ^ 18)
    (addressable : pool_cap < 2 ^ 32) (base : ℤ) where
  pub Reachable-Sane :
      {b : Book} → Reachable num_ticks pool_cap most base b → Sane num_ticks pool_cap most b
  Reachable-Sane fresh = (no_orders pool_cap, new_book-IsBook num_ticks pool_cap base, λ i. tt)
  Reachable-Sane (after_step r e) =
      let (v, w, s) = Reachable-Sane r in step-Sane small addressable v w s e

  -- From a new book of at most 2 ^ 18 levels and fewer than 2 ^ 32 slots, take any sequence of calls of
  -- `apply`, `new_order` (post-only or not) and `new_iceberg_order` that returned, in any order, with
  -- prices whose distance from the base is a signed 64-bit number and 64-bit ids of an odd generation,
  -- with at most `most` lots in each order, where the arena's slots times `most` is below 2 ^ 63, and
  -- with reductions that are not negative. The book that it leaves is well formed: links, totals,
  -- indices and best prices are those of the queues, and no bid stands at or above an ask. Each order
  -- shows and reserves at most `most` lots, and the total of every level lies between 0 and
  -- 2 ^ 63 - 1. And `apply` of the next such message returns: no dead slot is accessed and its loops
  -- end within their fuel, so that the sequence goes on.
  pub Reachable-Safe :
      {b : Book}
      → pool_cap * most < 2 ^ 63
      → Reachable num_ticks pool_cap most base b
      → (m : Message) → Fits num_ticks pool_cap most b m
      → Sane num_ticks pool_cap most b
        × ((i : ℕ) → (pos 0 ≤ℤ (b.levels i).total_qty) × ((b.levels i).total_qty <ℤ pos (2 ^ 63)))
        × Returns (λ _ b2. Reachable num_ticks pool_cap most base b2) (apply num_ticks pool_cap m b)
  Reachable-Safe room r m fits =
      let (v, w, s) = Reachable-Sane r in
      (
        (v, w, s),
        level_total-bounds most v w s room,
        weaken (Returns-itself (apply-Sane small addressable v w s m fits))
            (λ _ b2 e. after_step r (message m fits e)),
      )
