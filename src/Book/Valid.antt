-- ===== src/Book/Valid.antt =====
-- What a state of the book stands for: a queue of entries and a side for each level, and the free
-- slots of the arena; and the invariant that relates the two.
use c_order_book.Prelude.{
  ℕ, ◌-◌, ◌^◌, ◌%◌, ◌<◌, ◌≡◌, ◌≢◌, ◌∙◌, ap, sym, Bool, true, false, not, ◌&&◌, arith, ◌==◌,
  Bool-cases, inl, inr, Option, none, List, [], ◌∷◌,
}
use c_order_book.Prelude.Int.{
  ℤ, pos, negsuc, pos_part, neg_part, ◌+ℤ◌, ◌-ℤ◌, ◌<ℤ◌, ◌≤ℤ◌, +ℤ_parts, int_laws, +ℤ_comm,
  +ℤ_cancel,
}
use c_order_book.Prelude.Word.{to_u64}
use c_order_book.Pool.{object, free_node}
use c_order_book.Pool.Free.{IsFree, is_free}
use c_order_book.Order.{Side, Order, is_buy}
use c_order_book.Book.State.{Book, tick}
use c_order_book.Book.Links.{make_id}
use c_order_book.Book.Queue.{Entry, first_or, last_or, has_slot, Distinct, total, Seg, Seg-has_slot}
use c_order_book.Book.Top.{IsTop}

pub record View : Type 0 where
  pub queue : ℕ → List Entry
  pub side : ℕ → Side
  pub free : List ℕ

abbrev pub price_of : Book → ℕ → ℤ
price_of b i = b.base +ℤ pos i

abbrev pub occupied : List Entry → Bool
occupied [] = false
occupied (e ∷ es) = true

abbrev pub bid_at : View → ℕ → Bool
bid_at v i = occupied (v.queue i) && is_buy (v.side i)

abbrev pub ask_at : View → ℕ → Bool
ask_at v i = occupied (v.queue i) && not (is_buy (v.side i))

-- The id of a live order carries its slot's generation; lots and clips are positive.
pub record IsGood (generations : ℕ → ℕ) (e : Entry) : Type 0 where
  pub named : e.id ≡ make_id (generations e.slot) e.slot
  pub shown : pos 0 <ℤ e.qty
  pub reserve : pos 0 ≤ℤ e.hidden
  pub clip : pos 0 <ℤ e.hidden → pos 0 <ℤ e.display

abbrev pub AllGood : (ℕ → ℕ) → List Entry → Type 0
AllGood g [] = Unit {0}
AllGood g (e ∷ es) = IsGood g e × AllGood g es

-- The arena and the levels hold the queues, and every object of the arena is in the queue of its
-- price.
pub record IsStored (pool_cap : ℕ) (b : Book) (v : View) : Type 0 where
  pub free : IsFree b.pool v.free
  pub capacity : b.pool.capacity ≡ pool_cap
  pub linked : (i : ℕ) → Seg (price_of b i) (v.side i) b.pool.cells none (v.queue i) none
  pub distinct : (i : ℕ) → Distinct (v.queue i)
  pub head : (i : ℕ) → (b.levels i).head ≡ first_or none (v.queue i)
  pub tail : (i : ℕ) → (b.levels i).tail ≡ last_or none (v.queue i)
  pub sum : (i : ℕ) → (b.levels i).total_qty ≡ total (v.queue i)
  pub bounded : (n : ℕ) (o : Order) → b.pool.cells n ≡ object o → n < pool_cap
  pub resides :
      (n : ℕ) (o : Order) → b.pool.cells n ≡ object o → (i : ℕ) × (has_slot n (v.queue i) ≡ true)

-- A slot's generation fits its 32 bits; it is even while the slot is free and odd while an order is in it.
pub record IsBook (num_ticks pool_cap : ℕ) (b : Book) (v : View) : Type 0 where
  pub stored : IsStored pool_cap b v
  pub good : (i : ℕ) → AllGood b.generations (v.queue i)
  pub wide : (n : ℕ) → b.generations n < 2 ^ 32
  pub parity : (n : ℕ) → n < pool_cap → (b.generations n % 2 == 0) ≡ is_free (b.pool.cells n)
  pub top : IsTop num_ticks b (bid_at v) (ask_at v)
  pub uncrossed : (i j : ℕ) → bid_at v i ≡ true → ask_at v j ≡ true → i < j

pub price-injective : (z : ℤ) (i j : ℕ) → z +ℤ pos i ≡ z +ℤ pos j → i ≡ j
price-injective z i j e =
    omega (arith, +ℤ_parts z (pos i), +ℤ_parts z (pos j), ap pos_part e, ap neg_part e)

pub tick-price : (z : ℤ) (i : ℕ) → i < 2 ^ 64 → tick (z +ℤ pos i) z ≡ i
unfolding tick to_u64
tick-price z i h =
    ap to_u64 (ap (λ t. t -ℤ z) (+ℤ_comm z (pos i)) ∙ +ℤ_cancel (pos i) z) ∙ omega arith

small_distance :
    (d : ℤ)
    → negsuc (2 ^ 63 - 1) ≤ℤ d
    → d ≤ℤ pos (2 ^ 63 - 1)
    → to_u64 d < 2 ^ 63
    → d ≡ pos (to_u64 d)
unfolding to_u64
small_distance (pos n) lo hi h = ap pos (omega arith)
small_distance (negsuc n) lo hi h = absurd (omega arith)

-- A price whose distance from the base fits a signed 64-bit integer is the price of its tick.
pub price-tick :
    (z p : ℤ)
    → negsuc (2 ^ 63 - 1) ≤ℤ p -ℤ z
    → p -ℤ z ≤ℤ pos (2 ^ 63 - 1)
    → tick p z < 2 ^ 63
    → p ≡ z +ℤ pos (tick p z)
unfolding tick
price-tick z p lo hi h =
    let back : z +ℤ (p -ℤ z) ≡ p = omega int_laws in
    sym back ∙ ap (λ d. z +ℤ d) (small_distance (p -ℤ z) lo hi h)

module _ {pool_cap : ℕ} {b : Book} {v : View} (s : IsStored pool_cap b v) where
  -- A slot is in the queue of one level only, and a free slot in none.
  pub elsewhere :
      (n i j : ℕ) → i ≢ j → has_slot n (v.queue i) ≡ true → has_slot n (v.queue j) ≡ false
  elsewhere n i j ne h = elim (Bool-cases (has_slot n (v.queue j))) [
    | inr out ↦ out
    | inl both ↦
        let a =
          Seg-has_slot (price_of b i) (v.side i) b.pool.cells none none (v.queue i) n (s.linked i)
            h in
        let c =
          Seg-has_slot (price_of b j) (v.side j) b.pool.cells none none (v.queue j) n (s.linked j)
            both in
        absurd (ne (price-injective b.base i j (ground (arith, a.1, a.2, c.1, c.2))))
  ]

  pub free_nowhere :
      (n j : ℕ) (k : Option ℕ) → b.pool.cells n ≡ free_node k → has_slot n (v.queue j) ≡ false
  free_nowhere n j k e = elim (Bool-cases (has_slot n (v.queue j))) [
    | inr out ↦ out
    | inl h ↦
        let a =
          Seg-has_slot (price_of b j) (v.side j) b.pool.cells none none (v.queue j) n (s.linked j)
            h in
        cc (a.1)
  ]

  pub queued-inside : (n i : ℕ) → has_slot n (v.queue i) ≡ true → n < pool_cap
  queued-inside n i h =
      let (o, live, _, _) =
        Seg-has_slot (price_of b i) (v.side i) b.pool.cells none none (v.queue i) n (s.linked i)
          h in
      s.bounded n o live
