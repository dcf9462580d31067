-- ===== src/Book/Unlink/Outcome.antt =====
-- What `cancel` and `reduce` return, and the book that they leave.
use c_order_book.Prelude.{
  ℕ, ◌^◌, ◌%◌, ◌<◌, ◌≤◌, ◌≡◌, ap, sym, refl, Bool, true, false, arith, Bool-cases, inl, inr, List,
  ◌∷◌, ◌++◌,
}
use mathlib.Core.Path.{subst}
use c_order_book.Prelude.Int.{ℤ, pos, ◌<ℤ◌, ◌≤ℤ◌, ltb_ℤ}
use c_order_book.Book.State.{Book}
use c_order_book.Book.Links.{slot_of, generation_of, unlink_and_release}
use c_order_book.Book.Engine.{passes, cancel, reduce}
use c_order_book.Book.Queue.{Entry}
use c_order_book.Book.Valid.{View, IsBook, AllGood, tick-price}
use c_order_book.Book.Returns.{Returns, returns, bind}
use c_order_book.Pool.Free.{IsFree}
use c_order_book.Book.Access.{load_order-ok, store_order-ok}
use c_order_book.Book.Unlink.{requeued}
use c_order_book.Book.Unlink.Finds.{has_id, Stands, stands, Finds, passes-Finds, stale, AllGood-at}
use c_order_book.Book.Unlink.Lessened.{lessened, lessened-IsBook}
use c_order_book.Book.Unlink.Run.{order_of, order_of-live}
use c_order_book.Book.Unlink.Kept.{in_ladder, unlink_and_release-IsBook}

-- The id is that of no order and nothing changes, or its order leaves the queue and no other does.
pub data Cancels (num_ticks pool_cap : ℕ) (b : Book) (v : View) (id : ℕ)
    : Bool → Book → Type 0 where
  unknown : ((i : ℕ) → has_id id (v.queue i) ≡ false) → Cancels num_ticks pool_cap b v id false b
  cancelled :
      {b2 : Book} (idx : ℕ) (ys zs : List Entry) (e : Entry)
      → Stands v id idx ys zs e
      → IsBook num_ticks pool_cap b2 (requeued v idx (ys ++ zs) (slot_of id ∷ v.free))
      → passes num_ticks pool_cap id b2 ≡ false
      → Cancels num_ticks pool_cap b v id true b2

-- Nothing changes; or the order keeps its place with fewer lots; or it leaves the queue.
pub data Reduces (num_ticks pool_cap : ℕ) (b : Book) (v : View) (id : ℕ) (q : ℤ)
    : ℤ → Book → Type 0 where
  unknown :
      ((i : ℕ) → has_id id (v.queue i) ≡ false) → Reduces num_ticks pool_cap b v id q (pos 0) b
  lessens :
      {b2 : Book} (idx : ℕ) (ys zs : List Entry) (e : Entry)
      → Stands v id idx ys zs e
      → q <ℤ e.qty
      → IsBook num_ticks pool_cap b2 (requeued v idx (ys ++ (lessened e q ∷ zs)) v.free)
      → Reduces num_ticks pool_cap b v id q q b2
  exhausts :
      {b2 : Book} (idx : ℕ) (ys zs : List Entry) (e : Entry)
      → Stands v id idx ys zs e
      → e.qty ≤ℤ q
      → pos 0 <ℤ e.qty
      → IsBook num_ticks pool_cap b2 (requeued v idx (ys ++ zs) (slot_of id ∷ v.free))
      → passes num_ticks pool_cap id b2 ≡ false
      → Reduces num_ticks pool_cap b v id q e.qty b2

module _ {num_ticks pool_cap : ℕ} (small : num_ticks ≤ 2 ^ 18) (addressable : pool_cap < 2 ^ 32)
    {b : Book} {v : View} (w : IsBook num_ticks pool_cap b v) (id : ℕ) (word : id < 2 ^ 64)
    (odd : generation_of id % 2 ≡ 1) where
  removes :
      (idx : ℕ) (ys zs : List Entry) (e : Entry)
      → Stands v id idx ys zs e
      → Returns
          (λ _ b2. IsBook num_ticks pool_cap b2 (requeued v idx (ys ++ zs) (slot_of id ∷ v.free)))
          (unlink_and_release num_ticks (slot_of id) b)
  removes idx ys zs e s =
      subst
        (λ n.
          Returns (λ _ b2. IsBook num_ticks pool_cap b2 (requeued v idx (ys ++ zs) (n ∷ v.free)))
            (unlink_and_release num_ticks n b))
        s.slot (unlink_and_release-IsBook small w idx ys zs e s.queue)

  -- The id of a released slot does not pass again: the slot's generation is even.
  retired :
      {b2 : Book} {v2 : View} {xs : List ℕ}
      → IsBook num_ticks pool_cap b2 v2
      → v2.free ≡ slot_of id ∷ xs
      → passes num_ticks pool_cap id b2 ≡ false
  unfolding passes
  retired {b2} {v2} {xs} w2 front =
      let frees = subst (IsFree b2.pool) front w2.stored.free in
      let inside : slot_of id < pool_cap =
        omega (arith, frees.within (slot_of id) (ground arith), w2.stored.capacity) in
      ground (arith, w2.parity (slot_of id) inside, frees.chain, odd)

  cancel_found :
      Finds v id
      → passes num_ticks pool_cap id b ≡ true
      → Returns (Cancels num_ticks pool_cap b v id) (cancel num_ticks pool_cap id b)
  unfolding cancel
  cancel_found (stands idx ys zs e s) h = rw h (
      bind (removes idx ys zs e s) (λ _ b2 k. returns (cancelled idx ys zs e s k (retired k refl))))

  -- In a well-formed book of at most 2 ^ 18 levels and fewer than 2 ^ 32 slots, `cancel` of a 64-bit
  -- id with an odd generation, as every id that the book gives out has, returns. If it returns false
  -- then no order has the id and nothing changes. If it returns true then the order with the id
  -- leaves its queue, the book stays well formed with all other orders where they stood, the slot is
  -- the first free one, and the id is not accepted again.
  pub cancel-Cancels : Returns (Cancels num_ticks pool_cap b v id) (cancel num_ticks pool_cap id b)
  unfolding cancel
  cancel-Cancels = elim (Bool-cases (passes num_ticks pool_cap id b)) [
    | inl h ↦ cancel_found (passes-Finds addressable w id word odd h) h
    | inr h ↦ rw h (returns (unknown (stale addressable w id h)))
  ]

  module _ (q : ℤ) where
    reduce_found :
        Finds v id
        → passes num_ticks pool_cap id b ≡ true
        → Returns (Reduces num_ticks pool_cap b v id q) (reduce num_ticks pool_cap id q b)
    unfolding reduce
    reduce_found (stands idx ys zs e s) h =
        let live = order_of-live w.stored idx ys zs e s.queue in
        rw (h, sym s.slot)
          (rw (load_order-ok e.slot b (order_of w.stored idx ys zs e s.queue) live)
            (elim (Bool-cases (ltb_ℤ q e.qty)) [
              | inl part ↦ rw part (
                  let fits : idx < 2 ^ 64 = omega (arith, in_ladder small w idx ys zs e s.queue) in
                  let less : q <ℤ e.qty = ground (arith, part) in
                  rw
                    (
                      store_order-ok e.slot b (order_of w.stored idx ys zs e s.queue) live,
                      tick-price b.base idx fits,
                    )
                    (returns
                      (lessens idx ys zs e s less (lessened-IsBook w idx ys zs e s.queue q less))))
              | inr all ↦ rw all (
                  let some_lots : pos 0 <ℤ e.qty =
                    (AllGood-at b.generations ys zs e
                      (subst (AllGood b.generations) s.queue (w.good idx))).shown in
                  bind (unlink_and_release-IsBook small w idx ys zs e s.queue) (λ _ b2 k. returns (
                    exhausts idx ys zs e s (ground (arith, all)) some_lots
                      (subst
                        (λ n. IsBook num_ticks pool_cap b2 (requeued v idx (ys ++ zs) (n ∷ v.free)))
                        s.slot k)
                      (retired k (ap (λ n. n ∷ v.free) s.slot)))))
            ]))

    pub reduce-Reduces :
        Returns (Reduces num_ticks pool_cap b v id q) (reduce num_ticks pool_cap id q b)
    unfolding reduce
    reduce-Reduces = elim (Bool-cases (passes num_ticks pool_cap id b)) [
      | inl h ↦ reduce_found (passes-Finds addressable w id word odd h) h
      | inr h ↦ rw h (returns (unknown (stale addressable w id h)))
    ]
