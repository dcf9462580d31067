-- ===== src/Book/Unlink/Finds.antt =====
-- How `cancel` and `reduce` find an order by its id.
use c_order_book.Prelude.{
  ℕ, ◌^◌, ◌%◌, ◌<◌, ◌≡◌, ◌∙◌, ap, sym, refl, Bool, true, false, ◌||◌, arith, ◌==◌, Bool-cases, inl,
  inr, List, [], ◌∷◌, ◌++◌,
}
use mathlib.Core.Path.{subst}
use c_order_book.Book.State.{Book}
use c_order_book.Book.Ids.{slot_of-make_id, generation_of-make_id, make_id-parts}
use c_order_book.Book.Links.{make_id, slot_of, generation_of}
use c_order_book.Book.Engine.{passes}
use c_order_book.Book.Queue.{Entry, has_slot}
use c_order_book.Book.Valid.{View, IsBook, IsGood, AllGood, queued-inside}
use c_order_book.Book.Unlink.{Located, located, locate}
use c_order_book.Book.Unlink.Stored.{object_of}

-- whether an order of the queue has the id
abbrev pub has_id : ℕ → List Entry → Bool
has_id id [] = false
has_id id (e ∷ es) = (id == e.id) || has_id id es

pub AllGood-at :
    (g : ℕ → ℕ) (ys zs : List Entry) (e : Entry) → AllGood g (ys ++ (e ∷ zs)) → IsGood g e
AllGood-at g [] zs e a = a.0
AllGood-at g (y ∷ ys) zs e a = AllGood-at g ys zs e a.1

-- What an order is found by: it stands at level `idx` between `ys` and `zs`.
pub record Stands (v : View) (id idx : ℕ) (ys zs : List Entry) (e : Entry) : Type 0 where
  pub queue : v.queue idx ≡ ys ++ (e ∷ zs)
  pub slot : e.slot ≡ slot_of id
  pub named : e.id ≡ id

pub data Finds (v : View) (id : ℕ) : Type 0 where
  stands : (idx : ℕ) (ys zs : List Entry) (e : Entry) → Stands v id idx ys zs e → Finds v id

module _ {num_ticks pool_cap : ℕ} (addressable : pool_cap < 2 ^ 32) {b : Book} {v : View}
    (w : IsBook num_ticks pool_cap b v) where
  pub passes-Finds :
      (id : ℕ)
      → id < 2 ^ 64
      → generation_of id % 2 ≡ 1
      → passes num_ticks pool_cap id b ≡ true
      → Finds v id
  unfolding passes
  passes-Finds id word odd h =
      let n = slot_of id in
      let inside : n < pool_cap = ground (arith, h) in
      let current : b.generations n ≡ generation_of id = ground (arith, h) in
      let live =
        object_of (b.pool.cells n) (sym (w.parity n inside) ∙ ground (arith, current, odd)) in
      let (idx, there) = w.stored.resides n live.0 live.1 in
      find idx current inside (locate n (v.queue idx) there) refl
    where
      find :
          (idx : ℕ)
          → b.generations (slot_of id) ≡ generation_of id
          → slot_of id < pool_cap
          → {q : List Entry} → Located (slot_of id) q
          → v.queue idx ≡ q
          → Finds v id
      find idx current inside (located ys e zs at) queue =
          let good =
            AllGood-at b.generations ys zs e (subst (AllGood b.generations) queue (w.good idx)) in
          stands idx ys zs e (record {
            queue = queue;
            slot = at;
            named =
                good.named
                ∙ ap (λ k. make_id (b.generations k) k) at
                ∙ ap (λ g. make_id g (slot_of id)) current
                ∙ make_id-parts id word (omega (arith, inside));
          })

  -- The ids of the orders in the queues pass.
  passes-has_id :
      (id : ℕ) (es : List Entry)
      → AllGood b.generations es
      → ((n : ℕ) → has_slot n es ≡ true → n < pool_cap)
      → has_id id es ≡ true
      → passes num_ticks pool_cap id b ≡ true
  unfolding passes
  passes-has_id id [] a inside h = absurd (ground arith)
  passes-has_id id (e ∷ es) a inside h = elim (Bool-cases (id == e.id)) [
    | inr later ↦ passes-has_id id es a.1 (λ n k. inside n (ground arith)) (ground arith)
    | inl here ↦
        let same : id ≡ make_id (b.generations e.slot) e.slot = ground (arith, here, a.0.named) in
        let low : e.slot < pool_cap = inside e.slot (ground arith) in
        rw same (
          rw
            (
              slot_of-make_id (b.generations e.slot) e.slot (omega arith),
              generation_of-make_id (b.generations e.slot) e.slot (w.wide e.slot) (omega arith),
            )
            (ground (arith, low)))
  ]

  -- An id that does not pass is that of no order.
  pub stale :
      (id : ℕ) → passes num_ticks pool_cap id b ≡ false → (i : ℕ) → has_id id (v.queue i) ≡ false
  stale id h i = elim (Bool-cases (has_id id (v.queue i))) [
    | inr out ↦ out
    | inl there ↦ absurd (
        ground (
          arith,
          h,
          passes-has_id id (v.queue i) (w.good i) (λ n k. queued-inside w.stored n i k) there,
        ))
  ]
