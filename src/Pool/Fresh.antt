-- ===== src/Pool/Fresh.antt =====
-- The free list of a new arena: all slots, in order.
use c_order_book.Prelude.{
  ℕ, zero, suc, ◌<◌, ◌≤◌, ◌≡◌, ◌∙◌, sym, refl, true, false, List, [], ◌∷◌, arith, ◌==◌, Bool-cases,
  inl, inr,
}
use c_order_book.Pool.{Pool, thread, new_pool}
use c_order_book.Pool.Free.{IsFree, Chain, Chain-update, has, first, is_free}

-- the slots below `i`, in front of `xs`
abbrev pub slots_below : ℕ → List ℕ → List ℕ
slots_below zero xs = xs
slots_below (suc i) xs = slots_below i (i ∷ xs)

lower : {i size : ℕ} (n : ℕ) → (suc i ≤ n) × (n < size) → (i ≤ n) × (n < size)
lower n h = (omega (arith, h.0), h.1)

at_slot : {i size : ℕ} (n : ℕ) → suc i ≤ size → (n == i) ≡ true → (i ≤ n) × (n < size)
at_slot n l e = (grind arith, grind arith)

module _ {T : Type 0} where
  -- The loop of the constructor with the slots from `i` up on the list.
  record Threaded (i : ℕ) (p : Pool T) (xs : List ℕ) : Type 0 where
    unused : (n : ℕ) → is_free (p.cells n) ≡ true
    head : p.free_head ≡ first xs
    chain : Chain p.cells xs
    within : (n : ℕ) → has n xs ≡ true → (i ≤ n) × (n < p.capacity)
    all : (n : ℕ) → i ≤ n → n < p.capacity → has n xs ≡ true

  thread-IsFree :
      (i : ℕ) (p : Pool T) (xs : List ℕ)
      → i ≤ p.capacity
      → Threaded i p xs
      → IsFree (thread i p) (slots_below i xs)
  unfolding thread
  thread-IsFree zero p xs l t = record {
    head = t.head;
    chain = t.chain;
    within = λ n h. (t.within n h).1;
    exactly = λ n h. t.unused n ∙ sym (t.all n (omega arith) h);
  }
  thread-IsFree (suc i) p xs l t =
      let out : has i xs ≡ false = ground (arith, t.within i) in
      thread-IsFree i _ (i ∷ xs) (omega (arith, l)) (record {
        unused = λ n. ground (arith, t.unused n);
        head = refl;
        chain = (ground (arith, t.head), out, Chain-update p.cells i _ xs out t.chain);
        within = λ n h. elim (Bool-cases (n == i)) [
          | inl e ↦ at_slot n l e
          | inr o ↦ lower n (t.within n (ground (arith, h)))
        ];
        all = λ n h k. elim (Bool-cases (n == i)) [
          | inl e ↦ rw e refl
          | inr o ↦ rw o (t.all n (grind arith) k)
        ];
      })

  pub new_pool-IsFree : (size : ℕ) → IsFree {T = T} (new_pool size) (slots_below size [])
  unfolding new_pool
  new_pool-IsFree size = thread-IsFree size _ [] (omega arith) (record {
    unused = λ n. refl;
    head = refl;
    chain = tt;
    within = λ n h. absurd (ground (arith, h));
    all = λ n h k. absurd (omega (arith, h, k));
  })

  -- Threading changes no capacity, and puts an object nowhere.
  thread-capacity : (i : ℕ) (p : Pool T) → (thread i p).capacity ≡ p.capacity
  unfolding thread
  thread-capacity zero p = refl
  thread-capacity (suc i) p = thread-capacity i _

  thread-empty :
      (i : ℕ) (p : Pool T)
      → ((n : ℕ) → is_free (p.cells n) ≡ true)
      → (n : ℕ) → is_free ((thread i p).cells n) ≡ true
  unfolding thread
  thread-empty zero p h n = h n
  thread-empty (suc i) p h n = thread-empty i _ (λ k. ground (arith, h k)) n

pub new_pool-capacity : (T : Type 0) (size : ℕ) → (new_pool {T = T} size).capacity ≡ size
unfolding new_pool
new_pool-capacity T size = thread-capacity size _

pub new_pool-empty : (T : Type 0) (size n : ℕ) → is_free ((new_pool {T = T} size).cells n) ≡ true
unfolding new_pool
new_pool-empty T size n = thread-empty size _ (λ k. refl) n
