-- ===== src/Pool/Free.antt =====
-- The free list: which slots are on it, and what `acquire` and `release` do to it.
use c_order_book.Prelude.{
  ℕ, ◌<◌, ◌≡◌, refl, Bool, true, false, ◌||◌, Option, none, some, List, [], ◌∷◌, arith, ◌==◌,
}
use c_order_book.Prelude.Word.{update}
use c_order_book.Pool.{Cell, free_node, object, Pool, acquire, release}

abbrev pub first : List ℕ → Option ℕ
first [] = none
first (x ∷ xs) = some x

abbrev pub has : ℕ → List ℕ → Bool
has a [] = false
has a (x ∷ xs) = (a == x) || has a xs

module _ {T : Type 0} where
  -- The slots `xs` hold free nodes, each leading to the next.
  abbrev pub Chain : (ℕ → Cell T) → List ℕ → Type 0
  Chain c [] = Unit {0}
  Chain c (x ∷ xs) = (c x ≡ free_node (first xs)) × (has x xs ≡ false) × Chain c xs

  abbrev pub is_free : Cell T → Bool
  is_free (free_node _) = true
  is_free (object _) = false

  -- The free list is `xs`: exactly the slots of the arena that hold no object, each once.
  pub record IsFree (p : Pool T) (xs : List ℕ) : Type 0 where
    pub head : p.free_head ≡ first xs
    pub chain : Chain p.cells xs
    pub within : (n : ℕ) → has n xs ≡ true → n < p.capacity
    pub exactly : (n : ℕ) → n < p.capacity → is_free (p.cells n) ≡ has n xs

  pub Chain-update :
      (c : ℕ → Cell T) (n : ℕ) (v : Cell T) (xs : List ℕ)
      → has n xs ≡ false
      → Chain c xs
      → Chain (update c n v) xs
  Chain-update c n v [] h k = tt
  Chain-update c n v (x ∷ xs) h k =
      (ground (arith, k.0), k.1, Chain-update c n v xs (ground arith) k.2)

  -- `acquire` hands out the head of the free list, and returns null exactly if that is empty.
  pub acquire-nil : (v : T) (p : Pool T) → IsFree p [] → acquire v p ≡ some (none, p)
  unfolding acquire
  acquire-nil v p f = rw f.head

  -- The arena after the slot `x` was taken from the front of the free list, which leaves `xs`.
  abbrev pub taken : T → ℕ → List ℕ → Pool T → Pool T
  taken v x xs p = record p { cells = update p.cells x (object v); free_head = first xs }

  pub acquire-cons :
      (v : T) (p : Pool T) (x : ℕ) (xs : List ℕ)
      → IsFree p (x ∷ xs)
      → acquire v p ≡ some (some x, taken v x xs p)
  unfolding acquire
  acquire-cons v p x xs f = ground (arith, f.head, f.chain)

  pub taken-IsFree :
      (v : T) (p : Pool T) (x : ℕ) (xs : List ℕ) → IsFree p (x ∷ xs) → IsFree (taken v x xs p) xs
  taken-IsFree v p x xs f = record {
    head = refl;
    chain = Chain-update p.cells x (object v) xs f.chain.1 f.chain.2;
    within = λ n h. f.within n (ground arith);
    exactly = λ n h. ground (arith, f.exactly n, f.chain);
  }

  -- A write to a slot with an object in it leaves the free list.
  pub store-IsFree :
      (p : Pool T) (n : ℕ) (v w : T) (xs : List ℕ)
      → p.cells n ≡ object v
      → n < p.capacity
      → IsFree p xs
      → IsFree (record p { cells = update p.cells n (object w) }) xs
  store-IsFree p n v w xs e l f =
      let out : has n xs ≡ false = ground (arith, f.exactly n l, e) in
      record {
        head = f.head;
        chain = Chain-update p.cells n (object w) xs out f.chain;
        within = f.within;
        exactly = λ k h. ground (arith, f.exactly k h, e, out);
      }

  -- `release` puts the slot of an object on the front of the free list.
  abbrev pub given_back : ℕ → List ℕ → Pool T → Pool T
  given_back x xs p = record p {
    cells = update p.cells x (free_node (first xs));
    free_head = some x;
  }

  pub release-cons :
      (p : Pool T) (x : ℕ) (v : T) (xs : List ℕ)
      → IsFree p xs
      → p.cells x ≡ object v
      → release x p ≡ some (given_back x xs p)
  unfolding release
  release-cons p x v xs f e = ground (arith, f.head, e)

  pub given_back-IsFree :
      (p : Pool T) (x : ℕ) (v : T) (xs : List ℕ)
      → IsFree p xs
      → p.cells x ≡ object v
      → x < p.capacity
      → IsFree (given_back x xs p) (x ∷ xs)
  given_back-IsFree p x v xs f e b =
      let out : has x xs ≡ false = ground (arith, f.exactly x b, e) in
      record {
        head = refl;
        chain = (ground arith, out, Chain-update p.cells x _ xs out f.chain);
        within = λ n h. ground (arith, f.within n);
        exactly = λ n h. ground (arith, f.exactly n);
      }
