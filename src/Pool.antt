-- ===== src/Pool.antt =====
-- include/lob/memory_pool.hpp: the arena with its intrusive, last-in first-out free list. A pointer
-- into the arena is the index of its slot, so `index_of` and `at` are the identity. `none` as the
-- result of an operation is undefined behaviour: an access to a slot with no object in it.
pub mod Free
pub mod Fresh
use c_order_book.Prelude.{ℕ, zero, suc, Option, none, some}
use c_order_book.Prelude.Word.{update}

-- A slot holds an object, or the `FreeNode` that overlays a dead object's bytes.
pub data Cell (T : Type 0) : Type 0 where
  free_node : Option ℕ → Cell T
  object : T → Cell T

pub record Pool (T : Type 0) : Type 0 where
  pub cells : ℕ → Cell T
  pub free_head : Option ℕ
  pub capacity : ℕ

module _ {T : Type 0} where
  -- `for (i = capacity; i-- > 0;) free_head_ = new (storage_ + i) FreeNode{free_head_}`
  unfoldable pub thread : ℕ → Pool T → Pool T
  thread zero p = p
  thread (suc i) p =
      thread i (record p { cells = update p.cells i (free_node p.free_head); free_head = some i })

  -- The constructor: zeroed storage, then the free list through all of it.
  unfoldable pub new_pool : ℕ → Pool T
  unfolding thread
  new_pool cap =
      thread cap (record { cells = λ _. free_node none; free_head = none; capacity = cap })

  -- `acquire(args...)` with the object that the placement new builds; a null pointer is `none`.
  unfoldable pub acquire : T → Pool T → Option (Option ℕ × Pool T)
  acquire v p = elim p.free_head [
    | none ↦ some (none, p)
    | some n ↦ elim (p.cells n) [
      | free_node next ↦
          some (some n, record p { cells = update p.cells n (object v); free_head = next })
      | object _ ↦ none
    ]
  ]

  -- `release(obj)`
  unfoldable pub release : ℕ → Pool T → Option (Pool T)
  release n p = elim (p.cells n) [
    | object _ ↦
        some (record p { cells = update p.cells n (free_node p.free_head); free_head = some n })
    | free_node _ ↦ none
  ]

  -- `*obj`
  abbrev pub load : ℕ → Pool T → Option T
  load n p = elim (p.cells n) [ object v ↦ some v | free_node _ ↦ none ]

  -- `*obj = v`
  abbrev pub store : ℕ → T → Pool T → Option (Pool T)
  store n v p = elim (p.cells n) [
    | object _ ↦ some (record p { cells = update p.cells n (object v) })
    | free_node _ ↦ none
  ]
