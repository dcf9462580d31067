-- ===== src/SpscRing.antt =====
-- include/lob/spsc_ring.hpp: the bounded single-producer, single-consumer ring. An operation
-- returns its result and the new ring. The two threads' interleavings are in SpscRing/Threads.
pub mod Queue
pub mod Threads
use c_order_book.Prelude.{ℕ, ◌%◌, Bool, true, false, Option, none, some, ltb, leb, if◌then◌else◌}
use c_order_book.Prelude.Word.{add64, sub64, update}

-- `SpscRing<T, CapacityPow2>`: the two indices, each side's stale copy of the other's, the slots.
pub record Ring (T : Type 0) : Type 0 where
  pub head : ℕ
  pub tail_cache : ℕ
  pub tail : ℕ
  pub head_cache : ℕ
  pub buf : ℕ → T

abbrev pub new_ring : {T : Type 0} → (ℕ → T) → Ring T
new_ring slots = record { head = 0; tail_cache = 0; tail = 0; head_cache = 0; buf = slots }

module _ {T : Type 0} where
  -- `tail_cache_ = tail_.load(acquire)`
  abbrev pub refresh_tail : Ring T → Ring T
  refresh_tail r = record r { tail_cache = r.tail }

  -- `head_.store(head + 1, release)`
  abbrev pub publish : Ring T → Ring T
  publish r = record r { head = add64 r.head 1 }

  -- `tail >= head_cache_`
  abbrev pub looks_empty : Ring T → Bool
  looks_empty r = leb r.head_cache r.tail

  -- `head_cache_ = head_.load(acquire)`
  abbrev pub refresh_head : Ring T → Ring T
  refresh_head r = record r { head_cache = r.head }

  -- `tail_.store(tail + 1, release)`
  abbrev pub hand_back : Ring T → Ring T
  hand_back r = record r { tail = add64 r.tail 1 }

  unfoldable pub size_approx : Ring T → ℕ
  size_approx r = sub64 r.head r.tail

-- `cap` is CapacityPow2, so that `i & MASK` is `i % cap`.
module _ {T : Type 0} (cap : ℕ) where
  -- `head - tail_cache_ >= CapacityPow2`
  abbrev pub looks_full : Ring T → Bool
  looks_full r = leb cap (sub64 r.head r.tail_cache)

  -- `buf_[head & MASK] = item`
  abbrev pub write_slot : T → Ring T → Ring T
  write_slot item r = record r { buf = update r.buf (r.head % cap) item }

  unfoldable pub try_push : T → Ring T → Bool × Ring T
  try_push item r =
      if looks_full r
      then (if looks_full (refresh_tail r)
          then (false, refresh_tail r)
          else (true, publish (write_slot item (refresh_tail r))))
      else (true, publish (write_slot item r))

  -- `buf_[tail & MASK]`
  abbrev pub read_slot : Ring T → T
  read_slot r = r.buf (r.tail % cap)

  -- The option is what goes through `out`: `none` for `return false`.
  unfoldable pub try_pop : Ring T → Option T × Ring T
  try_pop r =
      if looks_empty r
      then (if looks_empty (refresh_head r)
          then (none, refresh_head r)
          else (some (read_slot (refresh_head r)), hand_back (refresh_head r)))
      else (some (read_slot r), hand_back r)
