-- ===== src/ArenaRing.antt =====
-- include/lob/arena_ring.hpp: the ring whose slots are written and read in place. A slot's address is
-- its index; `T` is what the bytes of a slot hold.
pub mod Slots
use c_order_book.Prelude.{ℕ, ◌%◌, Bool, Option, none, some, leb, if◌then◌else◌}
use c_order_book.Prelude.Word.{add64, sub64, update}

pub record ArenaRing (T : Type 0) : Type 0 where
  pub head : ℕ
  pub head_shadow : ℕ
  pub tail_cache : ℕ
  pub tail : ℕ
  pub tail_shadow : ℕ
  pub head_cache : ℕ
  pub slots : ℕ → T

abbrev pub new_arena_ring : {T : Type 0} → (ℕ → T) → ArenaRing T
new_arena_ring slots = record {
  head = 0;
  head_shadow = 0;
  tail_cache = 0;
  tail = 0;
  tail_shadow = 0;
  head_cache = 0;
  slots = slots;
}

module _ {T : Type 0} where
  -- `head_.store(++head_shadow_)`
  unfoldable pub publish : ArenaRing T → ArenaRing T
  publish r = record r { head = add64 r.head_shadow 1; head_shadow = add64 r.head_shadow 1 }

  -- `tail_.store(++tail_shadow_)`
  unfoldable pub release : ArenaRing T → ArenaRing T
  release r = record r { tail = add64 r.tail_shadow 1; tail_shadow = add64 r.tail_shadow 1 }

  unfoldable pub size_approx : ArenaRing T → ℕ
  size_approx r = sub64 r.head r.tail

  -- the owner of slot `n` writes its bytes
  abbrev pub write_bytes : ℕ → T → ArenaRing T → ArenaRing T
  write_bytes n bytes r = record r { slots = update r.slots n bytes }

  -- `tail_shadow_ >= head_cache_`
  abbrev pub seems_empty : ArenaRing T → Bool
  seems_empty r = leb r.head_cache r.tail_shadow

-- `cap` is CapacityPow2, so that `i & MASK` is `i % cap`.
module _ {T : Type 0} (cap : ℕ) where
  -- `head_shadow_ - tail_cache_ >= CapacityPow2`
  abbrev pub seems_full : ArenaRing T → Bool
  seems_full r = leb cap (sub64 r.head_shadow r.tail_cache)

  unfoldable pub try_acquire : ArenaRing T → Option ℕ × ArenaRing T
  try_acquire r =
      let fresh = record r { tail_cache = r.tail } in
      if seems_full r
      then (if seems_full fresh then (none, fresh) else (some (r.head_shadow % cap), fresh))
      else (some (r.head_shadow % cap), r)

  unfoldable pub try_front : ArenaRing T → Option ℕ × ArenaRing T
  try_front r =
      let fresh = record r { head_cache = r.head } in
      if seems_empty r
      then (if seems_empty fresh then (none, fresh) else (some (r.tail_shadow % cap), fresh))
      else (some (r.tail_shadow % cap), r)
