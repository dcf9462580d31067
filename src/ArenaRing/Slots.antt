-- ===== src/ArenaRing/Slots.antt =====
-- The queue that the slots between the two shadow indices hold, and what the four calls do to it.
use c_order_book.Prelude.{
  ℕ, ◌+◌, ◌-◌, ◌≤◌, ◌<◌, ◌≡◌, Bool, true, false, Option, none, some, List, arith,
}
use c_order_book.Prelude.Word.{add64, sub64, u64_mod}
use c_order_book.SpscRing.Queue.{
  window, length-window, window-push, window-update, window_of_pos, push, pop,
}
use c_order_book.ArenaRing.{ArenaRing, publish, release, write_bytes, try_acquire, try_front}

module _ {T : Type 0} (cap : ℕ) where
  abbrev pub held : ArenaRing T → List T
  held r = window cap r.slots r.tail_shadow (r.head_shadow - r.tail_shadow)

  pub record IsValid (r : ArenaRing T) : Type 0 where
    pub head_mirror : r.head ≡ r.head_shadow
    pub tail_mirror : r.tail ≡ r.tail_shadow
    pub tail_cache_le : r.tail_cache ≤ r.tail
    pub tail_le : r.tail ≤ r.head
    pub head_cache_le : r.head_cache ≤ r.head
    pub fits : r.head ≤ r.tail + cap
    pub cap_pos : 0 < cap

  -- The producer's use of the ring: acquire a slot, write it, publish it.
  abbrev pub produced : T → Option ℕ × ArenaRing T → Bool × ArenaRing T
  produced bytes (none, r) = (false, r)
  produced bytes (some n, r) = (true, publish (write_bytes n bytes r))

  -- The consumer's: look at the oldest slot, read it, release it.
  abbrev pub consumed : Option ℕ × ArenaRing T → Option T × ArenaRing T
  consumed (none, r) = (none, r)
  consumed (some n, r) = (some (r.slots n), release r)

  produced-IsValid :
      (bytes : T) (r : ArenaRing T)
      → IsValid r
      → r.head + 1 < u64_mod
      → IsValid (produced bytes (try_acquire cap r)).1
  unfolding try_acquire publish add64 sub64
  produced-IsValid bytes r v h = ground arith

  consumed-IsValid :
      (r : ArenaRing T) → IsValid r → r.head < u64_mod → IsValid (consumed (try_front cap r)).1
  unfolding try_front release add64 sub64
  consumed-IsValid r v h = ground arith

  produced_refines_lem :
      (bytes : T) (r : ArenaRing T)
      → IsValid r
      → r.head + 1 < u64_mod
      → ((produced bytes (try_acquire cap r)).0, held (produced bytes (try_acquire cap r)).1)
        ≡ push cap bytes (held r)
  unfolding try_acquire publish push add64 sub64
  produced_refines_lem bytes r v h = ground (
    arith,
    length-window cap r.slots r.tail_shadow (r.head_shadow - r.tail_shadow),
    window-push cap r.slots bytes r.tail_shadow (r.head_shadow - r.tail_shadow) r.head_shadow,
  )

  consumed_refines_lem :
      (r : ArenaRing T)
      → IsValid r
      → r.head < u64_mod
      → ((consumed (try_front cap r)).0, held (consumed (try_front cap r)).1) ≡ pop cap (held r)
  unfolding try_front release pop add64 sub64
  consumed_refines_lem r v h =
      ground (arith, window_of_pos cap r.slots r.tail_shadow (r.head_shadow - r.tail_shadow))

  -- On a valid ring whose head index does not wrap, acquiring a slot, writing it and publishing it
  -- succeeds exactly if fewer than `cap` slots are held, and then appends the bytes to the queue; else
  -- it changes nothing in it. The ring stays valid.
  pub producer_refines :
      (bytes : T) (r : ArenaRing T)
      → IsValid r
      → r.head + 1 < u64_mod
      → IsValid (produced bytes (try_acquire cap r)).1
        × (((produced bytes (try_acquire cap r)).0, held (produced bytes (try_acquire cap r)).1)
            ≡ push cap bytes (held r))
  producer_refines bytes r v h = (produced-IsValid bytes r v h, produced_refines_lem bytes r v h)

  -- On a valid ring, looking at the front slot, reading it and releasing it takes the oldest bytes of
  -- the queue, and finds none exactly if the queue is empty. The ring stays valid.
  pub consumer_refines :
      (r : ArenaRing T)
      → IsValid r
      → r.head < u64_mod
      → IsValid (consumed (try_front cap r)).1
        × (((consumed (try_front cap r)).0, held (consumed (try_front cap r)).1) ≡ pop cap (held r))
  consumer_refines r v h = (consumed-IsValid r v h, consumed_refines_lem r v h)

  -- On a valid ring whose head index is below 2 ^ 64, whatever the producer writes into a slot that it
  -- has acquired and not published leaves the bytes of all slots that the consumer may read.
  pub acquired_slot_is_spare :
      (n : ℕ) (bytes : T) (r : ArenaRing T)
      → IsValid r
      → r.head < u64_mod
      → (try_acquire cap r).0 ≡ some n
      → held (write_bytes n bytes (try_acquire cap r).1) ≡ held r
  unfolding try_acquire sub64
  acquired_slot_is_spare n bytes r v h e = ground (
    arith,
    e,
    window-update cap r.slots bytes r.tail_shadow (r.head_shadow - r.tail_shadow) r.head_shadow 0,
  )
