-- ===== src/Tests/ArenaRuns.antt =====
-- The theorems on the ring of slots, at one of two slots with one of them held.
use c_order_book.Prelude.{ℕ, ◌≡◌, refl, arith}
use c_order_book.Prelude.Word.{sub64}
use c_order_book.SpscRing.Queue.{push, pop}
use c_order_book.ArenaRing.{ArenaRing, new_arena_ring, write_bytes, try_acquire, try_front}
use c_order_book.ArenaRing.Slots.{
  IsValid, held, produced, consumed, producer_refines, consumer_refines, acquired_slot_is_spare,
}

abbrev one_held : ArenaRing ℕ
one_held = record (new_arena_ring (λ _. 5)) { head = 1; head_shadow = 1 }

one_held-IsValid : IsValid 2 one_held
one_held-IsValid = record {
  head_mirror = refl;
  tail_mirror = refl;
  tail_cache_le = omega arith;
  tail_le = omega arith;
  head_cache_le = omega arith;
  fits = omega arith;
  cap_pos = omega arith;
}

producer_refines_example :
    IsValid 2 (produced 2 9 (try_acquire 2 one_held)).1
    × (((produced 2 9 (try_acquire 2 one_held)).0, held 2 (produced 2 9 (try_acquire 2 one_held)).1)
        ≡ push 2 9 (held 2 one_held))
producer_refines_example = producer_refines 2 9 one_held one_held-IsValid (omega arith)

consumer_refines_example :
    IsValid 2 (consumed 2 (try_front 2 one_held)).1
    × (((consumed 2 (try_front 2 one_held)).0, held 2 (consumed 2 (try_front 2 one_held)).1)
        ≡ pop 2 (held 2 one_held))
consumer_refines_example = consumer_refines 2 one_held one_held-IsValid (omega arith)

acquired_slot_is_spare_example :
    held 2 (write_bytes 1 9 (try_acquire 2 one_held).1) ≡ held 2 one_held
unfolding try_acquire sub64
acquired_slot_is_spare_example =
    acquired_slot_is_spare 2 1 9 one_held one_held-IsValid (omega arith) refl
