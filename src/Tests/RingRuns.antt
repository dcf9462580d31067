-- ===== src/Tests/RingRuns.antt =====
-- The ring of two slots.
use c_order_book.Prelude.{ℕ, ◌+◌, ◌%◌, ◌≤◌, ◌≡◌, ◌≢◌, refl, false, [], ◌∷◌, ◌++◌, arith, length}
use c_order_book.Prelude.Word.{add64, sub64}
use c_order_book.SpscRing.{Ring, new_ring, try_push, try_pop, write_slot, publish}
use c_order_book.SpscRing.Queue.{IsValid, contents, push, pop, try_push_refines, try_pop_refines}
use c_order_book.SpscRing.Threads.{
  Producer, Consumer, System, push_check, push_write, push_publish, pop_refresh, start, Reach, here,
  next, interleaving_is_fifo, slots_never_race,
}

-- one item, the producer's copy of the tail out of date
abbrev one_item : Ring ℕ
one_item = record { head = 3; tail_cache = 1; tail = 2; head_cache = 3; buf = λ i. i + 7 }

one_item-IsValid : IsValid 2 one_item
one_item-IsValid = omega arith

runs_full : (try_push 2 9 (try_push 2 8 one_item).1).0 ≡ false
unfolding try_push add64 sub64
runs_full = refl

try_push_refines_example :
    ((try_push 2 9 one_item).0, contents 2 (try_push 2 9 one_item).1)
    ≡ push 2 9 (contents 2 one_item)
try_push_refines_example = try_push_refines 2 9 one_item one_item-IsValid (omega arith)

try_pop_refines_example :
    ((try_pop 2 one_item).0, contents 2 (try_pop 2 one_item).1) ≡ pop 2 (contents 2 one_item)
try_pop_refines_example = try_pop_refines 2 one_item one_item-IsValid (omega arith)

abbrev slots : ℕ → ℕ
slots i = 0

abbrev sent_one : System ℕ
sent_one = record {
  ring = publish (write_slot 2 5 (new_ring slots));
  producer = Producer.resting;
  consumer = Consumer.resting;
  sent = 5 ∷ [];
  received = [];
}

Reach-sent_one : Reach 2 (start slots) sent_one
unfolding add64 sub64
Reach-sent_one =
    next (next (next here (push_check 5 refl refl)) (push_write 5 refl)) (push_publish 5 refl)

abbrev both_busy : System ℕ
both_busy = record sent_one {
  ring = record { head = 1; tail_cache = 0; tail = 0; head_cache = 1; buf = sent_one.ring.buf };
  producer = Producer.reserved 6;
  consumer = Consumer.ready;
}

Reach-both_busy : Reach 2 (start slots) both_busy
unfolding add64 sub64
Reach-both_busy = next (next Reach-sent_one (push_check 6 refl refl)) (pop_refresh refl refl refl)

interleaving_is_fifo_example :
    (sent_one.sent ≡ sent_one.received ++ contents 2 sent_one.ring)
    × (length (contents 2 sent_one.ring) ≤ 2)
interleaving_is_fifo_example =
    interleaving_is_fifo 2 slots (omega arith) Reach-sent_one (omega arith)

slots_never_race_example : both_busy.ring.head % 2 ≢ both_busy.ring.tail % 2
slots_never_race_example =
    slots_never_race 2 slots 6 (omega arith) Reach-both_busy (omega arith) refl refl
