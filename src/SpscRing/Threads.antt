-- ===== src/SpscRing/Threads.antt =====
-- The two threads of the ring, interleaved at the atomic accesses of `try_push` and `try_pop`:
-- the release-acquire pairs of the source make each access to a slot ordered by the indices, so a
-- step is one index access or one slot access.
use c_order_book.Prelude.{
  ℕ, suc, ◌+◌, ◌-◌, ◌%◌, ◌≤◌, ◌<◌, ◌≡◌, ◌≢◌, refl, ap, ◌∙◌, true, false, List, [], ◌∷◌, ◌++◌, arith,
  length, length-append, sym,
}
use mathlib.Core.Path.{subst}
use mathlib.Core.List.{append_assoc}
use c_order_book.Prelude.Word.{u64_mod, add64, sub64, add64-eq}
use c_order_book.SpscRing.{
  Ring, new_ring, looks_full, refresh_tail, write_slot, publish, looks_empty, refresh_head,
  read_slot, hand_back,
}
use c_order_book.SpscRing.Queue.{
  window, contents, window-update, window_extend, window_of_pos, mod-ne, length-window,
}

-- Where the producer stands in `try_push`.
pub data Producer (T : Type 0) : Type 0 where
  resting : Producer T
  reserved : T → Producer T
  written : T → Producer T

-- Where the consumer stands in `try_pop`.
pub data Consumer (T : Type 0) : Type 0 where
  resting : Consumer T
  ready : Consumer T
  taken : T → Consumer T

-- `sent` and `received` record the items of the calls that have returned true.
pub record System (T : Type 0) : Type 0 where
  pub ring : Ring T
  pub producer : Producer T
  pub consumer : Consumer T
  pub sent : List T
  pub received : List T

abbrev pub start : {T : Type 0} → (ℕ → T) → System T
start slots = record {
  ring = new_ring slots;
  producer = Producer.resting;
  consumer = Consumer.resting;
  sent = [];
  received = [];
}

module _ {T : Type 0} (cap : ℕ) where
  pub data Step (s : System T) : System T → Type 0 where
    push_check :
        (x : T)
        → s.producer ≡ Producer.resting
        → looks_full cap s.ring ≡ false
        → Step s (record s { producer = Producer.reserved x })
    push_refresh :
        (x : T)
        → s.producer ≡ Producer.resting
        → looks_full cap s.ring ≡ true
        → looks_full cap (refresh_tail s.ring) ≡ false
        → Step s (record s { ring = refresh_tail s.ring; producer = Producer.reserved x })
    push_fail :
        s.producer ≡ Producer.resting
        → looks_full cap s.ring ≡ true
        → looks_full cap (refresh_tail s.ring) ≡ true
        → Step s (record s { ring = refresh_tail s.ring })
    push_write :
        (x : T)
        → s.producer ≡ Producer.reserved x
        → Step s (record s { ring = write_slot cap x s.ring; producer = Producer.written x })
    push_publish :
        (x : T)
        → s.producer ≡ Producer.written x
        → Step s (record s {
          ring = publish s.ring;
          producer = Producer.resting;
          sent = s.sent ++ (x ∷ []);
        })
    pop_check :
        s.consumer ≡ Consumer.resting
        → looks_empty s.ring ≡ false
        → Step s (record s { consumer = Consumer.ready })
    pop_refresh :
        s.consumer ≡ Consumer.resting
        → looks_empty s.ring ≡ true
        → looks_empty (refresh_head s.ring) ≡ false
        → Step s (record s { ring = refresh_head s.ring; consumer = Consumer.ready })
    pop_fail :
        s.consumer ≡ Consumer.resting
        → looks_empty s.ring ≡ true
        → looks_empty (refresh_head s.ring) ≡ true
        → Step s (record s { ring = refresh_head s.ring })
    pop_read :
        s.consumer ≡ Consumer.ready
        → Step s (record s { consumer = Consumer.taken (read_slot cap s.ring) })
    pop_return :
        (x : T)
        → s.consumer ≡ Consumer.taken x
        → Step s (record s {
          ring = hand_back s.ring;
          consumer = Consumer.resting;
          received = s.received ++ (x ∷ []);
        })

  pub data Reach (s : System T) : System T → Type 0 where
    here : Reach s s
    next : {t u : System T} → Reach s t → Step t u → Reach s u

  -- What the producer's position says of the ring: the slot at `head` is free, and after the
  -- write it holds the item.
  abbrev ProducerOk : Ring T → Producer T → Type 0
  ProducerOk r Producer.resting = Unit
  ProducerOk r (Producer.reserved x) = r.head < r.tail_cache + cap
  ProducerOk r (Producer.written x) = (r.head < r.tail_cache + cap) × (r.buf (r.head % cap) ≡ x)

  abbrev ConsumerOk : Ring T → Consumer T → Type 0
  ConsumerOk r Consumer.resting = Unit
  ConsumerOk r Consumer.ready = r.tail < r.head_cache
  ConsumerOk r (Consumer.taken x) = (r.tail < r.head_cache) × (r.buf (r.tail % cap) ≡ x)

  record Inv (s : System T) : Type 0 where
    tail_cache_le : s.ring.tail_cache ≤ s.ring.tail
    tail_le : s.ring.tail ≤ s.ring.head
    head_cache_le : s.ring.head_cache ≤ s.ring.head
    fits : s.ring.head ≤ s.ring.tail + cap
    counts : s.ring.head ≡ length s.sent
    producing : ProducerOk s.ring s.producer
    consuming : ConsumerOk s.ring s.consumer
    in_order : s.sent ≡ s.received ++ contents cap s.ring

  producer_reserved :
      {s : System T} (x : T)
      → Inv s
      → s.producer ≡ Producer.reserved x
      → s.ring.head < s.ring.tail_cache + cap
  producer_reserved {s} x v p = subst (ProducerOk s.ring) p v.producing

  producer_written :
      {s : System T} (x : T)
      → Inv s
      → s.producer ≡ Producer.written x
      → (s.ring.head < s.ring.tail_cache + cap) × (s.ring.buf (s.ring.head % cap) ≡ x)
  producer_written {s} x v p = subst (ProducerOk s.ring) p v.producing

  consumer_ready :
      {s : System T} → Inv s → s.consumer ≡ Consumer.ready → s.ring.tail < s.ring.head_cache
  consumer_ready {s} v p = subst (ConsumerOk s.ring) p v.consuming

  consumer_taken :
      {s : System T} (x : T)
      → Inv s
      → s.consumer ≡ Consumer.taken x
      → (s.ring.tail < s.ring.head_cache) × (s.ring.buf (s.ring.tail % cap) ≡ x)
  consumer_taken {s} x v p = subst (ConsumerOk s.ring) p v.consuming

  -- The producer's write leaves the slot that the consumer holds.
  write_keeps_taken :
      {s : System T} (x : T)
      → Inv s
      → s.producer ≡ Producer.reserved x
      → (c : Consumer T) → ConsumerOk s.ring c
      → ConsumerOk (write_slot cap x s.ring) c
  write_keeps_taken x v p Consumer.resting o = tt
  write_keeps_taken x v p Consumer.ready o = o
  write_keeps_taken {s} x v p (Consumer.taken y) o = ground (
    arith,
    producer_reserved x v p,
    mod-ne cap s.ring.tail (s.ring.head - s.ring.tail),
    v.tail_cache_le,
    v.head_cache_le,
    o,
  )

  publish_keeps : (r : Ring T) (c : Consumer T) → ConsumerOk r c → ConsumerOk (publish r) c
  publish_keeps r Consumer.resting o = tt
  publish_keeps r Consumer.ready o = o
  publish_keeps r (Consumer.taken x) o = o

  hand_back_keeps : (r : Ring T) (p : Producer T) → ProducerOk r p → ProducerOk (hand_back r) p
  hand_back_keeps r Producer.resting o = tt
  hand_back_keeps r (Producer.reserved x) o = o
  hand_back_keeps r (Producer.written x) o = o

  write-Inv :
      {s : System T} (x : T)
      → Inv s
      → s.producer ≡ Producer.reserved x
      → Inv (record s { ring = write_slot cap x s.ring; producer = Producer.written x })
  write-Inv {s} x v p = record {
    tail_cache_le = v.tail_cache_le;
    tail_le = v.tail_le;
    head_cache_le = v.head_cache_le;
    fits = v.fits;
    counts = v.counts;
    producing = (producer_reserved x v p, ground arith);
    consuming = write_keeps_taken x v p s.consumer v.consuming;
    in_order =
        v.in_order
        ∙ ap (λ l. s.received ++ l)
            (sym (
              window-update cap s.ring.buf x s.ring.tail (s.ring.head - s.ring.tail) s.ring.head 0
                (omega (arith, v.tail_le))
                (omega (arith, producer_reserved x v p, v.tail_cache_le, v.tail_le))));
  }

  publish-Inv :
      {s : System T} (x : T)
      → Inv s
      → s.producer ≡ Producer.written x
      → length (s.sent ++ (x ∷ [])) < u64_mod
      → Inv (record s {
        ring = publish s.ring;
        producer = Producer.resting;
        sent = s.sent ++ (x ∷ []);
      })
  publish-Inv {s} x v p b =
      let w = producer_written x v p in
      let head_eq : add64 s.ring.head 1 ≡ s.ring.head + 1 =
        add64-eq _ _ (omega (arith, v.counts, length-append s.sent (x ∷ []))) in
      record {
        tail_cache_le = v.tail_cache_le;
        tail_le = omega (arith, v.tail_le);
        head_cache_le = omega (arith, v.head_cache_le);
        fits = omega (arith, v.tail_cache_le);
        counts = omega (arith, v.counts, length-append s.sent (x ∷ []));
        producing = tt;
        consuming = publish_keeps s.ring s.consumer v.consuming;
        in_order =
            ap (λ l. l ++ (x ∷ [])) v.in_order
            ∙ append_assoc s.received (contents cap s.ring) (x ∷ [])
            ∙ ap (λ l. s.received ++ l) (sym (longer w.1 (omega (arith, head_eq, v.tail_le))));
      }
    where
      longer :
          s.ring.buf (s.ring.head % cap) ≡ x
          → add64 s.ring.head 1 - s.ring.tail ≡ suc (s.ring.head - s.ring.tail)
          → contents cap (publish s.ring) ≡ contents cap s.ring ++ (x ∷ [])
      longer e n =
          ap (window cap s.ring.buf s.ring.tail) n
          ∙ window_extend cap s.ring.buf s.ring.tail _ s.ring.head (omega (arith, v.tail_le))
          ∙ ap (λ y. contents cap s.ring ++ (y ∷ [])) e

  return-Inv :
      {s : System T} (x : T)
      → Inv s
      → s.consumer ≡ Consumer.taken x
      → length s.sent < u64_mod
      → Inv (record s {
        ring = hand_back s.ring;
        consumer = Consumer.resting;
        received = s.received ++ (x ∷ []);
      })
  return-Inv {s} x v p b =
      let c = consumer_taken x v p in
      let tail_eq : add64 s.ring.tail 1 ≡ s.ring.tail + 1 =
        add64-eq _ _ (omega (arith, v.counts, v.head_cache_le)) in
      record {
        tail_cache_le = omega (arith, v.tail_cache_le);
        tail_le = omega (arith, v.head_cache_le);
        head_cache_le = v.head_cache_le;
        fits = omega (arith, v.fits);
        counts = v.counts;
        producing = hand_back_keeps s.ring s.producer v.producing;
        consuming = tt;
        in_order = ground (
          arith,
          v.in_order,
          v.head_cache_le,
          append_assoc s.received (x ∷ [])
              (window cap s.ring.buf (s.ring.tail + 1) (s.ring.head - s.ring.tail - 1)),
          window_of_pos cap s.ring.buf s.ring.tail (s.ring.head - s.ring.tail),
        );
      }

  Step-Inv : {s t : System T} → Step s t → length t.sent < u64_mod → 0 < cap → Inv s → Inv t
  unfolding sub64
  Step-Inv (push_check x p q) b c v = ground arith
  Step-Inv (push_refresh x p q r) b c v = ground arith
  Step-Inv (push_fail p q r) b c v = ground arith
  Step-Inv {s} (push_write x p) b c v = write-Inv x v p
  Step-Inv {s} (push_publish x p) b c v = publish-Inv x v p b
  Step-Inv (pop_check p q) b c v = ground arith
  Step-Inv (pop_refresh p q r) b c v = ground arith
  Step-Inv (pop_fail p q r) b c v = ground arith
  Step-Inv {s} (pop_read p) b c v = ground (arith, consumer_ready v p)
  Step-Inv {s} (pop_return x p) b c v = return-Inv x v p b

  sent-grows : {s t : System T} → Step s t → length s.sent ≤ length t.sent
  sent-grows (push_check x p q) = omega arith
  sent-grows (push_refresh x p q r) = omega arith
  sent-grows (push_fail p q r) = omega arith
  sent-grows (push_write x p) = omega arith
  sent-grows {s} (push_publish x p) = omega (arith, length-append s.sent (x ∷ []))
  sent-grows (pop_check p q) = omega arith
  sent-grows (pop_refresh p q r) = omega arith
  sent-grows (pop_fail p q r) = omega arith
  sent-grows (pop_read p) = omega arith
  sent-grows (pop_return x p) = omega arith

  Reach-Inv : {s t : System T} → Inv s → 0 < cap → Reach s t → length t.sent < u64_mod → Inv t
  Reach-Inv v c here b = v
  Reach-Inv v c (next r st) b = Step-Inv st b c (Reach-Inv v c r (omega (arith, sent-grows st)))

  start-Inv : (slots : ℕ → T) → Inv (start slots)
  start-Inv slots = record {
    tail_cache_le = omega arith;
    tail_le = omega arith;
    head_cache_le = omega arith;
    fits = omega arith;
    counts = refl;
    producing = tt;
    consuming = tt;
    in_order = refl;
  }

  -- In every interleaving of the two threads, while fewer than 2 ^ 64 items have been sent, the
  -- items sent are the items received followed by the at most `cap` items in the ring, in order:
  -- nothing is lost, repeated, reordered or overwritten.
  pub interleaving_is_fifo :
      (slots : ℕ → T) {s : System T}
      → 0 < cap
      → Reach (start slots) s
      → length s.sent < u64_mod
      → (s.sent ≡ s.received ++ contents cap s.ring) × (length (contents cap s.ring) ≤ cap)
  interleaving_is_fifo slots {s} c r b =
      let v = Reach-Inv (start-Inv slots) c r b in
      (
        v.in_order,
        omega (arith, v.fits, length-window cap s.ring.buf s.ring.tail (s.ring.head - s.ring.tail)),
      )

  -- In every interleaving in which fewer than 2 ^ 64 items were sent, over a ring of at least one slot:
  -- when the producer is about to write a slot and the consumer is about to read one, the two slots
  -- differ, so that no slot is written while it is read.
  pub slots_never_race :
      (slots : ℕ → T) {s : System T} (x : T)
      → 0 < cap
      → Reach (start slots) s
      → length s.sent < u64_mod
      → s.producer ≡ Producer.reserved x
      → s.consumer ≡ Consumer.ready
      → s.ring.head % cap ≢ s.ring.tail % cap
  slots_never_race slots {s} x c r b p q =
      let v = Reach-Inv (start-Inv slots) c r b in
      ground (
        arith,
        producer_reserved x v p,
        consumer_ready v q,
        v.tail_cache_le,
        v.head_cache_le,
        mod-ne cap s.ring.tail (s.ring.head - s.ring.tail),
      )
