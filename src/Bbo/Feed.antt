-- ===== src/Bbo/Feed.antt =====
-- What a subscriber of the publisher's ring sees over a session.
use c_order_book.Prelude.{
  ℕ, ◌+◌, ◌-◌, ◌%◌, ◌≤◌, ◌<◌, ◌≡◌, ◌∙◌, ap, sym, refl, Bool, true, false, Bool-cases, inl, inr,
  Option, none, some, List, [], ◌∷◌, ◌++◌, length, length-append, if◌then◌else◌, arith,
}
use mathlib.Core.Path.{subst}
use mathlib.Core.List.{append_assoc}
use c_order_book.Prelude.Word.{add64, u64_mod}
use c_order_book.SpscRing.{Ring, new_ring, try_push, try_pop}
use c_order_book.SpscRing.Queue.{
  IsValid, contents, push, pop, try_push-IsValid, try_pop-IsValid, try_push_refines,
  try_pop_refines, length-window,
}
use c_order_book.Book.State.{Book}
use c_order_book.Bbo.{
  BboUpdate, BboPublisher, new_publisher, on_message_applied, snapshot, unchanged, counted,
}

-- The engine applies a message, which leaves the book `b`; or the subscriber polls the ring.
pub data Event : Type 0 where
  applied : ℕ → Book → Event
  poll : Event

-- `delivered` is what the subscriber has popped so far, oldest first.
pub record Session : Type 0 where
  pub publisher : BboPublisher
  pub ring : Ring BboUpdate
  pub delivered : List BboUpdate

abbrev pub opening : (ℕ → BboUpdate) → Session
opening slots = record { publisher = new_publisher; ring = new_ring slots; delivered = [] }

abbrev pub deliver : Option BboUpdate → List BboUpdate → List BboUpdate
deliver none l = l
deliver (some u) l = l ++ (u ∷ [])

-- The sequence numbers ascend from above `n`, up to `m`.
abbrev pub Ascending : ℕ → List BboUpdate → ℕ → Type 0
Ascending n [] m = n ≤ m
Ascending n (u ∷ us) m = (n < u.seq) × Ascending u.seq us m

pub Ascending-snoc :
    (n : ℕ) (us : List BboUpdate) (m : ℕ) (u : BboUpdate)
    → Ascending n us m
    → m < u.seq
    → Ascending n (us ++ (u ∷ [])) u.seq
Ascending-snoc n [] m u a l = (omega (arith, a, l), omega arith)
Ascending-snoc n (x ∷ us) m u a l = (a.0, Ascending-snoc x.seq us m u a.1 l)

pub Ascending-weaken :
    (n : ℕ) (us : List BboUpdate) (m k : ℕ) → m ≤ k → Ascending n us m → Ascending n us k
Ascending-weaken n [] m k l a = omega (arith, a, l)
Ascending-weaken n (x ∷ us) m k l a = (a.0, Ascending-weaken x.seq us m k l a.1)

pub counted-last :
    (ok : Bool) (p : BboPublisher)
    → ((counted ok p).count ≡ p.count) × ((counted ok p).last ≡ p.last)
unfolding counted
counted-last true p = (refl, refl)
counted-last false p = (refl, refl)

-- all updates that the ring took, oldest first
abbrev pub accepted : ℕ → Session → List BboUpdate
accepted ring_cap s = s.delivered ++ contents ring_cap s.ring

module _ (num_ticks ring_cap : ℕ) where
  abbrev pub step : Event → Session → Session
  step (applied origin b) s =
      let next = on_message_applied num_ticks ring_cap origin b s.publisher s.ring in
      record s { publisher = next.0; ring = next.1 }
  step poll s =
      let got = try_pop ring_cap s.ring in
      record s { ring = got.1; delivered = deliver got.0 s.delivered }

  abbrev pub run : List Event → Session → Session
  run [] s = s
  run (e ∷ es) s = run es (step e s)

  pub record IsFeed (s : Session) : Type 0 where
    pub valid : IsValid ring_cap s.ring
    pub taken : s.ring.head ≡ s.publisher.published
    pub balance : s.publisher.published + s.publisher.dropped ≡ s.publisher.count
    pub size : length (accepted ring_cap s) ≡ s.publisher.published
    pub order : Ascending 0 (accepted ring_cap s) s.publisher.count

  pushed_head :
      (u : BboUpdate) (r : Ring BboUpdate)
      → r.head + 1 < u64_mod
      → (try_push ring_cap u r).1.head ≡ (if (try_push ring_cap u r).0 then r.head + 1 else r.head)
  unfolding try_push add64
  pushed_head u r h = ground arith

  popped_head : (r : Ring BboUpdate) → (try_pop ring_cap r).1.head ≡ r.head
  unfolding try_pop
  popped_head r = ground arith

  push-true :
      (u : BboUpdate) (q c : List BboUpdate) → (true, c) ≡ push ring_cap u q → c ≡ q ++ (u ∷ [])
  unfolding push
  push-true u q c e = ground (arith, e)

  push-false : (u : BboUpdate) (q c : List BboUpdate) → (false, c) ≡ push ring_cap u q → c ≡ q
  unfolding push
  push-false u q c e = ground (arith, e)

  -- The push of an update with the next number, with its result in the counters.
  IsFeed-counted :
      (s : Session) (u : BboUpdate) (ok : Bool) (r : Ring BboUpdate)
      → s.publisher.count + 1 < u64_mod
      → u.seq ≡ s.publisher.count + 1
      → IsValid ring_cap r
      → r.head ≡ (if ok then s.ring.head + 1 else s.ring.head)
      → (ok, contents ring_cap r) ≡ push ring_cap u (contents ring_cap s.ring)
      → IsFeed s
      → IsFeed (record s {
        publisher =
            counted ok (record (s.publisher) { last = u; count = add64 s.publisher.count 1 });
        ring = r;
      })
  unfolding counted add64
  IsFeed-counted s u true r h n v l e f =
      let all : s.delivered ++ contents ring_cap r ≡ accepted ring_cap s ++ (u ∷ []) =
        ap (λ c. s.delivered ++ c) (push-true u _ _ e)
        ∙ sym (append_assoc s.delivered (contents ring_cap s.ring) (u ∷ [])) in
      record {
        valid = v;
        taken = omega (arith, l, f.taken, f.balance);
        balance = omega (arith, f.balance);
        size =
            ap length all
            ∙ length-append (accepted ring_cap s) (u ∷ [])
            ∙ omega (arith, f.size, f.balance);
        order =
            subst (λ k. Ascending 0 (s.delivered ++ contents ring_cap r) k) (omega (arith, n, h))
              (subst (λ l. Ascending 0 l u.seq) (sym all)
                (Ascending-snoc 0 (accepted ring_cap s) s.publisher.count u f.order
                  (omega (arith, n))));
      }
  IsFeed-counted s u false r h n v l e f =
      let all : s.delivered ++ contents ring_cap r ≡ accepted ring_cap s =
        ap (λ c. s.delivered ++ c) (push-false u _ _ e) in
      record {
        valid = v;
        taken = l ∙ f.taken;
        balance = omega (arith, f.balance);
        size = ap length all ∙ f.size;
        order =
            subst (λ l. Ascending 0 l ((s.publisher.count + 1) % u64_mod)) (sym all)
              (Ascending-weaken 0 (accepted ring_cap s) s.publisher.count _ (omega arith) f.order);
      }

  number :
      (origin : ℕ) (b : Book) (s : Session)
      → s.publisher.count + 1 < u64_mod
      → (snapshot num_ticks (add64 s.publisher.count 1) origin b).seq ≡ s.publisher.count + 1
  unfolding snapshot add64
  number origin b s h = omega arith

  IsFeed-applied :
      (origin : ℕ) (b : Book) (s : Session)
      → s.publisher.count + 1 < u64_mod
      → IsFeed s
      → IsFeed (step (applied origin b) s)
  unfolding on_message_applied
  IsFeed-applied origin b s h f =
      let u = snapshot num_ticks (add64 s.publisher.count 1) origin b in
      elim (Bool-cases (unchanged num_ticks s.publisher.last b)) [
        | inl same ↦ rw same f
        | inr other ↦ rw other (
            IsFeed-counted s u _ _ h (number origin b s h)
              (try_push-IsValid ring_cap u s.ring f.valid (omega (arith, f.taken, f.balance)))
              (pushed_head u s.ring (omega (arith, f.taken, f.balance)))
              (try_push_refines ring_cap u s.ring f.valid (omega (arith, f.taken, f.balance))) f)
      ]

  deliver-pop :
      (d q c : List BboUpdate) (o : Option BboUpdate)
      → (o, c) ≡ pop ring_cap q
      → deliver o d ++ c ≡ d ++ q
  unfolding pop
  deliver-pop d [] c o e = rw (ap (λ p. p.0) e, ap (λ p. p.1) e) refl
  deliver-pop d (x ∷ q) c o e = rw (ap (λ p. p.0) e, ap (λ p. p.1) e) (append_assoc d (x ∷ []) q)

  IsFeed-poll : (s : Session) → s.publisher.count < u64_mod → IsFeed s → IsFeed (step poll s)
  IsFeed-poll s h f = record {
    valid = try_pop-IsValid ring_cap s.ring f.valid (omega (arith, f.taken, f.balance));
    taken = popped_head s.ring ∙ f.taken;
    balance = f.balance;
    size = ap length all ∙ f.size;
    order = subst (λ l. Ascending 0 l s.publisher.count) (sym all) f.order;
  }
    where
      all : accepted ring_cap (step poll s) ≡ accepted ring_cap s
      all =
          deliver-pop s.delivered (contents ring_cap s.ring) _ _
            (try_pop_refines ring_cap s.ring f.valid (omega (arith, h, f.taken, f.balance)))

  count_step :
      (e : Event) (s : Session)
      → s.publisher.count + 1 < u64_mod
      → (step e s).publisher.count ≤ s.publisher.count + 1
  unfolding on_message_applied add64
  count_step (applied origin b) s h = elim (Bool-cases (unchanged num_ticks s.publisher.last b)) [
    | inl same ↦ rw same (omega arith)
    | inr other ↦ rw other (omega (arith, (counted-last _ _).0))
  ]
  count_step poll s h = omega arith

  IsFeed-run :
      (es : List Event) (s : Session)
      → s.publisher.count + length es < u64_mod
      → IsFeed s
      → IsFeed (run es s)
  IsFeed-run [] s h f = f
  IsFeed-run (applied origin b ∷ es) s h f =
      IsFeed-run es _ (omega (arith, h, count_step (applied origin b) s (omega (arith, h))))
        (IsFeed-applied origin b s (omega (arith, h)) f)
  IsFeed-run (poll ∷ es) s h f =
      IsFeed-run es _ (omega (arith, h)) (IsFeed-poll s (omega (arith, h)) f)

  IsFeed-opening : (slots : ℕ → BboUpdate) → 0 < ring_cap → IsFeed (opening slots)
  IsFeed-opening slots c = record {
    valid = record {
      tail_cache_le = omega arith;
      tail_le = omega arith;
      head_cache_le = omega arith;
      fits = omega arith;
      cap_pos = c;
    };
    taken = refl;
    balance = refl;
    size = refl;
    order = omega arith;
  }

  -- In a session of fewer than 2 ^ 64 events, in any order, over any books, with a ring of at least
  -- one slot: the sequence numbers of the updates delivered and of those waiting in the ring ascend,
  -- none is above the publisher's count, these updates and the dropped ones together are as many as
  -- the count, and no more than the ring's capacity are waiting.
  pub no_update_unaccounted :
      (slots : ℕ → BboUpdate) (es : List Event)
      → 0 < ring_cap
      → length es < u64_mod
      → Ascending 0
          (accepted ring_cap (run es (opening slots)))
          (run es (opening slots)).publisher.count
        × (length (accepted ring_cap (run es (opening slots)))
              + (run es (opening slots)).publisher.dropped
            ≡ (run es (opening slots)).publisher.count)
        × (length (contents ring_cap (run es (opening slots)).ring) ≤ ring_cap)
  no_update_unaccounted slots es c l =
      let f = IsFeed-run es (opening slots) (omega arith) (IsFeed-opening slots c) in
      let r = (run es (opening slots)).ring in
      (
        f.order,
        omega (arith, f.size, f.balance),
        omega (arith, length-window ring_cap r.buf r.tail (r.head - r.tail), f.valid.fits),
      )
