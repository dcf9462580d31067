-- ===== src/Pipeline/Paths.antt =====
-- The engine behind the ring, and the engine that the zero-copy sink feeds, reach the same state.
use c_order_book.Prelude.{
  ℕ, ◌+◌, ◌≤◌, ◌<◌, ◌≡◌, ◌∙◌, ap, sym, refl, Bool, true, false, Option, none, some, List, [], ◌∷◌,
  ◌++◌, map, length, length-append, if◌then◌else◌, arith,
}
use mathlib.Core.List.{append_assoc, map-append}
use c_order_book.Prelude.Word.{u64_mod}
use c_order_book.SpscRing.{Ring, new_ring, try_pop}
use c_order_book.SpscRing.Queue.{
  IsValid, contents, push, pop, try_push-IsValid, try_pop-IsValid, try_push_refines,
  try_pop_refines, try_push-head, try_pop-head, push-true, push-false, pop-some, pop-none,
}
use c_order_book.Order.{Message}
use c_order_book.Itch.{Wire}
use c_order_book.Pipeline.{Gateway, message_of, ring_sink, gateway_apply, gateway_sink}

-- The producer has still to pass `todo` to its sink; `none` is an engine that has met undefined
-- behaviour.
pub record Legacy : Type 0 where
  pub todo : List Wire
  pub ring : Ring Message
  pub engine : Option Gateway

-- A round of the producer's spin, or a poll of the engine.
pub data Turn : Type 0 where
  produce consume : Turn

module _ (num_ticks pool_cap ring_cap : ℕ) where
  abbrev pub then_apply : Option Gateway → Message → Option Gateway
  then_apply none m = none
  then_apply (some g) m = gateway_apply num_ticks pool_cap m g

  abbrev pub received : Option Message → Option Gateway → Option Gateway
  received none g = g
  received (some m) g = then_apply g m

  abbrev pub produced : List Wire → Legacy → Legacy
  produced [] s = s
  produced (w ∷ ws) s =
      let sent = ring_sink ring_cap w s.ring in
      record s { todo = if sent.0 then ws else (w ∷ ws); ring = sent.1 }

  abbrev pub turn : Turn → Legacy → Legacy
  turn produce s = produced s.todo s
  turn consume s =
      let got = try_pop ring_cap s.ring in
      record s { ring = got.1; engine = received got.0 s.engine }

  abbrev pub turns : List Turn → Legacy → Legacy
  turns [] s = s
  turns (t ∷ ts) s = turns ts (turn t s)

  -- the zero-copy engine: each wire struct goes straight to the gateway's sink
  abbrev pub direct : List Wire → Option Gateway → Option Gateway
  direct [] g = g
  direct (w ∷ ws) none = none
  direct (w ∷ ws) (some g) = direct ws (gateway_sink num_ticks pool_cap w g)

  -- The engine has applied `applied`, and `waiting` is in the ring.
  pub record Progress (ws : List Wire) (start : Option Gateway) (s : Legacy) : Type 0 where
    pub applied : List Wire
    pub waiting : List Wire
    pub all : ws ≡ applied ++ (waiting ++ s.todo)
    pub valid : IsValid ring_cap s.ring
    pub queued : contents ring_cap s.ring ≡ map message_of waiting
    pub indices : s.ring.head ≤ length applied + length waiting
    pub state : s.engine ≡ direct applied start

  direct-snoc :
      (xs : List Wire) (w : Wire) (g : Option Gateway)
      → direct (xs ++ (w ∷ [])) g ≡ then_apply (direct xs g) (message_of w)
  unfolding gateway_sink
  direct-snoc [] w none = refl
  direct-snoc [] w (some g) = refl
  direct-snoc (x ∷ xs) w none = refl
  direct-snoc (x ∷ xs) w (some g) = direct-snoc xs w (gateway_sink num_ticks pool_cap x g)

  sent-Progress :
      (ws : List Wire) (start : Option Gateway) (w : Wire) (todo : List Wire) (s : Legacy)
      (ok : Bool) (r : Ring Message)
      → (w ∷ todo) ≡ s.todo
      → IsValid ring_cap r
      → r.head ≡ (if ok then s.ring.head + 1 else s.ring.head)
      → (ok, contents ring_cap r) ≡ push ring_cap (message_of w) (contents ring_cap s.ring)
      → Progress ws start s
      → Progress ws start (record s { todo = if ok then todo else (w ∷ todo); ring = r })
  sent-Progress ws start w todo s true r t v h q p = record {
    applied = p.applied;
    waiting = p.waiting ++ (w ∷ []);
    all =
        p.all
        ∙ ap (λ l. p.applied ++ (p.waiting ++ l)) (sym t)
        ∙ ap (λ l. p.applied ++ l) (sym (append_assoc p.waiting (w ∷ []) todo));
    valid = v;
    queued =
        push-true ring_cap (message_of w) _ _ q
        ∙ ap (λ l. l ++ (message_of w ∷ [])) p.queued
        ∙ sym (map-append message_of p.waiting (w ∷ []));
    indices = omega (arith, h, p.indices, length-append p.waiting (w ∷ []));
    state = p.state;
  }
  sent-Progress ws start w todo s false r t v h q p = record {
    applied = p.applied;
    waiting = p.waiting;
    all = p.all ∙ ap (λ l. p.applied ++ (p.waiting ++ l)) (sym t);
    valid = v;
    queued = push-false ring_cap (message_of w) _ _ q ∙ p.queued;
    indices = omega (arith, h, p.indices);
    state = p.state;
  }

  pub Progress-produce :
      (ws : List Wire) (start : Option Gateway) (todo : List Wire) (s : Legacy)
      → length ws < u64_mod
      → todo ≡ s.todo
      → Progress ws start s
      → Progress ws start (produced todo s)
  unfolding ring_sink
  Progress-produce ws start [] s l e p = p
  Progress-produce ws start (w ∷ todo) s l e p =
      let room : s.ring.head + 1 < u64_mod = omega (
        arith,
        ap length p.all,
        length-append p.applied (p.waiting ++ s.todo),
        length-append p.waiting s.todo,
        ap length e,
        p.indices,
      ) in
      sent-Progress ws start w todo s _ _ e
        (try_push-IsValid ring_cap (message_of w) s.ring p.valid room)
        (try_push-head ring_cap (message_of w) s.ring room)
        (try_push_refines ring_cap (message_of w) s.ring p.valid room) p

  taken-Progress :
      (ws : List Wire) (start : Option Gateway) (s : Legacy) (got : Option Message)
      (r : Ring Message)
      → IsValid ring_cap r
      → r.head ≡ s.ring.head
      → (got, contents ring_cap r) ≡ pop ring_cap (contents ring_cap s.ring)
      → (p : Progress ws start s) → (waiting : List Wire) → p.waiting ≡ waiting
      → Progress ws start (record s { ring = r; engine = received got s.engine })
  taken-Progress ws start s none r v h q p waiting e = record {
    applied = p.applied;
    waiting = p.waiting;
    all = p.all;
    valid = v;
    queued = sym (pop-none ring_cap _ _ q) ∙ p.queued;
    indices = omega (arith, h, p.indices);
    state = p.state;
  }
  taken-Progress ws start s (some m) r v h q p [] e =
      absurd (cc (pop-some ring_cap m _ _ q, p.queued, e))
  taken-Progress ws start s (some m) r v h q p (w ∷ rest) e =
      let both : (m ∷ contents ring_cap r) ≡ (message_of w ∷ map message_of rest) =
        sym (pop-some ring_cap m _ _ q) ∙ p.queued ∙ ap (map message_of) e in
      record {
        applied = p.applied ++ (w ∷ []);
        waiting = rest;
        all =
            p.all
            ∙ ap (λ l. p.applied ++ (l ++ s.todo)) e
            ∙ sym (append_assoc p.applied (w ∷ []) (rest ++ s.todo));
        valid = v;
        queued = cc (both);
        indices = omega (arith, h, p.indices, ap length e, length-append p.applied (w ∷ []));
        state =
            ap (λ g. then_apply g m) p.state
            ∙ ap (then_apply (direct p.applied start)) {x = m} {y = message_of w} (cc (both))
            ∙ sym (direct-snoc p.applied w start);
      }

  pub Progress-consume :
      (ws : List Wire) (start : Option Gateway) (s : Legacy)
      → length ws < u64_mod
      → Progress ws start s
      → Progress ws start (turn consume s)
  Progress-consume ws start s l p =
      let room : s.ring.head < u64_mod = omega (
        arith,
        ap length p.all,
        length-append p.applied (p.waiting ++ s.todo),
        length-append p.waiting s.todo,
        p.indices,
      ) in
      taken-Progress ws start s _ _ (try_pop-IsValid ring_cap s.ring p.valid room)
        (try_pop-head ring_cap s.ring) (try_pop_refines ring_cap s.ring p.valid room) p p.waiting
        refl

  Progress-turns :
      (ws : List Wire) (start : Option Gateway) (ts : List Turn) (s : Legacy)
      → length ws < u64_mod
      → Progress ws start s
      → Progress ws start (turns ts s)
  Progress-turns ws start [] s l p = p
  Progress-turns ws start (produce ∷ ts) s l p =
      Progress-turns ws start ts _ l (Progress-produce ws start s.todo s l refl p)
  Progress-turns ws start (consume ∷ ts) s l p =
      Progress-turns ws start ts _ l (Progress-consume ws start s l p)

  abbrev pub opening : List Wire → (ℕ → Message) → Gateway → Legacy
  opening ws slots g = record { todo = ws; ring = new_ring slots; engine = some g }

  pub Progress-opening :
      (ws : List Wire) (slots : ℕ → Message) (g : Gateway)
      → 0 < ring_cap
      → Progress ws (some g) (opening ws slots g)
  Progress-opening ws slots g c = record {
    applied = [];
    waiting = [];
    all = refl;
    valid = record {
      tail_cache_le = omega arith;
      tail_le = omega arith;
      head_cache_le = omega arith;
      fits = omega arith;
      cap_pos = c;
    };
    queued = refl;
    indices = omega arith;
    state = refl;
  }

  -- Under every schedule of the two threads, over a ring of at least one slot and fewer than 2 ^ 64
  -- wire structs: the structs are those that the engine has applied, then those whose messages wait in
  -- the ring in order, then those that the producer has yet to pass on; and the engine stands where
  -- the zero-copy sink stands after the same applied structs.
  pub ring_path_follows_direct :
      (ws : List Wire) (slots : ℕ → Message) (g : Gateway) (ts : List Turn)
      → 0 < ring_cap
      → length ws < u64_mod
      → Progress ws (some g) (turns ts (opening ws slots g))
  ring_path_follows_direct ws slots g ts c l =
      Progress-turns ws (some g) ts (opening ws slots g) l (Progress-opening ws slots g c)
