-- ===== src/Sparse/Alike.antt =====
-- When the gateway with the hash map and the one with the dense table stand alike, and the cases of
-- the switch.
use c_order_book.Prelude.{
  ℕ, ◌≤◌, ◌<◌, ◌≡◌, ◌≢◌, ◌∙◌, ap, sym, refl, Bool, true, false, Option, none, some, ◌==◌, ==_iff,
  Bool-cases, inl, inr, if◌then◌else◌, arith,
}
use c_order_book.Prelude.Int.{ℤ, pos, ltb_ℤ}
use c_order_book.Prelude.Word.{u64_mod, update, update_self, update_ne, to_u64, add64}
use c_order_book.Order.{MsgType, Message}
use c_order_book.Book.State.{Book}
use c_order_book.Book.Engine.{reduce}
use c_order_book.FlatHash.{FlatHashMap, load_cap, find, insert, erase}
use c_order_book.FlatHash.Probe.{IsMap}
use c_order_book.FlatHash.Erase.{Erases, missing, removed, erase-Erases}
use c_order_book.FlatHash.Insert.{Inserts, full, stored, insert-Inserts}
use c_order_book.Pipeline.{Gateway, with_book}
use c_order_book.Sparse.{HashGateway, hash_reduce, remember, sparse, and_then}
use c_order_book.Sparse.Keys.{sparse-injective, sparse-nonzero}

module _ (num_ticks pool_cap log2 max_load_pct : ℕ) (bits : log2 ≤ 64)
    (load : max_load_pct ≤ 90) where
  -- The two gateways stand at the same book and counts, and translate every reference alike that is
  -- not dead.
  pub record Agrees (dead : ℕ → Bool) (d : Gateway) (h : HashGateway) : Type 0 where
    pub books : h.book ≡ d.book
    pub fills : h.trades ≡ d.trades
    pub lots : h.traded_lots ≡ d.traded_lots
    pub valid : IsMap log2 max_load_pct h.refs
    pub ids :
        (r : ℕ)
        → r < u64_mod
        → r ≢ 0
        → dead r ≡ false
        → find log2 max_load_pct (sparse r) h.refs ≡ some (d.refs r)

  -- both have met undefined behaviour, or both go on and agree
  abbrev pub Both : (ℕ → Bool) → Option Gateway → Option HashGateway → Type 0
  Both dead none none = Unit {0}
  Both dead (some d) (some h) = Agrees dead d h
  Both dead _ _ = ⊥

  -- A new order makes its reference live, and a full delete makes it dead.
  abbrev pub dead_after : MsgType → ℕ → (ℕ → Bool) → ℕ → Bool
  dead_after MsgType.new_order id dead = update dead id false
  dead_after MsgType.cancel id dead = update dead id true
  dead_after MsgType.execute id dead = dead
  dead_after MsgType.reduce id dead = dead

  pub reduced_Both :
      (dead : ℕ → Bool) (d : Gateway) (h : HashGateway) (o : Option (ℤ × Book))
      → Agrees dead d h
      → Both dead
          (with_book num_ticks pool_cap d o (λ _ b. record d { book = b }))
          (and_then o (λ r. some (record h { book = r.1 })))
  reduced_Both dead d h none a = tt
  reduced_Both dead d h (some (q, b)) a = record {
    books = refl;
    fills = a.fills;
    lots = a.lots;
    valid = a.valid;
    ids = a.ids;
  }

  pub executed_Both :
      (dead : ℕ → Bool) (d : Gateway) (h : HashGateway) (o : Option (ℤ × Book))
      → Agrees dead d h
      → Both dead
          (with_book num_ticks pool_cap d o (λ filled b. record d {
            book = b;
            trades = add64 d.trades (if ltb_ℤ (pos 0) filled then 1 else 0);
            traded_lots = add64 d.traded_lots (to_u64 filled);
          }))
          (and_then o (λ r. some (record h {
            book = r.1;
            trades = add64 h.trades (if ltb_ℤ (pos 0) r.0 then 1 else 0);
            traded_lots = add64 h.traded_lots (to_u64 r.0);
          })))
  executed_Both dead d h none a = tt
  executed_Both dead d h (some (q, b)) a = record {
    books = refl;
    fills = ap (λ x. add64 x (if ltb_ℤ (pos 0) q then 1 else 0)) a.fills;
    lots = ap (λ x. add64 x (to_u64 q)) a.lots;
    valid = a.valid;
    ids = a.ids;
  }

  remembered_Both :
      (dead : ℕ → Bool) (d : Gateway) (h : HashGateway) (id eng : ℕ) (b : Book)
      (out : Option (Bool × FlatHashMap))
      → id < u64_mod
      → id ≢ 0
      → h.refs.size < load_cap log2 max_load_pct
      → Inserts log2 max_load_pct bits load h.refs (sparse id) eng out
      → Agrees dead d h
      → Both
          (update dead id false)
          (some (record d { book = b; refs = update d.refs id eng }))
          (and_then out (λ r. some (record h { book = b; refs = r.1 })))
  remembered_Both dead d h id eng b _ l n room (full f) a = absurd (omega arith)
  remembered_Both dead d h id eng b _ l n room (stored t r g found kept) a = record {
    books = refl;
    fills = a.fills;
    lots = a.lots;
    valid = g;
    ids = λ x k z w. elim (Bool-cases (id == x)) [
      | inl e ↦
          let same : id ≡ x = (==_iff id x).0 e in
          ap (λ y. find log2 max_load_pct (sparse y) t) (sym same)
          ∙ found
          ∙ ap some (sym (ap (update d.refs id eng) (sym same) ∙ update_self d.refs id eng))
      | inr e ↦
          let apart : id ≢ x = ground (arith, e) in
          kept (sparse x) (sparse-nonzero x k z) (λ q. apart (sym (sparse-injective x id k l q)))
          ∙ a.ids x k z (sym (update_ne dead id x false apart) ∙ w)
          ∙ ap some (sym (update_ne d.refs id x eng apart))
    ];
  }

  pub added_Both :
      (dead : ℕ → Bool) (d : Gateway) (h : HashGateway) (id : ℕ) (o : Option (ℕ × Book))
      → id < u64_mod
      → id ≢ 0
      → h.refs.size < load_cap log2 max_load_pct
      → Agrees dead d h
      → Both
          (update dead id false)
          (with_book num_ticks pool_cap d o
            (λ eng b. record d { book = b; refs = update d.refs id eng }))
          (and_then o (λ r. remember num_ticks pool_cap log2 max_load_pct id r.0 r.1 h))
  added_Both dead d h id none l n room a = tt
  added_Both dead d h id (some (eng, b)) l n room a =
      remembered_Both dead d h id eng b (insert log2 max_load_pct (sparse id) eng h.refs) l n room
        (insert-Inserts log2 max_load_pct bits load h.refs (sparse id) eng a.valid
          (sparse-nonzero id l n))
        a

  pub same_reduce :
      (dead : ℕ → Bool) (d : Gateway) (h : HashGateway) (m : Message)
      → m.id < u64_mod
      → m.id ≢ 0
      → dead m.id ≡ false
      → Agrees dead d h
      → reduce num_ticks pool_cap (d.refs m.id) m.qty d.book
        ≡ hash_reduce num_ticks pool_cap log2 max_load_pct m h
  same_reduce dead d h m l n w a =
      ap (λ b. reduce num_ticks pool_cap (d.refs m.id) m.qty b) (sym a.books)
      ∙ ap (λ o. and_then o (λ eng. reduce num_ticks pool_cap eng m.qty h.book))
          (sym (a.ids m.id l n w))

  still_live :
      (dead : ℕ → Bool) (id x : ℕ) → update dead id true x ≡ false → (id ≢ x) × (dead x ≡ false)
  still_live dead id x w = elim (Bool-cases (id == x)) [
    | inl e ↦ absurd (ground (arith, e, w))
    | inr e ↦
        let apart : id ≢ x = ground (arith, e) in (apart, sym (update_ne dead id x true apart) ∙ w)
  ]

  forgotten_Both :
      (dead : ℕ → Bool) (d : Gateway) (h : HashGateway) (id : ℕ) (b : Book)
      (out : Option (Bool × FlatHashMap))
      → id < u64_mod
      → Erases log2 max_load_pct bits load h.refs (sparse id) out
      → Agrees dead d h
      → Both
          (update dead id true)
          (some (record d { book = b }))
          (and_then out (λ s. some (record h { book = b; refs = s.1 })))
  forgotten_Both dead d h id b _ l (missing f) a = record {
    books = refl;
    fills = a.fills;
    lots = a.lots;
    valid = a.valid;
    ids = λ x k z w. a.ids x k z (still_live dead id x w).1;
  }
  forgotten_Both dead d h id b _ l (removed t g less found kept) a = record {
    books = refl;
    fills = a.fills;
    lots = a.lots;
    valid = g;
    ids = λ x k z w.
        let (apart, alive) = still_live dead id x w in
        kept (sparse x) (sparse-nonzero x k z) (λ q. apart (sym (sparse-injective x id k l q)))
        ∙ a.ids x k z alive;
  }

  pub cancelled_Both :
      (dead : ℕ → Bool) (d : Gateway) (h : HashGateway) (id : ℕ) (o : Option (Bool × Book))
      → id < u64_mod
      → id ≢ 0
      → Agrees dead d h
      → Both
          (update dead id true)
          (with_book num_ticks pool_cap d o (λ _ b. record d { book = b }))
          (and_then o (λ r.
            and_then
              (erase log2 max_load_pct (sparse id) h.refs)
              (λ s. some (record h { book = r.1; refs = s.1 }))))
  cancelled_Both dead d h id none l n a = tt
  cancelled_Both dead d h id (some (ok, b)) l n a =
      forgotten_Both dead d h id b (erase log2 max_load_pct (sparse id) h.refs) l
        (erase-Erases log2 max_load_pct bits load h.refs (sparse id) a.valid
          (sparse-nonzero id l n))
        a
