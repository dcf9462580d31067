-- ===== src/Sparse/Agree.antt =====
-- The gateway with the hash map and the one with the dense table act alike.
use c_order_book.Prelude.{
  ℕ, ◌≤◌, ◌<◌, ◌≡◌, ◌≢◌, ◌∙◌, ap, sym, refl, Bool, true, false, some, ltb, arith,
}
use mathlib.Core.Path.{subst}
use c_order_book.Prelude.Int.{ℤ}
use c_order_book.Prelude.Word.{u64_mod, update}
use c_order_book.Order.{MsgType, Message}
use c_order_book.Book.Engine.{new_order, cancel}
use c_order_book.FlatHash.{load_cap, new_map, erase}
use c_order_book.FlatHash.Probe.{new_map-IsMap, Lookup-new_map}
use c_order_book.FlatHash.Find.{find-Lookup}
use c_order_book.Pipeline.{Gateway, new_gateway, gateway_apply, dispatch, with_book}
use c_order_book.Sparse.{HashGateway, new_hash_gateway, hash_apply, remember, sparse, and_then}
use c_order_book.Sparse.Keys.{sparse-nonzero}
use c_order_book.Sparse.Alike.{
  Agrees, Both, dead_after, reduced_Both, executed_Both, added_Both, cancelled_Both, same_reduce,
}

module _ (num_ticks pool_cap log2 max_load_pct : ℕ) (bits : log2 ≤ 64)
    (load : max_load_pct ≤ 90) where
  by_type :
      (t : MsgType) (dead : ℕ → Bool) (d : Gateway) (h : HashGateway) (m : Message)
      → m.type ≡ t
      → (t ≢ MsgType.new_order → dead m.id ≡ false)
      → m.id < u64_mod
      → m.id ≢ 0
      → h.refs.size < load_cap log2 max_load_pct
      → Agrees num_ticks pool_cap log2 max_load_pct bits load dead d h
      → Both num_ticks pool_cap log2 max_load_pct bits load
          (dead_after num_ticks pool_cap log2 max_load_pct bits load t m.id dead)
          (dispatch num_ticks pool_cap m d)
          (hash_apply num_ticks pool_cap log2 max_load_pct m h)
  unfolding dispatch hash_apply
  by_type MsgType.new_order dead d h m e c l n room a = rw (e) (
      subst
        (λ b.
          Both num_ticks pool_cap log2 max_load_pct bits load (update dead m.id false)
            (with_book num_ticks pool_cap d
              (new_order num_ticks pool_cap m.side m.price m.qty false d.book)
              (λ eng b. record d { book = b; refs = update d.refs m.id eng }))
            (and_then (new_order num_ticks pool_cap m.side m.price m.qty false b)
              (λ r. remember num_ticks pool_cap log2 max_load_pct m.id r.0 r.1 h)))
        (sym a.books)
        (added_Both num_ticks pool_cap log2 max_load_pct bits load dead d h m.id _ l n room a))
  by_type MsgType.execute dead d h m e c l n room a = rw (e) (
      rw
        (← same_reduce num_ticks pool_cap log2 max_load_pct bits load dead d h m l n
          (c (λ q. absurd (cc (q)))) a)
        (executed_Both num_ticks pool_cap log2 max_load_pct bits load dead d h _ a))
  by_type MsgType.reduce dead d h m e c l n room a = rw (e) (
      rw
        (← same_reduce num_ticks pool_cap log2 max_load_pct bits load dead d h m l n
          (c (λ q. absurd (cc (q)))) a)
        (reduced_Both num_ticks pool_cap log2 max_load_pct bits load dead d h _ a))
  by_type MsgType.cancel dead d h m e c l n room a = rw (e) (
      subst
        (λ o.
          Both num_ticks pool_cap log2 max_load_pct bits load (update dead m.id true)
            (with_book num_ticks pool_cap d (cancel num_ticks pool_cap (d.refs m.id) d.book)
              (λ _ b. record d { book = b }))
            (and_then o (λ eng. and_then (cancel num_ticks pool_cap eng h.book) (λ r.
              and_then (erase log2 max_load_pct (sparse m.id) h.refs)
                (λ s. some (record h { book = r.1; refs = s.1 }))))))
        (sym (a.ids m.id l n (c (λ q. absurd (cc (q))))))
        (subst
          (λ b.
            Both num_ticks pool_cap log2 max_load_pct bits load (update dead m.id true)
              (with_book num_ticks pool_cap d (cancel num_ticks pool_cap (d.refs m.id) d.book)
                (λ _ b. record d { book = b }))
              (and_then (cancel num_ticks pool_cap (d.refs m.id) b) (λ r.
                and_then (erase log2 max_load_pct (sparse m.id) h.refs)
                  (λ s. some (record h { book = r.1; refs = s.1 })))))
          (sym a.books)
          (cancelled_Both num_ticks pool_cap log2 max_load_pct bits load dead d h m.id _ l n a)))

  -- A message keeps the gateway with the hash map in step with the one with the dense table, where its
  -- reference is other than 0, below 2 ^ 64 and within the table, the map is below its load cap, and a
  -- message other than a new order is for a reference that is not dead: both books, both counts of
  -- fills and lots and the ids of all references that are not dead stay the same, or both gateways meet
  -- undefined behaviour of the book. A full delete makes its reference dead, and a new order makes it
  -- live.
  pub hash_apply-Agrees :
      (dead : ℕ → Bool) (d : Gateway) (h : HashGateway) (m : Message)
      → (m.type ≢ MsgType.new_order → dead m.id ≡ false)
      → m.id < d.size
      → m.id < u64_mod
      → m.id ≢ 0
      → h.refs.size < load_cap log2 max_load_pct
      → Agrees num_ticks pool_cap log2 max_load_pct bits load dead d h
      → Both num_ticks pool_cap log2 max_load_pct bits load
          (dead_after num_ticks pool_cap log2 max_load_pct bits load m.type m.id dead)
          (gateway_apply num_ticks pool_cap m d)
          (hash_apply num_ticks pool_cap log2 max_load_pct m h)
  unfolding gateway_apply
  hash_apply-Agrees dead d h m c s l n room a =
      let inside : ltb m.id d.size ≡ true = ground arith in
      rw (inside) (by_type m.type dead d h m refl c l n room a)

  -- The two new gateways.
  pub new-Agrees :
      (dead : ℕ → Bool) (base : ℤ) (max_ref : ℕ)
      → Agrees num_ticks pool_cap log2 max_load_pct bits load dead
          (new_gateway num_ticks pool_cap base max_ref)
          (new_hash_gateway num_ticks pool_cap log2 max_load_pct base)
  new-Agrees dead base max_ref = record {
    books = refl;
    fills = refl;
    lots = refl;
    valid = new_map-IsMap log2 max_load_pct;
    ids = λ r l n w.
        let key = sparse-nonzero r l n in
        let (v, found, look) =
          find-Lookup log2 max_load_pct (sparse r) new_map (new_map-IsMap log2 max_load_pct) key
            bits load in
        found ∙ ap some (Lookup-new_map log2 max_load_pct (sparse r) v key look);
  }
