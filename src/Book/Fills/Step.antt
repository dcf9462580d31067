-- ===== src/Book/Fills/Step.antt =====
-- The states that one round of the loop of `sweep_level` goes to.
use c_order_book.Prelude.{
  ℕ, ◌+◌, ◌^◌, ◌%◌, ◌≡◌, ◌≢◌, refl, true, false, arith, none, some, List, [], ◌∷◌, ◌++◌,
}
use c_order_book.Prelude.Int.{ℤ, pos, ltb_ℤ, eq_ℤ, min_ℤ, ◌+ℤ◌, ◌-ℤ◌}
use c_order_book.Prelude.Word.{update}
use c_order_book.Pool.{object, free_node, release}
use c_order_book.Order.{Order, Trade}
use c_order_book.Book.State.{Book, PriceLevel}
use c_order_book.Book.Access.{load_order-ok, store_order-ok}
use c_order_book.Book.Links.{release_order}
use c_order_book.Book.Sweep.{Sweep, fill_step, reload, retire, chain_reload}
use c_order_book.Book.Fills.{Live, put_live}

chain_reload-next :
    (b : Book) (n t : ℕ) (u : Order) (y : Live) (s : Sweep)
    → s.reload_tail ≡ some t
    → y.cells t ≡ object u
    → chain_reload n s (put_live y b)
      ≡ some (
        s.reload_head,
        put_live (record y { cells = update y.cells t (object (record u { next = some n })) }) b,
      )
unfolding chain_reload
chain_reload-next b n t u y s more live = rw more (
    rw (load_order-ok t (put_live y b) u live)
      (rw (store_order-ok t (put_live y b) u live (record u { next = some n })) refl))

module _ (b : Book) (x : Live) (idx : ℕ) (px : ℤ) (n : ℕ) (s : Sweep) (o : Order) (f : ℤ) where
  abbrev pub level_less : PriceLevel
  level_less = record (x.levels idx) { total_qty = (x.levels idx).total_qty -ℤ f }

  abbrev pub trades_more : List Trade
  trades_more = x.trades ++ (record { maker_id = o.id; taker_id = 0; price = px; qty = f } ∷ [])

  abbrev pub filled_part : Live
  filled_part = record {
    cells = update x.cells n (object (record o { qty = o.qty -ℤ f }));
    free_head = x.free_head;
    levels = update x.levels idx level_less;
    generations = x.generations;
    trades = trades_more;
  }

  abbrev pub filled_retired : Live
  filled_retired = record {
    cells = update filled_part.cells n (free_node x.free_head);
    free_head = some n;
    levels = filled_part.levels;
    generations = update x.generations n ((x.generations n + 1) % 2 ^ 32);
    trades = trades_more;
  }

  abbrev pub clip : ℤ
  clip = min_ℤ o.display_qty o.hidden_qty

  abbrev pub clipped : Order
  clipped = record o {
    qty = clip;
    hidden_qty = o.hidden_qty -ℤ clip;
    next = none;
    prev = s.reload_tail;
  }

  abbrev pub filled_reloaded : Live
  filled_reloaded = record {
    cells = update filled_part.cells n (object clipped);
    free_head = x.free_head;
    levels = update filled_part.levels idx (record (filled_part.levels idx) {
      total_qty = (filled_part.levels idx).total_qty +ℤ clip;
    });
    generations = x.generations;
    trades = trades_more;
  }

  module _ (live : x.cells n ≡ object o) (least : min_ℤ o.qty s.qty ≡ f) where
    pub fill_step-part :
        eq_ℤ (o.qty -ℤ f) (pos 0) ≡ false
        → fill_step idx px n s (put_live x b)
          ≡ some (record s { qty = s.qty -ℤ f }, put_live filled_part b)
    unfolding fill_step
    fill_step-part more =
        rw (load_order-ok n (put_live x b) o live, least)
          (rw (store_order-ok n (put_live x b) o live (record o { qty = o.qty -ℤ f }), more) refl)

    pub fill_step-retired :
        eq_ℤ (o.qty -ℤ f) (pos 0) ≡ true
        → ltb_ℤ (pos 0) o.hidden_qty ≡ false
        → fill_step idx px n s (put_live x b)
          ≡ some (record s { at = o.next; qty = s.qty -ℤ f }, put_live filled_retired b)
    unfolding fill_step retire release_order release
    fill_step-retired done plain =
        rw (load_order-ok n (put_live x b) o live, least)
          (rw (store_order-ok n (put_live x b) o live (record o { qty = o.qty -ℤ f }), done, plain)
            (ground arith))

    module _ (done : eq_ℤ (o.qty -ℤ f) (pos 0) ≡ true)
        (iceberg : ltb_ℤ (pos 0) o.hidden_qty ≡ true) where
      pub fill_step-first :
          s.reload_tail ≡ none
          → fill_step idx px n s (put_live x b)
            ≡ some (
              record { at = o.next; qty = s.qty -ℤ f; reload_head = some n; reload_tail = some n },
              put_live filled_reloaded b,
            )
      unfolding fill_step reload chain_reload
      fill_step-first alone =
          rw (load_order-ok n (put_live x b) o live, least)
            (rw
              (
                store_order-ok n (put_live x b) o live (record o { qty = o.qty -ℤ f }),
                done,
                iceberg,
              )
              (rw
                (
                  store_order-ok n (put_live filled_part b) (record o { qty = o.qty -ℤ f })
                      (ground arith) clipped,
                  alone,
                  chain_reload,
                )
                refl))

      pub fill_step-next :
          (t : ℕ) (u : Order)
          → s.reload_tail ≡ some t
          → n ≢ t
          → x.cells t ≡ object u
          → fill_step idx px n s (put_live x b)
            ≡ some (
              record {
                at = o.next;
                qty = s.qty -ℤ f;
                reload_head = s.reload_head;
                reload_tail = some n;
              },
              put_live
                  (record filled_reloaded {
                    cells = update filled_reloaded.cells t (object (record u { next = some n }));
                  })
                  b,
            )
      unfolding fill_step reload
      fill_step-next t u more ne before =
          rw (load_order-ok n (put_live x b) o live, least)
            (rw
              (
                store_order-ok n (put_live x b) o live (record o { qty = o.qty -ℤ f }),
                done,
                iceberg,
              )
              (rw
                (store_order-ok n (put_live filled_part b) (record o { qty = o.qty -ℤ f })
                  (ground arith) clipped)
                (rw
                  (chain_reload-next b n t u filled_reloaded
                    (record s { qty = s.qty -ℤ min_ℤ o.qty s.qty }) more
                    (ground (arith, ne, before)))
                  refl)))
