-- ===== src/Book/Fills/Reload.antt =====
-- A round of the loop keeps its invariant: the order at hand shows its next clip and goes behind.
use c_order_book.Prelude.{
  ℕ, ◌≡◌, ◌≢◌, ◌∙◌, ap, sym, refl, true, false, ◌||◌, arith, ◌==◌, Bool-cases, inl, inr, Option,
  none, some, List, [], ◌∷◌, ◌++◌,
}
use mathlib.Core.Path.{subst}
use mathlib.Core.List.{append_assoc}
use c_order_book.Prelude.Int.{ℤ, pos, ◌+ℤ◌, ◌-ℤ◌, ◌<ℤ◌, min_ℤ-positive, min_ℤ-rest, int_laws}
use c_order_book.Prelude.Word.{update, update_self, update_ne}
use c_order_book.Pool.{Cell, object}
use c_order_book.Pool.Free.{IsFree, is_free, store-IsFree}
use c_order_book.Order.{Order}
use c_order_book.Book.State.{Book}
use c_order_book.Book.Queue.{
  Entry, as_order, last_or, has_slot, has_slot-append, Distinct, Distinct-right, Distinct-apart,
  Distinct-append, total, total-append, Seg, Seg-update, Seg-snoc, Seg-split,
}
use c_order_book.Book.Sweep.{Sweep}
use c_order_book.Book.Valid.{View, price_of, AllGood, IsGood}
use c_order_book.Book.Rest.Kept.{AllGood-append}
use c_order_book.Book.Unlink.Stored.{object_of}
use c_order_book.Book.Fills.{Live, put_live, Sweeping, next_clip}
use c_order_book.Book.Fills.Step.{filled_reloaded}
use c_order_book.Book.Fills.Round.{at_hand, outside, nowhere, inside, part, part-IsFree, moved}

module _ {pool_cap : ℕ} {b : Book} {v : View} {idx : ℕ} {x : Live} {e : Entry} {es rl : List Entry}
    {free : List ℕ} (cap : b.pool.capacity ≡ pool_cap)
    (w : Sweeping pool_cap b v idx x (e ∷ es) rl free) (s : Sweep) (f : ℤ) (all : f ≡ e.qty)
    (iceberg : pos 0 <ℤ e.hidden) where
  abbrev pub renewed : (ℕ → Cell Order) → Live
  renewed c = record (filled_reloaded b x idx (price_of b idx) e.slot s (at_hand cap w) f) {
    cells = c;
  }

  abbrev pub chain : List Entry
  chain = rl ++ (next_clip e ∷ [])

  chain_slot :
      (n : ℕ) → has_slot n (es ++ chain) ≡ (has_slot n es || has_slot n rl || (n == e.slot))
  chain_slot n = ground (arith, has_slot-append n es chain, has_slot-append n rl (next_clip e ∷ []))

  lots : total (es ++ chain) ≡ total (es ++ rl) +ℤ (next_clip e).qty
  lots =
      ap total (sym (append_assoc es rl (next_clip e ∷ [])))
      ∙ total-append (es ++ rl) (next_clip e ∷ [])
      ∙ ap (λ t. total (es ++ rl) +ℤ t) (omega int_laws)

  renewed-IsGood : IsGood x.generations (next_clip e)
  renewed-IsGood = record {
    named = w.good.0.named;
    shown = min_ℤ-positive e.display e.hidden (w.good.0.clip iceberg) iceberg;
    reserve = min_ℤ-rest e.display e.hidden;
    clip = λ h. w.good.0.clip iceberg;
  }

  pub Sweeping-renewed :
      (c : ℕ → Cell Order)
      → ((n : ℕ) → is_free (c n) ≡ is_free (x.cells n))
      → IsFree (record (b.pool) { cells = c; free_head = x.free_head }) free
      → Seg (price_of b idx) (v.side idx) c (some e.slot) es none
      → Seg (price_of b idx) (v.side idx) c none chain none
      → ((i : ℕ) → idx ≢ i → Seg (price_of b i) (v.side i) c none (v.queue i) none)
      → Sweeping pool_cap b v idx (renewed c) es chain free
  Sweeping-renewed c same frees front back there = record {
    prev = some e.slot;
    last = some e.slot;
    frees = frees;
    front = front;
    back = back;
    there = there;
    distinct = subst Distinct (append_assoc es rl (next_clip e ∷ [])) (
        Distinct-append (es ++ rl) (next_clip e ∷ []) w.distinct.1 (refl, tt)
          (λ n h. ground (arith, w.distinct.0, h)));
    apart = λ i ne n h. w.apart i ne n (ground (arith, h, chain_slot n, has_slot-append n es rl));
    tail = ground (arith, w.tail);
    sum =
        ground arith
        ∙ ap (λ t. (t -ℤ f) +ℤ (next_clip e).qty)
            (w.sum ∙ ap (λ t. t +ℤ total (es ++ rl)) (sym all))
        ∙ ap (λ t. t +ℤ (next_clip e).qty) (omega int_laws)
        ∙ sym lots;
    others = λ i ne. ground (arith, w.others i ne);
    bounded = λ n o h. w.bounded n (was n o h).0 (was n o h).1;
    resides = λ n o h.
        moved v idx n ((e ∷ es) ++ rl) (es ++ chain)
          (λ k. ground (arith, k, chain_slot n, has_slot-append n es rl))
          (w.resides n (was n o h).0 (was n o h).1);
    good =
        subst (AllGood x.generations) (append_assoc es rl (next_clip e ∷ [])) (
          AllGood-append x.generations (es ++ rl) (next_clip e ∷ []) w.good.1 (renewed-IsGood, tt));
    good_there = w.good_there;
    wide = w.wide;
    parity = λ n l. w.parity n l ∙ sym (same n);
  }
    where
      was : (n : ℕ) (o : Order) → c n ≡ object o → (o2 : Order) × (x.cells n ≡ object o2)
      was n o h = object_of (x.cells n) (ground (arith, h, same n))

  -- the slot of `e` rewritten, alone in the chain or behind the slot `t`
  abbrev pub cells_first : ℕ → Cell Order
  cells_first = (filled_reloaded b x idx (price_of b idx) e.slot s (at_hand cap w) f).cells

  first-IsFree : IsFree (record (b.pool) { cells = cells_first; free_head = x.free_head }) free
  first-IsFree =
      store-IsFree (put_live (part cap w s f) b).pool e.slot
        (record (at_hand cap w) { qty = e.qty -ℤ f }) _ free (ground arith)
        (omega (arith, inside cap w, cap)) (part-IsFree cap w s f)

  twice :
      (i : ℕ) (pv : Option ℕ) (q : List Entry)
      → has_slot e.slot q ≡ false
      → Seg (price_of b i) (v.side i) x.cells pv q none
      → Seg (price_of b i) (v.side i) cells_first pv q none
  twice i pv q out h =
      Seg-update (price_of b i) (v.side i) (part cap w s f).cells e.slot _ pv none q out
        (Seg-update (price_of b i) (v.side i) x.cells e.slot _ pv none q out h)

  first-is_free : (n : ℕ) → is_free (cells_first n) ≡ is_free (x.cells n)
  first-is_free n = elim (Bool-cases (e.slot == n)) [
    | inl h ↦
        let same : e.slot ≡ n = ground (arith, h) in
        rw h (sym (ap is_free w.front.0) ∙ ap (λ m. is_free (x.cells m)) same)
    | inr h ↦ rw h refl
  ]

  out_es : has_slot e.slot es ≡ false
  out_es = ground (arith, outside cap w)

  out_rl : has_slot e.slot rl ≡ false
  out_rl = ground (arith, outside cap w)

  pub Sweeping-first :
      rl ≡ [] → s.reload_tail ≡ none → Sweeping pool_cap b v idx (renewed cells_first) es chain free
  Sweeping-first empty tail =
      Sweeping-renewed cells_first first-is_free (first-IsFree)
        (twice idx (some e.slot) es out_es w.front.1)
        (rw empty (
          update_self (part cap w s f).cells e.slot _
              ∙ ap (λ p. object (as_order (price_of b idx) (v.side idx) (next_clip e) none p)) tail,
          tt,
        ))
        (λ i ne. twice i none (v.queue i) (nowhere cap w i ne) (w.there i ne))

  module _ (ys : List Entry) (z : Entry) (queue : rl ≡ ys ++ (z ∷ []))
      (tail : s.reload_tail ≡ some z.slot) where
    abbrev pub last_order : Order
    last_order = as_order (price_of b idx) (v.side idx) z none (last_or none ys)

    back0 : Seg (price_of b idx) (v.side idx) x.cells none (ys ++ (z ∷ [])) none
    back0 = subst (λ q. Seg (price_of b idx) (v.side idx) x.cells none q none) queue w.back

    pub last_order-live : x.cells z.slot ≡ object last_order
    last_order-live =
        (Seg-split (price_of b idx) (v.side idx) x.cells none none ys (z ∷ []) back0).1.0

    z_in : has_slot z.slot rl ≡ true
    z_in = rw queue (ground (arith, has_slot-append z.slot ys (z ∷ [])))

    pub apart_slots : e.slot ≢ z.slot
    apart_slots h = ground (arith, z_in, outside cap w, h)

    abbrev pub cells_next : ℕ → Cell Order
    cells_next = update cells_first z.slot (object (record last_order { next = some e.slot }))

    z_es : has_slot z.slot es ≡ false
    z_es = elim (Bool-cases (has_slot z.slot es)) [
      | inr out ↦ out
      | inl in_both ↦
          absurd (ground (arith, in_both, z_in, Distinct-apart es rl z.slot w.distinct.1))
    ]

    z_cell : cells_first z.slot ≡ object last_order
    z_cell =
        update_ne (part cap w s f).cells e.slot z.slot _ apart_slots
        ∙ update_ne x.cells e.slot z.slot _ apart_slots
        ∙ last_order-live

    back1 : Seg (price_of b idx) (v.side idx) cells_next none chain none
    back1 = rw queue (
        subst
          (λ p.
            Seg (price_of b idx) (v.side idx)
              (update
                (update (part cap w s f).cells e.slot
                  (object (as_order (price_of b idx) (v.side idx) (next_clip e) none p)))
                z.slot (object (record last_order { next = some e.slot })))
              none ((ys ++ (z ∷ [])) ++ (next_clip e ∷ [])) none)
          (sym tail)
          (Seg-snoc (price_of b idx) (v.side idx) (part cap w s f).cells ys z (next_clip e)
            (subst Distinct queue (Distinct-right es rl w.distinct.1))
            (subst (λ q. has_slot e.slot q ≡ false) queue out_rl)
            (Seg-update (price_of b idx) (v.side idx) x.cells e.slot _ none none (ys ++ (z ∷ []))
              (subst (λ q. has_slot e.slot q ≡ false) queue out_rl) back0)))

    pub Sweeping-next : Sweeping pool_cap b v idx (renewed cells_next) es chain free
    Sweeping-next =
        Sweeping-renewed cells_next (λ n. ground (arith, w.front, last_order-live))
          (store-IsFree (record (b.pool) { cells = cells_first; free_head = x.free_head }) z.slot
            last_order _ free z_cell
            (omega (arith, w.bounded z.slot last_order last_order-live, cap)) first-IsFree)
          (Seg-update (price_of b idx) (v.side idx) cells_first z.slot _ (some e.slot) none es z_es
            (twice idx (some e.slot) es out_es w.front.1))
          back1
          (λ i ne.
            Seg-update (price_of b i) (v.side i) cells_first z.slot _ none none (v.queue i)
              (w.apart i ne z.slot (ground (arith, z_in, has_slot-append z.slot es rl)))
              (twice i none (v.queue i) (nowhere cap w i ne) (w.there i ne)))
