-- ===== src/Book/Fills/Enter.antt =====
-- A well-formed book at the start of a sweep, and why the fuel of the loop is enough.
use c_order_book.Prelude.{
  ℕ, zero, suc, ◌<◌, ◌≤◌, ◌≡◌, ◌∙◌, ap, sym, refl, true, false, arith, ◌==◌, Bool-cases, inl, inr,
  none, List, [], ◌∷◌, ◌++◌, length, length-append,
}
use mathlib.Core.Path.{subst}
use mathlib.Core.List.{append-nil}
use c_order_book.Prelude.Int.{ℤ}
use c_order_book.Book.State.{Book}
use c_order_book.Book.Queue.{Entry, has_slot, has_slot-append, Distinct, total}
use c_order_book.Book.Valid.{View, IsBook, AllGood, elsewhere, queued-inside}
use c_order_book.Book.Unlink.{Located, located, locate}
use c_order_book.Book.Unlink.Stored.{Distinct-gone}
use c_order_book.Book.Fills.{Sweeping, live_of}
use c_order_book.Book.Fills.Loop.{Holds}

other :
    (k n : ℕ) (es : List Entry) → k < suc n → has_slot k es ≡ true → has_slot n es ≡ false → k < n
other k n es l h out = elim (Bool-cases (k == n)) [
  | inl same ↦
      let e : k ≡ n = ground (arith, same) in
      absurd (ground (arith, sym h ∙ ap (λ m. has_slot m es) e ∙ out))
  | inr apart ↦ ground (arith, apart, l)
]

length-taken :
    (n : ℕ)
    → ((q : List Entry) → Distinct q → ((k : ℕ) → has_slot k q ≡ true → k < n) → length q ≤ n)
    → {q : List Entry} → Located n q
    → Distinct q
    → ((k : ℕ) → has_slot k q ≡ true → k < suc n)
    → length q ≤ suc n
length-taken n smaller (located ys z zs at) d inside =
    let gone = Distinct-gone ys zs z d in
    let out : has_slot n (ys ++ zs) ≡ false = ap (λ m. has_slot m (ys ++ zs)) (sym at) ∙ gone.1 in
    let fewer = smaller (ys ++ zs) gone.0 (λ k h.
      other k n (ys ++ zs)
        (inside k (ground (arith, h, has_slot-append k ys zs, has_slot-append k ys (z ∷ zs)))) h
        out) in
    omega (arith, fewer, length-append ys zs, length-append ys (z ∷ zs))

-- A queue has at most as many orders as the arena has slots.
pub length-Distinct :
    (n : ℕ) (es : List Entry)
    → Distinct es
    → ((k : ℕ) → has_slot k es ≡ true → k < n)
    → length es ≤ n
length-Distinct n [] d inside = omega arith
length-Distinct zero (e ∷ es) d inside = absurd (omega (arith, inside e.slot (ground arith)))
length-Distinct (suc n) (e ∷ es) d inside = elim (Bool-cases (has_slot n (e ∷ es))) [
  | inr out ↦
      omega (arith, length-Distinct n (e ∷ es) d (λ k h. other k n (e ∷ es) (inside k h) h out))
  | inl there ↦ length-taken n (length-Distinct n) (locate n (e ∷ es) there) d inside
]

module _ {num_ticks pool_cap : ℕ} {b : Book} {v : View} (w : IsBook num_ticks pool_cap b v)
    (idx : ℕ) where
  whole : v.queue idx ++ [] ≡ v.queue idx
  whole = append-nil (v.queue idx)

  pub enter-Sweeping : Sweeping pool_cap b v idx (live_of b) (v.queue idx) [] v.free
  enter-Sweeping = record {
    prev = none;
    last = none;
    frees = w.stored.free;
    front = w.stored.linked idx;
    back = tt;
    there = λ i ne. w.stored.linked i;
    distinct = subst Distinct (sym whole) (w.stored.distinct idx);
    apart = λ i ne n h. elsewhere w.stored n idx i ne (sym (ap (has_slot n) whole) ∙ h);
    tail = w.stored.tail idx;
    sum = w.stored.sum idx ∙ ap total (sym whole);
    others = λ i ne. refl;
    bounded = w.stored.bounded;
    resides = λ n o h.
        let (i, at) = w.stored.resides n o h in
        (
          i,
          elim (Bool-cases (idx == i)) [
            | inl same ↦
                rw (same, whole) (ap (λ j. has_slot n (v.queue j)) (ground (arith, same)) ∙ at)
            | inr other ↦ rw other at
          ],
        );
    good = subst (AllGood b.generations) (sym whole) (w.good idx);
    good_there = λ i ne. w.good i;
    wide = w.wide;
    parity = w.parity;
  }

  pub enter-Holds :
      (qty : ℤ)
      → Holds
          (record { at = (b.levels idx).head; qty = qty; reload_head = none; reload_tail = none })
          (v.queue idx)
          []
  enter-Holds qty = record { at = w.stored.head idx; head = refl; tail = refl }

  pub length-queue : length (v.queue idx) ≤ pool_cap
  length-queue =
      length-Distinct pool_cap (v.queue idx) (w.stored.distinct idx)
        λ k h. queued-inside w.stored k idx h
