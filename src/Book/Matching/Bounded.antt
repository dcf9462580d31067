-- ===== src/Book/Matching/Bounded.antt =====
-- Bounds of the quantities: what the calls keep of a bound on the lots of every order.
use c_order_book.Prelude.{ℕ, ◌*◌, arith, ◌==◌, Bool-cases, inl, inr, List, [], ◌∷◌, ◌++◌, length}
use mathlib.Core.Path.{subst}
use c_order_book.Prelude.Int.{ℤ, pos, ◌+ℤ◌, ◌-ℤ◌, ◌<ℤ◌, ◌≤ℤ◌, ltb_ℤ, min_ℤ, -ℤ_parts, int_laws}
use c_order_book.Prelude.Word.{update}
use c_order_book.Order.{Side, Trade}
use c_order_book.Book.Queue.{Entry, total}
use c_order_book.Book.Valid.{View}
use c_order_book.Book.Unlink.Finds.{Stands}
use c_order_book.Book.Unlink.Lessened.{lessened}
use c_order_book.Book.Fills.{fill_queue, next_clip}
use c_order_book.Book.Matching.{Matched, stops, takes}

-- At most `most` lots are shown, and at most as many are in reserve.
pub record IsSmall (most : ℕ) (e : Entry) : Type 0 where
  pub shown : pos 0 <ℤ e.qty
  pub few : e.qty ≤ℤ pos most
  pub kept : e.hidden ≤ℤ pos most
  pub clip : pos 0 <ℤ e.hidden → pos 0 <ℤ e.display

abbrev pub AllSmall : ℕ → List Entry → Type 0
AllSmall most [] = Unit {0}
AllSmall most (e ∷ es) = IsSmall most e × AllSmall most es

-- so in every queue
abbrev pub SmallView : ℕ → View → Type 0
SmallView most v = (i : ℕ) → AllSmall most (v.queue i)

module _ (most : ℕ) where
  pub AllSmall-append :
      (xs ys : List Entry) → AllSmall most xs → AllSmall most ys → AllSmall most (xs ++ ys)
  AllSmall-append [] ys a c = c
  AllSmall-append (x ∷ xs) ys a c = (a.0, AllSmall-append xs ys a.1 c)

  pub AllSmall-split :
      (xs ys : List Entry) → AllSmall most (xs ++ ys) → AllSmall most xs × AllSmall most ys
  AllSmall-split [] ys a = (tt, a)
  AllSmall-split (x ∷ xs) ys a = let (c, d) = AllSmall-split xs ys a.1 in ((a.0, c), d)

  pub updated_small :
      (f : ℕ → List Entry) (idx : ℕ) (q : List Entry)
      → ((i : ℕ) → AllSmall most (f i))
      → AllSmall most q
      → (i : ℕ) → AllSmall most (update f idx q i)
  updated_small f idx q a c i = elim (Bool-cases (idx == i)) [ inl h ↦ rw h c | inr h ↦ rw h (a i) ]

  lessened-IsSmall :
      (e : Entry) (q : ℤ) → pos 0 ≤ℤ q → q <ℤ e.qty → IsSmall most e → IsSmall most (lessened e q)
  lessened-IsSmall e q p l s = record {
    shown = omega (int_laws, l);
    few = omega (int_laws, p, s.few);
    kept = s.kept;
    clip = s.clip;
  }

  around_small :
      (v : View) {id : ℕ} (idx : ℕ) (ys zs : List Entry) (e : Entry)
      → Stands v id idx ys zs e
      → SmallView most v
      → AllSmall most ys × AllSmall most (e ∷ zs)
  around_small v idx ys zs e at s =
      AllSmall-split ys (e ∷ zs) (subst (AllSmall most) at.queue (s idx))

  -- an order leaves its queue, or keeps its place with fewer lots
  pub removed_small :
      (v : View) {id : ℕ} (idx : ℕ) (ys zs : List Entry) (e : Entry)
      → Stands v id idx ys zs e
      → SmallView most v
      → (i : ℕ) → AllSmall most (update v.queue idx (ys ++ zs) i)
  removed_small v idx ys zs e at s =
      let (front, back) = around_small v idx ys zs e at s in
      updated_small v.queue idx _ s (AllSmall-append ys zs front back.1)

  pub lessened_at_small :
      (v : View) {id : ℕ} (idx : ℕ) (ys zs : List Entry) (e : Entry)
      → Stands v id idx ys zs e
      → (q : ℤ) → pos 0 ≤ℤ q
      → q <ℤ e.qty
      → SmallView most v
      → (i : ℕ) → AllSmall most (update v.queue idx (ys ++ (lessened e q ∷ zs)) i)
  lessened_at_small v idx ys zs e at q p l s =
      let (front, back) = around_small v idx ys zs e at s in
      updated_small v.queue idx _ s
        (AllSmall-append ys _ front (lessened-IsSmall e q p l back.0, back.1))

  next_clip-IsSmall : (e : Entry) → pos 0 <ℤ e.hidden → IsSmall most e → IsSmall most (next_clip e)
  next_clip-IsSmall e h s =
      let d = s.clip h in
      record {
        shown = ground (arith, d, h);
        few = ground (arith, s.kept);
        kept = ground (arith, s.kept, d, h, -ℤ_parts e.hidden (min_ℤ e.display e.hidden));
        clip = λ _. d;
      }

  -- the queue that a taker leaves, and the lots that it leaves the taker
  pub fill_queue-AllSmall :
      (px : ℤ) (es : List Entry) (q : ℤ)
      → AllSmall most es
      → AllSmall most (fill_queue px es q).left
        × AllSmall most (fill_queue px es q).reloaded
        × ((fill_queue px es q).open_lots ≤ℤ q)
  unfolding fill_queue
  fill_queue-AllSmall px [] q a = (tt, tt, omega arith)
  fill_queue-AllSmall px (e ∷ es) q a = elim (Bool-cases (ltb_ℤ (pos 0) q)) [
    | inr done ↦ rw done (a, tt, omega arith)
    | inl more ↦ elim (Bool-cases (ltb_ℤ q e.qty)) [
      | inl part ↦
          let some_lots : pos 0 ≤ℤ q = ground (arith, more) in
          rw (more, part)
            ((lessened-IsSmall e q some_lots (ground (arith, part)) a.0, a.1), tt, some_lots)
      | inr all ↦
          let (left, reloaded, fewer) = fill_queue-AllSmall px es (q -ℤ e.qty) a.1 in
          let lots : (fill_queue px es (q -ℤ e.qty)).open_lots ≤ℤ q =
            omega (int_laws, fewer, a.0.shown) in
          elim (Bool-cases (ltb_ℤ (pos 0) e.hidden)) [
            | inl h ↦
                rw (more, all, h)
                  (left, (next_clip-IsSmall e (ground (arith, h)) a.0, reloaded), lots)
            | inr h ↦ rw (more, all, h) (left, reloaded, lots)
          ]
    ]
  ]

  pub Matched-SmallView :
      {base : ℤ} {taker : Side} {limit : ℕ} {v v2 : View} {q left : ℤ} {ts : List Trade}
      → Matched base taker limit v q ts v2 left
      → SmallView most v
      → SmallView most v2 × (left ≤ℤ q)
  Matched-SmallView {q = q} (stops h) s = (s, omega arith)
  Matched-SmallView {base} {v = v} {q = q} (takes i h1 h2 h3 m) s =
      let (a, r, fewer) = fill_queue-AllSmall (base +ℤ pos i) (v.queue i) q (s i) in
      let (c, rest) = Matched-SmallView m (updated_small v.queue i _ s (AllSmall-append _ _ a r)) in
      (c, omega (arith, fewer, rest))

  pub total_bounds :
      (es : List Entry)
      → AllSmall most es
      → (pos 0 ≤ℤ total es) × (total es ≤ℤ pos (length es * most))
  total_bounds [] a = (omega arith, omega arith)
  total_bounds (e ∷ es) a =
      let (low, high) = total_bounds es a.1 in
      let s = a.0 in (omega (int_laws, s.shown, low), omega (int_laws, s.few, high))
