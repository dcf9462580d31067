-- ===== src/Book/Queue.antt =====
-- The orders of one price level: what its intrusive links stand for, and what an update of the arena
-- does to them.
use c_order_book.Prelude.{
  ℕ, ◌≡◌, ◌∙◌, ap, sym, refl, Bool, true, false, ◌||◌, arith, ◌==◌, Bool-cases, inl, inr, Option,
  none, some, List, [], ◌∷◌, ◌++◌,
}
use c_order_book.Prelude.Int.{ℤ, pos, ◌+ℤ◌, +ℤ_assoc, zero-+ℤ}
use c_order_book.Prelude.Word.{update}
use c_order_book.Pool.{Cell, object}
use c_order_book.Order.{Side, Order}

-- What an order of a level holds besides the level's side and price.
pub record Entry : Type 0 where
  pub slot : ℕ
  pub id : ℕ
  pub qty : ℤ
  pub hidden : ℤ
  pub display : ℤ

abbrev pub as_order : ℤ → Side → Entry → Option ℕ → Option ℕ → Order
as_order px side e nx pv = record {
  qty = e.qty;
  next = nx;
  prev = pv;
  price = px;
  id = e.id;
  side = side;
  hidden_qty = e.hidden;
  display_qty = e.display;
}

-- the first slot of a queue that `nx` follows, the last slot of one that `pv` precedes
abbrev pub first_or : Option ℕ → List Entry → Option ℕ
first_or nx [] = nx
first_or nx (e ∷ es) = some e.slot

abbrev pub last_or : Option ℕ → List Entry → Option ℕ
last_or pv [] = pv
last_or pv (e ∷ es) = last_or (some e.slot) es

abbrev pub has_slot : ℕ → List Entry → Bool
has_slot n [] = false
has_slot n (e ∷ es) = (n == e.slot) || has_slot n es

abbrev pub Distinct : List Entry → Type 0
Distinct [] = Unit {0}
Distinct (e ∷ es) = (has_slot e.slot es ≡ false) × Distinct es

-- the visible lots
abbrev pub total : List Entry → ℤ
total [] = pos 0
total (e ∷ es) = e.qty +ℤ total es

pub last_or-append :
    (pv : Option ℕ) (xs ys : List Entry) → last_or pv (xs ++ ys) ≡ last_or (last_or pv xs) ys
last_or-append pv [] ys = refl
last_or-append pv (x ∷ xs) ys = last_or-append (some x.slot) xs ys

pub first_or-append :
    (nx : Option ℕ) (xs ys : List Entry) → first_or nx (xs ++ ys) ≡ first_or (first_or nx ys) xs
first_or-append nx [] ys = refl
first_or-append nx (x ∷ xs) ys = refl

pub has_slot-append :
    (n : ℕ) (xs ys : List Entry) → has_slot n (xs ++ ys) ≡ (has_slot n xs || has_slot n ys)
has_slot-append n [] ys = refl
has_slot-append n (x ∷ xs) ys = ground (arith, has_slot-append n xs ys)

pub Distinct-append :
    (xs ys : List Entry)
    → Distinct xs
    → Distinct ys
    → ((n : ℕ) → has_slot n xs ≡ true → has_slot n ys ≡ false)
    → Distinct (xs ++ ys)
Distinct-append [] ys d e apart = e
Distinct-append (x ∷ xs) ys d e apart = (
  ground (arith, has_slot-append x.slot xs ys, d.0, apart x.slot),
  Distinct-append xs ys d.1 e (λ n h. apart n (ground arith)),
)

pub Distinct-left : (xs ys : List Entry) → Distinct (xs ++ ys) → Distinct xs
Distinct-left [] ys d = tt
Distinct-left (x ∷ xs) ys d =
    (ground (arith, has_slot-append x.slot xs ys, d.0), Distinct-left xs ys d.1)

pub Distinct-right : (xs ys : List Entry) → Distinct (xs ++ ys) → Distinct ys
Distinct-right [] ys d = d
Distinct-right (x ∷ xs) ys d = Distinct-right xs ys d.1

pub Distinct-apart :
    (xs ys : List Entry) (n : ℕ)
    → Distinct (xs ++ ys)
    → has_slot n xs ≡ true
    → has_slot n ys ≡ false
Distinct-apart [] ys n d h = absurd (ground arith)
Distinct-apart (x ∷ xs) ys n d h =
    ground (arith, d.0, has_slot-append x.slot xs ys, Distinct-apart xs ys n d.1)

pub total-append : (xs ys : List Entry) → total (xs ++ ys) ≡ total xs +ℤ total ys
total-append [] ys = sym (zero-+ℤ (total ys))
total-append (x ∷ xs) ys =
    ap (λ t. x.qty +ℤ t) (total-append xs ys) ∙ sym (+ℤ_assoc x.qty (total xs) (total ys))

-- A queue is empty or ends in an entry.
pub data Snoc : List Entry → Type 0 where
  none_in : Snoc []
  snoc : (ys : List Entry) (z : Entry) → Snoc (ys ++ (z ∷ []))

pub Snoc-cons : (x : Entry) {xs : List Entry} → Snoc xs → Snoc (x ∷ xs)
Snoc-cons x none_in = snoc [] x
Snoc-cons x (snoc ys z) = snoc (x ∷ ys) z

pub to_snoc : (xs : List Entry) → Snoc xs
to_snoc [] = none_in
to_snoc (x ∷ xs) = Snoc-cons x (to_snoc xs)

module _ (px : ℤ) (side : Side) where
  -- From `pv` to `nx` the slots of `es` hold its entries, each linked to both neighbours.
  abbrev pub Seg : (ℕ → Cell Order) → Option ℕ → List Entry → Option ℕ → Type 0
  Seg c pv [] nx = Unit {0}
  Seg c pv (e ∷ es) nx =
      (c e.slot ≡ object (as_order px side e (first_or nx es) pv)) × Seg c (some e.slot) es nx

  pub Seg-update :
      (c : ℕ → Cell Order) (n : ℕ) (v : Cell Order) (pv nx : Option ℕ) (es : List Entry)
      → has_slot n es ≡ false
      → Seg c pv es nx
      → Seg (update c n v) pv es nx
  Seg-update c n v pv nx [] h s = tt
  Seg-update c n v pv nx (e ∷ es) h s =
      (ground (arith, s.0), Seg-update c n v (some e.slot) nx es (ground arith) s.1)

  pub Seg-split :
      (c : ℕ → Cell Order) (pv nx : Option ℕ) (xs ys : List Entry)
      → Seg c pv (xs ++ ys) nx
      → Seg c pv xs (first_or nx ys) × Seg c (last_or pv xs) ys nx
  Seg-split c pv nx [] ys s = (tt, s)
  Seg-split c pv nx (x ∷ xs) ys s =
      let r = Seg-split c (some x.slot) nx xs ys s.1 in
      ((ground (arith, s.0, first_or-append nx xs ys), r.0), r.1)

  pub Seg-join :
      (c : ℕ → Cell Order) (pv nx : Option ℕ) (xs ys : List Entry)
      → Seg c pv xs (first_or nx ys)
      → Seg c (last_or pv xs) ys nx
      → Seg c pv (xs ++ ys) nx
  Seg-join c pv nx [] ys s t = t
  Seg-join c pv nx (x ∷ xs) ys s t =
      (ground (arith, s.0, first_or-append nx xs ys), Seg-join c (some x.slot) nx xs ys s.1 t)

  -- An entry's slot holds an order of this level.
  pub Seg-has_slot :
      (c : ℕ → Cell Order) (pv nx : Option ℕ) (es : List Entry) (n : ℕ)
      → Seg c pv es nx
      → has_slot n es ≡ true
      → (o : Order) × (c n ≡ object o) × (o.price ≡ px) × (o.side ≡ side)
  Seg-has_slot c pv nx [] n s h = absurd (ground arith)
  Seg-has_slot c pv nx (e ∷ es) n s h = elim (Bool-cases (n == e.slot)) [
    | inl here ↦ (as_order px side e (first_or nx es) pv, ground (arith, s.0), refl, refl)
    | inr later ↦ Seg-has_slot c (some e.slot) nx es n s.1 (ground arith)
  ]

  -- Linking the entry `e` behind the last one, `z`.
  pub Seg-snoc :
      (c : ℕ → Cell Order) (ys : List Entry) (z e : Entry)
      → Distinct (ys ++ (z ∷ []))
      → has_slot e.slot (ys ++ (z ∷ [])) ≡ false
      → Seg c none (ys ++ (z ∷ [])) none
      → Seg
          (update
            (update c e.slot (object (as_order px side e none (some z.slot))))
            z.slot
            (object (as_order px side z (some e.slot) (last_or none ys))))
          none
          ((ys ++ (z ∷ [])) ++ (e ∷ []))
          none
  Seg-snoc c ys z e d out s =
      let parts = Seg-split c none none ys (z ∷ []) s in
      let z_out : has_slot z.slot ys ≡ false =
        ground (arith, Distinct-apart ys (z ∷ []) z.slot d) in
      let e_out : (has_slot e.slot ys || (e.slot == z.slot) || false) ≡ false =
        ground (arith, out, has_slot-append e.slot ys (z ∷ [])) in
      let c1 = update c e.slot (object (as_order px side e none (some z.slot))) in
      let front =
        Seg-update c1 z.slot _ none (some z.slot) ys z_out
          (Seg-update c e.slot _ none (some z.slot) ys (ground (arith, e_out)) parts.0) in
      Seg-join _ none none (ys ++ (z ∷ [])) (e ∷ [])
        (Seg-join _ none (some e.slot) ys (z ∷ []) front (ground arith, tt))
        (ground (arith, e_out, last_or-append none ys (z ∷ [])), tt)
