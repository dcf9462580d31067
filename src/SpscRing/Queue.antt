-- ===== src/SpscRing/Queue.antt =====
-- A valid ring behaves as the bounded queue of the items between its two indices.
use c_order_book.Prelude.{
  ℕ, zero, suc, ◌+◌, ◌-◌, ◌%◌, ◌≤◌, ◌<◌, ◌≡◌, ◌≢◌, refl, ap, true, Bool, false, Option, none, some,
  List, [], ◌∷◌, ◌++◌, arith, leb, if◌then◌else◌, length,
}
use c_order_book.Prelude.Word.{update_self, u64_mod, add64, sub64, update}
use c_order_book.SpscRing.{Ring, try_push, try_pop}

-- Two indices less than `cap` apart have different slots.
pub mod-ne : (cap i k : ℕ) → 0 < k → k < cap → (i + k) % cap ≢ i % cap
mod-ne cap i k h l e = grind arith

module _ {T : Type 0} (cap : ℕ) where
  -- the `n` items from index `i` on
  abbrev pub window : (ℕ → T) → ℕ → ℕ → List T
  window buf i zero = []
  window buf i (suc n) = buf (i % cap) ∷ window buf (i + 1) n

  -- what a ring stands for, oldest item first
  abbrev pub contents : Ring T → List T
  contents r = window r.buf r.tail (r.head - r.tail)

  pub length-window : (buf : ℕ → T) (i n : ℕ) → length (window buf i n) ≡ n
  length-window buf i zero = refl
  length-window buf i (suc n) = ap suc (length-window buf (i + 1) n)

  -- Writing behind a window of less than `cap` items extends it by that item.
  pub window-push :
      (buf : ℕ → T) (x : T) (i n j : ℕ)
      → j ≡ i + n
      → n < cap
      → window (update buf (j % cap) x) i (suc n) ≡ window buf i n ++ (x ∷ [])
  window-push buf x i zero j e h =
      let e' : j ≡ i = omega arith in rw (e', update_self buf (i % cap) x)
  window-push buf x i (suc n) j e h =
      ground (arith, mod-ne cap i (suc n), window-push buf x (i + 1) n j)

  -- A write behind a window of less than `cap` items leaves the window.
  pub window-update :
      (buf : ℕ → T) (x : T) (i n j k : ℕ)
      → j ≡ i + n + k
      → n + k < cap
      → window (update buf (j % cap) x) i n ≡ window buf i n
  window-update buf x i zero j k e h = refl
  window-update buf x i (suc n) j k e h =
      ground (arith, mod-ne cap i (suc n + k), window-update buf x (i + 1) n j k)

  pub window_extend :
      (buf : ℕ → T) (i n j : ℕ)
      → j ≡ i + n
      → window buf i (suc n) ≡ window buf i n ++ (buf (j % cap) ∷ [])
  window_extend buf i zero j e = let e' : j ≡ i = omega arith in rw e'
  window_extend buf i (suc n) j e =
      ap (λ l. buf (i % cap) ∷ l) (window_extend buf (i + 1) n j (omega arith))

  pub window_of_pos :
      (buf : ℕ → T) (i n : ℕ) → 0 < n → window buf i n ≡ buf (i % cap) ∷ window buf (i + 1) (n - 1)
  window_of_pos buf i zero h = absurd (omega arith)
  window_of_pos buf i (suc n) h = ap (λ k. window buf i (suc k)) (omega arith)

  -- Each side's copy of the other's index is at most the index, and the indices are at most
  -- `cap` apart.
  pub record IsValid (r : Ring T) : Type 0 where
    pub tail_cache_le : r.tail_cache ≤ r.tail
    pub tail_le : r.tail ≤ r.head
    pub head_cache_le : r.head_cache ≤ r.head
    pub fits : r.head ≤ r.tail + cap
    pub cap_pos : 0 < cap

  -- The bounded queue that the ring implements.
  unfoldable pub push : T → List T → Bool × List T
  push x q = if leb cap (length q) then (false, q) else (true, q ++ (x ∷ []))

  unfoldable pub pop : List T → Option T × List T
  pop [] = (none, [])
  pop (x ∷ q) = (some x, q)

  pub try_push-IsValid :
      (x : T) (r : Ring T) → IsValid r → r.head + 1 < u64_mod → IsValid (try_push cap x r).1
  unfolding try_push add64 sub64
  try_push-IsValid x r v h = ground arith

  pub try_pop-IsValid : (r : Ring T) → IsValid r → r.head < u64_mod → IsValid (try_pop cap r).1
  unfolding try_pop add64 sub64
  try_pop-IsValid r v h = ground arith

  -- On a valid ring whose head index does not wrap, `try_push` succeeds exactly if fewer than
  -- `cap` items are in the ring, and then appends the item; otherwise the items stay as they are.
  pub try_push_refines :
      (x : T) (r : Ring T)
      → IsValid r
      → r.head + 1 < u64_mod
      → ((try_push cap x r).0, contents (try_push cap x r).1) ≡ push x (contents r)
  unfolding try_push push add64 sub64
  try_push_refines x r v h = ground (
    arith,
    length-window r.buf r.tail (r.head - r.tail),
    window-push r.buf x r.tail (r.head - r.tail) r.head,
  )

  -- On a valid ring `try_pop` takes the oldest item, and fails exactly if there is none.
  pub try_pop_refines :
      (r : Ring T)
      → IsValid r
      → r.head < u64_mod
      → ((try_pop cap r).0, contents (try_pop cap r).1) ≡ pop (contents r)
  unfolding try_pop pop add64 sub64
  try_pop_refines r v h = ground (arith, window_of_pos r.buf r.tail (r.head - r.tail))

  -- Each operation moves at most its own index.
  pub try_push-head :
      (x : T) (r : Ring T)
      → r.head + 1 < u64_mod
      → (try_push cap x r).1.head ≡ (if (try_push cap x r).0 then r.head + 1 else r.head)
  unfolding try_push add64
  try_push-head x r h = ground arith

  pub try_pop-head : (r : Ring T) → (try_pop cap r).1.head ≡ r.head
  unfolding try_pop
  try_pop-head r = ground arith

  -- What a queue is after an operation with a known result.
  pub push-true : (x : T) (q c : List T) → (true, c) ≡ push x q → c ≡ q ++ (x ∷ [])
  unfolding push
  push-true x q c e = ground (arith, e)

  pub push-false : (x : T) (q c : List T) → (false, c) ≡ push x q → c ≡ q
  unfolding push
  push-false x q c e = ground (arith, e)

  pub pop-some : (x : T) (q c : List T) → (some x, c) ≡ pop q → q ≡ x ∷ c
  unfolding pop
  pop-some x [] c e = absurd (ground (arith, e))
  pop-some x (y ∷ q) c e = ground (arith, e)

  pub pop-none : (q c : List T) → (none, c) ≡ pop q → q ≡ c
  unfolding pop
  pop-none [] c e = ground (arith, e)
  pop-none (y ∷ q) c e = absurd (ground (arith, e))
