-- ===== src/Pipeline/Drains.antt =====
-- After any schedule of the two threads, rounds in which each has its turn bring every message through
-- the ring.
use c_order_book.Prelude.{
  ℕ, zero, suc, ◌+◌, ◌-◌, ◌<◌, ◌≤◌, ◌≡◌, ◌∙◌, ap, sym, refl, Bool, true, false, if◌then◌else◌, ◌⊎◌,
  inl, inr, Option, some, List, [], ◌∷◌, ◌++◌, length, length-append, length-map, arith,
}
use mathlib.Core.List.{append-nil}
use c_order_book.Prelude.Word.{u64_mod}
use c_order_book.SpscRing.Queue.{
  IsValid, contents, push, pop, push-true, push-false, try_push_refines, try_pop_refines,
}
use c_order_book.Order.{Message}
use c_order_book.Itch.{Wire}
use c_order_book.Pipeline.{Gateway, message_of, ring_sink}
use c_order_book.Pipeline.Paths.{
  Legacy, Turn, produce, consume, direct, turn, turns, produced, opening, Progress,
  Progress-produce, Progress-consume, ring_path_follows_direct,
}

zero_or_more : (n : ℕ) → (n ≡ 0) ⊎ (0 < n)
zero_or_more zero = inl refl
zero_or_more (suc n) = inr (omega arith)

abbrev pub alternate : ℕ → List Turn
alternate zero = []
alternate (suc n) = produce ∷ consume ∷ alternate n

module _ (num_ticks pool_cap ring_cap : ℕ) where
  -- the structs that the engine has still to get
  abbrev pending : Legacy → ℕ
  pending s = length s.todo + length (contents ring_cap s.ring)

  sent-pending :
      (m : Message) (todo : List Wire) (w : Wire) (q c : List Message) (ok : Bool)
      → 0 < ring_cap
      → (ok, c) ≡ push ring_cap m q
      → (length (if ok then todo else (w ∷ todo)) + length c ≡ suc (length todo) + length q)
        × (0 < length c)
  unfolding push
  sent-pending m todo w q c true cap e =
      let l : length c ≡ length (q ++ (m ∷ [])) = ap length (push-true ring_cap m q c e) in
      omega (arith, l, length-append q (m ∷ []))
  sent-pending m todo w q c false cap e =
      let l : c ≡ q = push-false ring_cap m q c e in
      (omega (arith, ap length l), ground (arith, e, l, cap))

  produced-pending :
      (s : Legacy) (todo : List Wire)
      → IsValid ring_cap s.ring
      → s.ring.head + length todo < u64_mod
      → todo ≡ s.todo
      → (pending (produced num_ticks pool_cap ring_cap todo s) ≡ pending s)
        × (0 < pending s
            → 0 < length (contents ring_cap (produced num_ticks pool_cap ring_cap todo s).ring))
  unfolding ring_sink
  produced-pending s [] v l e = (refl, λ some_left. omega (arith, some_left, ap length e))
  produced-pending s (w ∷ todo) v l e =
      let moved = try_push_refines ring_cap (message_of w) s.ring v (omega (arith, l)) in
      let (kept, held) =
        sent-pending (message_of w) todo w (contents ring_cap s.ring) _ _ v.cap_pos moved in
      (omega (arith, kept, ap length e), λ some_left. held)

  popped-length :
      (q c : List Message) (got : Option Message)
      → (got, c) ≡ pop ring_cap q
      → length c ≡ length q - 1
  unfolding pop
  popped-length [] c got e = ap (λ (p : Option Message × List Message). length (p.1)) e
  popped-length (x ∷ q) c got e =
      ap (λ (p : Option Message × List Message). length (p.1)) e ∙ omega arith

  Progress-room :
      (ws : List Wire) (g : Option Gateway) (s : Legacy)
      → Progress num_ticks pool_cap ring_cap ws g s
      → (s.ring.head + length s.todo ≤ length ws) × (pending s ≤ length ws)
  Progress-room ws g s p = omega (
    arith,
    ap length p.all,
    length-append p.applied (p.waiting ++ s.todo),
    length-append p.waiting s.todo,
    p.indices,
    ap length p.queued,
    length-map p.waiting message_of,
  )

  -- A round of each thread brings one of the structs to the engine.
  round-pending :
      (ws : List Wire) (g : Option Gateway) (s : Legacy)
      → length ws < u64_mod
      → Progress num_ticks pool_cap ring_cap ws g s
      → let s1 = turn num_ticks pool_cap ring_cap produce s in
        let s2 = turn num_ticks pool_cap ring_cap consume s1 in
        Progress num_ticks pool_cap ring_cap ws g s2 × (pending s2 ≤ pending s - 1)
  round-pending ws g s l p =
      let s1 = turn num_ticks pool_cap ring_cap produce s in
      let p1 = Progress-produce num_ticks pool_cap ring_cap ws g s.todo s l refl p in
      let (same, held) =
        produced-pending s s.todo p.valid (omega (arith, Progress-room ws g s p, l)) refl in
      let less =
        popped-length (contents ring_cap s1.ring) _ _ (
          try_pop_refines ring_cap s1.ring p1.valid (omega (arith, Progress-room ws g s1 p1, l))) in
      (
        Progress-consume num_ticks pool_cap ring_cap ws g s1 l p1,
        elim (zero_or_more (pending s)) [
          | inl z ↦ omega (arith, less, same, z)
          | inr m ↦ omega (arith, less, same, held m)
        ],
      )

  rounds-pending :
      (n : ℕ) (ws : List Wire) (g : Option Gateway) (s : Legacy)
      → length ws < u64_mod
      → Progress num_ticks pool_cap ring_cap ws g s
      → let end = turns num_ticks pool_cap ring_cap (alternate n) s in
        Progress num_ticks pool_cap ring_cap ws g end × (pending end ≤ pending s - n)
  rounds-pending zero ws g s l p = (p, omega arith)
  rounds-pending (suc n) ws g s l p =
      let (p1, less) = round-pending ws g s l p in
      let (p2, rest) =
        rounds-pending n ws g
          (turn num_ticks pool_cap ring_cap consume (turn num_ticks pool_cap ring_cap produce s)) l
          p1 in
      (p2, omega (arith, less, rest))

  turns-append :
      (ts us : List Turn) (s : Legacy)
      → turns num_ticks pool_cap ring_cap (ts ++ us) s
        ≡ turns num_ticks pool_cap ring_cap us (turns num_ticks pool_cap ring_cap ts s)
  turns-append [] us s = refl
  turns-append (t ∷ ts) us s = turns-append ts us (turn num_ticks pool_cap ring_cap t s)

  no_length : {A : Type 0} (xs : List A) → length xs ≡ 0 → xs ≡ []
  no_length [] e = refl
  no_length (x ∷ xs) e = absurd (omega arith)

  delivered :
      (ws : List Wire) (g : Option Gateway) (s : Legacy)
      → Progress num_ticks pool_cap ring_cap ws g s
      → pending s ≡ 0
      → s.engine ≡ direct num_ticks pool_cap ring_cap ws g
  delivered ws g s p z =
      let none_wait =
        no_length p.waiting
          (omega (arith, z, ap length p.queued, length-map p.waiting message_of)) in
      let all : ws ≡ p.applied =
        p.all
        ∙ ap (λ t. p.applied ++ (p.waiting ++ t)) (no_length s.todo (omega (arith, z)))
        ∙ ap (λ t. p.applied ++ (t ++ [])) none_wait
        ∙ append-nil p.applied in
      p.state ∙ ap (λ t. direct num_ticks pool_cap ring_cap t g) (sym all)

  -- Over a ring of at least one slot, and for fewer than 2 ^ 64 wire structs: take any schedule of
  -- pushes that are tried and of polls, however often the ring was full or empty in it. If from then
  -- on the producer and the engine have a turn each, for as many rounds as there are structs, then
  -- every message comes through: the engine ends where the zero-copy sink ends after all structs.
  pub fair_rounds_drain :
      (ws : List Wire) (slots : ℕ → Message) (g : Gateway) (ts : List Turn)
      → 0 < ring_cap
      → length ws < u64_mod
      → (turns num_ticks pool_cap ring_cap
          (ts ++ alternate (length ws))
          (opening num_ticks pool_cap ring_cap ws slots g)).engine
        ≡ direct num_ticks pool_cap ring_cap ws (some g)
  fair_rounds_drain ws slots g ts c l =
      let s0 = opening num_ticks pool_cap ring_cap ws slots g in
      let s = turns num_ticks pool_cap ring_cap ts s0 in
      let p = ring_path_follows_direct num_ticks pool_cap ring_cap ws slots g ts c l in
      let (q, less) = rounds-pending (length ws) ws (some g) s l p in
      let most : pending s ≤ length ws = (Progress-room ws (some g) s p).1 in
      ap (λ x. x.engine) (turns-append ts (alternate (length ws)) s0)
      ∙ delivered ws (some g) _ q (omega (arith, less, most))
