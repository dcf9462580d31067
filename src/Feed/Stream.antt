-- ===== src/Feed/Stream.antt =====
-- The parser reads back a whole stream of frames.
use c_order_book.Prelude.{
  ℕ, zero, suc, ◌+◌, ◌<◌, ◌≡◌, ◌∙◌, ap, sym, refl, none, some, List, [], ◌∷◌, ◌++◌, length,
  length-append, arith,
}
use mathlib.Core.Path.{subst}
use mathlib.Core.List.{append-nil, append_assoc}
use c_order_book.Itch.{Wire, next, parse}
use c_order_book.Feed.{put_be, put_header, put_add, put_executed, put_cancel, put_delete}
use c_order_book.Feed.Bytes.{memory, Holds, Holds-middle}
use c_order_book.Feed.Parsed.{
  Event, added, executed, cancelled, deleted, put, payload_size, Fits, Carries, next-put,
}

-- the frames of a list of events, appended one by one
abbrev pub put_all : List ℕ → List Event → List ℕ
put_all b [] = b
put_all b (e ∷ es) = put_all (put b e) es

abbrev pub AllFit : List Event → Type 0
AllFit [] = Unit {0}
AllFit (e ∷ es) = Fits e × AllFit es

abbrev pub AllCarry : List Event → List Wire → Type 0
AllCarry [] [] = Unit {0}
AllCarry (e ∷ es) (w ∷ ws) = Carries e w × AllCarry es ws
AllCarry _ _ = ⊥

put_append : (b : List ℕ) (e : Event) → put b e ≡ b ++ put [] e
unfolding put_add put_executed put_cancel put_delete put_header put_be
put_append b (added ts ref buy shares price) = simp append_assoc
put_append b (executed ts ref shares match_number) = simp append_assoc
put_append b (cancelled ts ref shares) = simp append_assoc
put_append b (deleted ts ref) = simp append_assoc

length-put : (e : Event) → length (put [] e) ≡ 2 + payload_size e
unfolding put_add put_executed put_cancel put_delete put_header put_be
length-put (added ts ref buy shares price) = omega arith
length-put (executed ts ref shares match_number) = omega arith
length-put (cancelled ts ref shares) = omega arith
length-put (deleted ts ref) = omega arith

pub put_all_append : (b : List ℕ) (es : List Event) → put_all b es ≡ b ++ put_all [] es
put_all_append b [] = sym (append-nil b)
put_all_append b (e ∷ es) =
    put_all_append (put b e) es
    ∙ ap (λ l. l ++ put_all [] es) (put_append b e)
    ∙ append_assoc b (put [] e) (put_all [] es)
    ∙ ap (λ l. b ++ l) (sym (put_all_append (put [] e) es))

next_at_end : (m : ℕ → ℕ) (size : ℕ) → next m size size ≡ none
unfolding next
next_at_end m size = ground arith

parse_stop :
    (m : ℕ → ℕ) (size c fuel : ℕ) → next m size c ≡ none → parse m (suc fuel) size c ≡ some ([], c)
unfolding parse
parse_stop m size c fuel e = rw (e, parse) refl

-- The parser has read `before` and stands at the frames of `es`.
-- Memory that holds `l` from 0 on holds what `l` has from `c` on.
Holds-part :
    (m : ℕ → ℕ) (c : ℕ) (l part : List ℕ)
    → Holds m 0 l
    → ((i : ℕ) → i < length part → c + i < length l)
    → Holds (memory l) c part
    → Holds m c part
Holds-part m c l part h inside k i b = ap m (omega arith) ∙ h (c + i) (inside i b) ∙ k i b

pub parse_from :
    (m : ℕ → ℕ) (l before : List ℕ) (es : List Event) (fuel : ℕ)
    → Holds m 0 l
    → l ≡ before ++ put_all [] es
    → length es < fuel
    → AllFit es
    → (ws : List Wire) × (parse m fuel (length l) (length before) ≡ some (ws, length l))
      × AllCarry es ws
unfolding parse
parse_from m l before es zero hm q h f = absurd (omega arith)
parse_from m l before [] (suc fuel) hm q h f =
    let here : length before ≡ length l = sym (ap length (q ∙ append-nil before)) in
    let stop =
      parse_stop m (length l) (length before) fuel
        (ap (next m (length l)) here ∙ next_at_end m (length l)) in
    ([], stop ∙ ap (λ c. some ([], c)) here, tt)
parse_from m l before (e ∷ es) (suc fuel) hm q h f =
    let q2 : l ≡ before ++ (put [] e ++ put_all [] es) =
      q ∙ ap (λ t. before ++ t) (put_all_append (put [] e) es) in
    let inside : (i : ℕ) → i < length (put [] e) → length before + i < length l = λ i k. omega (
      arith,
      ap length q2,
      length-append before (put [] e ++ put_all [] es),
      length-append (put [] e) (put_all [] es),
    ) in
    let held = Holds-part m (length before) l (put [] e) hm inside (
      subst (λ t. Holds (memory t) (length before) (put [] e)) (sym q2)
        (Holds-middle before (put [] e) (put_all [] es))) in
    let size : length l ≡ length before + (2 + payload_size e + length (put_all [] es)) =
      ap length q2
      ∙ length-append before (put [] e ++ put_all [] es)
      ∙ omega (arith, length-append (put [] e) (put_all [] es), length-put e) in
    let (w, found, carried) =
      next-put m (length l) (length before) e f.0 held (omega (arith, size)) in
    let after : length (before ++ put [] e) ≡ length before + 2 + payload_size e =
      omega (arith, length-append before (put [] e), length-put e) in
    let (ws, parsed, rest) =
      parse_from m l (before ++ put [] e) es fuel hm
        (q2 ∙ sym (append_assoc before (put [] e) (put_all [] es))) (omega arith) f.1 in
    (w ∷ ws, rw (found, parse) (rw (← after) (rw (parsed) refl)), (carried, rest))

-- The frames that the encoders append to an empty vector for any events with values that fit their
-- fields are read back by the loop over `next`: it passes the sink one struct for each event, in
-- order, of its kind and with its reference, side, lots, price and match number, and ends at the end
-- of the vector.
pub parse-put_all :
    (es : List Event)
    → AllFit es
    → (ws : List Wire) × (parse (memory (put_all [] es)) (length es + 1) (length (put_all [] es)) 0
        ≡ some (ws, length (put_all [] es)))
      × AllCarry es ws
parse-put_all es f =
    parse_from (memory (put_all [] es)) (put_all [] es) [] es (length es + 1)
      (λ i h. ap (memory (put_all [] es)) (omega arith)) refl (omega arith) f
