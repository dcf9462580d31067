-- ===== src/Feed/Bytes.antt =====
-- What the encoders append, and how a big-endian load reads it back.
use c_order_book.Prelude.{
  ℕ, zero, suc, ◌+◌, ◌*◌, ◌/◌, ◌%◌, ◌^◌, ◌≤◌, ◌<◌, ◌≡◌, ◌∙◌, ap, sym, refl, List, [], ◌∷◌, ◌++◌,
  length, length-append, get_or, arith,
}
use mathlib.Core.List.{append-nil, append_assoc}
use c_order_book.Itch.{load_native, load_be, bswap}
use c_order_book.Itch.Loads.{big_endian, load_be-big_endian}
use c_order_book.Feed.{push_back, put_be}

-- a list as memory from address 0 on
abbrev pub memory : List ℕ → ℕ → ℕ
memory l i = get_or l i 0

-- The memory `m` holds the bytes `l` from `c` on.
abbrev pub Holds : (ℕ → ℕ) → ℕ → List ℕ → Type 0
Holds m c l = (i : ℕ) → i < length l → m (c + i) ≡ memory l i

pub memory-append : (xs ys : List ℕ) (i : ℕ) → memory (xs ++ ys) (length xs + i) ≡ memory ys i
memory-append [] ys i = let address : 0 + i ≡ i = omega arith in ap (memory ys) address
memory-append (x ∷ xs) ys i =
    let address : suc (length xs) + i ≡ suc (length xs + i) = omega arith in
    ap (memory (x ∷ (xs ++ ys))) address ∙ memory-append xs ys i

pub memory-append_left :
    (xs ys : List ℕ) (i : ℕ) → i < length xs → memory (xs ++ ys) i ≡ memory xs i
memory-append_left [] ys i h = absurd (omega arith)
memory-append_left (x ∷ xs) ys zero h = refl
memory-append_left (x ∷ xs) ys (suc i) h = memory-append_left xs ys i (omega arith)

pub Holds-middle :
    (before l behind : List ℕ) → Holds (memory (before ++ (l ++ behind))) (length before) l
Holds-middle before l behind i h =
    memory-append before (l ++ behind) i ∙ memory-append_left l behind i h

abbrev pub AllBytes : List ℕ → Type 0
AllBytes [] = Unit {0}
AllBytes (x ∷ l) = (x < 256) × AllBytes l

pub AllBytes-memory : (l : List ℕ) (i : ℕ) → AllBytes l → memory l i < 256
AllBytes-memory [] i h = omega arith
AllBytes-memory (x ∷ l) zero h = h.0
AllBytes-memory (x ∷ l) (suc i) h = AllBytes-memory l i h.1

pub AllBytes-append : (xs ys : List ℕ) → AllBytes xs → AllBytes ys → AllBytes (xs ++ ys)
AllBytes-append [] ys h k = k
AllBytes-append (x ∷ xs) ys h k = (h.0, AllBytes-append xs ys h.1 k)

-- what stands behind the two bytes of the prefix
abbrev pub payload : List ℕ → List ℕ
payload [] = []
payload (x ∷ []) = []
payload (x ∷ y ∷ l) = l

pub Holds-payload : (m : ℕ → ℕ) (c : ℕ) (l : List ℕ) → Holds m c l → Holds m (c + 2) (payload l)
Holds-payload m c [] h i b = absurd (omega arith)
Holds-payload m c (x ∷ []) h i b = absurd (omega arith)
Holds-payload m c (x ∷ y ∷ l) h i b =
    let address : c + 2 + i ≡ c + suc (suc i) = omega arith in
    ap m address ∙ h (suc (suc i)) (omega arith)

pub AllBytes-payload : (l : List ℕ) → AllBytes l → AllBytes (payload l)
AllBytes-payload [] a = tt
AllBytes-payload (x ∷ []) a = tt
AllBytes-payload (x ∷ y ∷ l) a = a.1.1

load_native-Holds :
    (m : ℕ → ℕ) (c : ℕ) (l : List ℕ) (n k : ℕ)
    → Holds m c l
    → k + n ≤ length l
    → load_native m n (c + k) ≡ load_native (memory l) n k
unfolding load_native
load_native-Holds m c l zero k h b = refl
load_native-Holds m c l (suc n) k h b =
    let address : c + k + 1 ≡ c + (k + 1) = omega arith in
    rw (h k (omega arith), address, load_native-Holds m c l n (k + 1) h (omega arith)) refl

pub load_be-Holds :
    (m : ℕ → ℕ) (c : ℕ) (l : List ℕ) (n k : ℕ)
    → Holds m c l
    → AllBytes l
    → k + n ≤ length l
    → load_be m n (c + k) ≡ big_endian (memory l) n k
load_be-Holds m c l n k h a b =
    ap (bswap n) (load_native-Holds m c l n k h b)
    ∙ load_be-big_endian (memory l) n k (λ i. AllBytes-memory l i a)

pub put_be_append : (n : ℕ) (b : List ℕ) (v : ℕ) → put_be n b v ≡ b ++ put_be n [] v
unfolding put_be
put_be_append zero b v = sym (append-nil b)
put_be_append (suc i) b v =
    put_be_append i (push_back b (v / 256 ^ i % 256)) v
    ∙ append_assoc b (v / 256 ^ i % 256 ∷ []) (put_be i [] v)
    ∙ ap (λ l. b ++ l) (sym (put_be_append i (v / 256 ^ i % 256 ∷ []) v))

pub put_be-AllBytes : (n : ℕ) (b : List ℕ) (v : ℕ) → AllBytes b → AllBytes (put_be n b v)
unfolding put_be
put_be-AllBytes zero b v h = h
put_be-AllBytes (suc i) b v h = put_be-AllBytes i _ v (AllBytes-append b _ h (omega arith, tt))

pub length-put_be : (n : ℕ) (b : List ℕ) (v : ℕ) → length (put_be n b v) ≡ length b + n
unfolding put_be
length-put_be zero b v = omega arith
length-put_be (suc i) b v = omega (
  arith,
  length-put_be i (push_back b (v / 256 ^ i % 256)) v,
  length-append b (v / 256 ^ i % 256 ∷ []),
)

pub digits2 :
    (v : ℕ) → v < 2 ^ 16 → v / 256 ^ 1 % 256 * 256 ^ 1 + (v / 256 ^ 0 % 256 * 256 ^ 0 + 0) ≡ v
digits2 v h = omega arith

pub digits4 :
    (v : ℕ)
    → v < 2 ^ 32
    → v / 256 ^ 3 % 256 * 256 ^ 3
        + (v / 256 ^ 2 % 256 * 256 ^ 2
            + (v / 256 ^ 1 % 256 * 256 ^ 1 + (v / 256 ^ 0 % 256 * 256 ^ 0 + 0)))
      ≡ v
digits4 v h = omega arith

pub digits8 :
    (v : ℕ)
    → v < 2 ^ 64
    → v / 256 ^ 7 % 256 * 256 ^ 7
        + (v / 256 ^ 6 % 256 * 256 ^ 6
            + (v / 256 ^ 5 % 256 * 256 ^ 5
                + (v / 256 ^ 4 % 256 * 256 ^ 4
                    + (v / 256 ^ 3 % 256 * 256 ^ 3
                        + (v / 256 ^ 2 % 256 * 256 ^ 2
                            + (v / 256 ^ 1 % 256 * 256 ^ 1 + (v / 256 ^ 0 % 256 * 256 ^ 0 + 0)))))))
      ≡ v
digits8 v h = omega arith
