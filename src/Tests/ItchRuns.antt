-- ===== src/Tests/ItchRuns.antt =====
-- The theorems on the parser, at a stream of one order delete and two bytes of the next frame.
use c_order_book.Prelude.{ℕ, ◌≡◌, refl, List, [], ◌∷◌, get_or, map, Option, none, some, arith}
use c_order_book.Itch.{Wire, size_of, bswap, load_native, decode, load_be, parse, next}
use c_order_book.Itch.Loads.{big_endian, load_be-big_endian}
use c_order_book.Itch.Frames.{Stops, parse-Stops}

-- its length prefix is 19, and its reference 258
abbrev stream : List ℕ
stream =
    0 ∷ 19 ∷ 68 ∷ 0 ∷ 1 ∷ 0 ∷ 2 ∷ 0 ∷ 0 ∷ 0 ∷ 0 ∷ 0 ∷ 9 ∷ 0 ∷ 0 ∷ 0 ∷ 0 ∷ 0 ∷ 0 ∷ 1 ∷ 2 ∷ 0 ∷ 36
    ∷ []

abbrev memory : ℕ → ℕ
memory i = get_or stream i 0

parse-Stops_example : Stops memory 23 0 (parse memory 24 23 0)
parse-Stops_example = parse-Stops memory 23 24 0 (omega arith) (omega arith)

-- one message, and the loop stops at the cut frame
abbrev outcome : Option (List Wire × ℕ) → List ℕ
outcome none = []
outcome (some (ms, last)) = last ∷ map size_of ms

runs_stream : outcome (parse memory 24 23 0) ≡ 21 ∷ 19 ∷ []
unfolding parse next decode bswap load_native
runs_stream = refl

load_be-big_endian_example : load_be (λ _. 7) 8 13 ≡ big_endian (λ _. 7) 8 13
load_be-big_endian_example = load_be-big_endian (λ _. 7) 8 13 (λ i. omega arith)
