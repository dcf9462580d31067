-- ===== src/Tests/FeedRuns.antt =====
-- The round trip of the feed, at a session of four messages.
use c_order_book.Prelude.{◌≡◌, true, some, List, [], ◌∷◌, length, arith}
use c_order_book.Itch.{Wire, parse}
use c_order_book.Feed.Bytes.{memory}
use c_order_book.Feed.Parsed.{Event, added, executed, cancelled, deleted}
use c_order_book.Feed.Stream.{put_all, AllFit, AllCarry, parse-put_all}

abbrev session : List Event
session =
    added 34_200_000_000_000 1 true 10 1_032_760
    ∷ executed 34_200_000_000_500 1 3 1
    ∷ cancelled 34_200_000_001_000 1 2
    ∷ deleted 34_200_000_001_700 1
    ∷ []

session-AllFit : AllFit session
session-AllFit = omega arith

parse-put_all_example :
    (ws : List Wire) × (parse (memory (put_all [] session)) 5 (length (put_all [] session)) 0
      ≡ some (ws, length (put_all [] session)))
    × AllCarry session ws
parse-put_all_example = parse-put_all session session-AllFit
