-- ===== src/Tests/MapRuns.antt =====
-- The hash map at 16 slots with a load cap of 8, and the gateway over it.
use c_order_book.Prelude.{ℕ, ◌≡◌, ◌*◌, ◌%◌, refl, Bool, true, Option, none, some, arith}
use c_order_book.Prelude.Int.{pos}
use c_order_book.Prelude.Word.{u64_mod}
use c_order_book.Order.{MsgType, Message}
use c_order_book.FlatHash.{
  FlatHashMap, new_map, find, insert, erase, find_loop, insert_loop, erase_search, shift_loop,
  slot_of,
}
use c_order_book.FlatHash.Probe.{IsMap, Lookup, new_map-IsMap}
use c_order_book.FlatHash.Find.{find-Lookup}
use c_order_book.FlatHash.Insert.{Inserts, full, stored, insert-Inserts}
use c_order_book.FlatHash.Erase.{Erases, erase-Erases}
use c_order_book.Pipeline.{new_gateway, gateway_apply, no_message}
use c_order_book.Sparse.{new_hash_gateway, hash_apply, sparse}
use c_order_book.Sparse.Keys.{inverse, sparse_recovers}
use c_order_book.Sparse.Alike.{Both, dead_after}
use c_order_book.Sparse.Agree.{hash_apply-Agrees, new-Agrees}

find-Lookup_example : (val : ℕ) × (find 4 50 7 new_map ≡ some val) × Lookup 4 50 new_map 7 val
find-Lookup_example =
    find-Lookup 4 50 7 new_map (new_map-IsMap 4 50) (omega arith) (omega arith) (omega arith)

insert-Inserts_example :
    Inserts 4 50 (omega arith) (omega arith) new_map 7 70 (insert 4 50 7 70 new_map)
insert-Inserts_example =
    insert-Inserts 4 50 (omega arith) (omega arith) new_map 7 70 (new_map-IsMap 4 50) (omega arith)

sparse_recovers_example : sparse 5 * inverse % u64_mod ≡ 5
sparse_recovers_example = sparse_recovers 5 (omega arith)

-- an order to buy 5 lots at 1003
abbrev order : Message
order = record no_message { price = pos 1003; qty = pos 5; id = 3 }

-- no reference is live before the first order
abbrev all_dead : ℕ → Bool
all_dead _ = true

hash_apply-Agrees_example :
    Both 64 4 4 50
      (omega arith)
      (omega arith)
      (dead_after 64 4 4 50 (omega arith) (omega arith) MsgType.new_order 3 all_dead)
      (gateway_apply 64 4 order (new_gateway 64 4 (pos 1000) 9))
      (hash_apply 64 4 4 50 order (new_hash_gateway 64 4 4 50 (pos 1000)))
hash_apply-Agrees_example =
    hash_apply-Agrees 64 4 4 50 (omega arith) (omega arith) all_dead (new_gateway 64 4 (pos 1000) 9)
      (new_hash_gateway 64 4 4 50 (pos 1000)) order (λ n. absurd (n refl)) (omega arith)
      (omega arith) (omega arith) (omega arith)
      (new-Agrees 64 4 4 50 (omega arith) (omega arith) all_dead (pos 1000) 9)

-- Two keys, of which the first goes.
abbrev after : Option (Bool × FlatHashMap) → FlatHashMap
after none = new_map
after (some (ok, m)) = m

abbrev two_keys : FlatHashMap
two_keys = after (insert 4 50 2 20 (after (insert 4 50 1 10 new_map)))

valid_after :
    (m : FlatHashMap) (key val : ℕ) (out : Option (Bool × FlatHashMap))
    → IsMap 4 50 m
    → Inserts 4 50 (omega arith) (omega arith) m key val out
    → IsMap 4 50 (after out)
valid_after m key val _ g (full f) = g
valid_after m key val _ g (stored t room v found kept) = v

two_keys-IsMap : IsMap 4 50 two_keys
two_keys-IsMap =
    valid_after (after (insert 4 50 1 10 new_map)) 2 20 _
      (valid_after new_map 1 10 _ (new_map-IsMap 4 50) (
        insert-Inserts 4 50 (omega arith) (omega arith) new_map 1 10 (new_map-IsMap 4 50)
          (omega arith)))
      (insert-Inserts 4 50 (omega arith) (omega arith) (after (insert 4 50 1 10 new_map)) 2 20
        (valid_after new_map 1 10 _ (new_map-IsMap 4 50) (
          insert-Inserts 4 50 (omega arith) (omega arith) new_map 1 10 (new_map-IsMap 4 50)
            (omega arith)))
        (omega arith))

erase-Erases_example : Erases 4 50 (omega arith) (omega arith) two_keys 1 (erase 4 50 1 two_keys)
erase-Erases_example =
    erase-Erases 4 50 (omega arith) (omega arith) two_keys 1 two_keys-IsMap (omega arith)

runs_erase : find 4 50 2 (after (erase 4 50 1 two_keys)) ≡ some 20
unfolding find insert erase find_loop insert_loop erase_search shift_loop slot_of
runs_erase = refl

runs_erased : find 4 50 1 (after (erase 4 50 1 two_keys)) ≡ some 0
unfolding find insert erase find_loop insert_loop erase_search shift_loop slot_of
runs_erased = refl
