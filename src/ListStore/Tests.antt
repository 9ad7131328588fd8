-- ===== src/ListStore/Tests.antt =====
-- The theorem at a program that appends twice to one list: the first append takes the room behind the
-- list, the second one has to copy.
use openscad_cpp_evaluator.Prelude.{ℕ, ◌≡◌, refl, arith, List, [], ◌∷◌, map, All}
use openscad_cpp_evaluator.ListStore.{
  ListOp, make, append, view_items, run_lists, run_pure, list_op, make_list, new_list, list_append,
  append_items, append_some, append_in_place, append_copy, can_extend, copied, copy_capacity,
  push_back_each, extend, pure_op,
}
use openscad_cpp_evaluator.ListStore.Refines.{HasRoom, run_lists-pure}

abbrev exact : ℕ → ℕ
exact n = n

abbrev forked : List (ListOp ℕ)
forked =
    make (record { items = 1 ∷ 2 ∷ []; capacity = 4 })
    ∷ append 0 (record { items = 3 ∷ []; capacity = 1 })
    ∷ append 0 (record { items = 4 ∷ 5 ∷ []; capacity = 2 })
    ∷ append 2 (record { items = 6 ∷ []; capacity = 1 })
    ∷ []

forked_room : All HasRoom forked
unfolding HasRoom
forked_room = (omega arith, (omega arith, (omega arith, (omega arith, tt))))

run_lists-pure_example :
    map (view_items (run_lists exact forked [] []).0) (run_lists exact forked [] []).1
    ≡ run_pure forked []
run_lists-pure_example = run_lists-pure exact (λ n. omega arith) forked forked_room

forked_lists :
    run_pure forked []
    ≡ (1 ∷ 2 ∷ []) ∷ (1 ∷ 2 ∷ 3 ∷ []) ∷ (1 ∷ 2 ∷ 4 ∷ 5 ∷ []) ∷ (1 ∷ 2 ∷ 4 ∷ 5 ∷ 6 ∷ []) ∷ []
unfolding run_pure pure_op
forked_lists = refl

-- The buffers where they stand: the first two share one, and each copy was cut to its size.
forked_buffers : map (λ l. l.buf) (run_lists exact forked [] []).1 ≡ 0 ∷ 0 ∷ 1 ∷ 2 ∷ []
unfolding run_lists list_op make_list new_list list_append append_items append_some append_in_place
    append_copy can_extend copied copy_capacity extend push_back_each
forked_buffers = refl
