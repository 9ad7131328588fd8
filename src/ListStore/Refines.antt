-- ===== src/ListStore/Refines.antt =====
-- A run of `makeList` and `listAppend` against lists that share nothing.
use openscad_cpp_evaluator.Prelude.{
  ℕ, zero, suc, ◌+◌, ◌/◌, ◌≤◌, ◌≡◌, refl, sym, ◌∙◌, ap, arith, Bool, true, false, List, [], ◌∷◌,
  ◌++◌, Option, none, some, length, length-append, get_or, length-take, Bool-cases, inl, inr, map,
  All, get_elem?, append-nil, All-append,
}
use openscad_cpp_evaluator.ListStore.{
  Vec, ListBuffer, ListItems, buffer_at, view_items, new_list, make_list, can_extend, ListOp, make,
  append, list_op, run_lists, pure_op, run_pure, copied, copy_capacity, append_copy, append_some,
  append_items, list_append,
}
use openscad_cpp_evaluator.ListStore.Views.{
  IsStore, IsView, new_list-items, new_list-old, new_list-IsView, new_list-IsStore,
  append_in_place-items, append_in_place-old, append_in_place-IsView, append_in_place-IsStore,
}

copy_capacity-le :
    (reserve : ℕ → ℕ)
    → ((n : ℕ) → n ≤ reserve n)
    → (growing : Bool) → (total : ℕ) → total ≤ copy_capacity reserve growing total
unfolding copy_capacity
copy_capacity-le reserve reserved true total = omega (arith, reserved (total + total / 2 + 1))
copy_capacity-le reserve reserved false total = reserved total

-- The place of a list in the past.
module _ {ℓ κ} {A : Type ℓ} {B : Type κ} (f : B → List A) where
  abbrev elements : Option B → List A
  elements none = []
  elements (some b) = f b

  map_snoc : (bs : List B) (b : B) → map f (bs ++ b ∷ []) ≡ map f bs ++ f b ∷ []
  map_snoc [] b = refl
  map_snoc (c ∷ bs) b = ap (λ t. f c ∷ t) (map_snoc bs b)

  get_or-map : (bs : List B) (i : ℕ) → get_or (map f bs) i [] ≡ elements (get_elem? bs i)
  get_or-map [] i = refl
  get_or-map (b ∷ bs) zero = refl
  get_or-map (b ∷ bs) (suc i) = get_or-map bs i

abbrev Holds {ℓ κ} : {B : Type ℓ} → (B → Type κ) → Option B → Type κ
Holds P none = Unit
Holds P (some b) = P b

All-get_elem? {ℓ κ} :
    {B : Type ℓ} (P : B → Type κ) (bs : List B) (i : ℕ) → All P bs → Holds P (get_elem? bs i)
All-get_elem? P [] i h = tt
All-get_elem? P (b ∷ bs) zero h = h.0
All-get_elem? P (b ∷ bs) (suc i) h = All-get_elem? P bs i h.1

-- The vector that an operation is given has the room that it says.
unfoldable pub HasRoom {ℓ} : {A : Type ℓ} → ListOp A → Type 0
HasRoom (make items) = length items.items ≤ items.capacity
HasRoom (append i extra) = length extra.items ≤ extra.capacity

module _ {ℓ} {A : Type ℓ} where
  -- An operation gave a list with the expected elements and left the others as they were.
  Gives : List (ListBuffer A) → List (ListBuffer A) × ListItems → List A → Type ℓ
  Gives store result expected =
      (view_items result.0 result.1 ≡ expected)
      × IsView result.0 result.1
      × IsStore result.0
      × ((l : ListItems)
          → IsView store l
          → (view_items result.0 l ≡ view_items store l) × IsView result.0 l)

  Gives-new_list :
      (store : List (ListBuffer A)) (from_append : Bool) (items : Vec A)
      → IsStore store
      → length items.items ≤ items.capacity
      → Gives store (new_list store from_append items) items.items
  unfolding Gives
  Gives-new_list store from_append items valid fits = (
    new_list-items store from_append items,
    new_list-IsView store from_append items,
    new_list-IsStore store from_append items valid fits,
    new_list-old store from_append items,
  )

  length-view_items :
      (store : List (ListBuffer A)) (l : ListItems) → length (view_items store l) ≤ l.n
  length-view_items store l = ground (arith, length-take l.n (buffer_at store l.buf).v.items)

  module _ (reserve : ℕ → ℕ) (reserved : (n : ℕ) → n ≤ reserve n) where
    fits :
        (store : List (ListBuffer A)) (base : ListItems) (extra : List A)
        → length (copied reserve store base extra).items
          ≤ (copied reserve store base extra).capacity
    unfolding copied
    fits store base extra =
        let grown = (buffer_at store base.buf).from_append in
        omega (
          arith,
          length-append (view_items store base) extra,
          length-view_items store base,
          copy_capacity-le reserve reserved grown (base.n + length extra),
        )

    Gives-append_some :
        (store : List (ListBuffer A)) (base : ListItems) (extra : List A)
        → IsStore store
        → IsView store base
        → Gives store (append_some reserve store base extra) (view_items store base ++ extra)
    unfolding append_some append_copy copied Gives
    Gives-append_some store base extra valid view =
        elim (Bool-cases (can_extend (buffer_at store base.buf) base.n (length extra))) [
          | inl guard ↦ rw guard (
            append_in_place-items reserve store base extra valid view guard,
            append_in_place-IsView reserve store base extra valid view guard,
            append_in_place-IsStore reserve store base extra valid view guard,
            append_in_place-old reserve store base extra valid view guard,
          )
          | inr guard ↦ rw guard (
              Gives-new_list store true (copied reserve store base extra) valid
                (fits store base extra))
        ]

    Gives-append_items :
        (store : List (ListBuffer A)) (base : ListItems) (extra : List A)
        → IsStore store
        → IsView store base
        → Gives store (append_items reserve store base extra) (view_items store base ++ extra)
    unfolding append_items Gives
    Gives-append_items store base [] valid view =
        (sym (append-nil (view_items store base)), view, valid, λ l old. (refl, old))
    Gives-append_items store base (x ∷ xs) valid view =
        Gives-append_some store base (x ∷ xs) valid view

    Gives-list_append :
        (store : List (ListBuffer A)) (base : Option ListItems) (extra : Vec A)
        → IsStore store
        → Holds (IsView store) base
        → length extra.items ≤ extra.capacity
        → Gives store
            (list_append reserve store base extra)
            (elements (view_items store) base ++ extra.items)
    unfolding list_append make_list
    Gives-list_append store none extra valid view room = Gives-new_list store false extra valid room
    Gives-list_append store (some base) extra valid view room =
        Gives-append_items store base extra.items valid view

    Gives-list_op :
        (store : List (ListBuffer A)) (held : List ListItems) (op : ListOp A)
        → IsStore store
        → All (IsView store) held
        → HasRoom op
        → Gives store (list_op reserve store held op) (pure_op (map (view_items store) held) op)
    unfolding list_op pure_op HasRoom make_list
    Gives-list_op store held (make items) valid views room =
        Gives-new_list store false items valid room
    Gives-list_op store held (append i extra) valid views room =
        rw (get_or-map (view_items store) held i) (
          Gives-list_append store (get_elem? held i) extra valid
            (All-get_elem? (IsView store) held i views) room)

    -- What was held before an operation is still there.
    kept :
        (store next : List (ListBuffer A)) (held : List ListItems)
        → ((l : ListItems)
            → IsView store l
            → (view_items next l ≡ view_items store l) × IsView next l)
        → All (IsView store) held
        → (map (view_items next) held ≡ map (view_items store) held) × All (IsView next) held
    kept store next [] old views = (refl, tt)
    kept store next (l ∷ held) old views =
        let rest = kept store next held old views.1 in
        (rw ((old l views.0).0, rest.0) refl, ((old l views.0).1, rest.1))

    run_lists-Refines :
        (ops : List (ListOp A)) (store : List (ListBuffer A)) (held : List ListItems)
        → IsStore store
        → All (IsView store) held
        → All HasRoom ops
        → map (view_items (run_lists reserve ops store held).0) (run_lists reserve ops store held).1
          ≡ run_pure ops (map (view_items store) held)
    unfolding run_lists run_pure Gives
    run_lists-Refines [] store held valid views room = refl
    run_lists-Refines (op ∷ ops) store held valid views room =
        let given = Gives-list_op store held op valid views room.0 in
        let next = (list_op reserve store held op).0 in
        let made = (list_op reserve store held op).1 in
        let old = kept store next held given.3 views in
        run_lists-Refines ops next (held ++ made ∷ []) given.2
          (All-append (IsView next) held (made ∷ []) old.1 (given.1, tt)) room.1
        ∙ ap (run_pure ops) (
            map_snoc (view_items next) held made
            ∙ ap (λ t. t ++ view_items next made ∷ []) old.0
            ∙ ap (λ t. map (view_items store) held ++ t ∷ []) given.0)

    -- Whatever lists a program makes and appends to, in whatever order and however they share
    -- buffers, each has the elements it would have if lists shared nothing, if `reserve` gives the
    -- capacity that is asked for at least and every vector handed over fits its own capacity.
    pub run_lists-pure :
        (ops : List (ListOp A))
        → All HasRoom ops
        → map (view_items (run_lists reserve ops [] []).0) (run_lists reserve ops [] []).1
          ≡ run_pure ops []
    unfolding IsStore
    run_lists-pure ops room =
        let empty : IsStore {A = A} [] = λ i h. absurd (omega arith) in
        run_lists-Refines ops [] [] empty tt room
