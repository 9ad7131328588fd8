-- ===== src/ListStore/Views.antt =====
-- What `makeList` and `listAppend` leave of the lists that exist, and what they give.
use openscad_cpp_evaluator.Prelude.{
  ℕ, zero, suc, ◌+◌, ◌-◌, ◌%◌, ◌^◌, ◌<◌, ◌≤◌, ◌≡◌, refl, sym, ◌∙◌, ap, arith, Bool, true, List, [],
  leb, ◌==◌, if◌then◌else◌, ◌∷◌, ◌++◌, length, length-append, set, take, get_or-append_lt,
  get_or-append_length, get_or-set_self, get_or-set_ne, length-set, dec_lt, ℕ_discrete, subst,
}
use openscad_cpp_evaluator.ListStore.{
  Vec, ListBuffer, ListItems, uint32_max, no_buffer, buffer_at, view_items, new_list, fresh_buffer,
  push_back_each, extend, can_extend, append_in_place,
}

module _ {ℓ} {A : Type ℓ} where
  -- `used` says how far the buffer is filled, and it was never filled past its capacity.
  unfoldable pub IsBuffer : ListBuffer A → Type 0
  IsBuffer b = (b.used ≡ length b.v.items % 2 ^ 32) × length b.v.items ≤ b.v.capacity

  unfoldable pub IsStore : List (ListBuffer A) → Type 0
  IsStore store = (i : ℕ) → i < length store → IsBuffer (buffer_at store i)

  -- A list ends within its buffer; one that could be extended has a buffer that `used` can measure.
  pub IsWithin : ListBuffer A → ℕ → Type 0
  IsWithin b n = n ≤ length b.v.items × (n < 2 ^ 32 → length b.v.items < 2 ^ 32)

  unfoldable pub IsView : List (ListBuffer A) → ListItems → Type 0
  IsView store l =
      l.buf < length store
      × IsWithin (buffer_at store l.buf) l.n
      × (l.data_moves ≡ (buffer_at store l.buf).moves)

  -- The elements where they stand, whatever the pointer.
  abbrev stored : List (ListBuffer A) → ListItems → List A
  stored store l = take l.n (buffer_at store l.buf).v.items

  view_items-stored :
      (store : List (ListBuffer A)) (l : ListItems)
      → l.data_moves ≡ (buffer_at store l.buf).moves
      → view_items store l ≡ stored store l
  view_items-stored store l e =
      let same : (l.data_moves == (buffer_at store l.buf).moves) ≡ true = ground (arith, e) in
      rw same refl

  take-append_le : (n : ℕ) (xs ys : List A) → n ≤ length xs → take n (xs ++ ys) ≡ take n xs
  take-append_le zero xs ys h = refl
  take-append_le (suc n) [] ys h = absurd (omega arith)
  take-append_le (suc n) (x ∷ xs) ys h = ap (λ t. x ∷ t) (take-append_le n xs ys (omega arith))

  take_all : (xs : List A) → take (length xs) xs ≡ xs
  take_all [] = refl
  take_all (x ∷ xs) = ap (λ t. x ∷ t) (take_all xs)

  -- A new buffer.
  module _ (store : List (ListBuffer A)) (from_append : Bool) (items : Vec A) where
    pub new_list-items :
        view_items (new_list store from_append items).0 (new_list store from_append items).1
        ≡ items.items
    unfolding new_list
    new_list-items = rw (get_or-append_length (no_buffer {A = A}) store) (take_all items.items)

    pub new_list-old :
        (l : ListItems)
        → IsView store l
        → (view_items (new_list store from_append items).0 l ≡ view_items store l)
          × IsView (new_list store from_append items).0 l
    unfolding new_list IsView
    new_list-old l valid =
        let new = fresh_buffer from_append items in
        let same = get_or-append_lt no_buffer store (new ∷ []) l.buf valid.0 in
        (
          ap (λ (b : ListBuffer A). if l.data_moves == b.moves then take l.n b.v.items else [])
              same,
          (
            omega (arith, length-append store (new ∷ []), valid.0),
            subst (λ b. IsWithin b l.n) (sym same) valid.1,
            subst (λ (b : ListBuffer A). l.data_moves ≡ b.moves) (sym same) valid.2,
          ),
        )

    pub new_list-IsView :
        IsView (new_list store from_append items).0 (new_list store from_append items).1
    unfolding new_list IsView IsWithin
    new_list-IsView =
        let new = fresh_buffer from_append items in
        (
          omega (arith, length-append store (new ∷ [])),
          rw (get_or-append_length (no_buffer {A = A}) store) (omega arith, λ small. small),
          rw (get_or-append_length (no_buffer {A = A}) store) refl,
        )

    pub new_list-IsStore :
        IsStore store
        → length items.items ≤ items.capacity
        → IsStore (new_list store from_append items).0
    unfolding new_list IsStore IsBuffer
    new_list-IsStore valid fits i h =
        let new = fresh_buffer from_append items in
        elim (dec_lt i (length store)) [
          | yes lt ↦
              subst IsBuffer (sym (get_or-append_lt no_buffer store (new ∷ []) i lt)) (valid i lt)
          | no ge ↦
              let last : i ≡ length store = omega (arith, length-append store (new ∷ []), h, ge) in
              rw (last, get_or-append_length (no_buffer {A = A}) store) (refl, fits)
        ]

  -- The guard: the list ends at the frontier of its buffer and there is room behind it.
  module _ (b : ListBuffer A) (n k : ℕ) (valid : IsBuffer b) (within : IsWithin b n) where
    can_extend-frontier :
        can_extend b n k ≡ true → (length b.v.items ≡ n) × n + k ≤ b.v.capacity × n + k < 2 ^ 32
    unfolding IsBuffer IsWithin can_extend
    can_extend-frontier h =
        let wrapped : k ≤ (b.v.capacity + 2 ^ 64 - n) % 2 ^ 64 = ground arith in
        let room : k ≤ b.v.capacity - n = omega (arith, wrapped, valid.1, within.0) in
        let low : n + k ≤ uint32_max = ground arith in
        let same : b.used ≡ n % 2 ^ 32 = ground arith in
        let short = within.1 (omega arith) in
        (omega (arith, valid.0, within.0), omega (arith, valid.1, valid.0, within.0), omega arith)

  -- Extending in place.
  module _ (reserve : ℕ → ℕ) (store : List (ListBuffer A)) (base : ListItems) (extra : List A)
      (valid : IsStore store) (view : IsView store base)
      (guard : can_extend (buffer_at store base.buf) base.n (length extra) ≡ true) where
    grown : ListBuffer A
    grown = extend reserve (buffer_at store base.buf) base.n extra

    room :
        (length (buffer_at store base.buf).v.items ≡ base.n)
        × base.n + length extra ≤ (buffer_at store base.buf).v.capacity
        × base.n + length extra < 2 ^ 32
    unfolding IsStore IsView
    room =
        can_extend-frontier (buffer_at store base.buf) base.n (length extra) (valid base.buf view.0)
          view.1 guard

    -- There is room for the elements, so the vector stays where it is.
    fits :
        leb
          (length (buffer_at store base.buf).v.items + length extra)
          (buffer_at store base.buf).v.capacity
        ≡ true
    fits = ground (arith, room.0, room.1)

    moves-grown : grown.moves ≡ (buffer_at store base.buf).moves
    unfolding grown extend push_back_each
    moves-grown = rw fits refl

    capacity-grown : grown.v.capacity ≡ (buffer_at store base.buf).v.capacity
    unfolding grown extend push_back_each
    capacity-grown = rw fits refl

    length-grown : length grown.v.items ≡ base.n + length extra
    unfolding grown extend push_back_each
    length-grown = omega (arith, room.0, length-append (buffer_at store base.buf).v.items extra)

    full : length (buffer_at store base.buf).v.items ≡ base.n
    full = room.0

    written : buffer_at (append_in_place reserve store base extra).0 base.buf ≡ grown
    unfolding append_in_place IsView grown
    written =
        get_or-set_self no_buffer store base.buf
          (extend reserve (buffer_at store base.buf) base.n extra) view.0

    pub append_in_place-items :
        view_items
          (append_in_place reserve store base extra).0
          (append_in_place reserve store base extra).1
        ≡ view_items store base ++ extra
    unfolding append_in_place extend push_back_each grown IsView
    append_in_place-items =
        let items = (buffer_at store base.buf).v.items in
        let size : base.n + length extra ≡ length (items ++ extra) =
          omega (arith, full, length-append items extra) in
        let whole : take base.n items ≡ items =
          ap (λ t. take t items) (sym full) ∙ take_all items in
        let made = (append_in_place reserve store base extra).1 in
        view_items-stored (append_in_place reserve store base extra).0 made
          (sym (ap (λ (b : ListBuffer A). b.moves) written))
        ∙ ap (λ (b : ListBuffer A). take (base.n + length extra) b.v.items) written
        ∙ ap (λ t. take t (items ++ extra)) size
        ∙ take_all (items ++ extra)
        ∙ ap (λ t. t ++ extra) (sym whole ∙ sym (view_items-stored store base view.2))

    extended :
        (n : ℕ)
        → n ≤ length (buffer_at store base.buf).v.items
        → take n grown.v.items ≡ take n (buffer_at store base.buf).v.items
    unfolding grown extend push_back_each
    extended n h = take-append_le n (buffer_at store base.buf).v.items extra h

    IsWithin-grown : (n : ℕ) → n ≤ length (buffer_at store base.buf).v.items → IsWithin grown n
    unfolding IsWithin
    IsWithin-grown n h =
        (omega (arith, length-grown, room, h), λ small. omega (arith, length-grown, room))

    pub append_in_place-old :
        (l : ListItems)
        → IsView store l
        → (view_items (append_in_place reserve store base extra).0 l ≡ view_items store l)
          × IsView (append_in_place reserve store base extra).0 l
    unfolding append_in_place IsView IsWithin grown
    append_in_place-old l old = elim (ℕ_discrete l.buf base.buf) [
      | yes same ↦
          let items = (buffer_at store base.buf).v.items in
          let was = ap (buffer_at store) same in
          let is = ap (buffer_at (set store base.buf grown)) same ∙ written in
          let inside : l.n ≤ length items = subst (λ b. l.n ≤ length b.v.items) was old.1.0 in
          let still : l.data_moves ≡ (buffer_at (set store base.buf grown) l.buf).moves =
            old.2
            ∙ ap (λ (b : ListBuffer A). b.moves) was
            ∙ sym (ap (λ (b : ListBuffer A). b.moves) is ∙ moves-grown) in
          (
            view_items-stored (set store base.buf grown) l still
                ∙ ap (λ (b : ListBuffer A). take l.n b.v.items) is
                ∙ extended l.n inside
                ∙ sym (ap (λ (b : ListBuffer A). take l.n b.v.items) was)
                ∙ sym (view_items-stored store l old.2),
            (
              omega (arith, old.0, length-set store base.buf grown),
              subst (λ b. IsWithin b l.n) (sym is) (IsWithin-grown l.n inside),
              still,
            ),
          )
      | no other ↦
          let kept =
            get_or-set_ne no_buffer store base.buf l.buf
              (extend reserve (buffer_at store base.buf) base.n extra) other in
          (
            ap (λ (b : ListBuffer A). if l.data_moves == b.moves then take l.n b.v.items else [])
                kept,
            (
              omega (
                arith,
                old.0,
                length-set store base.buf (extend reserve (buffer_at store base.buf) base.n extra),
              ),
              subst (λ b. IsWithin b l.n) (sym kept) old.1,
              subst (λ (b : ListBuffer A). l.data_moves ≡ b.moves) (sym kept) old.2,
            ),
          )
    ]

    pub append_in_place-IsView :
        IsView
          (append_in_place reserve store base extra).0
          (append_in_place reserve store base extra).1
    unfolding append_in_place IsView IsWithin grown
    append_in_place-IsView =
        let there : base.buf < length (set store base.buf grown) =
          omega (arith, view.0, length-set store base.buf grown) in
        (
          there,
          rw written (omega (arith, length-grown), λ small. omega (arith, length-grown, room)),
          sym (ap (λ (b : ListBuffer A). b.moves) written),
        )

    grown-IsBuffer : IsBuffer grown
    unfolding IsBuffer grown extend push_back_each
    grown-IsBuffer = (rw length-grown refl, omega (arith, length-grown, room, capacity-grown))

    pub append_in_place-IsStore : IsStore (append_in_place reserve store base extra).0
    unfolding append_in_place IsStore grown
    append_in_place-IsStore i h = elim (ℕ_discrete i base.buf) [
      | yes same ↦ rw (same, written) grown-IsBuffer
      | no other ↦
          subst IsBuffer (sym (get_or-set_ne no_buffer store base.buf i grown other))
            (valid i (omega (arith, h, length-set store base.buf grown)))
    ]
