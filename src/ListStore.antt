-- ===== src/ListStore.antt =====
-- src/value.cpp, `makeList` and `listAppend`: lists that share one buffer. A store is the list of the
-- buffers made so far, a list of the program a view of the first elements of one. A compare-and-swap
-- is one step, as the hardware makes it.
use openscad_cpp_evaluator.Prelude.{
  ℕ, zero, suc, ◌+◌, ◌-◌, ◌/◌, ◌%◌, ◌^◌, Bool, true, false, ◌&&◌, List, [], ◌∷◌, ◌++◌, Option, none,
  some, leb, ◌==◌, if◌then◌else◌, length, get_or, get_elem?, set, take,
}
pub mod Views
pub mod Refines
mod Tests

-- A `std::vector`, with the room it was given.
pub record Vec {ℓ} (A : Type ℓ) : Type ℓ where
  pub items : List A
  pub capacity : ℕ

pub record ListBuffer {ℓ} (A : Type ℓ) : Type ℓ where
  pub v : Vec A
  pub used : ℕ
  pub from_append : Bool
  -- How often the vector has moved its elements to new storage.
  pub moves : ℕ

-- `ListItems`: every list comes from `makeList` or `listAppend`, so it has a buffer.
pub record ListItems : Type 0 where
  pub buf : ℕ
  -- The pointer to the elements, as the number of moves when it was taken.
  pub data_moves : ℕ
  pub n : ℕ

abbrev pub uint32_max : ℕ
uint32_max = 2 ^ 32 - 1

module _ {ℓ} {A : Type ℓ} where
  -- Nothing is read at the default.
  abbrev pub no_buffer : ListBuffer A
  no_buffer = record {
    v = record { items = []; capacity = 0 };
    used = 0;
    from_append = false;
    moves = 0;
  }

  abbrev pub buffer_at : List (ListBuffer A) → ℕ → ListBuffer A
  buffer_at store i = get_or store i no_buffer

  -- The elements that a list reads through its pointer. Once the vector has moved they are gone; what
  -- is read then is nothing that can be relied on, and here an empty list.
  abbrev pub view_items : List (ListBuffer A) → ListItems → List A
  view_items store l =
      if l.data_moves == (buffer_at store l.buf).moves
      then take l.n (buffer_at store l.buf).v.items
      else []

  abbrev pub fresh_buffer : Bool → Vec A → ListBuffer A
  fresh_buffer from_append items = record {
    v = items;
    used = length items.items % 2 ^ 32;
    from_append = from_append;
    moves = 0;
  }

  -- A list with a buffer of its own.
  pub new_list : List (ListBuffer A) → Bool → Vec A → List (ListBuffer A) × ListItems
  new_list store from_append items = (
    store ++ fresh_buffer from_append items ∷ [],
    record { buf = length store; data_moves = 0; n = length items.items },
  )

  pub make_list : List (ListBuffer A) → Vec A → List (ListBuffer A) × ListItems
  make_list store items = new_list store false items

  -- The guard, with the compare-and-swap: the room behind the list, as a `size_t`, and that it ends at
  -- the frontier.
  pub can_extend : ListBuffer A → ℕ → ℕ → Bool
  can_extend buf n k =
      leb k ((buf.v.capacity + 2 ^ 64 - n) % 2 ^ 64)
      && leb (n + k) uint32_max
      && (buf.used == n % 2 ^ 32)

-- `reserve` gives the capacity that a vector has once it was made to hold some number of elements.
module _ (reserve : ℕ → ℕ) where
  module _ {ℓ} {A : Type ℓ} where
    -- `push_back` of some elements: beyond the capacity the vector moves.
    pub push_back_each : ListBuffer A → List A → ListBuffer A
    push_back_each buf extra =
        let total = length buf.v.items + length extra in
        let fits = leb total buf.v.capacity in
        record buf {
          v = record {
            items = buf.v.items ++ extra;
            capacity = if fits then buf.v.capacity else reserve total;
          };
          moves = if fits then buf.moves else suc buf.moves;
        }

    -- The buffer once the slots behind its end are claimed and written.
    pub extend : ListBuffer A → ℕ → List A → ListBuffer A
    extend buf n extra = push_back_each (record buf { used = (n + length extra) % 2 ^ 32 }) extra

    pub append_in_place : List (ListBuffer A) → ListItems → List A → List (ListBuffer A) × ListItems
    append_in_place store base extra =
        let grown = extend (buffer_at store base.buf) base.n extra in
        (
          set store base.buf grown,
          record { buf = base.buf; data_moves = grown.moves; n = base.n + length extra },
        )

  -- The room of a copy: half again if the list has been appended to before.
  pub copy_capacity : Bool → ℕ → ℕ
  copy_capacity growing total = if growing then reserve (total + total / 2 + 1) else reserve total

  module _ {ℓ} {A : Type ℓ} where
    pub copied : List (ListBuffer A) → ListItems → List A → Vec A
    copied store base extra = record {
      items = view_items store base ++ extra;
      capacity = copy_capacity (buffer_at store base.buf).from_append (base.n + length extra);
    }

    pub append_copy : List (ListBuffer A) → ListItems → List A → List (ListBuffer A) × ListItems
    append_copy store base extra = new_list store true (copied store base extra)

    pub append_some : List (ListBuffer A) → ListItems → List A → List (ListBuffer A) × ListItems
    append_some store base extra =
        if can_extend (buffer_at store base.buf) base.n (length extra)
        then append_in_place store base extra
        else append_copy store base extra

    pub append_items : List (ListBuffer A) → ListItems → List A → List (ListBuffer A) × ListItems
    append_items store base [] = (store, base)
    append_items store base (x ∷ xs) = append_some store base (x ∷ xs)

    pub list_append :
        List (ListBuffer A) → Option ListItems → Vec A → List (ListBuffer A) × ListItems
    list_append store none extra = make_list store extra
    list_append store (some base) extra = append_items store base extra.items

-- What a program does with lists: it makes one, or appends to the one it made or got at a place in
-- the past, all of which it still holds. A place it has not reached is the null pointer.
pub data ListOp {ℓ} (A : Type ℓ) : Type ℓ where
  make : Vec A → ListOp A
  append : ℕ → Vec A → ListOp A

module _ {ℓ} {A : Type ℓ} (reserve : ℕ → ℕ) where
  pub list_op : List (ListBuffer A) → List ListItems → ListOp A → List (ListBuffer A) × ListItems
  list_op store held (make items) = make_list store items
  list_op store held (append i extra) = list_append reserve store (get_elem? held i) extra

  pub run_lists :
      List (ListOp A) → List (ListBuffer A) → List ListItems → List (ListBuffer A) × List ListItems
  run_lists [] store held = (store, held)
  run_lists (op ∷ ops) store held =
      let (next, made) = list_op store held op in run_lists ops next (held ++ made ∷ [])

-- The same with lists that share nothing.
module _ {ℓ} {A : Type ℓ} where
  pub pure_op : List (List A) → ListOp A → List A
  pure_op lists (make items) = items.items
  pure_op lists (append i extra) = get_or lists i [] ++ extra.items

  pub run_pure : List (ListOp A) → List (List A) → List (List A)
  run_pure [] lists = lists
  run_pure (op ∷ ops) lists = run_pure ops (lists ++ pure_op lists op ∷ [])
