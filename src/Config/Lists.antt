-- ===== src/Config/Lists.antt =====
-- The containers of the C++ library as config.cpp uses them: an ordered `std::set` and a `std::list`,
-- each with one iterator that an insertion or the erasure of another element leaves on its element.
use nrp_reference.Base.{
  ℕ, zero, suc, ◌+◌, ◌-◌, List, [], ◌∷◌, Option, none, some, Outcome, ok, undefined, ltb, leb,
  if◌then◌else◌, length, get_elem?,
}
use nrp_reference.ServerRecord.{ServerRecord, server_eq, server_lt}

-- `begin()`: the same as `end()` for an empty container.
abbrev pub begin : List ServerRecord → Option ℕ
begin [] = none
begin (s ∷ ss) = some 0

-- `next(iterator)`.
abbrev pub next : List ServerRecord → ℕ → Option ℕ
next ss i = if ltb (i + 1) (length ss) then some (i + 1) else none

-- The value that an iterator points at. There is none at `end()`.
unfoldable pub deref : List ServerRecord → Option ℕ → Outcome ServerRecord
deref ss none = undefined
deref ss (some i) = elim (get_elem? ss i) [ none ↦ undefined | some s ↦ ok s ]

-- `prev(iterator)`: there is no element before the first.
unfoldable pub prev : ℕ → Outcome ℕ
prev zero = undefined
prev (suc i) = ok i

unfoldable pub erase_at : ℕ → List ServerRecord → List ServerRecord
erase_at i [] = []
erase_at zero (s ∷ ss) = ss
erase_at (suc i) (s ∷ ss) = s ∷ erase_at i ss

-- `list::remove(value)`.
unfoldable pub remove : ServerRecord → List ServerRecord → List ServerRecord
remove s [] = []
remove s (x ∷ xs) = let rest = remove s xs in if server_eq x s then rest else x ∷ rest

-- Where the iterator at index `i` stands after `remove`; `none` if its own element went.
unfoldable pub index_after_remove : ServerRecord → ℕ → List ServerRecord → Option ℕ
index_after_remove s i [] = some i
index_after_remove s zero (x ∷ xs) = if server_eq x s then none else some 0
index_after_remove s (suc i) (x ∷ xs) =
    let rest = index_after_remove s i xs in
    if server_eq x s then rest else elim rest [ none ↦ none | some j ↦ some (suc j) ]

-- `set::find(value)`: the index of the element that is neither below nor above the value.
unfoldable pub find_index : ServerRecord → List ServerRecord → Option ℕ
find_index s [] = none
find_index s (x ∷ xs) =
    if server_lt x s
    then elim (find_index s xs) [ none ↦ none | some i ↦ some (suc i) ]
    else if server_lt s x
    then none
    else some 0

-- `set::emplace(value)`: the index at which it is inserted, or `none` if an equivalent one is there.
unfoldable pub emplace_index : ServerRecord → List ServerRecord → Option ℕ
emplace_index s [] = some 0
emplace_index s (x ∷ xs) =
    if server_lt x s
    then elim (emplace_index s xs) [ none ↦ none | some i ↦ some (suc i) ]
    else if server_lt s x
    then some 0
    else none

unfoldable pub insert_at : ℕ → ServerRecord → List ServerRecord → List ServerRecord
insert_at zero s xs = s ∷ xs
insert_at (suc i) s [] = s ∷ []
insert_at (suc i) s (x ∷ xs) = x ∷ insert_at i s xs

-- An iterator after an insertion at `j`, and after the erasure of another element at `j`.
abbrev pub index_after_insert : ℕ → Option ℕ → Option ℕ
index_after_insert j none = none
index_after_insert j (some i) = some (if leb j i then i + 1 else i)

abbrev pub index_after_erase : ℕ → Option ℕ → Option ℕ
index_after_erase j none = none
index_after_erase j (some i) = some (if ltb j i then i - 1 else i)
