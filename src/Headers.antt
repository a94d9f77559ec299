-- ===== src/Headers.antt =====
-- include/http/headers.h and source/headers.cpp: header fields, and a list of them in order.
pub mod Laws
use stunning_waddle.Base.{
  ℕ, Bool, ◌&&◌, List, [], ◌∷◌, ◌++◌, Option, Bytes, length, get_elem?, str_eq, if◌then◌else◌,
}

pub record Header : Type 0 where
  pub name : Bytes
  pub value : Bytes

-- `class headers` holds one vector, `data_`.
abbrev pub Headers : Type 0
Headers = List Header

unfoldable pub add : Headers → Bytes → Bytes → Headers
add data_ name value = data_ ++ (record { name = name; value = value } ∷ [])

unfoldable pub size : Headers → ℕ
size data_ = length data_

-- `operator[]`; an index out of range, undefined in the source, is `none`.
unfoldable pub at : Headers → ℕ → Option Header
at data_ index = get_elem? data_ index

-- `get(name)`: the value of the first field with the name, or the empty string.
unfoldable pub get : Headers → Bytes → Bytes
get [] name = []
get (h ∷ data_) name = if str_eq h.name name then h.value else get data_ name

-- Fields that are equal in both parts.
unfoldable pub header_eq : Header → Header → Bool
header_eq a b = str_eq a.name b.name && str_eq a.value b.value
