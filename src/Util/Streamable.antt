-- ===== src/Util/Streamable.antt =====
-- tad/util/streamable.py, with the integers of tad/util/struct_stream.py and tad/util/ints.py and the
-- byte strings of tad/util/byte_types.py: the binary format of the program's data. A type is a
-- description, a tuple or a data class is the list of its fields, and a binary file is the bytes that
-- are left to read. (Strings of text, signed integers and the elements of signatures are left out.)
pub mod Digits
pub mod Roundtrip
pub mod Canonical
use tad_blockchain.Base.{
  ℕ, zero, suc, ◌+◌, ◌^◌, Bool, true, false, Option, none, some, List, [], ◌∷◌, ◌++◌, ◌==◌, length,
  if◌then◌else◌,
}
use tad_blockchain.Base.Result.{
  Result, ok, raise, value_error, assertion_error, ◌>>=◌, ◌>>◌, assert, uint32,
}
use tad_blockchain.Types.Bytes.{Bytes, to_bytes, from_bytes}

-- `uint w` is the class of unsigned integers of w bytes, `sized n` that of n bytes.
pub data StreamType : Type 0 where
  uint : ℕ → StreamType
  bool : StreamType
  optional : StreamType → StreamType
  bytes : StreamType
  sized : ℕ → StreamType
  list_of : StreamType → StreamType
  no_fields : StreamType
  field : StreamType → StreamType → StreamType

abbrev pub Value : StreamType → Type 0
Value (uint w) = ℕ
Value bool = Bool
Value (optional t) = Option (Value t)
Value bytes = Bytes
Value (sized n) = Bytes
Value (list_of t) = List (Value t)
Value no_fields = Unit {0}
Value (field t rest) = Value t × Value rest

-- `f.read(n)` and the assertion that there were n bytes; what is left to read.
unfoldable pub read : ℕ → Bytes → Result (Bytes × Bytes)
read zero f = ok ([], f)
read (suc n) [] = raise assertion_error
read (suc n) (b ∷ f) = do (more, left) ← read n f; ok (b ∷ more, left)

-- The byte before an optional value, and the byte that a Boolean is.
unfoldable pub parse_bool : Bytes → Result (Bool × Bytes)
unfolding read
parse_bool f = do
  (bool_byte, left) ← read 1 f
  let number = from_bytes bool_byte
  if number == 0
      then ok (false, left)
      else if number == 1
      then ok (true, left)
      else raise value_error

unfoldable pub parse_uint : ℕ → Bytes → Result (ℕ × Bytes)
unfolding read
parse_uint width f = do (size_bytes, left) ← read width f; ok (from_bytes size_bytes, left)

-- `list_size` calls of the function that parses an element.
unfoldable pub parse_items {ℓ} :
    {A : Type ℓ} → ℕ → (Bytes → Result (A × Bytes)) → Bytes → Result (List A × Bytes)
parse_items zero parse_inner_type_f f = ok ([], f)
parse_items (suc n) parse_inner_type_f f = do
  (item, left) ← parse_inner_type_f f
  (items, left') ← parse_items n parse_inner_type_f left
  ok (item ∷ items, left')

unfoldable pub parse_bytes : Bytes → Result (Bytes × Bytes)
unfolding parse_uint read
parse_bytes f = do (list_size, left) ← parse_uint 4 f; read list_size left

unfoldable pub parse_list {ℓ} :
    {A : Type ℓ} → (Bytes → Result (A × Bytes)) → Bytes → Result (List A × Bytes)
unfolding parse_uint parse_items
parse_list parse_inner_type_f f = do
  (list_size, left) ← parse_uint 4 f
  parse_items list_size parse_inner_type_f left

unfoldable pub parse_optional {ℓ} :
    {A : Type ℓ} → (Bytes → Result (A × Bytes)) → Bytes → Result (Option A × Bytes)
unfolding parse_bool
parse_optional parse_inner_type_f f = do
  (is_present, left) ← parse_bool f
  elim is_present [
    | false ↦ ok (none, left)
    | true ↦ do (item, left') ← parse_inner_type_f left; ok (some item, left')
  ]

-- The function that `function_to_parse_one_item` picks for a type; for the fields of a class, `parse`.
unfoldable pub parse : (t : StreamType) → Bytes → Result (Value t × Bytes)
unfolding parse_uint parse_bool parse_optional parse_bytes parse_list read
parse (uint w) f = parse_uint w f
parse bool f = parse_bool f
parse (optional t) f = parse_optional (parse t) f
parse bytes f = parse_bytes f
parse (sized n) f = read n f
parse (list_of t) f = parse_list (parse t) f
parse no_fields f = ok (tt, f)
parse (field t rest) f = do
  (item, left) ← parse t f
  (items, left') ← parse rest left
  ok ((item, items), left')

-- `write_uint32(f, uint32(n))`
unfoldable pub write_uint32 : ℕ → Result Bytes
write_uint32 n = uint32 n >>= λ value. ok (to_bytes 4 value)

unfoldable pub stream_items {ℓ} : {A : Type ℓ} → (A → Result Bytes) → List A → Result Bytes
stream_items stream_inner [] = ok []
stream_items stream_inner (element ∷ rest) = do
  first ← stream_inner element
  others ← stream_items stream_inner rest
  ok (first ++ others)

-- What `stream_one_item` writes; for the fields of a class, what `stream` writes.
unfoldable pub stream : (t : StreamType) → Value t → Result Bytes
unfolding write_uint32 stream_items
stream (uint w) n = ok (to_bytes w n)
stream bool b = ok (to_bytes 1 (if b then 1 else 0))
stream (optional t) none = ok (0 ∷ [])
stream (optional t) (some item) = do inner ← stream t item; ok (1 ∷ inner)
stream bytes item = do size ← write_uint32 (length item); ok (size ++ item)
stream (sized n) item = ok item
stream (list_of t) items = do
  size ← write_uint32 (length items)
  elements ← stream_items (stream t) items
  ok (size ++ elements)
stream no_fields item = ok []
stream (field t rest) item = do
  first ← stream t item.0
  others ← stream rest item.1
  ok (first ++ others)

-- `from_bytes`: the whole of the bytes is one item.
unfoldable pub from_blob : (t : StreamType) → Bytes → Result (Value t)
unfolding parse
from_blob t blob = do (parsed, left) ← parse t blob; assert (length left == 0); ok parsed
