-- ===== src/Store/Id.antt =====
-- CheckID of store/store_check.go, and the store's errors (store/errors.go). An id is its bytes, so
-- the UTF-8 and control-character tests of Go's library are written out.
use gotato.Base.{
  ℕ, Bool, true, false, not, ◌&&◌, ◌||◌, ◌==◌, ltb, leb, if◌then◌else◌, Option, none, some, List,
  [], ◌∷◌, Bytes, length,
}

pub data StoreError : Type 0 where
  -- The errors of a context that ended.
  canceled deadline_exceeded : StoreError
  invalid_id invalid_argument : StoreError
  exists conflict expired not_found : StoreError
  -- An error that the package gives no name.
  other_error : StoreError

abbrev pub max_id_bytes : ℕ
max_id_bytes = 100

-- The ranges that the bytes after a leading byte must lie in, and none for a byte that leads nothing.
unfoldable pub following : ℕ → Option (List (ℕ × ℕ))
following b =
    if ltb b 0x80
    then some []
    else if ltb b 0xC2
    then none
    else if ltb b 0xE0
    then some ((0x80, 0xBF) ∷ [])
    else if b == 0xE0
    then some ((0xA0, 0xBF) ∷ (0x80, 0xBF) ∷ [])
    else if b == 0xED
    then some ((0x80, 0x9F) ∷ (0x80, 0xBF) ∷ [])
    else if ltb b 0xF0
    then some ((0x80, 0xBF) ∷ (0x80, 0xBF) ∷ [])
    else if b == 0xF0
    then some ((0x90, 0xBF) ∷ (0x80, 0xBF) ∷ (0x80, 0xBF) ∷ [])
    else if ltb b 0xF4
    then some ((0x80, 0xBF) ∷ (0x80, 0xBF) ∷ (0x80, 0xBF) ∷ [])
    else if b == 0xF4
    then some ((0x80, 0x8F) ∷ (0x80, 0xBF) ∷ (0x80, 0xBF) ∷ [])
    else none

-- utf8.ValidString, with the ranges that the rune in progress still wants.
unfoldable pub valid_from : List (ℕ × ℕ) → Bytes → Bool
unfolding following
valid_from [] [] = true
valid_from (r ∷ rs) [] = false
valid_from [] (b ∷ bs) = elim (following b) [ none ↦ false | some rs ↦ valid_from rs bs ]
valid_from ((lo, hi) ∷ rs) (b ∷ bs) = leb lo b && leb b hi && valid_from rs bs

unfoldable pub valid_string : Bytes → Bool
unfolding valid_from
valid_string id = valid_from [] id

-- A byte of U+0080 to U+009F after its leading byte 0xC2.
c1_next : Bytes → Bool
c1_next [] = false
c1_next (b ∷ bs) = ltb b 0xA0

-- strings.IndexFunc(id, unicode.IsControl) >= 0, of a valid text.
pub has_control : Bytes → Bool
unfolding c1_next
has_control [] = false
has_control (b ∷ bs) = ltb b 0x20 || b == 0x7F || (b == 0xC2 && c1_next bs) || has_control bs

pub has_separator : Bytes → Bool
has_separator [] = false
has_separator (b ∷ bs) = b == b'/' || b == 92 || has_separator bs

abbrev pub starts_with_dot : Bytes → Bool
starts_with_dot [] = false
starts_with_dot (b ∷ bs) = b == b'.'

pub has_dot_dot : Bytes → Bool
has_dot_dot [] = false
has_dot_dot (b ∷ bs) = (b == b'.' && starts_with_dot bs) || has_dot_dot bs

unfoldable pub check_id : Bytes → Option StoreError
unfolding valid_string has_control has_separator has_dot_dot
check_id id =
    if length id == 0
    then some invalid_id
    else if ltb max_id_bytes (length id)
    then some invalid_id
    else if not (valid_string id)
    then some invalid_id
    else if has_control id
    then some invalid_id
    else if has_separator id
    then some invalid_id
    else if has_dot_dot id
    then some invalid_id
    else if starts_with_dot id
    then some invalid_id
    else none
