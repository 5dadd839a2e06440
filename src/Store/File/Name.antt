-- ===== src/Store/File/Name.antt =====
-- store/file_name.go: the file name that the FileStore gives an id, and the id that has a name.
pub mod Distinct
pub mod Valid
use gotato.Base.{
  ℕ, ◌+◌, ◌-◌, ◌*◌, ◌/◌, ◌%◌, ◌<◌, Bool, true, false, ◌&&◌, ◌||◌, ◌==◌, ltb, leb, if◌then◌else◌,
  Option, none, some, List, [], ◌∷◌, ◌++◌, Bytes, length, All, ◌≡◌, ◌∙◌, ap, refl, arith, inl, inr,
  Bool-cases,
}
use gotato.Store.Id.{StoreError, invalid_id, check_id}

-- The bytes that stand for themselves.
unfoldable pub is_own : ℕ → Bool
is_own c =
    (leb b'a' c && leb c b'z') || (leb b'0' c && leb c b'9') || c == b'.' || c == b'_' || c == b'-'

unfoldable pub is_capital : ℕ → Bool
is_capital c = leb b'A' c && leb c b'Z'

-- A digit of %02X.
unfoldable pub hex_digit : ℕ → ℕ
hex_digit v = if ltb v 10 then b'0' + v else b'A' + (v - 10)

unfoldable pub spell : ℕ → Bytes
unfolding is_own is_capital hex_digit
spell c =
    if is_own c
    then c ∷ []
    else if is_capital c
    then b'!' ∷ (c + 32) ∷ []
    else b'%' ∷ hex_digit (c / 16) ∷ hex_digit (c % 16) ∷ []

unfoldable pub name_of : Bytes → Bytes
unfolding spell
name_of [] = []
name_of (c ∷ id) = spell c ++ name_of id

-- A digit that strconv.ParseUint reads in base 16, with strings.ToUpper leaving it alone.
unfoldable digit_value : ℕ → Option ℕ
digit_value c =
    if leb b'0' c && leb c b'9'
    then some (c - b'0')
    else if leb b'A' c && leb c b'F'
    then some (c - b'A' + 10)
    else none

unfoldable hex_value : ℕ → ℕ → Option ℕ
unfolding digit_value
hex_value c d = elim (digit_value c) [
  | none ↦ none
  | some h ↦ elim (digit_value d) [ none ↦ none | some l ↦ some (h * 16 + l) ]
]

-- The rest of the id after a byte of it.
abbrev after_byte : ℕ → Option Bytes → Option Bytes
after_byte c none = none
after_byte c (some id) = some (c ∷ id)

-- The three cases of the loop, by what is left of the name.
unfoldable pub id_of : Bytes → Option Bytes
unfolding hex_value is_own
id_of [] = some []
id_of (c ∷ []) = if is_own c then some (c ∷ []) else none
id_of (c ∷ d ∷ []) = elim (is_own c) [
  | true ↦ after_byte c (id_of (d ∷ []))
  | false ↦ if c == b'!' && leb b'a' d && leb d b'z' then some ((d - 32) ∷ []) else none
]
id_of (c ∷ d ∷ e ∷ t) = elim (is_own c) [
  | true ↦ after_byte c (id_of (d ∷ e ∷ t))
  | false ↦ elim (c == b'!' && leb b'a' d && leb d b'z') [
    | true ↦ after_byte (d - 32) (id_of (e ∷ t))
    | false ↦ elim (c == b'%') [
      | true ↦ elim (hex_value d e) [ some v ↦ after_byte v (id_of t) | none ↦ none ]
      | false ↦ none
    ]
  ]
]

abbrev pub max_name_bytes : ℕ
max_name_bytes = 200

unfoldable pub check_file_id : Bytes → Option StoreError
unfolding name_of
check_file_id id = elim (check_id id) [
  | some e ↦ some e
  | none ↦ if ltb max_name_bytes (length (name_of id)) then some invalid_id else none
]

own-one : (c : ℕ) (s : Bytes) → is_own c ≡ true → id_of (c ∷ s) ≡ after_byte c (id_of s)
unfolding id_of
own-one c [] h = ground arith
own-one c (d ∷ []) h = ground arith
own-one c (d ∷ e ∷ t) h = ground arith

capital-two :
    (c : ℕ) (s : Bytes) → is_capital c ≡ true → id_of (b'!' ∷ (c + 32) ∷ s) ≡ after_byte c (id_of s)
unfolding id_of is_capital is_own
capital-two c [] h = ground arith
capital-two c (e ∷ t) h = ground arith

digit_value-hex_digit : (v : ℕ) → v < 16 → digit_value (hex_digit v) ≡ some v
unfolding digit_value hex_digit
digit_value-hex_digit v h = ground arith

hex_value-hex_digit :
    (c : ℕ) → c < 256 → hex_value (hex_digit (c / 16)) (hex_digit (c % 16)) ≡ some c
unfolding hex_value
hex_value-hex_digit c h = ground (
  arith,
  digit_value-hex_digit (c / 16) (omega arith),
  digit_value-hex_digit (c % 16) (omega arith),
)

other-three :
    (c : ℕ) (s : Bytes)
    → c < 256
    → id_of (b'%' ∷ hex_digit (c / 16) ∷ hex_digit (c % 16) ∷ s) ≡ after_byte c (id_of s)
unfolding id_of is_own
other-three c s h = ground (arith, hex_value-hex_digit c h)

id_of-spell : (c : ℕ) (s : Bytes) → c < 256 → id_of (spell c ++ s) ≡ after_byte c (id_of s)
unfolding spell
id_of-spell c s h = elim (Bool-cases (is_own c)) [
  | inl own ↦ ground (arith, own-one c s own)
  | inr other ↦ elim (Bool-cases (is_capital c)) [
    | inl capital ↦ ground (arith, capital-two c s capital)
    | inr neither ↦ ground (arith, other-three c s h)
  ]
]

-- The name of an id whose bytes are below 256 gives the id back.
pub id_of-name_of : (id : Bytes) → All (λ c. c < 256) id → id_of (name_of id) ≡ some id
unfolding name_of id_of
id_of-name_of [] h = refl
id_of-name_of (c ∷ id) h = id_of-spell c (name_of id) h.0 ∙ ap (after_byte c) (id_of-name_of id h.1)
