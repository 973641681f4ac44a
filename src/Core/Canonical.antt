-- ===== src/Core/Canonical.antt =====
-- src/milhouse/core/canonical.py: the canonical JSON bytes of texts, whole numbers and objects. `nfc`
-- stands for `unicodedata.normalize("NFC", ...)` and `decimal` for `str` of a number.
pub mod Order
use milhouse_oss.Prelude.{
  ℕ, ◌+◌, ◌-◌, ◌*◌, ◌^◌, ◌/◌, ◌%◌, Bool, true, false, not, ◌&&◌, ◌||◌, Option, none, some, List, [],
  ◌∷◌, ◌++◌, ltb, leb, ◌==◌, if◌then◌else◌, any, length, Text, codes, text_eq, text_lt,
}

-- The values that a projection holds.
mutual
  pub data Json : Type 0 where
    text : Text → Json
    integer : ℕ → Json
    object : Fields → Json

  pub data Fields : Type 0 where
    end : Fields
    field : Text → Json → Fields → Fields

module _ {A B : Type 0} where
  infixl 5 ◌>>=◌
  abbrev pub ◌>>=◌ : Option A → (A → Option B) → Option B
  none >>= f = none
  some a >>= f = f a

abbrev is_surrogate : ℕ → Bool
is_surrogate c = leb 0xd800 c && leb c 0xdfff

abbrev starts_with_newline : Text → Bool
starts_with_newline [] = false
starts_with_newline (c ∷ s) = c == 10

-- `value.replace("\r\n", "\n").replace("\r", "\n")`
unfoldable pub replace_newlines : Text → Text
replace_newlines [] = []
replace_newlines (c ∷ s) =
    let rest = replace_newlines s in
    if c == 13 then (if starts_with_newline s then rest else 10 ∷ rest) else c ∷ rest

-- The last digit of `\u00..`.
abbrev hex_digit : ℕ → ℕ
hex_digit h = if ltb h 10 then 48 + h else 87 + h

-- One character within quotes, as `json.dumps` with `ensure_ascii=False` writes it.
unfoldable pub escape : ℕ → Text
escape c =
    if c == 34
    then 92 ∷ 34 ∷ []
    else if c == 92
    then 92 ∷ 92 ∷ []
    else if c == 8
    then codes "\\b"
    else if c == 9
    then codes "\\t"
    else if c == 10
    then codes "\\n"
    else if c == 12
    then codes "\\f"
    else if c == 13
    then codes "\\r"
    else if ltb c 16
    then codes "\\u000" ++ hex_digit c ∷ []
    else if ltb c 32
    then codes "\\u001" ++ hex_digit (c - 16) ∷ []
    else c ∷ []

unfoldable pub escaped : Text → Text
unfolding escape
escaped [] = []
escaped (c ∷ s) = escape c ++ escaped s

-- One code point as UTF-8.
unfoldable pub utf8_bytes : ℕ → List ℕ
utf8_bytes c =
    if ltb c 0x80
    then c ∷ []
    else if ltb c 0x800
    then (192 + c / 64) ∷ (128 + c % 64) ∷ []
    else if ltb c 0x10000
    then (224 + c / 4096) ∷ (128 + c / 64 % 64) ∷ (128 + c % 64) ∷ []
    else (240 + c / 262144) ∷ (128 + c / 4096 % 64) ∷ (128 + c / 64 % 64) ∷ (128 + c % 64) ∷ []

-- `text.encode("utf-8")`
unfoldable pub encode_utf8 : Text → List ℕ
unfolding utf8_bytes
encode_utf8 [] = []
encode_utf8 (c ∷ s) = utf8_bytes c ++ encode_utf8 s

-- The members in the order of their keys; in texts without surrogates the order of the code points is
-- that of the UTF-8 bytes. A key that is there already is a collision.
unfoldable pub insert_member : Text → Text → List (Text × Text) → Option (List (Text × Text))
insert_member key value [] = some ((key, value) ∷ [])
insert_member key value ((k, v) ∷ l) =
    let rest = insert_member key value l in
    if text_eq key k
    then none
    else if text_lt key k
    then some ((key, value) ∷ (k, v) ∷ l)
    else (rest >>= λ r. some ((k, v) ∷ r))

-- `_nodes`: one for every value.
unfoldable mutual
  pub nodes : Json → ℕ
  nodes (text s) = 1
  nodes (integer n) = 1
  nodes (object fs) = 1 + nodes_of fs

  pub nodes_of : Fields → ℕ
  nodes_of end = 0
  nodes_of (field key value fs) = nodes value + nodes_of fs

abbrev pub larger : ℕ → ℕ → ℕ
larger a b = if ltb a b then b else a

-- The containers within one another.
unfoldable mutual
  pub depth : Json → ℕ
  depth (text s) = 0
  depth (integer n) = 0
  depth (object fs) = 1 + depth_of fs

  pub depth_of : Fields → ℕ
  depth_of end = 0
  depth_of (field key value fs) = larger (depth value) (depth_of fs)

module _ (nfc : Text → Text) (decimal : ℕ → Text) where
  -- `_normalize_string`
  unfoldable pub normalize_string : Text → Option Text
  unfolding replace_newlines
  normalize_string s = if any is_surrogate s then none else some (nfc (replace_newlines s))

  -- `_quote_string`
  unfoldable pub quote_string : Text → Option Text
  unfolding normalize_string escaped
  quote_string s = normalize_string s >>= λ t. some (34 ∷ (escaped t ++ 34 ∷ []))

  -- `_serialize_integer`
  unfoldable pub serialize_integer : ℕ → Option Text
  serialize_integer n = if ltb n (2 ^ 63) then some (decimal n) else none

  -- The members with their keys quoted, after the first with a comma before each.
  unfoldable pub joined : Bool → List (Text × Text) → Option Text
  unfolding quote_string
  joined is_first [] = some []
  joined is_first ((key, value) ∷ l) = quote_string key >>= λ quoted. joined false l >>= λ rest.
      some ((if is_first then [] else codes ",") ++ (quoted ++ (58 ∷ (value ++ rest))))

  -- `_encode_value` and `_encode_object`; the limits are tested apart, since every error of the
  -- encoder is a CanonicalizationError.
  unfoldable mutual
    unfolding quote_string serialize_integer joined insert_member normalize_string

    pub encode_value : Json → Option Text
    encode_value (text s) = quote_string s
    encode_value (integer n) = serialize_integer n
    encode_value (object fs) =
        encode_members fs >>= λ items. joined true items >>= λ t. some (123 ∷ (t ++ 125 ∷ []))

    pub encode_members : Fields → Option (List (Text × Text))
    encode_members end = some []
    encode_members (field key value fs) = normalize_string key >>= λ k.
        encode_value value >>= λ v. encode_members fs >>= λ items. insert_member k v items

  abbrev bounded : List ℕ → Option (List ℕ)
  bounded bytes = if ltb 262144 (length bytes) then none else some bytes

  -- `canonical_json_bytes` under the default limits.
  unfoldable pub canonical_json_bytes : Json → Option (List ℕ)
  unfolding encode_value encode_members nodes nodes_of depth depth_of encode_utf8
  canonical_json_bytes j =
      if ltb 10000 (nodes j) || ltb 32 (depth j)
      then none
      else (encode_value j >>= λ t. bounded (encode_utf8 t))
