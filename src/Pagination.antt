-- ===== src/Pagination.antt =====
-- common/pagination.py: opaque cursors over a keyset of texts.
mod Tests
use hotel_server_v.Base.{
  String, Bool, true, false, not, Option, none, some, List, [], ◌∷◌, ◌==◌, string_eq, ◌≡◌, refl,
  inl, inr, Bool-cases, arith, if◌then◌else◌,
}
use hotel_server_v.Base.Dict.{lookup}
use hotel_server_v.Base.Exec.{Result, ok, err}
use hotel_server_v.Errors.{invalid_cursor}

abbrev pub Keyset : Type 0
Keyset = List (String × String)

-- What `json.loads` answers, as far as the module looks at it: an object with its members, of which
-- a text is `some`, or any other value.
pub data Loaded : Type 0 where
  members : List (String × Option String) → Loaded
  no_object : Loaded

-- JSON and URL-safe base64. `none` is a `ValueError`.
pub record Codec : Type 0 where
  pub dumps : Keyset → String
  pub loads : String → Option Loaded
  pub encode : String → String
  pub decode : String → Option String

-- A member whose value is no text makes the whole invalid.
unfoldable pub all_texts : List (String × Option String) → Option Keyset
all_texts [] = some []
all_texts ((k, none) ∷ ms) = none
all_texts ((k, some v) ∷ ms) = elim (all_texts ms) [ none ↦ none | some d ↦ some ((k, v) ∷ d) ]

module _ (c : Codec) where
  -- `values` are already texts: `isoformat` of a time and `str` of anything else.
  unfoldable pub encode_cursor : Keyset → String
  encode_cursor values = c.encode (c.dumps values)

  abbrev valid_or_error : Option Keyset → Result Keyset
  valid_or_error none = err invalid_cursor
  valid_or_error (some d) = ok d

  abbrev of_loaded : Option Loaded → Result Keyset
  of_loaded none = err invalid_cursor
  of_loaded (some no_object) = err invalid_cursor
  of_loaded (some (members ms)) = valid_or_error (all_texts ms)

  abbrev of_raw : Option String → Result Keyset
  of_raw none = err invalid_cursor
  of_raw (some raw) = of_loaded (c.loads raw)

  unfoldable pub decode_cursor : Option String → Result Keyset
  unfolding all_texts
  decode_cursor none = ok []
  decode_cursor (some cursor) = if cursor == "" then ok [] else of_raw (c.decode cursor)

-- A field: an absent one is `none`, a text that `parse` refuses an error.
unfoldable pub cursor_field :
    {A : Type 0} → (String → Option A) → Keyset → String → Result (Option A)
cursor_field parse values key = elim (lookup key values) [
  | none ↦ ok none
  | some t ↦ elim (parse t) [ none ↦ err invalid_cursor | some a ↦ ok (some a) ]
]

-- A field with a further test of the parsed value.
unfoldable pub cursor_checked :
    {A : Type 0} → (String → Option A) → (A → Bool) → Keyset → String → Result (Option A)
cursor_checked parse accepted values key = elim (lookup key values) [
  | none ↦ ok none
  | some t ↦ elim (parse t) [
    | none ↦ err invalid_cursor
    | some a ↦ if accepted a then ok (some a) else err invalid_cursor
  ]
]

-- `uuid.UUID`, `date.fromisoformat`, `datetime.fromisoformat`, `float` and `int` of a text.
pub record Parsers : Type 1 where
  pub Uuid : Type 0
  pub Date : Type 0
  pub Time : Type 0
  pub Number : Type 0
  pub uuid : String → Option Uuid
  pub date : String → Option Date
  pub time : String → Option Time
  pub has_zone : Time → Bool
  pub number : String → Option Number
  pub is_finite : Number → Bool
  pub int : String → Option Number

module _ (p : Parsers) where
  abbrev pub cursor_uuid : Keyset → String → Result (Option p.Uuid)
  cursor_uuid = cursor_field p.uuid

  abbrev pub cursor_date : Keyset → String → Result (Option p.Date)
  cursor_date = cursor_field p.date

  abbrev pub cursor_datetime : Keyset → String → Result (Option p.Time)
  cursor_datetime = cursor_checked p.time p.has_zone

  abbrev pub cursor_float : Keyset → String → Result (Option p.Number)
  cursor_float = cursor_checked p.number p.is_finite

  abbrev pub cursor_int : Keyset → String → Result (Option p.Number)
  cursor_int = cursor_field p.int

abbrev loaded_texts : Keyset → List (String × Option String)
loaded_texts [] = []
loaded_texts ((k, v) ∷ d) = (k, some v) ∷ loaded_texts d

-- What the two encodings document: each decodes what it encoded, and a base64 text of JSON is not
-- empty.
pub record IsCodec (c : Codec) : Type 0 where
  pub loads_dumps : (d : Keyset) → c.loads (c.dumps d) ≡ some (members (loaded_texts d))
  pub decode_encode : (s : String) → c.decode (c.encode s) ≡ some s
  pub nonempty : (d : Keyset) → c.encode (c.dumps d) == "" ≡ false

all_texts-loaded : (d : Keyset) → all_texts (loaded_texts d) ≡ some d
unfolding all_texts
all_texts-loaded [] = refl
all_texts-loaded ((k, v) ∷ d) = ground (arith, all_texts-loaded d)

-- With encodings that decode what they encoded, and write no keyset as the empty text, a cursor decodes to the keyset it was made of.
pub decode_cursor-encode_cursor :
    (c : Codec) → IsCodec c → (d : Keyset) → decode_cursor c (some (encode_cursor c d)) ≡ ok d
unfolding decode_cursor encode_cursor
decode_cursor-encode_cursor c laws d =
    ground (
      arith,
      laws.nonempty d,
      laws.decode_encode (c.dumps d),
      laws.loads_dumps d,
      all_texts-loaded d,
    )
