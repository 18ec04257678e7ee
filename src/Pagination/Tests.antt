-- ===== src/Pagination/Tests.antt =====
-- About cursors that no JSON can be read from, and fields of a keyset.
use hotel_server_v.Base.{
  ℕ, String, Bool, true, false, not, Option, none, some, List, [], ◌∷◌, ◌≡◌, refl, eqb, ◌==◌,
  string_eq, if◌then◌else◌,
}
use hotel_server_v.Base.Exec.{ok, err}
use hotel_server_v.Errors.{invalid_cursor}
use hotel_server_v.Pagination.{Codec, Loaded, decode_cursor, cursor_checked}

-- Base64 that decodes everything, and JSON that has one member, which is a number.
abbrev numeric : Codec
numeric = record {
  dumps = λ d. "";
  loads = λ s. some (Loaded.members (("id", none) ∷ []));
  encode = λ s. s;
  decode = λ s. some s;
}

numeric-refused : decode_cursor numeric (some "eyJpZCI6MX0=") ≡ err invalid_cursor
unfolding decode_cursor
numeric-refused = refl

no_cursor-empty : decode_cursor numeric none ≡ ok []
unfolding decode_cursor
no_cursor-empty = refl

-- A field whose value is parsed and then not accepted.
parse_one : String → Option ℕ
parse_one s = if s == "1" then some 1 else none

unaccepted_field :
    cursor_checked parse_one (λ n. eqb n 0) (("score", "1") ∷ []) "score" ≡ err invalid_cursor
unfolding cursor_checked hotel_server_v.Base.Dict.lookup parse_one
unaccepted_field = refl
