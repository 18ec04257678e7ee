-- ===== src/Sentiment/Keys.antt =====
-- `normalize_taxonomy_key`, `deterministic_category_code` and `deterministic_attribute_slug` of
-- domain/sentiment.py.
use Prim.Native.Char.{code}
use hotel_server_v.Base.{
  ℕ, suc, ◌-◌, String, Bool, true, false, not, ◌&&◌, List, contains, ltb, eqb, string_eq,
  if◌then◌else◌,
}
use hotel_server_v.Base.Text.{Unicode, strip, casefold, replace, text_append, text_take, is_blank}
use hotel_server_v.Base.Exec.{Result, ok, err}
use hotel_server_v.Errors.{import_validation}

-- What the module takes from Python's `unicodedata` and `hashlib`: NFKC, `str.upper`, and the hex
-- digest of SHA-256 of a text.
pub record Texts : Type 0 where
  pub unicode : Unicode
  pub nfkc : String → String
  pub upper : String → String
  pub digest : String → String

-- `len` of a text.
unfoldable pub text_length : String → ℕ
text_length String.[] = 0
text_length (String.◌∷◌ c s) = suc (text_length s)

module _ (x : Texts) where
  -- The loop over the characters: whether a separator is pending, and whether `key_parts` has
  -- something.
  unfoldable pub key_parts : Bool → Bool → String → String
  key_parts pending started String.[] = String.[]
  key_parts pending started (String.◌∷◌ c s) =
      let taken = key_parts false true s in
      let skipped = key_parts true started s in
      if x.unicode.alnum c
      then (if pending && started then String.◌∷◌ "-" (String.◌∷◌ c taken) else String.◌∷◌ c taken)
      else skipped

  unfoldable pub normalize_taxonomy_key : String → Result String
  unfolding strip casefold key_parts
  normalize_taxonomy_key value =
      let key = key_parts false false (casefold x.unicode (strip (x.nfkc value))) in
      if is_blank key then err (import_validation "INVALID_TAXONOMY_KEY") else ok key

  -- `key.upper().replace("-", "_")`
  abbrev plain_code : String → String
  plain_code key = replace 45 "_" (x.upper key)

  unfoldable pub deterministic_category_code : String → String
  unfolding replace text_take text_length
  deterministic_category_code key =
      let plain = plain_code key in
      if ltb 64 (text_length plain)
      then text_append (text_take 53 plain) (text_append "_" (text_take 10 (x.digest key)))
      else plain

  -- `s.rstrip("-")`
  unfoldable pub rstrip_dashes : String → String
  rstrip_dashes String.[] = String.[]
  rstrip_dashes (String.◌∷◌ c s) =
      let rest = rstrip_dashes s in
      if eqb (code c) 45 && is_blank rest then String.[] else String.◌∷◌ c rest

  -- `nul` is the text of the character 0.
  unfoldable pub deterministic_attribute_slug : String → String → String → List String → String
  unfolding rstrip_dashes text_take text_length
  deterministic_attribute_slug nul category attribute used =
      let prefixed = text_append category (text_append "--" attribute) in
      let suffix =
        text_append "--"
          (text_take 10 (x.digest (text_append category (text_append nul attribute)))) in
      if not (contains attribute used)
      then attribute
      else (if not (contains prefixed used)
          then prefixed
          else text_append (rstrip_dashes (text_take (120 - text_length suffix) prefixed)) suffix)
