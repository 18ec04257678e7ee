-- ===== src/Sentiment/Laws.antt =====
-- About accepted sentiment payloads and the keys of the taxonomy.
use Prim.Native.Char.{Char, code}
use hotel_server_v.Base.{
  ◌+◌, String, Bool, true, false, ◌&&◌, ◌≡◌, refl, inl, inr, Bool-cases, Option-cases, ℕ, some,
  arith, eqb, string_eq, if◌then◌else◌,
}
use hotel_server_v.Base.Text.{is_blank, strip, casefold}
use hotel_server_v.Base.Dict.{lookup}
use hotel_server_v.Base.Exec.{ok, Result-cases}
use hotel_server_v.Sentiment.Payload.{
  Json, Object, AttributeSentimentValue, neutral_mentions, count_of, attribute_from_payload,
  raw_sentiment,
}
use hotel_server_v.Sentiment.Keys.{Texts, key_parts, normalize_taxonomy_key}

-- A count that is accepted is an integer from 0 up of the payload.
count_of-int :
    {A : Type 0} (name : String) (payload : Object A) (n : ℕ)
    → count_of name payload ≡ ok n
    → lookup name payload ≡ some (Json.int n)
unfolding count_of
count_of-int name payload n h = elim (Option-cases (lookup name payload)) [
  | inl e ↦ ground (arith, e, h)
  | inr (v, e) ↦ ground (arith, e, h)
]

-- An accepted attribute payload has its three counts as integers from 0 up, neither Booleans nor negative, and they are those of the result; positive, negative and neutral mentions together are the total.
pub attribute_from_payload-partition :
    {A : Type 0} (upper : String → String) (payload : Object A) (v : AttributeSentimentValue)
    → attribute_from_payload upper payload ≡ ok v
    → (lookup "mentions" payload ≡ some (Json.int v.total_mentions))
      × (lookup "positive_mentions" payload ≡ some (Json.int v.positive_mentions))
      × (lookup "negative_mentions" payload ≡ some (Json.int v.negative_mentions))
      × (v.positive_mentions + v.negative_mentions + neutral_mentions v ≡ v.total_mentions)
unfolding attribute_from_payload
attribute_from_payload-partition upper payload v h =
    let total = count_of-int "mentions" payload in
    let positives = count_of-int "positive_mentions" payload in
    let negatives = count_of-int "negative_mentions" payload in
    elim (Result-cases (raw_sentiment upper payload)) [
      | inr (x, e) ↦ ground (arith, e, h)
      | inl (s, e) ↦ elim (Result-cases (count_of "mentions" payload)) [
        | inr (x, k) ↦ ground (arith, e, k, h)
        | inl (t, k) ↦ elim (Result-cases (count_of "positive_mentions" payload)) [
          | inr (x, q) ↦ ground (arith, e, k, q, h)
          | inl (p, q) ↦ elim (Result-cases (count_of "negative_mentions" payload)) [
            | inr (x, z) ↦ ground (arith, e, k, q, z, h)
            | inl (n, z) ↦ ground (arith, e, k, q, z, h, total t k, positives p q, negatives n z)
          ]
        ]
      ]
    ]

module _ (x : Texts) where
  -- Characters of the taxonomy with single dashes between them; `here` says whether a dash, or the
  -- end, may stand here.
  abbrev separated : Bool → String → Bool
  separated here String.[] = here
  separated here (String.◌∷◌ c s) =
      let after_dash = separated false s in
      let after_letter = separated true s in
      if eqb (code c) 45 then here && after_dash else x.unicode.alnum c && after_letter

  module _ (dash : (c : Char) → x.unicode.alnum c ≡ true → eqb (code c) 45 ≡ false) where
    key_parts-separated :
        (pending : Bool) (s : String)
        → (separated true (key_parts x pending true s) ≡ true)
          × (is_blank (key_parts x pending false s) ≡ false
              → separated false (key_parts x pending false s) ≡ true)
    unfolding key_parts
    key_parts-separated pending String.[] = (refl, λ h. ground (arith, h))
    key_parts-separated pending (String.◌∷◌ c s) = elim (Bool-cases (x.unicode.alnum c)) [
      | inl e ↦ elim (Bool-cases pending) [
        | inl p ↦ (
          ground (arith, e, p, dash c e, key_parts-separated false s),
          λ h. ground (arith, e, p, dash c e, key_parts-separated false s),
        )
        | inr p ↦ (
          ground (arith, e, p, dash c e, key_parts-separated false s),
          λ h. ground (arith, e, p, dash c e, key_parts-separated false s),
        )
      ]
      | inr e ↦ (
        ground (arith, e, key_parts-separated true s),
        λ h. ground (arith, e, h, key_parts-separated true s),
      )
    ]

    -- Where a dash is no alphanumeric character, a normalized key is not empty, starts and ends with an alphanumeric character, and has only such characters with single dashes between them.
    normalize_taxonomy_key-separated :
        (value key : String) → normalize_taxonomy_key x value ≡ ok key → separated false key ≡ true
    unfolding normalize_taxonomy_key
    normalize_taxonomy_key-separated value key h =
        let folded = casefold x.unicode (strip (x.nfkc value)) in
        elim (Bool-cases (is_blank (key_parts x false false folded))) [
          | inl e ↦ ground (arith, e, h)
          | inr e ↦ ground (arith, e, h, (key_parts-separated false folded).1)
        ]
