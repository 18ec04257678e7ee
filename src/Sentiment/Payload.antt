-- ===== src/Sentiment/Payload.antt =====
-- `AttributeSentimentValue.from_payload`, `HotelSentimentRecord.from_payload` and the aggregate
-- scores of domain/sentiment.py.
use hotel_server_v.Base.{
  ℕ, ◌+◌, ◌-◌, String, Bool, true, false, Option, none, some, List, ltb, ◌==◌, string_eq,
  if◌then◌else◌,
}
use hotel_server_v.Base.Dict.{lookup}
use hotel_server_v.Base.Text.{strip, is_blank}
use hotel_server_v.Base.Exec.{Result, ok, err}
use hotel_server_v.Errors.{import_validation}

-- A decoded JSON value; `A` is the type of the objects and lists inside it. An integer is from 0 up
-- or negative.
pub data Json (A : Type 0) : Type 0 where
  null : Json A
  flag : Bool → Json A
  int negative : ℕ → Json A
  float : String → Json A
  text : String → Json A
  list : A → Json A
  object : A → Json A

abbrev pub Object : Type 0 → Type 0
Object A = List (String × Json A)

pub data Sentiment : Type 0 where
  positive negative neutral : Sentiment

pub record AttributeSentimentValue : Type 0 where
  pub sentiment : Sentiment
  pub total_mentions : ℕ
  pub positive_mentions : ℕ
  pub negative_mentions : ℕ

-- The property `neutral_mentions`, where it is not negative.
abbrev pub neutral_mentions : AttributeSentimentValue → ℕ
neutral_mentions v = v.total_mentions - v.positive_mentions - v.negative_mentions

pub data HotelId : Type 0 where
  named : String → HotelId
  numbered : Bool → ℕ → HotelId

pub record HotelSentimentRecord (A : Type 0) : Type 0 where
  pub hotel_id : HotelId
  pub analysis_mode : String
  pub analysis_version : String
  pub review_window : String
  pub has_recent_reviews : Option Bool
  pub reviews_analyzed : ℕ
  pub attributes : A

infixl 5 ◌then◌
abbrev ◌then◌ : {A B : Type 0} → Result A → (A → Result B) → Result B
(ok a) then k = k a
(err e) then k = err e

-- `Sentiment(s)`
abbrev sentiment_of : String → Result Sentiment
sentiment_of s =
    if s == "POSITIVE"
    then ok Sentiment.positive
    else (if s == "NEGATIVE"
        then ok Sentiment.negative
        else (if s == "NEUTRAL"
            then ok Sentiment.neutral
            else err (import_validation "INVALID_SENTIMENT")))

abbrev within_total : Sentiment → ℕ → ℕ → ℕ → Result AttributeSentimentValue
within_total sentiment total positives negatives =
    if ltb total (positives + negatives)
    then err (
        import_validation
          "Invalid mention counts: positive and negative mentions exceed total mention counts")
    else ok (record {
      sentiment = sentiment;
      total_mentions = total;
      positive_mentions = positives;
      negative_mentions = negatives;
    })

abbrev nonblank : String → Result String
nonblank s =
    if is_blank (strip s)
    then err (import_validation "INVALID_SENTIMENT_PROVENANCE")
    else ok (strip s)

module _ {A : Type 0} where
  -- A count: an integer from 0 up, and no Boolean.
  unfoldable pub count_of : String → Object A → Result ℕ
  count_of name payload = elim (lookup name payload) [
    | some (int n) ↦ ok n
    | _ ↦ err (import_validation "INVALID_MENTION_COUNTS")
  ]

  abbrev pub raw_sentiment : (String → String) → Object A → Result Sentiment
  raw_sentiment upper payload = elim (lookup "sentiment" payload) [
    | some (text s) ↦ sentiment_of (upper (strip s))
    | _ ↦ err (import_validation "INVALID_SENTIMENT")
  ]

  -- `AttributeSentimentValue.from_payload`; `upper` is `str.upper`.
  unfoldable pub attribute_from_payload :
      (String → String) → Object A → Result AttributeSentimentValue
  unfolding count_of strip
  attribute_from_payload upper payload = raw_sentiment upper payload then λ sentiment.
      count_of "mentions" payload then λ total.
      count_of "positive_mentions" payload then λ positives.
      count_of "negative_mentions" payload then λ negatives.
      within_total sentiment total positives negatives

  abbrev hotel_id_of : Object A → Result HotelId
  hotel_id_of payload = elim (lookup "hotel_id" payload) [
    | some (text s) ↦
        if is_blank (strip s)
        then err (import_validation "INVALID_HOTEL_ID")
        else ok (HotelId.named s)
    | some (int n) ↦ ok (HotelId.numbered false n)
    | some (negative n) ↦ ok (HotelId.numbered true n)
    | _ ↦ err (import_validation "INVALID_HOTEL_ID")
  ]

  abbrev analysis_mode_of : Object A → Result String
  analysis_mode_of payload = elim (lookup "analysis_mode" payload) [
    | some (text s) ↦ nonblank s
    | _ ↦ err (import_validation "INVALID_SENTIMENT_PROVENANCE")
  ]

  abbrev provenance_of : String → Object A → Result String
  provenance_of name payload = elim (lookup name payload) [
    | none ↦ ok "unspecified"
    | some null ↦ ok "unspecified"
    | some (text s) ↦ nonblank s
    | _ ↦ err (import_validation "INVALID_SENTIMENT_PROVENANCE")
  ]

  abbrev recent_of : Object A → Result (Option Bool)
  recent_of payload = elim (lookup "has_recent_reviews" payload) [
    | none ↦ ok none
    | some null ↦ ok none
    | some (flag b) ↦ ok (some b)
    | _ ↦ err (import_validation "INVALID_HAS_RECENT_REVIEWS")
  ]

  abbrev reviews_of : Object A → Result ℕ
  reviews_of payload = elim (lookup "reviews_analyzed" payload) [
    | some (int n) ↦ ok n
    | _ ↦ err (import_validation "INVALID_REVIEWS_ANALYZED")
  ]

  abbrev attributes_of : Object A → Result A
  attributes_of payload = elim (lookup "attributes" payload) [
    | some (object a) ↦ ok a
    | _ ↦ err (import_validation "INVALID_ATTRIBUTES")
  ]

  -- `HotelSentimentRecord.from_payload`
  unfoldable pub hotel_from_payload : Object A → Result (HotelSentimentRecord A)
  unfolding strip
  hotel_from_payload payload = hotel_id_of payload then λ hotel.
      analysis_mode_of payload then λ mode. provenance_of "analysis_version" payload then λ version.
      provenance_of "review_window" payload then λ window. recent_of payload then λ recent.
      reviews_of payload then λ reviews. attributes_of payload then λ attributes. ok (record {
        hotel_id = hotel;
        analysis_mode = mode;
        analysis_version = version;
        review_window = window;
        has_recent_reviews = recent;
        reviews_analyzed = reviews;
        attributes = attributes;
      })
