-- ===== src/Sentiment/Tests.antt =====
-- About a concrete payload.
use hotel_server_v.Base.{string_eq, ℕ, ◌+◌, some, [], ◌∷◌, ◌≡◌, refl}
use hotel_server_v.Base.Dict.{lookup}
use hotel_server_v.Sentiment.Payload.{
  Json, Object, Sentiment, AttributeSentimentValue, attribute_from_payload,
}
use hotel_server_v.Sentiment.Laws.{attribute_from_payload-partition}

abbrev pool : Object ℕ
pool =
    ("sentiment", Json.text " POSITIVE ")
    ∷ ("mentions", Json.int 12)
    ∷ ("positive_mentions", Json.int 9)
    ∷ ("negative_mentions", Json.int 1)
    ∷ []

abbrev pool_value : AttributeSentimentValue
pool_value = record {
  sentiment = Sentiment.positive;
  total_mentions = 12;
  positive_mentions = 9;
  negative_mentions = 1;
}

attribute_from_payload-partition_example :
    (lookup "mentions" pool ≡ some (Json.int 12))
    × (lookup "positive_mentions" pool ≡ some (Json.int 9))
    × (lookup "negative_mentions" pool ≡ some (Json.int 1))
    × (9 + 1 + 2 ≡ 12)
unfolding attribute_from_payload lookup
attribute_from_payload-partition_example =
    attribute_from_payload-partition (λ s. s) pool pool_value refl
