-- ===== src/Sentiment.antt =====
-- domain/sentiment.py: keys of the taxonomy, aggregate scores, and the validation of a sentiment
-- payload.
pub mod Aggregate
pub mod Keys
pub mod Laws
pub mod Payload
mod Tests
