-- ===== src/Profile/Tests.antt =====
-- About a concrete profile: a traveller who answered two questions.
use hotel_server_v.Base.{
  ℕ, ◌-◌, ◌^◌, String, Bool, true, false, Option, none, some, List, [], ◌∷◌, ◌≡◌, refl, arith, All,
  map, ltb, Bool-cases, inl, inr, ◌==◌, string_eq, if◌then◌else◌,
}
use hotel_server_v.Base.Text.{Unicode}
use hotel_server_v.Base.Floats.Fixed.{fixed, fixed-IsOrdered}
use hotel_server_v.Onboarding.Types.{AnswerType, QuestionKind, Choice, Value}
use hotel_server_v.Onboarding.Branches.{Rendering, Row}
use hotel_server_v.Profile.Build.{build_profile}
use native.Mathlib.Nat.{div-mul-le_self}
use hotel_server_v.Profile.Bounds.{RoundsBelowOne, IsBounded, build_profile-IsBounded}
use hotel_server_v.Profile.Justified.{IsJustified, build_profile-IsJustified}

abbrev shown : ℕ → String
shown n = if ltb n 2 then "first" else "second"

abbrev rendering : Rendering
rendering = record {
  unicode = record { fold = λ c. String.◌∷◌ c String.[]; alnum = λ c. true; lower = λ s. s };
  show_num = λ q. "1";
}

abbrev asked : ℕ → String → String → Row
asked id key answer = (
  record {
    id = id;
    session_id = 1;
    position = id;
    prompt = "How do you travel?";
    helper_text = none;
    answer_type = AnswerType.single_choice;
    options = [];
    scale_min = none;
    scale_max = none;
    scale_labels = [];
    is_required = true;
    question_kind = QuestionKind.standard;
    semantic_dimensions = [];
    provider = "p";
    ai_model = none;
    prompt_version = none;
    question_key = some key;
    code = none;
  },
  record {
    session_id = 1;
    question_id = id;
    answer = record { selected = some (Choice.one (Value.text answer)); value = none; rest = "" };
    interpreted = [];
  },
)

abbrev rows : List Row
rows = asked 1 "travel_group" "couple" ∷ asked 2 "beach_proximity" "near-beach" ∷ []

profile-slugs :
    map (λ p. p.attribute_slug) (build_profile fixed rendering shown rows none none).preferences
    ≡ "beach-access" ∷ "quietness" ∷ "room-comfort" ∷ "spa" ∷ "room-service" ∷ []
unfolding build_profile hotel_server_v.Base.Sort.sort_by hotel_server_v.Base.Dict.lookup
    hotel_server_v.Base.Text.replace hotel_server_v.Base.Text.casefold
    hotel_server_v.Base.Dict.insert
profile-slugs = refl

fixed-rounds : RoundsBelowOne fixed
fixed-rounds k x h = ground (arith, h, div-mul-le_self (x - 1000000) (10 ^ (3 - k)))

build_profile-IsBounded_example :
    All
      (IsBounded fixed rendering shown)
      (build_profile fixed rendering shown rows none none).preferences
build_profile-IsBounded_example =
    build_profile-IsBounded fixed rendering shown fixed-IsOrdered fixed-rounds rows none none

shown-nonempty : (id : ℕ) → shown id == "" ≡ false
shown-nonempty id = elim (Bool-cases (ltb id 2)) [ inl e ↦ rw e refl | inr e ↦ rw e refl ]

build_profile-IsJustified_example :
    All
      (IsJustified fixed rendering shown rows)
      (build_profile fixed rendering shown rows none none).preferences
build_profile-IsJustified_example =
    build_profile-IsJustified fixed rendering shown shown-nonempty rows none none
