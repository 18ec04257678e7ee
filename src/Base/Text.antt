-- ===== src/Base/Text.antt =====
-- The methods of `str` that the program calls. The tables of Unicode are a parameter.
use Prim.Native.Nat.{ℕ, zero, suc, Ordering}
use mathlib.Core.List.{List, [], ◌∷◌}
use Prim.Native.Char.{Char, code}
use Prim.Native.String.{String, ◌++◌, compare}
use mathlib.Core.Bool.{Bool, true, false, ◌&&◌, ◌||◌}
use hotel_server_v.Base.Tests.{leb, eqb, if◌then◌else◌}

-- What the interpreter takes from the Unicode database: the full case folding of one character,
-- `str.isalnum` of one, and `str.lower` of a text (it looks at the neighbours of a sigma).
pub record Unicode : Type 0 where
  pub fold : Char → String
  pub alnum : Char → Bool
  pub lower : String → String

-- `str.isspace` of one character.
abbrev is_space_code : ℕ → Bool
is_space_code c =
    (leb 9 c && leb c 13)
    || (leb 28 c && leb c 32)
    || eqb c 133
    || eqb c 160
    || eqb c 5760
    || (leb 8192 c && leb c 8202)
    || eqb c 8232
    || eqb c 8233
    || eqb c 8239
    || eqb c 8287
    || eqb c 12288

pub is_space : Char → Bool
is_space c = is_space_code (code c)

abbrev pub is_blank : String → Bool
is_blank String.[] = true
is_blank (String.◌∷◌ c s) = false

lstrip : String → String
lstrip String.[] = String.[]
lstrip (String.◌∷◌ c s) = if is_space c then lstrip s else String.◌∷◌ c s

rstrip : String → String
rstrip String.[] = String.[]
rstrip (String.◌∷◌ c s) =
    let rest = rstrip s in if is_space c && is_blank rest then String.[] else String.◌∷◌ c rest

-- `s.strip()`
unfoldable pub strip : String → String
unfolding lstrip rstrip is_space
strip s = rstrip (lstrip s)

-- `s.casefold()`
unfoldable pub casefold : Unicode → String → String
casefold u String.[] = String.[]
casefold u (String.◌∷◌ c s) = u.fold c ++ casefold u s

-- `s.replace(a, b)` for single characters.
unfoldable pub replace : ℕ → Char → String → String
replace a b String.[] = String.[]
replace a b (String.◌∷◌ c s) = String.◌∷◌ (if eqb (code c) a then b else c) (replace a b s)

-- `s.split()` joined by single spaces.
squeeze : Bool → String → String
squeeze pending String.[] = String.[]
squeeze pending (String.◌∷◌ c s) =
    if is_space c
    then squeeze true s
    else (if pending
        then String.◌∷◌ " " (String.◌∷◌ c (squeeze false s))
        else String.◌∷◌ c (squeeze false s))

-- `" ".join(s.split())`
unfoldable pub collapse : String → String
unfolding squeeze lstrip is_space
collapse s = squeeze false (lstrip s)

-- `a + b`
abbrev pub text_append : String → String → String
text_append a b = a ++ b

-- `a < b`
abbrev pub text_less : String → String → Bool
text_less a b = elim (compare a b) [ Ordering.lt ↦ true | _ ↦ false ]

-- `s.startswith(prefix)`
unfoldable pub starts_with : String → String → Bool
starts_with String.[] s = true
starts_with (String.◌∷◌ c p) String.[] = false
starts_with (String.◌∷◌ c p) (String.◌∷◌ d s) = eqb (code c) (code d) && starts_with p s

-- `s[:n]`
unfoldable pub text_take : ℕ → String → String
text_take zero s = String.[]
text_take (suc n) String.[] = String.[]
text_take (suc n) (String.◌∷◌ c s) = String.◌∷◌ c (text_take n s)

-- `separator.join(xs)`
unfoldable pub join_texts : String → List String → String
join_texts separator [] = String.[]
join_texts separator (x ∷ []) = x
join_texts separator (x ∷ y ∷ ys) = x ++ separator ++ join_texts separator (y ∷ ys)
