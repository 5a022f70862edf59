-- ===== src/Text.antt =====
-- Text helpers (app/common/utils/text.py) over the native strings. `str.strip` follows
-- CPython's list of white space code points.
pub mod Laws
pub mod Decimal
use Prim.Native.Char.{Char, code}
use Prim.Native.String
use package.vertical_ai_research_act.Prelude.{
  ℕ, zero, suc, ◌≡◌, refl, String, ◌<>◌, Bool, true, false, ◌&&◌, ◌||◌, Option, none, some, List,
  [], ◌∷◌, ◌++◌, map, arith, leb, eqb, string_eq, Eq, ◌==◌, contains, if◌then◌else◌,
}

-- `not s`
abbrev pub is_blank : String → Bool
is_blank String.[] = true
is_blank (String.◌∷◌ c s) = false

-- `s or None`
abbrev pub or_none : String → Option String
or_none s = if is_blank s then none else some s

-- `s or ""`
abbrev pub or_blank : Option String → String
or_blank none = ""
or_blank (some s) = s

-- `str.isspace` for one character.
unfoldable pub is_space : ℕ → Bool
is_space c =
    (leb 9 c && leb c 13)
    || (leb 28 c && leb c 32)
    || eqb c 0x85
    || eqb c 0xa0
    || eqb c 0x1680
    || (leb 0x2000 c && leb c 0x200a)
    || eqb c 0x2028
    || eqb c 0x2029
    || eqb c 0x202f
    || eqb c 0x205f
    || eqb c 0x3000

unfoldable pub lstrip : String → String
lstrip String.[] = ""
lstrip (String.◌∷◌ c s) = if is_space (code c) then lstrip s else String.◌∷◌ c s

unfoldable pub rstrip : String → String
rstrip String.[] = ""
rstrip (String.◌∷◌ c s) =
    let rest = rstrip s in if is_space (code c) && is_blank rest then "" else String.◌∷◌ c rest

-- `s.strip()`
unfoldable pub strip : String → String
unfolding lstrip rstrip is_space
strip s = rstrip (lstrip s)

-- `strip_or_none`, and the inlined `(value or "").strip() or None`
unfoldable pub strip_or_none : Option String → Option String
unfolding strip
strip_or_none value = or_none (strip (or_blank value))

-- The loop of `unique_non_empty_strings`.
unfoldable pub unique_onto : List String → List String → List String
unfolding strip
unique_onto unique_values [] = unique_values
unique_onto unique_values (value ∷ values) =
    let normalized = strip value in
    unique_onto
      (if is_blank normalized || contains unique_values normalized
        then unique_values
        else unique_values ++ normalized ∷ [])
      values

unfoldable pub unique_non_empty_strings : List String → List String
unfolding unique_onto
unique_non_empty_strings values = unique_onto [] values

-- `sep.join(parts)`
abbrev pub join : String → List String → String
join sep [] = ""
join sep (s ∷ []) = s
join sep (s ∷ (t ∷ rest)) = s <> sep <> join sep (t ∷ rest)

strip_runs : strip " \t ab c\n" ≡ "ab c"
unfolding strip
strip_runs = refl

unique_runs : unique_non_empty_strings (" a" ∷ "" ∷ "b" ∷ "a " ∷ []) ≡ "a" ∷ "b" ∷ []
unfolding unique_non_empty_strings
unique_runs = refl

-- `s.endswith(t)`: one of the ends of `s` is `t`.
unfoldable pub ends_with : String → String → Bool
ends_with String.[] t = "" == t
ends_with (String.◌∷◌ c s) t = (String.◌∷◌ c s) == t || ends_with s t

-- `s.startswith(t)`
unfoldable pub begins_with : String → String → Bool
begins_with s String.[] = true
begins_with String.[] (String.◌∷◌ d t) = false
begins_with (String.◌∷◌ c s) (String.◌∷◌ d t) = eqb (code c) (code d) && begins_with s t

-- `t in s`
unfoldable pub occurs_in : String → String → Bool
unfolding begins_with
occurs_in t String.[] = begins_with "" t
occurs_in t (String.◌∷◌ c s) = begins_with (String.◌∷◌ c s) t || occurs_in t s

-- `value or default` for an optional text: the empty text counts as missing.
abbrev pub text_or : Option String → String → String
text_or none default = default
text_or (some s) default = if is_blank s then default else s

-- `bool(value)` for an optional text.
abbrev pub is_given : Option String → Bool
is_given none = false
is_given (some s) = if is_blank s then false else true

-- `len(s)` and `s[:n]`, in characters.
unfoldable pub char_count : String → ℕ
char_count String.[] = 0
char_count (String.◌∷◌ c s) = suc (char_count s)

unfoldable pub first_chars : ℕ → String → String
first_chars zero s = ""
first_chars (suc n) String.[] = ""
first_chars (suc n) (String.◌∷◌ c s) = String.◌∷◌ c (first_chars n s)

abbrev pub push_word : String → List String → List String
push_word word words = if is_blank word then words else word ∷ words

-- The word that a text begins with, blank at white space, and the words behind it.
unfoldable pub split_front : String → String × List String
split_front String.[] = ("", [])
split_front (String.◌∷◌ c s) =
    let (word, words) = split_front s in
    if is_space (code c) then ("", push_word word words) else (String.◌∷◌ c word, words)

-- `value.split()`
unfoldable pub split_words : String → List String
unfolding split_front
split_words value = let (word, words) = split_front value in push_word word words

-- `normalize_whitespace_or_none`
unfoldable pub normalize_whitespace_or_none : Option String → Option String
unfolding split_words
normalize_whitespace_or_none none = none
normalize_whitespace_or_none (some value) = or_none (join " " (split_words value))

words_runs : normalize_whitespace_or_none (some "  a  b c ") ≡ some "a b c"
unfolding normalize_whitespace_or_none is_space
words_runs = refl
