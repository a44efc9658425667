-- ===== src/IniFile/Pairs.antt =====
-- A line with a key and a value.
use mpdscribble.Base.{
  ℕ, ◌≡◌, refl, ap, ◌∙◌, Bool, true, false, not, [], ◌∷◌, ◌++◌, some, arith, Bytes, ◌==◌,
}
use mpdscribble.IniFile.{
  IniParser, is_valid_key_char, is_valid_key, all_chars, add_key, open_default, add_pair, parse_key,
  parse_stripped, parse_line,
}
use mpdscribble.Text.Chars.{is_whitespace_or_null, is_alpha_numeric_ascii}
use mpdscribble.Text.Strip.{strip_left_view, strip_right, strip_view, split}

abbrev pub AllBlank : Bytes → Type 0
AllBlank [] = Unit
AllBlank (c ∷ s) = (is_whitespace_or_null c ≡ true) × AllBlank s

abbrev pub StartsSolid : Bytes → Type 0
StartsSolid [] = Unit
StartsSolid (c ∷ s) = is_whitespace_or_null c ≡ false

strip_left_view-blanks : (b s : Bytes) → AllBlank b → strip_left_view (b ++ s) ≡ strip_left_view s
unfolding strip_left_view
strip_left_view-blanks [] s h = refl
strip_left_view-blanks (c ∷ b) s (h, k) = rw h (strip_left_view-blanks b s k)

strip_left_view-solid : (s : Bytes) → StartsSolid s → strip_left_view s ≡ s
unfolding strip_left_view
strip_left_view-solid [] h = refl
strip_left_view-solid (c ∷ s) h = rw h refl

strip_right-all : (b : Bytes) → AllBlank b → strip_right b ≡ []
unfolding strip_right
strip_right-all [] h = refl
strip_right-all (c ∷ b) (h, k) = rw (strip_right-all b k) (rw h refl)

strip_right-blanks : (s b : Bytes) → AllBlank b → strip_right (s ++ b) ≡ strip_right s
unfolding strip_right
strip_right-blanks [] b h = strip_right-all b h
strip_right-blanks (c ∷ s) b h = rw (strip_right-blanks s b h) refl

split-first :
    (a rest : Bytes) (ch : ℕ)
    → all_chars (λ c. not (c == ch)) a ≡ true
    → split (a ++ (ch ∷ rest)) ch ≡ some (a, rest)
unfolding split
split-first [] rest ch h = ground arith
split-first (c ∷ a) rest ch h = ground (arith, split-first a rest ch)

all_chars-++ :
    (f : ℕ → Bool) (a b : Bytes)
    → all_chars f a ≡ true
    → all_chars f b ≡ true
    → all_chars f (a ++ b) ≡ true
all_chars-++ f [] b h k = k
all_chars-++ f (c ∷ a) b h k = ground (arith, all_chars-++ f a b)

valid_key_char-solid :
    (c : ℕ)
    → is_valid_key_char c ≡ true
    → (is_whitespace_or_null c ≡ false)
      × ((c == b'=') ≡ false)
      × ((c == b'#') ≡ false)
      × ((c == b'[') ≡ false)
unfolding is_valid_key_char is_alpha_numeric_ascii
valid_key_char-solid c h = (ground arith, ground arith, ground arith, ground arith)

keys-no_equals :
    (s : Bytes) → all_chars is_valid_key_char s ≡ true → all_chars (λ c. not (c == b'=')) s ≡ true
keys-no_equals [] h = refl
keys-no_equals (c ∷ s) h = ground (arith, keys-no_equals s, valid_key_char-solid c)

blanks-no_equals : (b : Bytes) → AllBlank b → all_chars (λ c. not (c == b'=')) b ≡ true
blanks-no_equals [] h = refl
blanks-no_equals (c ∷ b) (h, k) = ground (arith, blanks-no_equals b k)

strip_right-key : (s : Bytes) → all_chars is_valid_key_char s ≡ true → strip_right s ≡ s
unfolding strip_right
strip_right-key [] h = refl
strip_right-key (c ∷ s) h = ground (arith, strip_right-key s, valid_key_char-solid c)

strip_left_view-all : (b : Bytes) → AllBlank b → strip_left_view b ≡ []
unfolding strip_left_view
strip_left_view-all [] h = refl
strip_left_view-all (c ∷ b) (h, k) = rw h (strip_left_view-all b k)

valid_key-chars : (key : Bytes) → is_valid_key key ≡ true → all_chars is_valid_key_char key ≡ true
unfolding is_valid_key
valid_key-chars [] h = refl
valid_key-chars (c ∷ key) h = h

strip_view-between :
    (b value e : Bytes)
    → AllBlank b
    → AllBlank e
    → StartsSolid value
    → strip_right value ≡ value
    → strip_view (b ++ (value ++ e)) ≡ value
unfolding strip_view
strip_view-between b [] e h k u w =
    ap strip_right (strip_left_view-blanks b e h ∙ strip_left_view-all e k) ∙ w
strip_view-between b (c ∷ value) e h k u w =
    ap strip_right
      (strip_left_view-blanks b (c ∷ (value ++ e)) h ∙ strip_left_view-solid (c ∷ (value ++ e)) u)
    ∙ strip_right-blanks (c ∷ value) e k
    ∙ w

add_pair-valid :
    (key value b e f : Bytes) (p : IniParser)
    → is_valid_key key ≡ true
    → AllBlank b
    → AllBlank e
    → AllBlank f
    → StartsSolid value
    → strip_right value ≡ value
    → add_pair (some (key ++ b, e ++ (value ++ f))) p ≡ add_key key value (open_default p)
unfolding add_pair
add_pair-valid key value b e f p h i j k u w =
    rw (strip_right-blanks key b i ∙ strip_right-key key (valid_key-chars key h))
      (rw (strip_view-between e value f j k u w) (rw h refl))

parse_stripped-key :
    (c : ℕ) (line : Bytes) (p : IniParser)
    → is_valid_key_char c ≡ true
    → parse_stripped (c ∷ line) p ≡ parse_key (c ∷ line) p
unfolding parse_stripped
parse_stripped-key c line p h =
    let (_, _, hash, bracket) = valid_key_char-solid c h in rw hash (rw bracket (rw h refl))

parse_key-pair :
    (key b rest : Bytes) (p : IniParser)
    → is_valid_key key ≡ true
    → AllBlank b
    → parse_key ((key ++ b) ++ (b'=' ∷ rest)) p ≡ add_pair (some (key ++ b, rest)) p
unfolding parse_key
parse_key-pair key b rest p h i =
    ap (λ parts. add_pair parts p)
      (split-first (key ++ b) rest b'=' (
        all_chars-++ (λ c. not (c == b'=')) key b (keys-no_equals key (valid_key-chars key h))
          (blanks-no_equals b i)))

no_empty_key : is_valid_key [] ≡ true → ⊥
unfolding is_valid_key
no_empty_key h = absurd (ground arith)

first_key_char : (c : ℕ) (key : Bytes) → is_valid_key (c ∷ key) ≡ true → is_valid_key_char c ≡ true
unfolding is_valid_key
first_key_char c key h = ground arith

pub parse_line-pair :
    (a key b e value f : Bytes) (p : IniParser)
    → is_valid_key key ≡ true
    → AllBlank a
    → AllBlank b
    → AllBlank e
    → AllBlank f
    → StartsSolid value
    → strip_right value ≡ value
    → parse_line (a ++ ((key ++ b) ++ (b'=' ∷ (e ++ (value ++ f))))) p
      ≡ add_key key value (open_default p)
unfolding parse_line
parse_line-pair a [] b e value f p h i j k l u w = absurd (no_empty_key h)
parse_line-pair a (c ∷ key) b e value f p h i j k l u w =
    let valid = first_key_char c key h in
    let rest = e ++ (value ++ f) in
    let line = (key ++ b) ++ (b'=' ∷ rest) in
    ap (λ s. parse_stripped s p)
      (strip_left_view-blanks a (c ∷ line) i
        ∙ strip_left_view-solid (c ∷ line) (valid_key_char-solid c valid).0)
    ∙ parse_stripped-key c line p valid
    ∙ parse_key-pair (c ∷ key) b rest p h j
    ∙ add_pair-valid (c ∷ key) value b e f p h j k l u w
