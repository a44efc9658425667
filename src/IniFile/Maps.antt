-- ===== src/IniFile/Maps.antt =====
-- `std::map<std::string, T>` as a list of pairs in the order of the keys, which compares bytes.
use mpdscribble.Base.{
  Bool, true, false, List, [], ◌∷◌, Option, none, some, Bytes, ltb, ◌==◌, if◌then◌else◌, ◌&&◌, ◌||◌,
}

abbrev pub Map {ℓ} : Type ℓ → Type ℓ
Map V = List (Bytes × V)

-- `operator<` on strings
unfoldable pub before : Bytes → Bytes → Bool
before a [] = false
before [] (d ∷ b) = true
before (c ∷ a) (d ∷ b) = ltb c d || c == d && before a b

abbrev pub cons_to {ℓ} : {V : Type ℓ} → Bytes × V → Option (Map V) → Option (Map V)
cons_to e none = none
cons_to e (some m) = some (e ∷ m)

-- `map.emplace(key, value)`, `none` if the key is there
unfoldable pub emplace {ℓ} : {V : Type ℓ} → Bytes → V → Map V → Option (Map V)
unfolding before
emplace key value [] = some ((key, value) ∷ [])
emplace key value ((k, v) ∷ m) =
    let rest = cons_to (k, v) (emplace key value m) in
    if before key k then some ((key, value) ∷ (k, v) ∷ m) else if before k key then rest else none

-- `map.find(key)`
unfoldable pub find {ℓ} : {V : Type ℓ} → Bytes → Map V → Option V
unfolding before
find key [] = none
find key ((k, v) ∷ m) =
    let rest = find key m in if before key k then none else if before k key then rest else some v

-- the value at an iterator, replaced by what a function makes of it; the outer `none` if the iterator
-- points at nothing, the inner one if the function fails
abbrev pub replace_value {ℓ} : {V : Type ℓ} → Bytes → Map V → Option V → Option (Option (Map V))
replace_value key m none = some none
replace_value key m (some w) = some (some ((key, w) ∷ m))

abbrev pub cons_under {ℓ} :
    {V : Type ℓ} → Bytes × V → Option (Option (Map V)) → Option (Option (Map V))
cons_under e none = none
cons_under e (some m) = some (cons_to e m)

unfoldable pub modify {ℓ} : {V : Type ℓ} → Bytes → (V → Option V) → Map V → Option (Option (Map V))
unfolding before
modify key f [] = none
modify key f ((k, v) ∷ m) =
    let rest = cons_under (k, v) (modify key f m) in
    if before key k then none else if before k key then rest else replace_value k m (f v)
