-- ===== src/IniFile/Change.antt =====
-- A property of the values of a map, when the map changes.
use mpdscribble.Base.{
  ◌≡◌, inl, inr, refl, true, false, [], ◌∷◌, Option, none, some, arith, Bytes, is_some, Bool-cases,
}
use mpdscribble.IniFile.Maps.{
  Map, before, emplace, find, modify, replace_value, cons_under, cons_to,
}
use mpdscribble.IniFile.Sorted.{First, IsSorted}

module _ {V : Type 0} (P : Bytes → V → Type 0) where
  abbrev pub All : Map V → Type 0
  All [] = Unit
  All ((k, v) ∷ m) = P k v × All m

  abbrev pub AllIf : Option (Map V) → Type 0
  AllIf none = Unit
  AllIf (some m) = All m

  cons_to-AllIf :
      (k : Bytes) (v : V) (r : Option (Map V)) → P k v → AllIf r → AllIf (cons_to (k, v) r)
  cons_to-AllIf k v none p a = tt
  cons_to-AllIf k v (some m) p a = (p, a)

  pub emplace-AllIf :
      (key : Bytes) (value : V) (m : Map V) → P key value → All m → AllIf (emplace key value m)
  unfolding emplace
  emplace-AllIf key value [] p a = (p, tt)
  emplace-AllIf key value ((k, v) ∷ m) p (q, a) = elim (Bool-cases (before key k)) [
    | inl e ↦ rw e (p, (q, a))
    | inr e ↦ rw e (elim (Bool-cases (before k key)) [
      | inl d ↦ rw d (cons_to-AllIf k v (emplace key value m) q (emplace-AllIf key value m p a))
      | inr d ↦ rw d tt
    ])
  ]

  abbrev pub ValueIf : Bytes → Option V → Type 0
  ValueIf k none = Unit
  ValueIf k (some v) = P k v

  -- a value of the map was replaced, or the function has failed
  abbrev pub Modified : Bytes → Map V → Option (Option (Map V)) → Type 0
  Modified key m none = ⊥
  Modified key m (some none) = Unit
  Modified key m (some (some r)) =
      ((k : Bytes) → First k m → First k r) × IsSorted r × All r × (is_some (find key r) ≡ true)

  replace_value-Modified :
      (key k : Bytes) (v : V) (m : Map V) (w : Option V)
      → before key k ≡ false
      → before k key ≡ false
      → First k m
      → IsSorted m
      → All m
      → ValueIf k w
      → Modified key ((k, v) ∷ m) (replace_value k m w)
  unfolding find
  replace_value-Modified key k v m none e d f s a p = tt
  replace_value-Modified key k v m (some w) e d f s a p =
      ((λ j h. h), (f, s), (p, a), rw e (rw d refl))

  cons_under-Modified :
      (key k : Bytes) (v : V) (m : Map V) (r : Option (Option (Map V)))
      → before key k ≡ false
      → before k key ≡ true
      → First k m
      → P k v
      → Modified key m r
      → Modified key ((k, v) ∷ m) (cons_under (k, v) r)
  unfolding find
  cons_under-Modified key k v m none e d f p h = h
  cons_under-Modified key k v m (some none) e d f p h = tt
  cons_under-Modified key k v m (some (some r)) e d f p (g, s, a, i) =
      ((λ j h. h), (g k f, s), (p, a), rw e (rw d i))

  pub modify-Modified :
      (key : Bytes) (f : V → Option V) (m : Map V)
      → ((k : Bytes) (v : V) → P k v → ValueIf k (f v))
      → is_some (find key m) ≡ true
      → IsSorted m
      → All m
      → Modified key m (modify key f m)
  unfolding modify find
  modify-Modified key f [] h i s a = absurd (ground arith)
  modify-Modified key f ((k, v) ∷ m) h i (g, s) (p, a) = elim (Bool-cases (before key k)) [
    | inl e ↦ absurd (ground arith)
    | inr e ↦ rw e (elim (Bool-cases (before k key)) [
      | inl d ↦ rw d (
          cons_under-Modified key k v m (modify key f m) e d g p
            (modify-Modified key f m h (ground arith) s a))
      | inr d ↦ rw d (replace_value-Modified key k v m (f v) e d g s a (h k v p))
    ])
  ]
