-- ===== src/IniFile/Sorted.antt =====
-- A map keeps its keys in their order, and finds what was put into it.
use mpdscribble.Base.{
  ◌≡◌, ◌≢◌, inl, inr, refl, sym, true, false, not, [], ◌∷◌, Option, none, some, arith, Bytes,
  is_some, Bool-cases,
}
use mpdscribble.IniFile.Maps.{Map, before, emplace, find, cons_to}

pub before_trans : (a b c : Bytes) → before a b ≡ true → before b c ≡ true → before a c ≡ true
unfolding before
before_trans a b [] h k = k
before_trans a [] (z ∷ c) h k = absurd (ground arith)
before_trans [] (y ∷ b) (z ∷ c) h k = refl
before_trans (x ∷ a) (y ∷ b) (z ∷ c) h k = ground (arith, before_trans a b c)

pub before_irrefl : (a : Bytes) → before a a ≡ false
unfolding before
before_irrefl [] = refl
before_irrefl (x ∷ a) = ground (arith, before_irrefl a)

pub before_total : (a b : Bytes) → before a b ≡ false → before b a ≡ false → a ≡ b
unfolding before
before_total [] [] h k = refl
before_total [] (y ∷ b) h k = absurd (ground arith)
before_total (x ∷ a) [] h k = absurd (ground arith)
before_total (x ∷ a) (y ∷ b) h k = ground (arith, before_total a b)

abbrev pub First {ℓ} : {V : Type ℓ} → Bytes → Map V → Type 0
First key [] = Unit
First key ((k, v) ∷ m) = before key k ≡ true

abbrev pub IsSorted {ℓ} : {V : Type ℓ} → Map V → Type 0
IsSorted [] = Unit
IsSorted ((k, v) ∷ m) = First k m × IsSorted m

module _ {ℓ} {V : Type ℓ} where
  is_some-cons_to :
      (k : Bytes) (v : V) (m : Option (Map V)) → is_some (cons_to (k, v) m) ≡ is_some m
  is_some-cons_to k v none = refl
  is_some-cons_to k v (some m) = refl

  pub emplace-find :
      (key : Bytes) (value : V) (m : Map V)
      → is_some (emplace key value m) ≡ not (is_some (find key m))
  unfolding emplace find
  emplace-find key value [] = refl
  emplace-find key value ((k, v) ∷ m) =
      ground (arith, emplace-find key value m, is_some-cons_to k v (emplace key value m))

  abbrev FirstIf : Bytes → Option (Map V) → Type 0
  FirstIf k none = Unit
  FirstIf k (some m) = First k m

  abbrev pub SortedIf : Option (Map V) → Type 0
  SortedIf none = Unit
  SortedIf (some m) = IsSorted m

  cons_to-FirstIf :
      (k l : Bytes) (w : V) (r : Option (Map V)) → before k l ≡ true → FirstIf k (cons_to (l, w) r)
  cons_to-FirstIf k l w none h = tt
  cons_to-FirstIf k l w (some m) h = h

  cons_to-SortedIf :
      (l : Bytes) (w : V) (r : Option (Map V))
      → FirstIf l r
      → SortedIf r
      → SortedIf (cons_to (l, w) r)
  cons_to-SortedIf l w none f s = tt
  cons_to-SortedIf l w (some m) f s = (f, s)

  emplace-FirstIf :
      (k key : Bytes) (value : V) (m : Map V)
      → First k m
      → before k key ≡ true
      → FirstIf k (emplace key value m)
  unfolding emplace
  emplace-FirstIf k key value [] f h = h
  emplace-FirstIf k key value ((l, w) ∷ m) f h = elim (Bool-cases (before key l)) [
    | inl e ↦ rw e h
    | inr e ↦ rw e (elim (Bool-cases (before l key)) [
      | inl d ↦ rw d (cons_to-FirstIf k l w (emplace key value m) f)
      | inr d ↦ rw d tt
    ])
  ]

  -- A sorted map stays sorted when a pair is put in.
  pub emplace-SortedIf :
      (key : Bytes) (value : V) (m : Map V) → IsSorted m → SortedIf (emplace key value m)
  unfolding emplace
  emplace-SortedIf key value [] s = (tt, tt)
  emplace-SortedIf key value ((l, w) ∷ m) (f, s) = elim (Bool-cases (before key l)) [
    | inl e ↦ rw e (e, (f, s))
    | inr e ↦ rw e (elim (Bool-cases (before l key)) [
      | inl d ↦ rw d (
          cons_to-SortedIf l w (emplace key value m) (emplace-FirstIf l key value m f d)
            (emplace-SortedIf key value m s))
      | inr d ↦ rw d tt
    ])
  ]

  abbrev pub FindsIf : Map V → Bytes → V → Option (Map V) → Type ℓ
  FindsIf m key value none = Unit
  FindsIf m key value (some r) =
      (find key r ≡ some value) × ((other : Bytes) → other ≢ key → find other r ≡ find other m)

  find-before : (key : Bytes) (m : Map V) → First key m → IsSorted m → find key m ≡ none
  unfolding find
  find-before key [] f s = refl
  find-before key ((k, v) ∷ m) f s = rw f refl

  find-here : (key : Bytes) (value : V) (m : Map V) → find key ((key, value) ∷ m) ≡ some value
  unfolding find
  find-here key value m = rw (before_irrefl key) refl

  First-before : (j k : Bytes) (m : Map V) → before j k ≡ true → First k m → First j m
  First-before j k [] h f = tt
  First-before j k ((l, w) ∷ m) h f = before_trans j k l h f

  find-other :
      (key : Bytes) (value : V) (m : Map V) (other : Bytes)
      → other ≢ key
      → First key m
      → IsSorted m
      → find other ((key, value) ∷ m) ≡ find other m
  unfolding find
  find-other key value m other n f s = elim (Bool-cases (before other key)) [
    | inl e ↦ rw e (sym (find-before other m (First-before other key m e f) s))
    | inr e ↦ rw e (elim (Bool-cases (before key other)) [
      | inl d ↦ rw d refl
      | inr d ↦ absurd (n (before_total other key e d))
    ])
  ]

  cons_to-FindsIf :
      (k key : Bytes) (v value : V) (m : Map V) (r : Option (Map V))
      → before k key ≡ true
      → before key k ≡ false
      → FindsIf m key value r
      → FindsIf ((k, v) ∷ m) key value (cons_to (k, v) r)
  unfolding find
  cons_to-FindsIf k key v value m none h d f = tt
  cons_to-FindsIf k key v value m (some r) h d (f, g) =
      (rw d (rw h f), λ other n. rw (g other n) refl)

  pub emplace-FindsIf :
      (key : Bytes) (value : V) (m : Map V) → IsSorted m → FindsIf m key value (emplace key value m)
  unfolding emplace find
  emplace-FindsIf key value [] s =
      (find-here key value [], λ other n. find-other key value [] other n tt tt)
  emplace-FindsIf key value ((l, w) ∷ m) (f, s) = elim (Bool-cases (before key l)) [
    | inl e ↦ rw e (
      find-here key value ((l, w) ∷ m),
      λ other n. find-other key value ((l, w) ∷ m) other n e (f, s),
    )
    | inr e ↦ rw e (elim (Bool-cases (before l key)) [
      | inl d ↦ rw d (
          cons_to-FindsIf l key w value m (emplace key value m) d e (emplace-FindsIf key value m s))
      | inr d ↦ rw d tt
    ])
  ]
