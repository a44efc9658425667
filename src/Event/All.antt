-- ===== src/Event/All.antt =====
-- Lists of timers of which each has a property.
use mpdscribble.Base.{
  ℕ, ◌≤◌, ◌≡◌, ◌≢◌, Bool, true, false, List, [], ◌∷◌, ◌++◌, length, arith, leb, ◌==◌, ==_iff,
  if◌then◌else◌, Bool-cases, inl, inr, refl, sym, subst,
}
use mpdscribble.Event.Types.{Timer, unlink, set_bucket}
use mpdscribble.Event.Wheel.{insert_sorted}

abbrev pub All : (Timer → Type 0) → List Timer → Type 0
All P [] = Unit
All P (t ∷ ts) = P t × All P ts

pub All-map :
    (P Q : Timer → Type 0) (ts : List Timer) → ((t : Timer) → P t → Q t) → All P ts → All Q ts
All-map P Q [] f a = tt
All-map P Q (t ∷ ts) f (p, a) = (f t p, All-map P Q ts f a)

pub All-append : (P : Timer → Type 0) (ts us : List Timer) → All P ts → All P us → All P (ts ++ us)
All-append P [] us a b = b
All-append P (t ∷ ts) us (p, a) b = (p, All-append P ts us a b)

All-if :
    (P : Timer → Type 0) (b : Bool) (ts us : List Timer)
    → All P ts
    → All P us
    → All P (if b then ts else us)
All-if P true ts us a c = a
All-if P false ts us a c = c

pub All-unlink : (P : Timer → Type 0) (id : ℕ) (ts : List Timer) → All P ts → All P (unlink id ts)
unfolding unlink
All-unlink P id [] a = tt
All-unlink P id (t ∷ ts) (p, a) =
    All-if P (t.id == id) _ _ (All-unlink P id ts a) (p, All-unlink P id ts a)

pub All-insert_sorted :
    (P : Timer → Type 0) (t : Timer) (us : List Timer) → P t → All P us → All P (insert_sorted t us)
unfolding insert_sorted
All-insert_sorted P t [] p a = (p, tt)
All-insert_sorted P t (u ∷ us) p (q, a) =
    All-if P (leb t.due u.due) _ _ (p, (q, a)) (q, All-insert_sorted P t us p a)

-- The buckets after one of them was replaced.
pub All-set_bucket :
    (B : ℕ → Timer → Type 0) (i : ℕ) (ts : List Timer) (buckets : ℕ → List Timer)
    → All (B i) ts
    → ((j : ℕ) → All (B j) (buckets j))
    → (j : ℕ) → All (B j) (set_bucket i ts buckets j)
unfolding set_bucket
All-set_bucket B i ts buckets a f j = elim (Bool-cases (j == i)) [
  | inl e ↦ rw e (subst (λ k. All (B k) ts) (sym ((==_iff j i).0 e)) a)
  | inr e ↦ rw e (f j)
]

-- The buckets after one of them was emptied.
pub All-clear_bucket :
    (A B : ℕ → Timer → Type 0) (i : ℕ) (buckets : ℕ → List Timer)
    → ((j : ℕ) (t : Timer) → j ≢ i → A j t → B j t)
    → ((j : ℕ) → All (A j) (buckets j))
    → (j : ℕ) → All (B j) (set_bucket i [] buckets j)
unfolding set_bucket
All-clear_bucket A B i buckets other f j = elim (Bool-cases (j == i)) [
  | inl e ↦ rw e tt
  | inr e ↦
      rw e (All-map (A j) (B j) (buckets j) (λ t. other j t (λ k. absurd (ground arith))) (f j))
]

-- Sorted by the due time, as the class TimerList keeps them.
abbrev pub Ordered : List Timer → Type 0
Ordered [] = Unit
Ordered (t ∷ ts) = All (λ u. t.due ≤ u.due) ts × Ordered ts

Ordered-if :
    (b : Bool) (ts us : List Timer)
    → (b ≡ true → Ordered ts)
    → (b ≡ false → Ordered us)
    → Ordered (if b then ts else us)
Ordered-if true ts us a c = a refl
Ordered-if false ts us a c = c refl

pub unlink-Ordered : (id : ℕ) (ts : List Timer) → Ordered ts → Ordered (unlink id ts)
unfolding unlink
unlink-Ordered id [] o = tt
unlink-Ordered id (t ∷ ts) (a, o) =
    Ordered-if (t.id == id) _ _ (λ e. unlink-Ordered id ts o)
      (λ e. (All-unlink (λ u. t.due ≤ u.due) id ts a, unlink-Ordered id ts o))

pub insert_sorted-Ordered :
    (t : Timer) (us : List Timer) → Ordered us → Ordered (insert_sorted t us)
unfolding insert_sorted
insert_sorted-Ordered t [] o = (tt, tt)
insert_sorted-Ordered t (u ∷ us) (a, o) =
    Ordered-if (leb t.due u.due) _ _
      (λ e.
        let h : t.due ≤ u.due = ground arith in
        ((h, All-map (λ v. u.due ≤ v.due) (λ v. t.due ≤ v.due) us (λ v k. omega arith) a), (a, o)))
      (λ e. (
        All-insert_sorted (λ v. u.due ≤ v.due) t us (ground arith) a,
        insert_sorted-Ordered t us o,
      ))

pub length-unlink : (id : ℕ) (ts : List Timer) → length (unlink id ts) ≤ length ts
unfolding unlink
length-unlink id [] = omega arith
length-unlink id (t ∷ ts) = ground (arith, length-unlink id ts)
