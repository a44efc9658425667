-- ===== src/Journal/Line.antt =====
-- One line of the journal, written and read back.
use mpdscribble.Base.{
  ℕ, zero, suc, ◌≤◌, ◌<◌, ◌≡◌, ◌≢◌, refl, ap, ◌∙◌, [], ◌∷◌, ◌++◌, arith, Bytes, c_str,
}
use mpdscribble.Journal.{Reader, read_line, read_key, assign}
use mpdscribble.Text.Decimal.{IsDigits}
use mpdscribble.Text.Lines.{HasNoNewline}
use mpdscribble.Text.Strip.{strip_left, strip_right, strip, split}

-- What may stand in a text from its second byte on: no null byte, no newline, and no space at the end.
abbrev pub IsTail : Bytes → Type 0
IsTail [] = Unit
IsTail (c ∷ []) = 0x20 < c
IsTail (c ∷ d ∷ s) = (0 < c) × (c ≢ b'\n') × IsTail (d ∷ s)

-- A text that a line of the journal can hold: nor is there a space in front.
abbrev pub IsText : Bytes → Type 0
IsText [] = Unit
IsText (c ∷ s) = (0x20 < c) × IsTail (c ∷ s)

strip_right-IsTail : (s : Bytes) → IsTail s → strip_right (s ++ b'\n' ∷ []) ≡ s
unfolding strip_right
strip_right-IsTail [] h = refl
strip_right-IsTail (c ∷ []) h = ground arith
strip_right-IsTail (c ∷ d ∷ s) h = ground (arith, strip_right-IsTail (d ∷ s) h.2)

strip-IsText : (s : Bytes) → IsText s → strip (b' ' ∷ (s ++ b'\n' ∷ [])) ≡ s
unfolding strip
strip-IsText [] h = refl
strip-IsText (c ∷ s) h = ground (arith, strip_right-IsTail (c ∷ s) h.1)

c_str-IsTail : (s : Bytes) → IsTail s → c_str (s ++ b'\n' ∷ []) ≡ s ++ b'\n' ∷ []
c_str-IsTail [] h = refl
c_str-IsTail (zero ∷ []) h = absurd (omega arith)
c_str-IsTail (suc c ∷ []) h = refl
c_str-IsTail (zero ∷ d ∷ s) h = absurd (omega arith)
c_str-IsTail (suc c ∷ d ∷ s) h = ap (◌∷◌ (suc c)) (c_str-IsTail (d ∷ s) h.2)

pub c_str-IsTail_self : (s : Bytes) → IsTail s → c_str s ≡ s
c_str-IsTail_self [] h = refl
c_str-IsTail_self (zero ∷ []) h = absurd (omega arith)
c_str-IsTail_self (suc c ∷ []) h = refl
c_str-IsTail_self (zero ∷ d ∷ s) h = absurd (omega arith)
c_str-IsTail_self (suc c ∷ d ∷ s) h = ap (◌∷◌ (suc c)) (c_str-IsTail_self (d ∷ s) h.2)

pub HasNoNewline-IsTail : (s : Bytes) → IsTail s → HasNoNewline s
HasNoNewline-IsTail [] h = tt
HasNoNewline-IsTail (c ∷ []) h = ground arith
HasNoNewline-IsTail (c ∷ d ∷ s) h = ground (arith, HasNoNewline-IsTail (d ∷ s) h.2)

pub IsText-IsTail : (s : Bytes) → IsText s → IsTail s
IsText-IsTail [] h = tt
IsText-IsTail (c ∷ s) h = h.1

-- The keys of the journal.
abbrev pub IsKey : ℕ → Type 0
IsKey field = (b'a' ≤ field) × (field ≤ b't')

read_key-text :
    (field : ℕ) (s : Bytes) (p : Reader)
    → IsKey field
    → IsText s
    → read_key (field ∷ (b' ' ∷ (b'=' ∷ (b' ' ∷ (s ++ b'\n' ∷ []))))) p ≡ assign (field ∷ []) s p
unfolding read_key split strip_right
read_key-text field s p k h = ground (arith, strip-IsText s h)

strip_left-key : (field : ℕ) (s : Bytes) → IsKey field → strip_left (field ∷ s) ≡ field ∷ s
unfolding strip_left
strip_left-key field s k = ground arith

c_str-field :
    (field : ℕ) (s : Bytes)
    → 0 < field
    → IsTail s
    → c_str (field ∷ (b' ' ∷ (b'=' ∷ (b' ' ∷ (s ++ b'\n' ∷ [])))))
      ≡ field ∷ (b' ' ∷ (b'=' ∷ (b' ' ∷ (s ++ b'\n' ∷ []))))
c_str-field zero s k h = absurd (omega arith)
c_str-field (suc field) s k h =
    ap (λ t. suc field ∷ (b' ' ∷ (b'=' ∷ (b' ' ∷ t)))) (c_str-IsTail s h)

-- A written line is read as an assignment of its value to its key.
pub read_line-text :
    (field : ℕ) (s : Bytes) (p : Reader)
    → IsKey field
    → IsText s
    → read_line (field ∷ (b' ' ∷ (b'=' ∷ (b' ' ∷ (s ++ b'\n' ∷ []))))) p ≡ assign (field ∷ []) s p
unfolding read_line
read_line-text field s p k h =
    ap (λ t. read_key (strip_left t) p) (c_str-field field s (omega arith) (IsText-IsTail s h))
    ∙ ap (λ t. read_key t p) (strip_left-key field _ k)
    ∙ read_key-text field s p k h

IsTail-IsDigits : (s : Bytes) → IsDigits s → IsTail s
IsTail-IsDigits [] h = tt
IsTail-IsDigits (c ∷ []) h = omega arith
IsTail-IsDigits (c ∷ d ∷ s) h = (omega arith, omega arith, IsTail-IsDigits (d ∷ s) h.2)

pub IsText-IsDigits : (s : Bytes) → IsDigits s → IsText s
IsText-IsDigits [] h = tt
IsText-IsDigits (c ∷ s) h = (omega arith, IsTail-IsDigits (c ∷ s) h)
