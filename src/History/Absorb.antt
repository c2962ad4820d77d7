-- ===== src/History/Absorb.antt =====
-- The loop of `Backfill` over the samples of an agent (backend/history.go).
use beacle.Prelude.{
  ℕ, ◌+◌, ◌≤◌, ◌==◌, Time, Bool, true, false, not, ◌&&◌, List, [], ◌∷◌, ◌++◌, map, length,
  length-append, All, All-append, if◌then◌else◌, arith, ◌≡◌, refl, ◌∙◌, Bool-cases, inl, inr,
  ==_iff,
}
use beacle.History.{Sample, minute_of, has_minute, is_usable, absorb}
use beacle.History.Series.{holds, OnePerMinute}

-- The minutes that are taken are those of the series.
abbrev pub Agree : List ℕ → List Sample → Type 0
Agree occupied ss = (k : ℕ) → has_minute k occupied ≡ holds k ss

pub minutes-Agree : (ss : List Sample) → Agree (map minute_of ss) ss
minutes-Agree [] k = refl
minutes-Agree (s ∷ ss) k = ground (arith, minutes-Agree ss k)

-- A usable sample of this minute is among these.
abbrev pub offers : Time → ℕ → List Sample → Bool
offers now k [] = false
offers now k (s ∷ ss) = if is_usable now s && minute_of s == k then true else offers now k ss

holds-append :
    (k : ℕ) (s : Sample) (ss : List Sample)
    → holds k (ss ++ (s ∷ [])) ≡ (if holds k ss then true else minute_of s == k)
holds-append k s [] = ground arith
holds-append k s (t ∷ ss) = ground (arith, holds-append k s ss)

append-OnePerMinute :
    (s : Sample) (ss : List Sample)
    → holds (minute_of s) ss ≡ false
    → OnePerMinute ss
    → OnePerMinute (ss ++ (s ∷ []))
append-OnePerMinute s [] h o = (refl, tt)
append-OnePerMinute s (t ∷ ss) h o = (
  ground (arith, o.0, holds-append (minute_of t) s ss),
  append-OnePerMinute s ss (ground arith) o.1,
)

append-Agree :
    (s : Sample) (occupied : List ℕ) (ss : List Sample)
    → Agree occupied ss
    → Agree (minute_of s ∷ occupied) (ss ++ (s ∷ []))
append-Agree s occupied ss a k = ground (arith, a k, holds-append k s ss)

-- A sample is taken if it is usable and its minute is free.
abbrev fresh : Time → Sample → List ℕ → Bool
fresh now s occupied = is_usable now s && not (has_minute (minute_of s) occupied)

free :
    (now : Time) (s : Sample) (occupied : List ℕ) (ex : List Sample)
    → Agree occupied ex
    → fresh now s occupied ≡ true
    → holds (minute_of s) ex ≡ false
free now s occupied ex a f = ground (arith, a (minute_of s), f)

absorb-take :
    (now : Time) (s : Sample) (ss : List Sample) (occupied : List ℕ) (ex : List Sample) (n : ℕ)
    → fresh now s occupied ≡ true
    → absorb now (s ∷ ss) occupied ex n
      ≡ absorb now ss (minute_of s ∷ occupied) (ex ++ (s ∷ [])) (n + 1)
unfolding absorb
absorb-take now s ss occupied ex n f = rw f refl

absorb-skip :
    (now : Time) (s : Sample) (ss : List Sample) (occupied : List ℕ) (ex : List Sample) (n : ℕ)
    → fresh now s occupied ≡ false
    → absorb now (s ∷ ss) occupied ex n ≡ absorb now ss occupied ex n
unfolding absorb
absorb-skip now s ss occupied ex n f = rw f refl

pub absorb-OnePerMinute :
    (now : Time) (ss : List Sample) (occupied : List ℕ) (ex : List Sample) (n : ℕ)
    → Agree occupied ex
    → OnePerMinute ex
    → OnePerMinute (absorb now ss occupied ex n).0
absorb-OnePerMinute now [] occupied ex n a o = unfold absorb in (o)
absorb-OnePerMinute now (s ∷ ss) occupied ex n a o = elim (Bool-cases (fresh now s occupied)) [
  | inl f ↦ rw (absorb-take now s ss occupied ex n f) (
      absorb-OnePerMinute now ss _ _ _ (append-Agree s occupied ex a)
        (append-OnePerMinute s ex (free now s occupied ex a f) o))
  | inr f ↦ rw (absorb-skip now s ss occupied ex n f) (absorb-OnePerMinute now ss occupied ex n a o)
]

-- A minute is held afterwards if it was held before or a usable sample of it came.
pub holds-absorb :
    (now : Time) (k : ℕ) (ss : List Sample) (occupied : List ℕ) (ex : List Sample) (n : ℕ)
    → Agree occupied ex
    → holds k (absorb now ss occupied ex n).0 ≡ (if holds k ex then true else offers now k ss)
holds-absorb now k [] occupied ex n a = unfold absorb in (ground arith)
holds-absorb now k (s ∷ ss) occupied ex n a = elim (Bool-cases (fresh now s occupied)) [
  | inl f ↦ rw (absorb-take now s ss occupied ex n f) (
      holds-absorb now k ss _ _ (n + 1) (append-Agree s occupied ex a)
      ∙ rw (holds-append k s ex) (ground (arith, f)))
  | inr f ↦ rw (absorb-skip now s ss occupied ex n f) (
      holds-absorb now k ss occupied ex n a
      ∙ ground (arith, f, a (minute_of s), ==_iff (minute_of s) k))
]

-- Samples that are not usable, or whose minutes are taken, change nothing.
pub absorb-none :
    (now : Time) (ss : List Sample) (occupied : List ℕ) (ex : List Sample) (n : ℕ)
    → All (λ s. fresh now s occupied ≡ false) ss
    → absorb now ss occupied ex n ≡ (ex, n)
unfolding absorb
absorb-none now [] occupied ex n h = refl
absorb-none now (s ∷ ss) occupied ex n h =
    absorb-skip now s ss occupied ex n h.0 ∙ absorb-none now ss occupied ex n h.1

-- What holds of the series and of every usable sample holds of the result.
pub All-absorb :
    (P : Sample → Type 0) (now : Time) (ss : List Sample) (occupied : List ℕ) (ex : List Sample)
    (n : ℕ)
    → ((s : Sample) → is_usable now s ≡ true → P s)
    → All P ex
    → All P (absorb now ss occupied ex n).0
All-absorb P now [] occupied ex n u h = unfold absorb in (h)
All-absorb P now (s ∷ ss) occupied ex n u h = elim (Bool-cases (fresh now s occupied)) [
  | inl f ↦
      rw (absorb-take now s ss occupied ex n f)
        (All-absorb P now ss _ _ _ u (All-append P ex (s ∷ []) h (u s (ground arith), tt)))
  | inr f ↦ rw (absorb-skip now s ss occupied ex n f) (All-absorb P now ss occupied ex n u h)
]

-- The series grows by as many samples as are counted.
pub length-absorb :
    (now : Time) (ss : List Sample) (occupied : List ℕ) (ex : List Sample) (n : ℕ)
    → length (absorb now ss occupied ex n).0 + n ≡ length ex + (absorb now ss occupied ex n).1
length-absorb now [] occupied ex n = unfold absorb in (refl)
length-absorb now (s ∷ ss) occupied ex n = elim (Bool-cases (fresh now s occupied)) [
  | inl f ↦ rw (absorb-take now s ss occupied ex n f) (
      omega (
        arith,
        length-absorb now ss (minute_of s ∷ occupied) (ex ++ (s ∷ [])) (n + 1),
        length-append ex (s ∷ []),
      ))
  | inr f ↦ rw (absorb-skip now s ss occupied ex n f) (length-absorb now ss occupied ex n)
]

pub added-absorb-le :
    (now : Time) (ss : List Sample) (occupied : List ℕ) (ex : List Sample) (n : ℕ)
    → (absorb now ss occupied ex n).1 ≤ length ss + n
added-absorb-le now [] occupied ex n = unfold absorb in (omega arith)
added-absorb-le now (s ∷ ss) occupied ex n = elim (Bool-cases (fresh now s occupied)) [
  | inl f ↦
      rw (absorb-take now s ss occupied ex n f)
        (omega (arith, added-absorb-le now ss (minute_of s ∷ occupied) (ex ++ (s ∷ [])) (n + 1)))
  | inr f ↦
      rw (absorb-skip now s ss occupied ex n f)
        (omega (arith, added-absorb-le now ss occupied ex n))
]

added-absorb-ge :
    (now : Time) (ss : List Sample) (occupied : List ℕ) (ex : List Sample) (n : ℕ)
    → n ≤ (absorb now ss occupied ex n).1
added-absorb-ge now [] occupied ex n = unfold absorb in (omega arith)
added-absorb-ge now (s ∷ ss) occupied ex n = elim (Bool-cases (fresh now s occupied)) [
  | inl f ↦
      rw (absorb-take now s ss occupied ex n f)
        (omega (arith, added-absorb-ge now ss (minute_of s ∷ occupied) (ex ++ (s ∷ [])) (n + 1)))
  | inr f ↦ rw (absorb-skip now s ss occupied ex n f) (added-absorb-ge now ss occupied ex n)
]

-- If nothing is counted, the series is as it was.
pub absorb-unchanged :
    (now : Time) (ss : List Sample) (occupied : List ℕ) (ex : List Sample) (n : ℕ)
    → (absorb now ss occupied ex n).1 ≡ n
    → (absorb now ss occupied ex n).0 ≡ ex
absorb-unchanged now [] occupied ex n h = unfold absorb in refl
absorb-unchanged now (s ∷ ss) occupied ex n h = elim (Bool-cases (fresh now s occupied)) [
  | inl f ↦
      let same = rw (absorb-take now s ss occupied ex n f) at h in
      absurd (
        omega
          (arith, same, added-absorb-ge now ss (minute_of s ∷ occupied) (ex ++ (s ∷ [])) (n + 1)))
  | inr f ↦
      rw (absorb-skip now s ss occupied ex n f)
        (absorb-unchanged now ss occupied ex n (rw (absorb-skip now s ss occupied ex n f) at h))
]
