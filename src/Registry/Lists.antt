-- ===== src/Registry/Lists.antt =====
-- Lists of session pointers: what a filter keeps, and what a search finds.
use mathlib.Core.Option.{some-injective}
use hooshi_xagent.Base.{
  List, [], ◌∷◌, ℕ, Bool, true, false, Option, some, none, ◌≡◌, ◌≤◌, ◌<◌, ◌⊎◌, inl, inr, length,
  arith, refl, Bool-cases, ap, if_cases, if◌then◌else◌, sym,
}

unfoldable pub keep : (ℕ → Bool) → List ℕ → List ℕ
keep p [] = []
keep p (x ∷ xs) = if p x then x ∷ keep p xs else keep p xs

-- The lookup of a map: the first entry with the key.
unfoldable pub find : (ℕ → Bool) → List ℕ → Option ℕ
find p [] = none
find p (x ∷ xs) = if p x then some x else find p xs

unfoldable pub IsAmong : ℕ → List ℕ → Type 0
IsAmong x [] = ⊥
IsAmong x (y ∷ ys) = (x ≡ y) ⊎ IsAmong x ys

pub IsAmong-keep :
    (p : ℕ → Bool) (x : ℕ) (xs : List ℕ) → IsAmong x xs → p x ≡ true → IsAmong x (keep p xs)
unfolding keep IsAmong
IsAmong-keep p x [] m h = m
IsAmong-keep p x (y ∷ ys) (inl e) h = rw (sym e, h) (inl refl)
IsAmong-keep p x (y ∷ ys) (inr m) h =
    if_cases (IsAmong x) (p y) (λ _. inr (IsAmong-keep p x ys m h)) (λ _. IsAmong-keep p x ys m h)

pub keep-IsAmong :
    (p : ℕ → Bool) (x : ℕ) (xs : List ℕ) → IsAmong x (keep p xs) → IsAmong x xs × (p x ≡ true)
unfolding keep IsAmong
keep-IsAmong p x [] = λ m. absurd m
keep-IsAmong p x (y ∷ ys) =
    if_cases (λ zs. IsAmong x zs → IsAmong x (y ∷ ys) × (p x ≡ true)) (p y)
      (λ e m. elim m [
        | inl i ↦ (inl i, rw i e)
        | inr n ↦ let (a, b) = keep-IsAmong p x ys n in (inr a, b)
      ])
      (λ _ m. let (a, b) = keep-IsAmong p x ys m in (inr a, b))

keep_yes : (p : ℕ → Bool) (x : ℕ) (xs : List ℕ) → p x ≡ true → keep p (x ∷ xs) ≡ x ∷ keep p xs
unfolding keep
keep_yes p x xs h = rw h refl

keep_no : (p : ℕ → Bool) (x : ℕ) (xs : List ℕ) → p x ≡ false → keep p (x ∷ xs) ≡ keep p xs
unfolding keep
keep_no p x xs h = rw h refl

pub length-keep : (p : ℕ → Bool) (xs : List ℕ) → length (keep p xs) ≤ length xs
unfolding keep
length-keep p [] = omega arith
length-keep p (x ∷ xs) = let h = length-keep p xs in ground arith

-- A filter that drops an entry makes the list shorter.
pub keep_shrinks :
    (p : ℕ → Bool) (x : ℕ) (xs : List ℕ)
    → IsAmong x xs
    → p x ≡ false
    → length (keep p xs) < length xs
unfolding keep IsAmong
keep_shrinks p x [] m h = absurd m
keep_shrinks p x (y ∷ ys) (inl e) h = rw (sym e, h) (omega (arith, length-keep p ys))
keep_shrinks p x (y ∷ ys) (inr m) h = let i = keep_shrinks p x ys m h in ground arith

keep_nil : (p q : ℕ → Bool) → keep p (keep q []) ≡ keep q (keep p [])
unfolding keep
keep_nil p q = refl

pub keep_comm : (p q : ℕ → Bool) (xs : List ℕ) → keep p (keep q xs) ≡ keep q (keep p xs)
keep_comm p q [] = keep_nil p q
keep_comm p q (x ∷ xs) = elim (Bool-cases (p x)) [
  | inl a ↦ elim (Bool-cases (q x)) [
    | inl b ↦
        rw
          (
            keep_yes q x xs b,
            keep_yes p x xs a,
            keep_yes p x (keep q xs) a,
            keep_yes q x (keep p xs) b,
          )
          (ap (λ zs. x ∷ zs) (keep_comm p q xs))
    | inr b ↦ rw (keep_no q x xs b, keep_yes p x xs a, keep_no q x (keep p xs) b) (keep_comm p q xs)
  ]
  | inr a ↦ elim (Bool-cases (q x)) [
    | inl b ↦ rw (keep_yes q x xs b, keep_no p x xs a, keep_no p x (keep q xs) a) (keep_comm p q xs)
    | inr b ↦ rw (keep_no q x xs b, keep_no p x xs a) (keep_comm p q xs)
  ]
]

none-some : {x : ℕ} → ¬ (none ≡ some x)
none-some h = absurd (ground (arith, h))

pub find-some :
    (p : ℕ → Bool) (x : ℕ) (xs : List ℕ) → find p xs ≡ some x → IsAmong x xs × (p x ≡ true)
unfolding find IsAmong
find-some p x [] = λ h. absurd (none-some h)
find-some p x (y ∷ ys) =
    if_cases (λ r. r ≡ some x → IsAmong x (y ∷ ys) × (p x ≡ true)) (p y)
      (λ e h. let i = some-injective y x h in (inl (sym i), rw (sym i) e))
      (λ _ h. let (a, b) = find-some p x ys h in (inr a, b))

pub find-none : (p : ℕ → Bool) (x : ℕ) (xs : List ℕ) → find p xs ≡ none → IsAmong x xs → p x ≡ false
unfolding find IsAmong
find-none p x [] = λ h m. absurd m
find-none p x (y ∷ ys) =
    if_cases (λ r. r ≡ none → IsAmong x (y ∷ ys) → p x ≡ false) (p y)
      (λ _ h m. absurd (none-some (sym h)))
      (λ e h m. elim m [ inl i ↦ rw i e | inr n ↦ find-none p x ys h n ])
