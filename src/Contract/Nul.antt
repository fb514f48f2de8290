-- ===== src/Contract/Nul.antt =====
-- internal/contractv1/validation.go: what passes the patterns has no NUL byte, and strings without
-- one are told apart in what `strings.Join` makes of them.
use hooshi_xagent.Contract.{
  is_id_byte, is_alphanumeric, is_digit, all_bytes, matches_id, two_digits, matches_fraction,
  matches_zone, matches_clock, matches_timestamp,
}
use hooshi_xagent.Base.{
  List, [], ◌∷◌, ◌++◌, ℕ, Bool, true, false, ◌≡◌, ◌≤◌, length, arith, refl, All, ap, drop, if_cases,
  suc, sym, ◌&&◌, ◌+◌, ◌==◌,
}
use mathlib.Core.Bool.{true≢false}

abbrev pub IsNulFree : List ℕ → Type 0
IsNulFree bytes = All (λ b. 1 ≤ b) bytes

-- `strings.Join(components, "\x00")`
unfoldable pub join : List ℕ → List (List ℕ) → List ℕ
join first [] = first
join first (second ∷ rest) = first ++ (0 ∷ join second rest)

id_byte-positive : (b : ℕ) → is_id_byte b ≡ true → 1 ≤ b
unfolding is_id_byte is_alphanumeric is_digit
id_byte-positive b h = ground arith

alphanumeric-positive : (b : ℕ) → is_alphanumeric b ≡ true → 1 ≤ b
unfolding is_alphanumeric is_digit
alphanumeric-positive b h = ground arith

and_true : (a b : Bool) → (a && b) ≡ true → (a ≡ true) × (b ≡ true)
and_true true b h = (refl, h)
and_true false b h = absurd (true≢false (sym h))

all_bytes-IsNulFree : (bs : List ℕ) → all_bytes is_id_byte bs ≡ true → IsNulFree bs
unfolding all_bytes
all_bytes-IsNulFree [] h = tt
all_bytes-IsNulFree (b ∷ bs) h =
    let (a, c) = and_true (is_id_byte b) _ h in (id_byte-positive b a, all_bytes-IsNulFree bs c)

pub matches_id-IsNulFree : (bs : List ℕ) → matches_id bs ≡ true → IsNulFree bs
unfolding matches_id
matches_id-IsNulFree [] h = tt
matches_id-IsNulFree (b ∷ bs) h =
    let (a, r) = and_true (is_alphanumeric b) _ h in
    let (c, d) = and_true (all_bytes is_id_byte bs) _ r in
    (alphanumeric-positive b a, all_bytes-IsNulFree bs c)

nothing-IsNulFree : (bs : List ℕ) → length bs ≡ 0 → IsNulFree bs
nothing-IsNulFree [] h = tt
nothing-IsNulFree (b ∷ bs) h = absurd (omega arith)

digit-positive : (b : ℕ) → is_digit b ≡ true → 1 ≤ b
unfolding is_digit
digit-positive b h = ground arith

digits-positive : (low high a b : ℕ) → two_digits low high a b ≡ true → (1 ≤ a) × (1 ≤ b)
unfolding two_digits
digits-positive low high a b h =
    let (i, r) = and_true (is_digit a) _ h in
    let (j, _) = and_true (is_digit b) _ r in (digit-positive a i, digit-positive b j)

matches_fraction-IsNulFree : (n : ℕ) (bs : List ℕ) → matches_fraction n bs ≡ true → IsNulFree bs
unfolding matches_fraction
matches_fraction-IsNulFree n [] = λ h. tt
matches_fraction-IsNulFree n (b ∷ bs) =
    if_cases (λ r. r ≡ true → IsNulFree (b ∷ bs)) (b == b'Z')
      (λ e h. (ground arith, nothing-IsNulFree bs (ground arith)))
      (λ e h.
        let (i, r) = and_true (is_digit b) _ h in
        (digit-positive b i, matches_fraction-IsNulFree (n + 1) bs r))

matches_zone-IsNulFree : (bs : List ℕ) → matches_zone bs ≡ true → IsNulFree bs
unfolding matches_zone
matches_zone-IsNulFree [] = λ h. tt
matches_zone-IsNulFree (b ∷ bs) =
    if_cases (λ r. r ≡ true → IsNulFree (b ∷ bs)) (b == b'Z')
      (λ e h. (ground arith, nothing-IsNulFree bs (ground arith)))
      (λ e h.
        let (i, r) = and_true (b == b'.') _ h in (ground arith, matches_fraction-IsNulFree 0 bs r))

exact-positive : (b c : ℕ) → (b == suc c) ≡ true → 1 ≤ b
exact-positive b c h = ground arith

matches_clock-IsNulFree : (bs : List ℕ) → matches_clock bs ≡ true → IsNulFree bs
unfolding matches_clock
matches_clock-IsNulFree (t ∷ h ∷ h' ∷ c ∷ m ∷ m' ∷ c' ∷ s ∷ s' ∷ rest) e =
    let (a, f) = and_true (t == b'T' && (c == b':' && c' == b':')) _ e in
    let (g, i) = and_true (two_digits 0 23 h h') _ f in
    let (j, k) = and_true (two_digits 0 59 m m') _ i in
    let (l, n) = and_true (two_digits 0 59 s s') _ k in
    let (a0, a1) = and_true (t == b'T') _ a in
    let (a2, a3) = and_true (c == b':') _ a1 in
    let (h0, h1) = digits-positive 0 23 h h' g in
    let (m0, m1) = digits-positive 0 59 m m' j in
    let (s0, s1) = digits-positive 0 59 s s' l in
    (
      exact-positive t _ a0,
      (
        h0,
        (
          h1,
          (
            exact-positive c _ a2,
            (m0, (m1, (exact-positive c' _ a3, (s0, (s1, matches_zone-IsNulFree rest n))))),
          ),
        ),
      ),
    )
matches_clock-IsNulFree _ e = absurd (true≢false (sym e))

pub matches_timestamp-IsNulFree : (bs : List ℕ) → matches_timestamp bs ≡ true → IsNulFree bs
unfolding matches_timestamp
matches_timestamp-IsNulFree (y ∷ y' ∷ z ∷ z' ∷ c ∷ m ∷ m' ∷ c' ∷ d ∷ d' ∷ rest) e =
    let (a, f) = and_true (is_digit y && (is_digit y' && (is_digit z && is_digit z'))) _ e in
    let (g, i) = and_true (c == b'-' && c' == b'-') _ f in
    let (j, k) = and_true (two_digits 1 12 m m') _ i in
    let (l, n) = and_true (two_digits 1 31 d d') _ k in
    let (y0, r) = and_true (is_digit y) _ a in
    let (y1, q) = and_true (is_digit y') _ r in
    let (z0, z1) = and_true (is_digit z) _ q in
    let (c0, c1) = and_true (c == b'-') _ g in
    let (m0, m1) = digits-positive 1 12 m m' j in
    let (d0, d1) = digits-positive 1 31 d d' l in
    (
      digit-positive y y0,
      (
        digit-positive y' y1,
        (
          digit-positive z z0,
          (
            digit-positive z' z1,
            (
              exact-positive c _ c0,
              (m0, (m1, (exact-positive c' _ c1, (d0, (d1, matches_clock-IsNulFree rest n))))),
            ),
          ),
        ),
      ),
    )
matches_timestamp-IsNulFree _ e = absurd (true≢false (sym e))

cons_injective : (a b : ℕ) (x y : List ℕ) → a ∷ x ≡ b ∷ y → (a ≡ b) × (x ≡ y)
cons_injective a b x y h = (ap (λ l. head_or l) h, ap (λ l. drop 1 l) h)
  where
    head_or : List ℕ → ℕ
    head_or [] = 0
    head_or (z ∷ zs) = z

nil_cons : (a : ℕ) (x : List ℕ) → ¬ ([] ≡ a ∷ x)
nil_cons a x h = absurd (omega (arith, ap (λ (l : List ℕ). length l) h))

-- What stands before the first NUL, and what stands after it.
split_injective :
    (x y r s : List ℕ) → IsNulFree x → IsNulFree y → x ++ (0 ∷ r) ≡ y ++ (0 ∷ s) → (x ≡ y) × (r ≡ s)
split_injective [] [] r s f g h = (refl, (cons_injective 0 0 r s h).1)
split_injective [] (b ∷ y) r s f g h =
    let (e, _) = cons_injective 0 b r (y ++ (0 ∷ s)) h in absurd (omega (arith, g.0))
split_injective (a ∷ x) [] r s f g h =
    let (e, _) = cons_injective a 0 (x ++ (0 ∷ r)) s h in absurd (omega (arith, f.0))
split_injective (a ∷ x) (b ∷ y) r s f g h =
    let (e, t) = cons_injective a b (x ++ (0 ∷ r)) (y ++ (0 ∷ s)) h in
    let (i, j) = split_injective x y r s f.1 g.1 t in (ap2 e i, j)
  where
    ap2 : a ≡ b → x ≡ y → a ∷ x ≡ b ∷ y
    ap2 e i = rw (e, i) refl

abbrev pub SameAll : List ℕ → List (List ℕ) → List ℕ → List (List ℕ) → Type 0
SameAll x [] y [] = x ≡ y
SameAll x (x' ∷ xs) y (y' ∷ ys) = (x ≡ y) × SameAll x' xs y' ys
SameAll x _ y _ = Unit

-- Strings without a NUL, as many on each side, are equal when what joins them is.
pub join_injective :
    (x y : List ℕ) (xs ys : List (List ℕ))
    → IsNulFree x
    → IsNulFree y
    → All IsNulFree xs
    → All IsNulFree ys
    → join x xs ≡ join y ys
    → SameAll x xs y ys
unfolding join
join_injective x y [] [] f g fs gs h = h
join_injective x y (x' ∷ xs) (y' ∷ ys) f g fs gs h =
    let (a, b) = split_injective x y (join x' xs) (join y' ys) f g h in
    (a, join_injective x' y' xs ys fs.0 gs.0 fs.1 gs.1 b)
join_injective x y [] (y' ∷ ys) f g fs gs h = tt
join_injective x y (x' ∷ xs) [] f g fs gs h = tt

-- The first of two or more strings is what stands before the first NUL.
pub first_injective :
    (x x' y y' : List ℕ) (xs ys : List (List ℕ))
    → IsNulFree x
    → IsNulFree y
    → join x (x' ∷ xs) ≡ join y (y' ∷ ys)
    → x ≡ y
unfolding join
first_injective x x' y y' xs ys f g h = (split_injective x y (join x' xs) (join y' ys) f g h).0
