-- ===== src/Records/Labels.antt =====
-- internal/contractv1/validation.go: the hostnames that `validateHostname` accepts.
use hooshi_xagent.Records.Hostname.{
  extend, split, starts_with, ends_with, is_label_byte, is_letter, check_label, check_labels, last,
  check_top, validate_hostname,
}
use hooshi_xagent.Control.{ControlError}
use hooshi_xagent.Contract.{all_bytes}
use hooshi_xagent.Base.{
  List, [], ◌∷◌, ◌++◌, ℕ, Bool, true, false, not, ◌||◌, ok, ltb, ◌==◌, ◌≡◌, ◌≤◌, length, All,
  if_cases, Bool-cases, inl, inr, ==_iff, >>_iff, reject_if_iff, refl, sym, ap, arith, ◌∙◌,
}
use mathlib.Core.List.{nil≢cons}

-- The labels with a point between each two.
abbrev pub dotted : List (List ℕ) → List ℕ
dotted [] = []
dotted (label ∷ []) = label
dotted (label ∷ next ∷ labels) = label ++ (b'.' ∷ dotted (next ∷ labels))

-- From 1 to 63 letters, digits and hyphens, no hyphen at either end.
abbrev pub IsLabel : List ℕ → Type 0
IsLabel label =
    (1 ≤ length label)
    × (length label ≤ 63)
    × (starts_with b'-' label ≡ false)
    × (ends_with b'-' label ≡ false)
    × (all_bytes is_label_byte label ≡ true)

-- Two labels or more, 253 bytes or fewer, and at the end a label of at least two letters.
abbrev pub IsHostname : List ℕ → Type 0
IsHostname value =
    (labels : List (List ℕ)) × (value ≡ dotted labels)
    × (2 ≤ length labels)
    × (length value ≤ 253)
    × All IsLabel labels
    × (2 ≤ length (last labels))
    × (all_bytes is_letter (last labels) ≡ true)

split-cons :
    (value : List ℕ) → (label : List ℕ) × (labels : List (List ℕ)) × (split value ≡ label ∷ labels)
unfolding split
split-cons [] = ([], [], refl)
split-cons (b ∷ bs) =
    let (label, labels, e) = split-cons bs in
    elim (Bool-cases (b == b'.')) [
      | inl f ↦ ([], split bs, rw f refl)
      | inr f ↦ (b ∷ label, labels, rw (f, e) refl)
    ]

dotted-nil :
    (labels : List (List ℕ)) (label : List ℕ) (rest : List (List ℕ))
    → labels ≡ label ∷ rest
    → dotted ([] ∷ labels) ≡ b'.' ∷ dotted labels
dotted-nil [] label rest e = absurd (nil≢cons e)
dotted-nil (next ∷ labels) label rest e = refl

dotted-extend : (b : ℕ) (labels : List (List ℕ)) → dotted (extend b labels) ≡ b ∷ dotted labels
dotted-extend b [] = refl
dotted-extend b (label ∷ []) = refl
dotted-extend b (label ∷ next ∷ labels) = refl

dotted-split : (value : List ℕ) → dotted (split value) ≡ value
unfolding split
dotted-split [] = refl
dotted-split (b ∷ bs) =
    let ih = dotted-split bs in
    let (label, labels, e) = split-cons bs in
    if_cases (λ x. dotted x ≡ b ∷ bs) (b == b'.')
      (λ f.
        dotted-nil (split bs) label labels e
        ∙ ap (λ x. x ∷ dotted (split bs)) (sym ((==_iff b b'.').0 f))
        ∙ ap (◌∷◌ b) ih)
      (λ f. dotted-extend b (split bs) ∙ ap (◌∷◌ b) ih)

label_bounds :
    (size : ℕ) (first last_one : Bool)
    → (size == 0 || (ltb 63 size || (first || last_one))) ≡ false
    → (1 ≤ size) × (size ≤ 63) × (first ≡ false) × (last_one ≡ false)
label_bounds size first last_one e = ground arith

holds : (b : Bool) → not b ≡ false → b ≡ true
holds true e = refl
holds false e = cc

check_label-IsLabel : (label : List ℕ) → check_label label ≡ ok tt → IsLabel label
unfolding check_label
check_label-IsLabel label e =
    let (a, b) = (>>_iff _ _).0 e in
    let (low, high, c, d) =
      label_bounds (length label) (starts_with b'-' label) (ends_with b'-' label)
        ((reject_if_iff _ ControlError.invalid_hostname).0 a) in
    (
      low,
      high,
      c,
      d,
      holds (all_bytes is_label_byte label) ((reject_if_iff _ ControlError.invalid_hostname).0 b),
    )

check_labels-IsLabel : (labels : List (List ℕ)) → check_labels labels ≡ ok tt → All IsLabel labels
unfolding check_labels
check_labels-IsLabel [] e = tt
check_labels-IsLabel (label ∷ labels) e =
    let (a, b) = (>>_iff (check_label label) (check_labels labels)).0 e in
    (check_label-IsLabel label a, check_labels-IsLabel labels b)

sizes : (size : ℕ) (rest : Bool) → (size == 0 || (ltb 253 size || rest)) ≡ false → size ≤ 253
sizes size rest e = ground arith

several : (count : ℕ) → ltb count 2 ≡ false → 2 ≤ count
several count e = ground arith

top_bounds : (size : ℕ) → (ltb size 2 || ltb 63 size) ≡ false → 2 ≤ size
top_bounds size e = ground arith

pub validate_hostname-IsHostname :
    (value : List ℕ) → validate_hostname value ≡ ok tt → IsHostname value
unfolding validate_hostname check_top
validate_hostname-IsHostname value e =
    let labels = split value in
    let (a, f) = (>>_iff _ _).0 e in
    let (b, g) = (>>_iff _ _).0 f in
    let (c, d) = (>>_iff (check_labels labels) (check_top (last labels))).0 g in
    let (p, q) = (>>_iff _ _).0 d in
    (
      labels,
      sym (dotted-split value),
      several (length labels) ((reject_if_iff _ ControlError.invalid_hostname).0 b),
      sizes (length value) (starts_with b'.' value || ends_with b'.' value)
          ((reject_if_iff _ ControlError.invalid_hostname).0 a),
      check_labels-IsLabel labels c,
      top_bounds (length (last labels)) ((reject_if_iff _ ControlError.invalid_hostname).0 p),
      holds (all_bytes is_letter (last labels))
          ((reject_if_iff _ ControlError.invalid_hostname).0 q),
    )
