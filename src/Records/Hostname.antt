-- ===== src/Records/Hostname.antt =====
-- internal/contractv1/validation.go: `validateHostname`. It walks over the runes of a label; those
-- above ASCII are refused, and so are their bytes here.
use hooshi_xagent.Control.{ControlError}
use hooshi_xagent.Contract.{is_alphanumeric, all_bytes}
use hooshi_xagent.Base.{
  List, [], ◌∷◌, ℕ, Bool, false, not, ◌||◌, ◌&&◌, Result, ok, reject_if, ◌>>◌, ltb, leb, ◌==◌,
  if◌then◌else◌, length,
}

-- Puts a byte at the start of the first label.
abbrev pub extend : ℕ → List (List ℕ) → List (List ℕ)
extend b [] = (b ∷ []) ∷ []
extend b (label ∷ labels) = (b ∷ label) ∷ labels

-- `strings.Split(value, ".")`
unfoldable pub split : List ℕ → List (List ℕ)
split [] = [] ∷ []
split (b ∷ bs) = let rest = split bs in if b == b'.' then [] ∷ rest else extend b rest

unfoldable pub starts_with : ℕ → List ℕ → Bool
starts_with b [] = false
starts_with b (c ∷ cs) = c == b

unfoldable pub ends_with : ℕ → List ℕ → Bool
ends_with b [] = false
ends_with b (c ∷ []) = c == b
ends_with b (c ∷ d ∷ ds) = ends_with b (d ∷ ds)

unfoldable pub is_letter : ℕ → Bool
is_letter b = (leb b'A' b && leb b b'Z') || (leb b'a' b && leb b b'z')

unfoldable pub is_label_byte : ℕ → Bool
is_label_byte b = is_alphanumeric b || b == b'-'

-- One round of the loop over the labels.
unfoldable pub check_label : List ℕ → Result ControlError (Unit {0})
unfolding starts_with ends_with is_label_byte
check_label label =
    reject_if
      (length label == 0
        || (ltb 63 (length label) || (starts_with b'-' label || ends_with b'-' label)))
      ControlError.invalid_hostname
    >> reject_if (not (all_bytes is_label_byte label)) ControlError.invalid_hostname

unfoldable pub check_labels : List (List ℕ) → Result ControlError (Unit {0})
unfolding check_label
check_labels [] = ok tt
check_labels (label ∷ labels) = check_label label >> check_labels labels

unfoldable pub last : List (List ℕ) → List ℕ
last [] = []
last (label ∷ []) = label
last (label ∷ next ∷ labels) = last (next ∷ labels)

unfoldable pub check_top : List ℕ → Result ControlError (Unit {0})
unfolding is_letter
check_top top =
    reject_if (ltb (length top) 2 || ltb 63 (length top)) ControlError.invalid_hostname
    >> reject_if (not (all_bytes is_letter top)) ControlError.invalid_hostname

unfoldable pub validate_hostname : List ℕ → Result ControlError (Unit {0})
unfolding split check_labels check_top last starts_with ends_with
validate_hostname value =
    reject_if
      (length value == 0
        || (ltb 253 (length value) || (starts_with b'.' value || ends_with b'.' value)))
      ControlError.invalid_hostname
    >> (reject_if (ltb (length (split value)) 2) ControlError.invalid_hostname
        >> (check_labels (split value) >> check_top (last (split value))))
