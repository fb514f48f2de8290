-- ===== src/Frame/Bytes.antt =====
-- encoding/binary's big-endian integers, as internal/contractv1/frame.go uses them.
use hooshi_xagent.Base.{
  ℕ, zero, suc, ◌+◌, ◌*◌, ◌/◌, ◌%◌, ◌^◌, ◌<◌, ◌≡◌, refl, ◌∙◌, List, [], ◌∷◌, ◌++◌, arith, length,
  All,
}
use mathlib.Core.List.{append-nil}
use native.Mathlib.Nat.{pow-zero, pow-suc, add-zero, zero-add, add-suc, suc-add}

-- The low `width` bytes of `value`, most significant first, in front of `rest`.
put_bytes : ℕ → ℕ → List ℕ → List ℕ
put_bytes zero value rest = rest
put_bytes (suc width) value rest = put_bytes width (value / 256) (value % 256 ∷ rest)

unfoldable pub put_be : ℕ → ℕ → List ℕ
unfolding put_bytes
put_be width value = put_bytes width value []

get_bytes : ℕ → List ℕ → ℕ
get_bytes high [] = high
get_bytes high (b ∷ bs) = get_bytes (high * 256 + b) bs

unfoldable pub get_be : List ℕ → ℕ
unfolding get_bytes
get_be bytes = get_bytes 0 bytes

abbrev pub IsBytes : List ℕ → Type 0
IsBytes bytes = All (λ b. b < 256) bytes

shift_digit :
    (high low value : ℕ)
    → (high * low + value / 256) * 256 + value % 256 ≡ high * (low * 256) + value
shift_digit high low value = omega arith

digit_high : (high b : ℕ) → b < 256 → (high * 256 + b) / 256 ≡ high
digit_high high b h = omega arith

digit_low : (high b : ℕ) → b < 256 → (high * 256 + b) % 256 ≡ b
digit_low high b h = omega arith

get_bytes-put_bytes :
    (width high value : ℕ) (rest : List ℕ)
    → value < 256 ^ width
    → get_bytes high (put_bytes width value rest) ≡ get_bytes (high * 256 ^ width + value) rest
unfolding get_bytes put_bytes
get_bytes-put_bytes zero high value rest h =
    let e : value ≡ 0 = omega (arith, pow-zero 256) in
    let f : high * 256 ^ zero + value ≡ high = omega (arith, pow-zero 256) in rw f refl
get_bytes-put_bytes (suc width) high value rest h =
    rw
      (
        get_bytes-put_bytes width high (value / 256) (value % 256 ∷ rest)
            (omega (arith, pow-suc 256 width)),
        pow-suc 256 width,
      )
      (rw (shift_digit high (256 ^ width) value))

put_bytes-get_bytes :
    (bytes : List ℕ) (width high : ℕ) (rest : List ℕ)
    → IsBytes bytes
    → put_bytes (width + length bytes) (get_bytes high bytes) rest
      ≡ put_bytes width high (bytes ++ rest)
unfolding get_bytes put_bytes
put_bytes-get_bytes [] width high rest h = rw (add-zero width)
put_bytes-get_bytes (b ∷ bs) width high rest h =
    rw
      (
        add-suc width (length bs),
        ← suc-add width (length bs),
        put_bytes-get_bytes bs (suc width) (high * 256 + b) rest h.1,
      )
      (rw (digit_high high b h.0, digit_low high b h.0))

-- Reading back what was written, at any width that holds it.
pub get_be-put_be : (width value : ℕ) → value < 256 ^ width → get_be (put_be width value) ≡ value
unfolding get_be put_be get_bytes
get_be-put_be width value h =
    let e : 0 * 256 ^ width + value ≡ value = omega arith in
    get_bytes-put_bytes width 0 value [] h ∙ e

-- Writing back what was read.
pub put_be-get_be : (bytes : List ℕ) → IsBytes bytes → put_be (length bytes) (get_be bytes) ≡ bytes
unfolding get_be put_be put_bytes
put_be-get_be bytes h =
    rw (← zero-add (length bytes), put_bytes-get_bytes bytes 0 0 [] h) (append-nil bytes)

length-put_bytes :
    (width value : ℕ) (rest : List ℕ) → length (put_bytes width value rest) ≡ width + length rest
unfolding put_bytes
length-put_bytes zero value rest = omega arith
length-put_bytes (suc width) value rest =
    omega (arith, length-put_bytes width (value / 256) (value % 256 ∷ rest))

pub length-put_be : (width value : ℕ) → length (put_be width value) ≡ width
unfolding put_be
length-put_be width value = omega (arith, length-put_bytes width value [])

pub get_be-single : (b : ℕ) → get_be (b ∷ []) ≡ b
unfolding get_be get_bytes
get_be-single b = omega arith
