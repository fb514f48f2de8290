-- ===== src/Base/Results.antt =====
-- Fallible code: a value or the fault that stopped it, with early returns as guards.
use mathlib.Core.Path.{◌≡◌, refl}
use mathlib.Core.Logic.{◌↔◌}
use mathlib.Core.Bool.{Bool, true, false}

pub data Result {ℓ κ} (Fault : Type ℓ) (X : Type κ) : Type (ℓ ⊔ κ) where
  err : Fault → Result Fault X
  ok : X → Result Fault X

module _ {ℓ κ μ} {Fault : Type ℓ} {X : Type κ} {Y : Type μ} where
  infixl 5 ◌>>=◌
  abbrev pub ◌>>=◌ : Result Fault X → (X → Result Fault Y) → Result Fault Y
  err fault >>= next = err fault
  ok x >>= next = next x

  -- Both parts of what succeeds have succeeded.
  pub >>=-eq-ok :
      (first : Result Fault X) (next : X → Result Fault Y) {y : Y}
      → (first >>= next) ≡ ok y
      → (x : X) × (first ≡ ok x) × (next x ≡ ok y)
  >>=-eq-ok (err fault) next h = cc
  >>=-eq-ok (ok x) next h = (x, refl, h)

-- `if bad { return fault }`
abbrev pub reject_if {ℓ} : {Fault : Type ℓ} → Bool → Fault → Result Fault (Unit {0})
reject_if bad fault = elim bad [ true ↦ err fault | false ↦ ok tt ]

module _ {ℓ μ} {Fault : Type ℓ} {Y : Type μ} where
  infixl 5 ◌>>◌
  abbrev pub ◌>>◌ : Result Fault (Unit {0}) → Result Fault Y → Result Fault Y
  first >> rest = first >>= (λ _. rest)

  -- A guard that lets the code go on.
  pub reject_if-eq-ok :
      (bad : Bool) (fault : Fault) (rest : Result Fault Y) {y : Y}
      → (reject_if bad fault >> rest) ≡ ok y
      → (bad ≡ false) × (rest ≡ ok y)
  reject_if-eq-ok true fault rest h = cc
  reject_if-eq-ok false fault rest h = (refl, h)

-- A check and the rest pass together.
pub >>_iff {ℓ} :
    {Fault : Type ℓ} (check rest : Result Fault (Unit {0}))
    → ((check >> rest) ≡ ok tt) ↔ ((check ≡ ok tt) × (rest ≡ ok tt))
>>_iff (err fault) rest = (λ e. cc, λ (e, f). cc)
>>_iff (ok _) rest = (λ e. (refl, e), λ (e, f). f)

pub reject_if_iff {ℓ} :
    {Fault : Type ℓ} (bad : Bool) (fault : Fault) → (reject_if bad fault ≡ ok tt) ↔ (bad ≡ false)
reject_if_iff true fault = (λ e. cc, λ e. cc)
reject_if_iff false fault = (λ e. refl, λ e. refl)

-- The same result, its fault under another name.
abbrev pub with_fault {ℓ κ μ} :
    {Fault : Type ℓ} {Other : Type κ} {X : Type μ}
    → (Fault → Other)
    → Result Fault X
    → Result Other X
with_fault name (err fault) = err (name fault)
with_fault name (ok x) = ok x

-- A value and what is done with it pass together.
pub >>=_iff {ℓ κ μ} :
    {Fault : Type ℓ} {X : Type κ} {Y : Type μ} (first : Result Fault X) (next : X → Result Fault Y)
    (y : Y)
    → ((first >>= next) ≡ ok y) ↔ ((x : X) × (first ≡ ok x) × (next x ≡ ok y))
>>=_iff (err fault) next y = (λ e. cc, λ (x, e, f). cc)
>>=_iff (ok a) next y = (λ e. (a, refl, e), λ (x, e, f). let same : x ≡ a = cc in rw same at f)

pub with_fault_iff {ℓ κ μ} :
    {Fault : Type ℓ} {Other : Type κ} {X : Type μ} (name : Fault → Other) (result : Result Fault X)
    (x : X)
    → (with_fault name result ≡ ok x) ↔ (result ≡ ok x)
with_fault_iff name (err fault) x = (λ e. cc, λ e. cc)
with_fault_iff name (ok y) x = (λ e. cc, λ e. cc)

pub ok-injective {ℓ κ} :
    {Fault : Type ℓ} {X : Type κ} (x y : X) → Path (Result Fault X) (ok x) (ok y) → x ≡ y
ok-injective x y e = cc

-- What holds of the value, if there is one.
abbrev pub OnOk {ℓ κ μ} : {Fault : Type ℓ} {X : Type κ} → (X → Type μ) → Result Fault X → Type μ
OnOk P (err fault) = Unit
OnOk P (ok x) = P x

pub OnOk->>= {ℓ κ μ ν} :
    {Fault : Type ℓ} {X : Type κ} {Y : Type μ} (P : X → Type ν) (Q : Y → Type ν)
    (first : Result Fault X) (next : X → Result Fault Y)
    → OnOk P first
    → ((x : X) → P x → OnOk Q (next x))
    → OnOk Q (first >>= next)
OnOk->>= P Q (err fault) next h k = tt
OnOk->>= P Q (ok x) next h k = k x h

pub OnOk-impl {ℓ κ μ} :
    {Fault : Type ℓ} {X : Type κ} (P Q : X → Type μ) (result : Result Fault X)
    → ((x : X) → P x → Q x)
    → OnOk P result
    → OnOk Q result
OnOk-impl P Q (err fault) k h = tt
OnOk-impl P Q (ok x) k h = k x h
