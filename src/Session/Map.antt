-- ===== src/Session/Map.antt =====
-- A map with numbers for keys, as the list of its entries.
use hooshi_xagent.Base.{
  List, [], ◌∷◌, ℕ, Option, some, none, if◌then◌else◌, ◌==◌, ==_iff, All, Bool-cases, ap, arith,
  false, if_cases, inl, inr, length, refl, subst, suc, sym, ◌∙◌, ◌≡◌, ◌≢◌, ◌≤◌,
}
use mathlib.Core.Option.{none-ne-some}

module _ {A : Type 0} where
  unfoldable pub find : ℕ → List (ℕ × A) → Option A
  find key [] = none
  find key ((other, value) ∷ rest) = if key == other then some value else find key rest

  unfoldable pub remove : ℕ → List (ℕ × A) → List (ℕ × A)
  remove key [] = []
  remove key ((other, value) ∷ rest) =
      let others = remove key rest in if key == other then others else (other, value) ∷ others

  -- The value of a key as it is changed through its pointer.
  unfoldable pub put : ℕ → A → List (ℕ × A) → List (ℕ × A)
  put key value [] = []
  put key value ((other, found) ∷ rest) =
      let others = put key value rest in
      if key == other then (other, value) ∷ others else (other, found) ∷ others

  abbrev pub ids : List (ℕ × A) → List ℕ
  ids [] = []
  ids ((key, value) ∷ rest) = key ∷ ids rest

differs : (a b : ℕ) → a ≢ b → (a == b) ≡ false
differs a b h = ground arith

-- No key stands before a second entry of its own.
abbrev pub Distinct : List ℕ → Type 0
Distinct [] = Unit
Distinct (key ∷ rest) = All (λ other. other ≢ key) rest × Distinct rest

module _ {A : Type 0} where
  pub All-find :
      (P : ℕ → Type 0) (key : ℕ) (entries : List (ℕ × A)) {value : A}
      → All P (ids entries)
      → find key entries ≡ some value
      → P key
  unfolding find
  All-find P key [] h e = absurd (none-ne-some _ e)
  All-find P key ((other, found) ∷ rest) (this, those) e = elim (Bool-cases (key == other)) [
    | inl same ↦ subst P (sym ((==_iff key other).0 same)) this
    | inr differ ↦ All-find P key rest those (rw differ at e)
  ]

  pub All-remove :
      (P : ℕ → Type 0) (key : ℕ) (entries : List (ℕ × A))
      → All P (ids entries)
      → All P (ids (remove key entries))
  unfolding remove
  All-remove P key [] h = tt
  All-remove P key ((other, found) ∷ rest) (this, those) =
      if_cases (λ x. All P (ids {A = A} x)) (key == other) (λ e. All-remove P key rest those)
        (λ e. (this, All-remove P key rest those))

  pub Distinct-remove :
      (key : ℕ) (entries : List (ℕ × A))
      → Distinct (ids entries)
      → Distinct (ids (remove key entries))
  unfolding remove
  Distinct-remove key [] h = tt
  Distinct-remove key ((other, found) ∷ rest) (this, those) =
      if_cases (λ x. Distinct (ids {A = A} x)) (key == other) (λ e. Distinct-remove key rest those)
        (λ e. (All-remove (λ x. x ≢ other) key rest this, Distinct-remove key rest those))

  pub length-remove :
      (key : ℕ) (entries : List (ℕ × A)) → length (remove key entries) ≤ length entries
  unfolding remove
  length-remove key [] = omega arith
  length-remove key ((other, found) ∷ rest) =
      let h = length-remove key rest in
      if_cases (λ x. length {A = ℕ × A} x ≤ suc (length rest)) (key == other) {x = remove key rest}
        {y = (other, found) ∷ remove key rest} (λ e. omega (arith, h)) (λ e. omega (arith, h))

  pub find-remove :
      (key other : ℕ) (entries : List (ℕ × A))
      → key ≢ other
      → find key (remove other entries) ≡ find key entries
  unfolding find remove
  find-remove key other [] h = refl
  find-remove key other ((id, value) ∷ rest) h =
      let ih = find-remove key other rest h in
      if_cases (λ x. find key x ≡ (if key == id then some value else find key rest)) (other == id)
        (λ e.
          let other_key = differs key id (λ f. h (f ∙ sym ((==_iff other id).0 e))) in
          ih ∙ rw other_key refl)
        (λ e. ap (λ x. if key == id then some value else x) ih)

  pub find-remove_self : (key : ℕ) (entries : List (ℕ × A)) → find key (remove key entries) ≡ none
  unfolding find remove
  find-remove_self key [] = refl
  find-remove_self key ((id, value) ∷ rest) =
      let ih = find-remove_self key rest in
      if_cases (λ x. find key x ≡ none) (key == id) {x = remove key rest}
        {y = (id, value) ∷ remove key rest} (λ e. ih) (λ e. rw e ih)

  pub ids-put :
      (key : ℕ) (value : A) (entries : List (ℕ × A)) → ids (put key value entries) ≡ ids entries
  unfolding put
  ids-put key value [] = refl
  ids-put key value ((other, found) ∷ rest) =
      let ih = ap (◌∷◌ other) (ids-put key value rest) in
      if_cases (λ x. ids {A = A} x ≡ other ∷ ids rest) (key == other)
        {x = (other, value) ∷ put key value rest} {y = (other, found) ∷ put key value rest}
        (λ e. ih) (λ e. ih)

  pub find-put :
      (key other : ℕ) (value : A) (entries : List (ℕ × A))
      → key ≢ other
      → find key (put other value entries) ≡ find key entries
  unfolding find put
  find-put key other value [] h = refl
  find-put key other value ((id, found) ∷ rest) h =
      let ih = find-put key other value rest h in
      if_cases (λ x. find key x ≡ (if key == id then some found else find key rest)) (other == id)
        (λ e.
          let other_key = differs key id (λ f. h (f ∙ sym ((==_iff other id).0 e))) in
          rw other_key ih)
        (λ e. ap (λ x. if key == id then some found else x) ih)

  pub length-ids : (entries : List (ℕ × A)) → length (ids entries) ≡ length entries
  length-ids [] = refl
  length-ids ((key, value) ∷ rest) = ap suc (length-ids rest)
