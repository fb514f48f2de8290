-- ===== src/Header/Search.antt =====
-- internal/gateway/gateway.go: the search of `responseHeaderLimitReader` finds the empty line, however
-- the bytes before it look.
use hooshi_xagent.Header.{scan, advance, separator_at}
use hooshi_xagent.Base.{
  List, [], ◌∷◌, ℕ, Bool, true, false, if◌then◌else◌, ◌==◌, ◌≡◌, refl, Bool-cases, inl, inr, ==_iff,
  subst, sym,
}

-- The bytes begin with these.
abbrev begins : List ℕ → List ℕ → Bool
begins [] bytes = true
begins (p ∷ ps) [] = false
begins (p ∷ ps) (b ∷ bs) = if b == p then begins ps bs else false

-- "\r\n\r\n" stands somewhere in the bytes.
abbrev pub has_empty_line : List ℕ → Bool
has_empty_line [] = false
has_empty_line (b ∷ bs) =
    if begins (13 ∷ 10 ∷ 13 ∷ 10 ∷ []) (b ∷ bs) then true else has_empty_line bs

-- By what was matched: the search goes on as if that stood before the rest.
mutual
  unfolding scan advance separator_at

  pub scan_from_0 : (bs : List ℕ) → (scan 0 bs == 4) ≡ has_empty_line bs
  scan_from_0 [] = refl
  scan_from_0 (b ∷ bs) = elim (Bool-cases (b == 13)) [
    | inl e ↦
        subst (λ x. (scan 0 (x ∷ bs) == 4) ≡ has_empty_line (x ∷ bs)) (sym ((==_iff b 13).0 e))
          (scan_from_1 bs)
    | inr e ↦ rw e (scan_from_0 bs)
  ]

  scan_from_1 : (bs : List ℕ) → (scan 1 bs == 4) ≡ has_empty_line (13 ∷ bs)
  scan_from_1 [] = refl
  scan_from_1 (b ∷ bs) = elim (Bool-cases (b == 10)) [
    | inl e ↦
        subst (λ x. (scan 1 (x ∷ bs) == 4) ≡ has_empty_line (13 ∷ x ∷ bs)) (sym ((==_iff b 10).0 e))
          (scan_from_2 bs)
    | inr e ↦ elim (Bool-cases (b == 13)) [
      | inl f ↦
          subst (λ x. (scan 1 (x ∷ bs) == 4) ≡ has_empty_line (13 ∷ x ∷ bs))
            (sym ((==_iff b 13).0 f)) (scan_from_1 bs)
      | inr f ↦ rw (e, f) (scan_from_0 bs)
    ]
  ]

  scan_from_2 : (bs : List ℕ) → (scan 2 bs == 4) ≡ has_empty_line (13 ∷ 10 ∷ bs)
  scan_from_2 [] = refl
  scan_from_2 (b ∷ bs) = elim (Bool-cases (b == 13)) [
    | inl e ↦
        subst (λ x. (scan 2 (x ∷ bs) == 4) ≡ has_empty_line (13 ∷ 10 ∷ x ∷ bs))
          (sym ((==_iff b 13).0 e)) (scan_from_3 bs)
    | inr e ↦ rw e (scan_from_0 bs)
  ]

  scan_from_3 : (bs : List ℕ) → (scan 3 bs == 4) ≡ has_empty_line (13 ∷ 10 ∷ 13 ∷ bs)
  scan_from_3 [] = refl
  scan_from_3 (b ∷ bs) = elim (Bool-cases (b == 10)) [
    | inl e ↦
        subst (λ x. (scan 3 (x ∷ bs) == 4) ≡ has_empty_line (13 ∷ 10 ∷ 13 ∷ x ∷ bs))
          (sym ((==_iff b 10).0 e)) refl
    | inr e ↦ elim (Bool-cases (b == 13)) [
      | inl f ↦
          subst (λ x. (scan 3 (x ∷ bs) == 4) ≡ has_empty_line (13 ∷ 10 ∷ 13 ∷ x ∷ bs))
            (sym ((==_iff b 13).0 f)) (scan_from_1 bs)
      | inr f ↦ rw (e, f) (scan_from_0 bs)
    ]
  ]
