-- ===== src/Header/Limit.antt =====
-- internal/gateway/gateway.go: what `responseHeaderLimitReader` lets through over any calls of `Read`.
use hooshi_xagent.Header.{Reader, Ending, new_reader, read, looked_at, scan, advance, smaller}
use hooshi_xagent.Header.Search.{has_empty_line, scan_from_0}
use hooshi_xagent.Base.{
  List, [], ◌∷◌, ◌++◌, ℕ, Bool, true, false, if◌then◌else◌, ◌==◌, ◌≡◌, ◌≤◌, ◌+◌, ◌-◌, length, take,
  if_cases, refl, sym, ap, subst, arith, length-append, Bool-cases, inl, inr, ltb, suc, zero, ◌∙◌,
}
use mathlib.Core.List.{append-nil, append_assoc}

-- A call: the room of the slice, what the reader behind offers, and how its call ends.
abbrev pub Attempt : Type 0
Attempt = ℕ × List ℕ × Ending

-- The reader after the calls, and the bytes that they returned.
unfoldable pub run : Reader → List Attempt → Reader × List ℕ
run reader [] = (reader, [])
run reader ((room, offered, behind) ∷ rest) =
    let (after, bytes, ending) = read reader room offered behind in
    let (last, more) = run after rest in (last, bytes ++ more)

scan-append :
    (matched : ℕ) (xs ys : List ℕ)
    → (matched == 4) ≡ false
    → scan matched (xs ++ ys) ≡ (if scan matched xs == 4 then 4 else scan (scan matched xs) ys)
unfolding scan
scan-append matched [] ys e = rw e refl
scan-append matched (x ∷ xs) ys e = elim (Bool-cases (advance matched x == 4)) [
  | inl f ↦ rw f refl
  | inr f ↦ rw f (scan-append (advance matched x) xs ys f)
]

-- The empty line was found in the first bytes, no more of them than the limit.
abbrev pub IsFound : ℕ → List ℕ → Type 0
IsFound limit passed =
    (head : List ℕ) × (tail : List ℕ) × (passed ≡ head ++ tail)
    × (length head ≤ limit)
    × (has_empty_line head ≡ true)

abbrev Tracks : ℕ → List ℕ → ℕ → ℕ → Bool → Type 0
Tracks limit passed remaining matched true = IsFound limit passed
Tracks limit passed remaining matched false =
    (matched ≡ scan 0 passed) × ((matched == 4) ≡ false) × (length passed + remaining ≡ limit)

abbrev IsTracking : ℕ → List ℕ → Reader → Type 0
IsTracking limit passed reader = Tracks limit passed reader.remaining reader.matched reader.done

length-take_le : (n : ℕ) (xs : List ℕ) → length (take n xs) ≤ n
length-take_le zero xs = omega arith
length-take_le (suc n) [] = omega arith
length-take_le (suc n) (x ∷ xs) = omega (arith, length-take_le n xs)

length-take-smaller :
    (room remaining : ℕ) (offered : List ℕ)
    → length (take (smaller room remaining) offered) ≤ remaining
length-take-smaller room remaining offered =
    if_cases (λ n. length (take n offered) ≤ remaining) (ltb remaining room)
      (λ e. length-take_le remaining offered)
      (λ e. let h = length-take_le room offered in ground arith)

goes_on :
    (matched : ℕ) (passed bytes : List ℕ)
    → matched ≡ scan 0 passed
    → (matched == 4) ≡ false
    → scan 0 (passed ++ bytes) ≡ scan matched bytes
goes_on matched passed bytes a b = scan-append 0 passed bytes refl ∙ rw (← a, b) refl

-- More bytes, none of which is behind the empty line.
searched :
    (limit remaining matched : ℕ) (passed bytes : List ℕ) (found : Bool)
    → length bytes ≤ remaining
    → (scan matched bytes == 4) ≡ found
    → Tracks limit passed remaining matched false
    → Tracks limit (passed ++ bytes) (remaining - length bytes) (scan matched bytes) found
searched limit remaining matched passed bytes true short e (a, b, c) =
    let whole = passed ++ bytes in
    let line = sym (scan_from_0 whole) ∙ ap (λ x. x == 4) (goes_on matched passed bytes a b) ∙ e in
    (whole, [], sym (append-nil whole), omega (arith, length-append passed bytes, short, c), line)
searched limit remaining matched passed bytes false short e (a, b, c) =
    (sym (goes_on matched passed bytes a b), e, omega (arith, length-append passed bytes, short, c))

looked_at-reader :
    (P : Reader → List ℕ → Type 0) (reader : Reader) (bytes : List ℕ) (behind : Ending)
    → P reader bytes
    → P (looked_at reader bytes behind).0 (looked_at reader bytes behind).1
unfolding looked_at
looked_at-reader P reader bytes behind h =
    let Goal : Reader × List ℕ × Ending → Type 0 = λ r. P r.0 r.1 in
    if_cases Goal reader.done (λ e. h)
      (λ e. if_cases Goal (reader.remaining == 0) (λ f. h) (λ f. h))

read-IsTracking :
    (limit : ℕ) (passed : List ℕ) (reader : Reader) (room : ℕ) (offered : List ℕ) (behind : Ending)
    → IsTracking limit passed reader
    → let r = read reader room offered behind in IsTracking limit (passed ++ r.1) r.0
unfolding read
read-IsTracking limit passed reader room offered behind h =
    let Goal : Reader × List ℕ × Ending → Type 0 = λ r. IsTracking limit (passed ++ r.1) r.0 in
    if_cases Goal reader.done
      (λ e.
        let (head, tail, p, q, r) =
          subst (Tracks limit passed reader.remaining reader.matched) e h in
        let more = take room offered in
        subst (Tracks limit (passed ++ more) reader.remaining reader.matched) (sym e)
          (head, tail ++ more, ap (λ x. x ++ more) p ∙ append_assoc head tail more, q, r))
      (λ e.
        if_cases Goal (reader.remaining == 0)
          (λ f. subst (λ x. IsTracking limit x reader) (sym (append-nil passed)) h)
          (λ f.
            let bytes = take (smaller room reader.remaining) offered in
            let matched = scan reader.matched bytes in
            let after : Reader = record {
              remaining = reader.remaining - length bytes;
              matched = matched;
              done = matched == 4;
            } in
            looked_at-reader (λ r b. IsTracking limit (passed ++ b) r) after bytes behind
              (searched limit reader.remaining reader.matched passed bytes (matched == 4)
                (length-take-smaller room reader.remaining offered) refl
                (subst (Tracks limit passed reader.remaining reader.matched) e h))))

run-IsTracking :
    (limit : ℕ) (passed : List ℕ) (reader : Reader) (attempts : List Attempt)
    → IsTracking limit passed reader
    → let r = run reader attempts in IsTracking limit (passed ++ r.1) r.0
unfolding run
run-IsTracking limit passed reader [] h =
    subst (λ x. IsTracking limit x reader) (sym (append-nil passed)) h
run-IsTracking limit passed reader ((room, offered, behind) ∷ rest) h =
    let (after, bytes, ending) = read reader room offered behind in
    let (last, more) = run after rest in
    subst (λ x. IsTracking limit x last) (append_assoc passed bytes more)
      (run-IsTracking limit (passed ++ bytes) after rest
        (read-IsTracking limit passed reader room offered behind h))

-- Over any calls, whatever the slices and however the bytes come in: as long as the reader has not
-- seen the end of the header, the bytes that it returned have no empty line and, with what remains,
-- are as many as the limit; once it has, the empty line stands within the first bytes that it
-- returned, no more of them than the limit.
pub header_bounded :
    (limit : ℕ) (attempts : List Attempt)
    → let r = run (new_reader limit) attempts in
      (r.0.done ≡ false → (has_empty_line r.1 ≡ false) × (length r.1 + r.0.remaining ≡ limit))
      × (r.0.done ≡ true → IsFound limit r.1)
unfolding scan
header_bounded limit attempts =
    let r = run (new_reader limit) attempts in
    let tracked = run-IsTracking limit [] (new_reader limit) attempts (refl, refl, omega arith) in
    (
      λ e.
          let (a, b, c) = subst (Tracks limit r.1 r.0.remaining r.0.matched) e tracked in
          (sym (scan_from_0 r.1) ∙ ap (λ x. x == 4) (sym a) ∙ b, c),
      λ e. subst (Tracks limit r.1 r.0.remaining r.0.matched) e tracked,
    )
