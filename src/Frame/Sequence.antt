-- ===== src/Frame/Sequence.antt =====
-- internal/contractv1/frame.go: the sequence rule over a whole connection.
use hooshi_xagent.Frame.{SequenceError, accept, next_sequence, max_sequence}
use hooshi_xagent.Base.{
  ℕ, List, Result, [], ok, >>=-eq-ok, ap, arith, length, suc, zero, ◌+◌, ◌>>=◌, ◌∷◌, ◌≡◌, ◌≢◌, ◌≤◌,
}

-- The receive loop of one direction: every frame's sequence goes through `Accept`, and the first
-- refusal ends the connection.
unfoldable pub accept_all : ℕ → List ℕ → Result SequenceError ℕ
accept_all last [] = ok last
accept_all last (s ∷ ss) = accept last s >>= λ next. accept_all next ss

-- `last + 1`, `last + 2`, ... , one for each of `count` frames.
abbrev pub count_from : ℕ → ℕ → List ℕ
count_from last zero = []
count_from last (suc count) = suc last ∷ count_from (suc last) count

accept-eq-ok :
    (last s next : ℕ)
    → accept last s ≡ ok next
    → (s ≡ suc last) × (next ≡ suc last) × (last ≢ max_sequence)
unfolding accept
accept-eq-ok last s next h = ground arith

accept-suc : (last : ℕ) → last ≢ max_sequence → accept last (suc last) ≡ ok (suc last)
unfolding accept
accept-suc last h = ground arith

-- The frames of a direction are accepted only as a gapless run that starts right after the last
-- one, and the tracker never passes the largest 64-bit value.
pub accept_all-eq-ok :
    (last : ℕ) (ss : List ℕ) (end : ℕ)
    → last ≤ max_sequence
    → accept_all last ss ≡ ok end
    → (ss ≡ count_from last (length ss)) × (end ≡ last + length ss) × (end ≤ max_sequence)
unfolding accept_all
accept_all-eq-ok last [] end b h = ground arith
accept_all-eq-ok last (s ∷ ss) end b h =
    let (next, a, r) = >>=-eq-ok (accept last s) (λ n. accept_all n ss) h in
    let (p, q, m) = accept-eq-ok last s next a in
    let (x, y, z) = accept_all-eq-ok next ss end (omega arith) r in
    (rw (p, ← q) (ap (◌∷◌ next) x), omega arith, z)

-- Every gapless run that ends within 64 bits is accepted.
pub accept_all-count_from :
    (count last : ℕ)
    → last + count ≤ max_sequence
    → accept_all last (count_from last count) ≡ ok (last + count)
unfolding accept_all
accept_all-count_from zero last h = ap ok (omega arith)
accept_all-count_from (suc count) last h =
    rw (accept-suc last (omega arith), accept_all-count_from count (suc last) (omega arith))
      (ap ok (omega arith))

-- The number that a writer gives its next frame.
pub next_sequence-eq-ok :
    (last next : ℕ)
    → last ≤ max_sequence
    → next_sequence last ≡ ok next
    → (next ≡ suc last) × (suc last ≤ max_sequence)
unfolding next_sequence
next_sequence-eq-ok last next room e = ground arith
