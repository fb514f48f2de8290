-- ===== src/Session/Ids.antt =====
-- internal/gateway/session.go: the identifiers of a session's streams. They count up from 1; when the
-- 32 bits are used up the counter stays at 0 and no more streams are opened.
use hooshi_xagent.Session.{Entry, Session}
use hooshi_xagent.Session.Map.{
  find, put, ids, Distinct, All-find, All-remove, Distinct-remove, length-remove, ids-put,
  length-ids, remove,
}
use hooshi_xagent.Base.{
  List, ℕ, some, ◌≡◌, ◌≤◌, ◌<◌, ◌^◌, length, All, arith, ap, if◌then◌else◌, subst, sym, ◌==◌, ◌∷◌,
}

-- One more than the largest identifier that was given out.
abbrev pub bound : ℕ → ℕ
bound next_id = if next_id == 0 then 2 ^ 32 else next_id

abbrev pub IsUsed : ℕ → ℕ → Type 0
IsUsed next_id id = (1 ≤ id) × (id < bound next_id)

-- The identifiers of streams, present and past, were given out, a present stream has its own, and
-- there are no more streams than the limit.
abbrev pub Counted : ℕ → List (ℕ × Entry) → List (ℕ × Entry) → ℕ → Type 0
Counted most streams detached next_id =
    All (IsUsed next_id) (ids streams)
    × All (IsUsed next_id) (ids detached)
    × Distinct (ids streams)
    × (length streams ≤ most)
    × (next_id < 2 ^ 32)

abbrev pub IsCounted : ℕ → Session → Type 0
IsCounted most s = Counted most s.streams s.detached s.next_id

pub remove-Counted :
    (most id : ℕ) (entry left : Entry) (streams detached : List (ℕ × Entry)) (next_id : ℕ)
    → find id streams ≡ some entry
    → Counted most streams detached next_id
    → Counted most (remove id streams) ((id, left) ∷ detached) next_id
remove-Counted most id entry left streams detached next_id e (a, b, c, d, f) = (
  All-remove (IsUsed next_id) id streams a,
  (All-find (IsUsed next_id) id streams a e, b),
  Distinct-remove id streams c,
  omega (arith, length-remove id streams, d),
  f,
)

pub put-Counted :
    (most id : ℕ) (entry : Entry) (streams detached : List (ℕ × Entry)) (next_id : ℕ)
    → Counted most streams detached next_id
    → Counted most (put id entry streams) detached next_id
put-Counted most id entry streams detached next_id (a, b, c, d, f) =
    let same = ids-put id entry streams in
    let size = ap length same in
    (
      subst (All (IsUsed next_id)) (sym same) a,
      b,
      subst Distinct (sym same) c,
      omega (arith, size, length-ids (put id entry streams), length-ids streams, d),
      f,
    )
