-- ===== src/Header/Examples.antt =====
-- internal/gateway/gateway.go: a header that comes in two pieces.
use hooshi_xagent.Header.{Ending, new_reader}
use hooshi_xagent.Header.Search.{has_empty_line}
use hooshi_xagent.Header.Limit.{Attempt, run, IsFound, header_bounded}
use hooshi_xagent.Base.{List, [], ◌∷◌, true, false, ◌≡◌, ◌+◌, length}

abbrev attempts : List Attempt
attempts = (8, 65 ∷ 13 ∷ 10 ∷ 13 ∷ [], Ending.fine) ∷ (8, 10 ∷ 66 ∷ [], Ending.fine) ∷ []

header_bounded_example :
    ((run (new_reader 16) attempts).0.done ≡ false
      → (has_empty_line (run (new_reader 16) attempts).1 ≡ false)
        × (length (run (new_reader 16) attempts).1 + (run (new_reader 16) attempts).0.remaining
            ≡ 16))
    × ((run (new_reader 16) attempts).0.done ≡ true → IsFound 16 (run (new_reader 16) attempts).1)
header_bounded_example = header_bounded 16 attempts
