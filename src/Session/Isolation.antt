-- ===== src/Session/Isolation.antt =====
-- internal/gateway/session.go: frames and closes of one stream leave the others alone, and data that
-- comes after a close is dropped.
use hooshi_xagent.Session.{Entry, Session, close_stream}
use hooshi_xagent.Session.Map.{find, remove, put, find-remove, find-put}
use hooshi_xagent.Session.Handle.{Incoming, handle_control, handle_data}
use hooshi_xagent.Session.Kept.{handle_control-Kept, handle_data-Kept, close_stream-Kept}
use hooshi_xagent.Stream.{Stream}
use hooshi_xagent.Base.{List, ◌∷◌, ℕ, Bool, some, none, ◌≡◌, ◌≢◌, OnOk, refl, ◌∙◌}

-- The stream of this number is as it was, and so is the counter.
abbrev HasSame : ℕ → Session → List (ℕ × Entry) → List (ℕ × Entry) → ℕ → Type 0
HasSame other s streams detached next_id =
    (find other streams ≡ find other s.streams) × (next_id ≡ s.next_id)

abbrev pub IsSame : ℕ → Session → Session → Type 0
IsSame other s s' = (find other s'.streams ≡ find other s.streams) × (s'.next_id ≡ s.next_id)

remove-HasSame :
    (other : ℕ) (s : Session) (id : ℕ)
    → other ≢ id
    → (entry left : Entry) (streams detached : List (ℕ × Entry)) (next_id : ℕ)
    → find id streams ≡ some entry
    → HasSame other s streams detached next_id
    → HasSame other s (remove id streams) ((id, left) ∷ detached) next_id
remove-HasSame other s id h entry left streams detached next_id e (a, b) =
    (find-remove other id streams h ∙ a, b)

put-HasSame :
    (other : ℕ) (s : Session) (id : ℕ)
    → other ≢ id
    → (entry : Entry) (streams detached : List (ℕ × Entry)) (next_id : ℕ)
    → HasSame other s streams detached next_id
    → HasSame other s (put id entry streams) detached next_id
put-HasSame other s id h entry streams detached next_id (a, b) =
    (find-put other id entry streams h ∙ a, b)

-- A data frame, a control message and a close for one stream change no other stream of the session,
-- and do not move the counter of the identifiers.
pub isolation :
    (sent : Bool) (id other : ℕ) (payload reason_code : List ℕ) (message : Incoming) (s : Session)
    → other ≢ id
    → OnOk (IsSame other s) (handle_data sent id payload s)
      × OnOk (IsSame other s) (handle_control sent id message s)
      × OnOk (IsSame other s) (close_stream sent id reason_code s)
isolation sent id other payload reason_code message s h =
    let P = HasSame other s in
    let removed = remove-HasSame other s id h in
    let changed = put-HasSame other s id h in
    (
      handle_data-Kept P id removed changed sent payload s (refl, refl),
      handle_control-Kept P id removed changed sent message s (refl, refl),
      close_stream-Kept P id removed changed sent reason_code s (refl, refl),
    )

-- The stream has left the map.
abbrev IsGone : ℕ → Session → Session → Type 0
IsGone id s s' = (find id s'.streams ≡ none) × (s'.next_id ≡ s.next_id)
