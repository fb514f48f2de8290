-- ===== src/Session/Life.antt =====
-- internal/gateway/session.go: a session over any sequence of calls and of frames of the Agent.
use hooshi_xagent.Session.{
  Entry, Session, Outgoing, Limits, send_control, finish_stream, fail_all, failed, SessionError,
  close_stream,
}
use hooshi_xagent.Session.Map.{find, ids, All-find, Distinct}
use hooshi_xagent.Session.Handle.{Incoming, handle_control, handle_data}
use hooshi_xagent.Session.Open.{reserve_id, abandon, announce, open_stream}
use hooshi_xagent.Session.Ids.{IsCounted, Counted, IsUsed, bound, remove-Counted, put-Counted}
use hooshi_xagent.Stream.{Fault}
use hooshi_xagent.Window.{initial_credit}
use hooshi_xagent.Base.{
  List, [], ◌∷◌, ◌++◌, ℕ, Bool, true, false, not, ◌&&◌, Option, some, none, Result, ok, err, ◌≡◌,
  ◌≢◌, ◌≤◌, ◌<◌, ◌+◌, ◌%◌, ◌^◌, length, All, OnOk, OnOk->>=, if_cases, map, arith, leb, ◌==◌,
  ==_iff, pos, refl, suc, Bool-cases, Option-cases, inl, inr, ◌>>=◌,
}
use hooshi_xagent.Session.Kept.{
  handle_control-Kept, handle_data-Kept, finish_stream-Kept, close_stream-Kept,
}

module _ {A : Type 0} where
  All-impl : (P Q : A → Type 0) → ((x : A) → P x → Q x) → (xs : List A) → All P xs → All Q xs
  All-impl P Q k [] h = tt
  All-impl P Q k (x ∷ xs) (this, those) = (k x this, All-impl P Q k xs those)

All-failed :
    (P : ℕ → Type 0) (fault : Option Fault) (streams detached : List (ℕ × Entry))
    → All P (ids streams)
    → All P (ids detached)
    → All P (ids (map (failed fault) streams ++ detached))
All-failed P fault [] detached a b = b
All-failed P fault ((id, entry) ∷ streams) detached (this, those) b =
    (this, All-failed P fault streams detached those b)

ne_of : (n : ℕ) → (n == 0) ≡ false → n ≢ 0
ne_of n e = ground arith

-- The counter moves to the next number, or to 0 after the last one.
bound_next : (n : ℕ) → (n == 0) ≡ false → n < 2 ^ 32 → bound ((n + 1) % 2 ^ 32) ≡ suc n
bound_next n live room =
    let next = (n + 1) % 2 ^ 32 in
    if_cases (λ x. x ≡ suc n) (next == 0)
      (λ e. let zero_next : next ≡ 0 = (==_iff next 0).0 e in omega (arith, zero_next, room))
      (λ e. let more : next ≢ 0 = λ f. ne_of next e f in omega (arith, more, room))

bound_live : (n : ℕ) → (n == 0) ≡ false → bound n ≡ n
bound_live n live = rw live refl

IsUsed-before : (n : ℕ) → (n == 0) ≡ false → (id : ℕ) → IsUsed n id → id ≢ n
IsUsed-before n live id (low, high) = let e = bound_live n live in omega (arith, e, high)

fresh-IsUsed : (n : ℕ) → (n == 0) ≡ false → n < 2 ^ 32 → IsUsed ((n + 1) % 2 ^ 32) n
fresh-IsUsed n live room = let e = bound_next n live room in (ground arith, omega (arith, e))

IsUsed-grows :
    (n : ℕ) → (n == 0) ≡ false → n < 2 ^ 32 → (id : ℕ) → IsUsed n id → IsUsed ((n + 1) % 2 ^ 32) id
IsUsed-grows n live room id (low, high) =
    let e = bound_next n live room in
    let e' = bound_live n live in (low, omega (arith, e, e', high))

more_room : (most count : ℕ) → leb most count ≡ false → suc count ≤ most
more_room most count e = ground arith

wrapped : (n : ℕ) → (n + 1) % 2 ^ 32 < 2 ^ 32
wrapped n = omega arith

module _ (most : ℕ) where
  fail_all-IsCounted :
      (fault : Option Fault) (s : Session) → IsCounted most s → IsCounted most (fail_all fault s)
  unfolding fail_all
  fail_all-IsCounted fault s (a, b, c, d, f) =
      (tt, All-failed (IsUsed s.next_id) fault s.streams s.detached a b, tt, omega arith, f)

  reserve_id-IsCounted :
      (limits : Limits) (datagram : Bool) (s : Session)
      → leb most (length s.streams) ≡ false
      → (s.next_id == 0) ≡ false
      → IsCounted most s
      → IsCounted most (reserve_id limits datagram s)
  unfolding reserve_id
  reserve_id-IsCounted limits datagram s room live (a, b, c, d, f) =
      let grown = IsUsed-grows s.next_id live f in
      (
        (
          fresh-IsUsed s.next_id live f,
          All-impl (IsUsed s.next_id) (IsUsed ((s.next_id + 1) % 2 ^ 32)) grown (ids s.streams) a,
        ),
        All-impl (IsUsed s.next_id) (IsUsed ((s.next_id + 1) % 2 ^ 32)) grown (ids s.detached) b,
        (
          All-impl (IsUsed s.next_id) (λ other. other ≢ s.next_id) (IsUsed-before s.next_id live)
              (ids s.streams) a,
          c,
        ),
        more_room most (length s.streams) room,
        wrapped s.next_id,
      )

  send_control-IsCounted :
      (sent : Bool) (id : ℕ) (message : Outgoing) (s : Session)
      → IsCounted most s
      → IsCounted most (send_control sent id message s)
  unfolding send_control
  send_control-IsCounted true id message s h = h
  send_control-IsCounted false id message s h = h

  abandon-IsCounted :
      (id : ℕ) (s : Session) → IsCounted most s → OnOk (λ r. IsCounted most r.0) (abandon id s)
  unfolding abandon
  abandon-IsCounted id s h =
      OnOk->>= (IsCounted most) (λ r. IsCounted most r.0)
        (finish_stream id (some (Fault.failure 2)) s) (λ s'. ok (s', none))
        (finish_stream-Kept (Counted most) id (remove-Counted most id) (put-Counted most id)
          (some (Fault.failure 2)) s h)
        (λ s' h'. h')

  announce-IsCounted :
      (limits : Limits) (opened granted windowed : Bool) (id : ℕ) (s : Session)
      → IsCounted most s
      → OnOk (λ r. IsCounted most r.0) (announce limits opened granted windowed id s)
  unfolding announce
  announce-IsCounted limits false granted windowed id s h = abandon-IsCounted id s h
  announce-IsCounted limits true granted false id s h =
      send_control-IsCounted true id Outgoing.stream_open s h
  announce-IsCounted limits true false true id s h =
      abandon-IsCounted id _ (send_control-IsCounted true id Outgoing.stream_open s h)
  announce-IsCounted limits true true true id s h =
      send_control-IsCounted true id
        (Outgoing.window_update (initial_credit (pos limits.max_stream_queue_bytes)))
        (send_control true id Outgoing.stream_open s)
        (send_control-IsCounted true id Outgoing.stream_open s h)

  open_stream-IsCounted :
      (limits : Limits) (requested opened granted datagram : Bool) (s : Session)
      → limits.max_streams_per_session ≡ most
      → IsCounted most s
      → OnOk (λ r. IsCounted most r.0) (open_stream limits requested opened granted datagram s)
  unfolding open_stream
  open_stream-IsCounted limits requested opened granted datagram s e h =
      let Goal : Session × Option ℕ → Type 0 = λ r. IsCounted most r.0 in
      if_cases (OnOk Goal) (not requested) (λ f. tt)
        (λ f.
          if_cases (OnOk Goal) (leb limits.max_streams_per_session (length s.streams)) (λ g. tt)
            (λ g.
              if_cases (OnOk Goal) (s.next_id == 0) (λ i. tt)
                (λ i.
                  announce-IsCounted limits opened granted (s.flow_controlled && not datagram)
                    s.next_id (reserve_id limits datagram s)
                    (reserve_id-IsCounted limits datagram s (rw e at g) i h))))

-- One call of a handler, of the ingress, or of what reads the Agent's frames.
pub data Call : Type 0 where
  opens : Bool → Bool → Bool → Bool → Call
  controls : Bool → ℕ → Incoming → Call
  carries : Bool → ℕ → List ℕ → Call
  closes : Bool → ℕ → List ℕ → Call
  fails : Option Fault → Call

-- An error is returned before the session is changed.
abbrev left_by : Session → Result SessionError Session → Session
left_by s (err fault) = s
left_by s (ok s') = s'

unfoldable pub perform : Limits → Call → Session → Session
unfolding open_stream handle_control handle_data close_stream fail_all
perform limits (opens requested opened granted datagram) s =
    left_by s (open_stream limits requested opened granted datagram s >>= λ r. ok r.0)
perform limits (controls sent id message) s = left_by s (handle_control sent id message s)
perform limits (carries sent id payload) s = left_by s (handle_data sent id payload s)
perform limits (closes sent id reason_code) s = left_by s (close_stream sent id reason_code s)
perform limits (fails fault) s = fail_all fault s

unfoldable pub live : Limits → List Call → Session → Session
unfolding perform
live limits [] s = s
live limits (call ∷ calls) s = live limits calls (perform limits call s)

left_by-OnOk :
    (P : Session → Type 0) (s : Session) (r : Result SessionError Session)
    → P s
    → OnOk P r
    → P (left_by s r)
left_by-OnOk P s (err fault) h k = h
left_by-OnOk P s (ok s') h k = k

perform-IsCounted :
    (limits : Limits) (call : Call) (s : Session)
    → IsCounted limits.max_streams_per_session s
    → IsCounted limits.max_streams_per_session (perform limits call s)
unfolding perform
perform-IsCounted limits (opens requested opened granted datagram) s h =
    let most = limits.max_streams_per_session in
    let done = open_stream limits requested opened granted datagram s in
    left_by-OnOk (IsCounted most) s (done >>= λ r. ok r.0) h (
      OnOk->>= (λ r. IsCounted most r.0) (IsCounted most) done (λ r. ok r.0)
        (open_stream-IsCounted most limits requested opened granted datagram s refl h) (λ r h'. h'))
perform-IsCounted limits (controls sent id message) s h =
    let most = limits.max_streams_per_session in
    left_by-OnOk (IsCounted most) s (handle_control sent id message s) h (
      handle_control-Kept (Counted most) id (remove-Counted most id) (put-Counted most id) sent
        message s h)
perform-IsCounted limits (carries sent id payload) s h =
    let most = limits.max_streams_per_session in
    left_by-OnOk (IsCounted most) s (handle_data sent id payload s) h (
      handle_data-Kept (Counted most) id (remove-Counted most id) (put-Counted most id) sent payload
        s h)
perform-IsCounted limits (closes sent id reason_code) s h =
    let most = limits.max_streams_per_session in
    left_by-OnOk (IsCounted most) s (close_stream sent id reason_code s) h (
      close_stream-Kept (Counted most) id (remove-Counted most id) (put-Counted most id) sent
        reason_code s h)
perform-IsCounted limits (fails fault) s h =
    fail_all-IsCounted limits.max_streams_per_session fault s h

live-IsCounted :
    (limits : Limits) (calls : List Call) (s : Session)
    → IsCounted limits.max_streams_per_session s
    → IsCounted limits.max_streams_per_session (live limits calls s)
unfolding live
live-IsCounted limits [] s h = h
live-IsCounted limits (call ∷ calls) s h =
    live-IsCounted limits calls (perform limits call s) (perform-IsCounted limits call s h)

not-IsUsed : (n : ℕ) → IsUsed n n → ⊥
not-IsUsed n (low, high) = elim (Bool-cases (n == 0)) [
  | inl e ↦ let f : n ≡ 0 = (==_iff n 0).0 e in omega (arith, low, f)
  | inr e ↦ IsUsed-before n e n (low, high) refl
]

absent : (n : ℕ) (entries : List (ℕ × Entry)) → All (IsUsed n) (ids entries) → find n entries ≡ none
absent n entries h = elim (Option-cases (find n entries)) [
  | inl e ↦ e
  | inr (entry, e) ↦ absurd (not-IsUsed n (All-find (IsUsed n) n entries h e))
]

-- Over any sequence of openings, of frames of the Agent, of closes and failures: the streams of the
-- session never exceed the limit, each has its own identifier, and the identifier that is given out
-- next belongs to no stream, present or past, so that late data is never taken for a new stream's.
pub ids-live :
    (limits : Limits) (calls : List Call) (s : Session)
    → IsCounted limits.max_streams_per_session s
    → let s' = live limits calls s in
      (length s'.streams ≤ limits.max_streams_per_session)
      × Distinct (ids s'.streams)
      × (find s'.next_id s'.streams ≡ none)
      × (find s'.next_id s'.detached ≡ none)
ids-live limits calls s h =
    let s' = live limits calls s in
    let (a, b, c, d, f) = live-IsCounted limits calls s h in
    (d, c, absent s'.next_id s'.streams a, absent s'.next_id s'.detached b)
