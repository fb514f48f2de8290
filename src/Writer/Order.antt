-- ===== src/Writer/Order.antt =====
-- internal/gateway/session.go: data that the writer of a session has accepted keeps its order and is
-- not dropped, and what callers are told is what happened.
use hooshi_xagent.Writer.{
  Request, Writer, write_queued, Place, write_control, after_check, hold, stop_if_done, turn, Event,
  submit, step, run, poll_control, after_poll, new_writer, Arm,
}
use hooshi_xagent.Base.{
  List, [], ◌∷◌, ◌++◌, ℕ, Bool, true, false, Option, some, none, if◌then◌else◌, ◌≡◌, if_cases, ap,
  refl, sym, ◌∙◌, All, All-append, length, ltb, subst,
}
use mathlib.Core.List.{append_assoc, append-nil}
use hooshi_xagent.Writer.Answers.{
  IsKept, is_control, on_wire, told_sent, data_only, data_answered, held, data_order, IsControl,
  IsOther, IsTidy, answered_order, answered-IsTidy, write_queued-IsAnswered,
}

-- A step keeps the order, and adds what it accepts at the end.
abbrev Follows : List Request → Writer → Writer → Type 0
Follows accepted w w' = IsTidy w' × (data_order w' ≡ data_order w ++ accepted)

write_control-Follows :
    (requests : List Request) (ended fails : Bool) (w : Writer)
    → w.control_writes ≡ requests
    → IsTidy w
    → Follows [] w (write_control requests ended fails w)
unfolding write_control
write_control-Follows [] ended fails w e h = (h, sym (append-nil (data_order w)))
write_control-Follows (request ∷ rest) ended fails w e (a, b, c, d, told, never) =
    let (this, those) = subst (All IsControl) e a in
    let base : Writer = record w { place = Place.top; control_writes = rest } in
    let answered = write_queued-IsAnswered request ended fails base in
    let w' = write_queued request ended fails base in
    let order = answered_order request base w' answered in
    let nothing : data_only request ≡ [] = rw this refl in
    (
      answered-IsTidy request base w' (those, b, c, λ f. cc, told, never) answered,
      order
          ∙ ap (λ x. data_answered w.answers ++ (x ++ (held w.pending_data ++ w.data_writes)))
              nothing
          ∙ sym (append-nil (data_order w)),
    )

write_held-Follows :
    (request : Request) (ended fails : Bool) (w : Writer)
    → w.pending_data ≡ some request
    → IsTidy w
    → Follows [] w
        (write_queued request ended fails (record w { place = Place.top; pending_data = none }))
write_held-Follows request ended fails w e (a, b, c, d, told, never) =
    let (this, none_left) = subst (λ x. All IsOther (held x)) e c in
    let base : Writer = record w { place = Place.top; pending_data = none } in
    let answered = write_queued-IsAnswered request ended fails base in
    let w' = write_queued request ended fails base in
    let order = answered_order request base w' answered in
    let itself : data_only request ≡ request ∷ [] = rw this refl in
    (
      answered-IsTidy request base w' (a, b, tt, λ f. refl, told, never) answered,
      order
          ∙ ap (λ x. data_answered w.answers ++ (x ++ w.data_writes)) itself
          ∙ ap (λ x. data_answered w.answers ++ (held x ++ w.data_writes)) (sym e)
          ∙ sym (append-nil (data_order w)),
    )

-- A change of place alone.
moved-Follows :
    (place : Place) (w : Writer)
    → (place ≡ Place.polled → w.pending_data ≡ none)
    → IsTidy w
    → Follows [] w (record w { place = place })
moved-Follows place w settled (a, b, c, d, told, never) =
    ((a, b, c, settled, told, never), sym (append-nil (data_order w)))

after_check-Follows :
    (pending : Option Request) (ended fails : Bool) (w : Writer)
    → w.pending_data ≡ pending
    → IsTidy w
    → Follows [] w (after_check pending ended fails w)
unfolding after_check poll_control
after_check-Follows (some request) ended fails w e h = write_held-Follows request ended fails w e h
after_check-Follows none ended fails w e h = polled-Follows w.control_writes refl
  where
    polled-Follows :
        (requests : List Request)
        → w.control_writes ≡ requests
        → Follows [] w (poll_control requests ended fails w)
    polled-Follows [] f = moved-Follows Place.polled w (λ g. e) h
    polled-Follows (request ∷ rest) f = write_control-Follows (request ∷ rest) ended fails w f h

hold-Follows :
    (requests : List Request) (w : Writer)
    → w.data_writes ≡ requests
    → w.pending_data ≡ none
    → IsTidy w
    → Follows [] w (hold requests w)
unfolding hold
hold-Follows [] w e free h = (h, sym (append-nil (data_order w)))
hold-Follows (request ∷ rest) w e free (a, b, c, d, told, never) =
    let (this, those) = subst (All IsOther) e b in
    (
      (a, those, (this, tt), λ f. cc, told, never),
      ap (λ x. data_answered w.answers ++ x) (sym e)
          ∙ ap (λ x. data_answered w.answers ++ (held x ++ w.data_writes)) (sym free)
          ∙ sym (append-nil (data_order w)),
    )

stop_if_done-Follows :
    (place : Place) (w : Writer)
    → (place ≡ Place.polled → w.pending_data ≡ none)
    → IsTidy w
    → Follows [] w (stop_if_done place w)
unfolding stop_if_done
stop_if_done-Follows place w settled h =
    if_cases (Follows [] w) w.done (λ e. moved-Follows Place.stopped w (λ f. cc) h)
      (λ e. moved-Follows place w settled h)

turn-Follows :
    (place : Place) (arm : Arm) (ended fails : Bool) (w : Writer)
    → w.place ≡ place
    → IsTidy w
    → Follows [] w (turn place arm ended fails w)
unfolding turn after_poll
turn-Follows Place.top arm ended fails w e h = stop_if_done-Follows Place.checked w (λ f. cc) h
turn-Follows Place.checked arm ended fails w e h =
    after_check-Follows w.pending_data ended fails w refl h
turn-Follows Place.polled Arm.control_arm ended fails w e h =
    write_control-Follows w.control_writes ended fails w refl h
turn-Follows Place.polled Arm.data_arm ended fails w e h =
    hold-Follows w.data_writes w refl (h.3 e) h
turn-Follows Place.polled Arm.done_arm ended fails w e h =
    stop_if_done-Follows Place.polled w (λ f. h.3 e) h
turn-Follows Place.stopped arm ended fails w e h = (h, sym (append-nil (data_order w)))

-- The data request that a step puts into its queue.
unfoldable pub accepted_by : Event → Writer → List Request
accepted_by (Event.submitted request) w =
    if is_control request then [] else (if ltb (length w.data_writes) 2 then request ∷ [] else [])
accepted_by event w = []

unfoldable pub accepted : List Event → Writer → List Request
unfolding accepted_by
accepted [] w = []
accepted (event ∷ events) w = accepted_by event w ++ accepted events (step event w)

-- What `submit` does, by the kind of the request and by the room in the two queues.
queued-Follows :
    (request : Request) (to_control control_room data_room : Bool) (w : Writer)
    → is_control request ≡ to_control
    → IsTidy w
    → Follows (if to_control then [] else (if data_room then request ∷ [] else [])) w (
        if to_control
        then (if control_room
            then record w { control_writes = w.control_writes ++ (request ∷ []) }
            else w)
        else (if data_room then record w { data_writes = w.data_writes ++ (request ∷ []) } else w))
queued-Follows request true true data_room w e (a, b, c, d, told, never) = (
  (All-append IsControl w.control_writes (request ∷ []) a (e, tt), b, c, d, told, never),
  sym (append-nil (data_order w)),
)
queued-Follows request true false data_room w e h = (h, sym (append-nil (data_order w)))
queued-Follows request false control_room true w e (a, b, c, d, told, never) = (
  (a, All-append IsOther w.data_writes (request ∷ []) b (e, tt), c, d, told, never),
  sym (
      append_assoc (data_answered w.answers) (held w.pending_data ++ w.data_writes) (request ∷ [])
      ∙ ap (λ x. data_answered w.answers ++ x)
          (append_assoc (held w.pending_data) w.data_writes (request ∷ []))),
)
queued-Follows request false control_room false w e h = (h, sym (append-nil (data_order w)))

submit-Follows :
    (request : Request) (w : Writer)
    → IsTidy w
    → Follows (accepted_by (Event.submitted request) w) w (submit request w)
unfolding submit accepted_by
submit-Follows request w h =
    queued-Follows request (is_control request) (ltb (length w.control_writes) 32)
      (ltb (length w.data_writes) 2) w refl h

step-Follows :
    (event : Event) (w : Writer) → IsTidy w → Follows (accepted_by event w) w (step event w)
unfolding step accepted_by
step-Follows (Event.submitted request) w h = submit-Follows request w h
step-Follows Event.shut w h = (h, sym (append-nil (data_order w)))
step-Follows (Event.turned arm ended fails) w h = turn-Follows w.place arm ended fails w refl h

run-Follows :
    (events : List Event) (w : Writer) → IsTidy w → Follows (accepted events w) w (run events w)
unfolding run accepted
run-Follows [] w h = (h, sym (append-nil (data_order w)))
run-Follows (event ∷ events) w h =
    let (tidy, order) = step-Follows event w h in
    let (tidy', order') = run-Follows events (step event w) tidy in
    (
      tidy',
      order'
          ∙ ap (λ x. x ++ accepted events (step event w)) order
          ∙ append_assoc (data_order w) (accepted_by event w) (accepted events (step event w)),
    )

-- However callers, the writer and the close of the session interleave: the data requests that were
-- accepted are, in the order of their acceptance, those that were answered, then the one that is
-- held and those that are queued; `sent` was answered for exactly what was written, in its order;
-- and `expired` was answered for no data request.
pub run_order :
    (first : ℕ) (events : List Event)
    → let w = run events (new_writer first) in
      (data_answered w.answers ++ (held w.pending_data ++ w.data_writes)
        ≡ accepted events (new_writer first))
      × (on_wire w.wire ≡ told_sent w.answers)
      × All IsKept w.answers
run_order first events =
    let (tidy, order) = run-Follows events (new_writer first) (tt, tt, tt, (λ f. refl), refl, tt) in
    (order, tidy.4, tidy.5)
