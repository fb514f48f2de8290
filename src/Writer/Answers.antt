-- ===== src/Writer/Answers.antt =====
-- internal/gateway/session.go: the writer of a session answers each request once, and says `sent` of
-- a frame that it wrote.
use hooshi_xagent.Frame.{
  Frame, FieldError, SequenceError, encode_frame, next_sequence, kind_control,
}
use hooshi_xagent.Writer.{
  Request, Answer, Writer, answer, give_up, put, encode_and_put, number_and_put, write_queued,
  is_data, frame_of, Place,
}
use hooshi_xagent.Base.{
  List, [], ◌∷◌, ◌++◌, ℕ, Bool, true, false, not, ◌&&◌, Option, some, none, Result, ok, err,
  if◌then◌else◌, ◌≡◌, ◌==◌, if_cases, ap, refl, sym, ◌∙◌, All, subst, All-append, arith,
}
use mathlib.Core.List.{append_assoc, append-nil}

abbrev pub is_control : Request → Bool
is_control request = request.kind == kind_control

-- What a frame carries, without its number.
abbrev pub Content : Type 0
Content = ℕ × ℕ × List ℕ

abbrev pub on_wire : List (Frame × List ℕ) → List Content
on_wire [] = []
on_wire ((frame, bytes) ∷ rest) = (frame.kind, frame.stream_id, frame.payload) ∷ on_wire rest

abbrev pub reported : Request × Answer → List Content
reported (request, Answer.sent) = (request.kind, request.stream_id, request.payload) ∷ []
reported (request, said) = []

-- What the callers that were told `sent` had asked for.
abbrev pub told_sent : List (Request × Answer) → List Content
told_sent [] = []
told_sent (one ∷ rest) = reported one ++ told_sent rest

abbrev pub data_only : Request → List Request
data_only request = if is_control request then [] else request ∷ []

abbrev pub data_answered : List (Request × Answer) → List Request
data_answered [] = []
data_answered ((request, said) ∷ rest) = data_only request ++ data_answered rest

abbrev pub held : Option Request → List Request
held none = []
held (some request) = request ∷ []

-- The data requests in the writer's hands, those that were answered first.
abbrev pub data_order : Writer → List Request
data_order w = data_answered w.answers ++ (held w.pending_data ++ w.data_writes)

on_wire-append : (xs ys : List (Frame × List ℕ)) → on_wire (xs ++ ys) ≡ on_wire xs ++ on_wire ys
on_wire-append [] ys = refl
on_wire-append (x ∷ xs) ys = ap (◌∷◌ (x.0.kind, x.0.stream_id, x.0.payload)) (on_wire-append xs ys)

told_sent-append :
    (xs ys : List (Request × Answer)) → told_sent (xs ++ ys) ≡ told_sent xs ++ told_sent ys
told_sent-append [] ys = refl
told_sent-append (x ∷ xs) ys =
    ap (λ rest. reported x ++ rest) (told_sent-append xs ys)
    ∙ sym (append_assoc (reported x) (told_sent xs) (told_sent ys))

data_answered-append :
    (xs ys : List (Request × Answer))
    → data_answered (xs ++ ys) ≡ data_answered xs ++ data_answered ys
data_answered-append [] ys = refl
data_answered-append (x ∷ xs) ys =
    ap (λ rest. data_only x.0 ++ rest) (data_answered-append xs ys)
    ∙ sym (append_assoc (data_only x.0) (data_answered xs) (data_answered ys))

-- The request was answered once, its frame was written when the answer is `sent`, and the queues are
-- as they were.
abbrev pub IsAnswered : Request → Writer → Writer → Type 0
IsAnswered request w w' =
    (said : Answer) × (w'.answers ≡ w.answers ++ ((request, said) ∷ []))
    × (on_wire w'.wire ≡ on_wire w.wire ++ reported (request, said))
    × (w'.pending_data ≡ w.pending_data)
    × (w'.control_writes ≡ w.control_writes)
    × (w'.data_writes ≡ w.data_writes)
    × (w'.place ≡ w.place)
    × (said ≡ Answer.expired → is_data request ≡ false)

put-IsAnswered :
    (request : Request) (sequence : ℕ) (bytes : List ℕ) (fails : Bool) (w : Writer)
    → IsAnswered request w (put request (frame_of request sequence) bytes fails w)
unfolding put answer give_up
put-IsAnswered request sequence bytes true w =
    (Answer.write_failed, refl, sym (append-nil (on_wire w.wire)), refl, refl, refl, refl, λ e. cc)
put-IsAnswered request sequence bytes false w = (
  Answer.sent,
  refl,
  on_wire-append w.wire ((frame_of request sequence, bytes) ∷ []),
  refl,
  refl,
  refl,
  refl,
  λ e. cc,
)

encode_and_put-IsAnswered :
    (request : Request) (sequence : ℕ) (encoding : Result FieldError (List ℕ)) (fails : Bool)
    (w : Writer)
    → IsAnswered request w (encode_and_put request (frame_of request sequence) encoding fails w)
unfolding encode_and_put answer
encode_and_put-IsAnswered request sequence (err fault) fails w = (
  Answer.not_encoded fault,
  refl,
  sym (append-nil (on_wire w.wire)),
  refl,
  refl,
  refl,
  refl,
  λ e. cc,
)
encode_and_put-IsAnswered request sequence (ok bytes) fails w =
    put-IsAnswered request sequence bytes fails w

number_and_put-IsAnswered :
    (request : Request) (number : Result SequenceError ℕ) (fails : Bool) (w : Writer)
    → IsAnswered request w (number_and_put request number fails w)
unfolding number_and_put give_up answer
number_and_put-IsAnswered request (err fault) fails w =
    (Answer.exhausted, refl, sym (append-nil (on_wire w.wire)), refl, refl, refl, refl, λ e. cc)
number_and_put-IsAnswered request (ok sequence) fails w =
    encode_and_put-IsAnswered request sequence (encode_frame (frame_of request sequence)) fails w

not_data : (ended data_request : Bool) → (ended && not data_request) ≡ true → data_request ≡ false
not_data ended data_request e = ground arith

pub write_queued-IsAnswered :
    (request : Request) (ended fails : Bool) (w : Writer)
    → IsAnswered request w (write_queued request ended fails w)
unfolding write_queued answer
write_queued-IsAnswered request ended fails w =
    if_cases (IsAnswered request w) (ended && not (is_data request))
      (λ e. (
        Answer.expired,
        refl,
        sym (append-nil (on_wire w.wire)),
        refl,
        refl,
        refl,
        refl,
        λ f. not_data ended (is_data request) e,
      ))
      (λ e. number_and_put-IsAnswered request (next_sequence w.outbound) fails w)

abbrev pub IsControl : Request → Type 0
IsControl request = is_control request ≡ true

abbrev pub IsOther : Request → Type 0
IsOther request = is_control request ≡ false

-- A data request is not given up because its caller has.
abbrev pub IsKept : Request × Answer → Type 0
IsKept (request, said) = said ≡ Answer.expired → is_data request ≡ false

-- Each queue holds its kind, the goroutine waits only with no frame held, and `sent` was said of
-- exactly what was written.
abbrev pub IsTidy : Writer → Type 0
IsTidy w =
    All IsControl w.control_writes
    × All IsOther w.data_writes
    × All IsOther (held w.pending_data)
    × (w.place ≡ Place.polled → w.pending_data ≡ none)
    × (on_wire w.wire ≡ told_sent w.answers)
    × All IsKept w.answers

pub answered_order :
    (request : Request) (w w' : Writer)
    → IsAnswered request w w'
    → data_order w'
      ≡ data_answered w.answers ++ (data_only request ++ (held w.pending_data ++ w.data_writes))
answered_order request w w' (said, p, q, r, s, t, u, v) =
    let one = data_answered-append w.answers ((request, said) ∷ []) in
    rw (p, r, t, one, append-nil (data_only request))
      (append_assoc (data_answered w.answers) (data_only request)
        (held w.pending_data ++ w.data_writes))

pub answered_told :
    (request : Request) (w w' : Writer)
    → IsAnswered request w w'
    → on_wire w.wire ≡ told_sent w.answers
    → on_wire w'.wire ≡ told_sent w'.answers
answered_told request w w' (said, p, q, r, s, t, u, v) told =
    q
    ∙ ap (λ x. x ++ reported (request, said)) told
    ∙ sym (
        ap told_sent p
        ∙ told_sent-append w.answers ((request, said) ∷ [])
        ∙ ap (λ x. told_sent w.answers ++ x) (append-nil (reported (request, said))))

pub answered-IsTidy :
    (request : Request) (w w' : Writer) → IsTidy w → IsAnswered request w w' → IsTidy w'
answered-IsTidy request w w' (a, b, c, d, e, k) h =
    let (said, p, q, r, s, t, u, v) = h in
    (
      subst (All IsControl) (sym s) a,
      subst (All IsOther) (sym t) b,
      subst (λ x. All IsOther (held x)) (sym r) c,
      λ f. r ∙ d (sym u ∙ f),
      answered_told request w w' h e,
      subst (All IsKept) (sym p) (All-append IsKept w.answers ((request, said) ∷ []) k (v, tt)),
    )
