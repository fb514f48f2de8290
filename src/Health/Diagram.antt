-- ===== src/Health/Diagram.antt =====
-- internal/agent/tunnelstates/machine.go: the transition table as a diagram, and what follows.
use hooshi_xagent.Health.{
  State, init, connecting, connected, degraded, reconnecting, revoked, shutdown, transition,
  terminal, run, state_eq,
}
use hooshi_xagent.Base.{
  arith, refl, true, ◌≡◌, ◌⊎◌, Bool, List, [], ap, false, inl, inr, ◌↔◌, ◌∷◌, Bool-cases, subst,
  sym, ◌∙◌,
}
use mathlib.Core.Bool.{true≢false}

pub data IsLive : State → Type 0 where
  connecting_live : IsLive connecting
  connected_live : IsLive connected
  degraded_live : IsLive degraded
  reconnecting_live : IsLive reconnecting

-- The documented diagram, independent of the table's order.
infix 40 ◌⟶◌
pub data ◌⟶◌ : State → State → Type 0 where
  dial : init ⟶ connecting
  stop_idle : init ⟶ shutdown
  establish : connecting ⟶ connected
  dial_failed : connecting ⟶ reconnecting
  wobble : connected ⟶ degraded
  recover : degraded ⟶ connected
  drop : connected ⟶ reconnecting
  drop_degraded : degraded ⟶ reconnecting
  redial : reconnecting ⟶ connecting
  resume : reconnecting ⟶ connected
  revoke : {s : State} → IsLive s → s ⟶ revoked
  stop : {s : State} → IsLive s → s ⟶ shutdown

ruleset edges =
    (dial, stop_idle, establish, dial_failed, wobble, recover, drop, drop_degraded, redial, resume)

ruleset live = (connecting_live, connected_live, degraded_live, reconnecting_live)

⟶-transition : {s t : State} → s ⟶ t → transition s t ≡ (t, true)
unfolding transition
⟶-transition dial = refl
⟶-transition stop_idle = refl
⟶-transition establish = refl
⟶-transition dial_failed = refl
⟶-transition wobble = refl
⟶-transition recover = refl
⟶-transition drop = refl
⟶-transition drop_degraded = refl
⟶-transition redial = refl
⟶-transition resume = refl
⟶-transition (revoke connecting_live) = refl
⟶-transition (revoke connected_live) = refl
⟶-transition (revoke degraded_live) = refl
⟶-transition (revoke reconnecting_live) = refl
⟶-transition (stop connecting_live) = refl
⟶-transition (stop connected_live) = refl
⟶-transition (stop degraded_live) = refl
⟶-transition (stop reconnecting_live) = refl

accepted_lem :
    (s t : State) → (transition s t).1 ≡ true → (s ⟶ t) ⊎ ((s ≡ t) × (terminal s ≡ false))
unfolding transition
accepted_lem s t h = grind (arith, edges, live, revoke, stop)

repeat_lem : (s t : State) → s ≡ t → terminal s ≡ false → (transition s t).1 ≡ true
unfolding transition
repeat_lem s t e h = ground arith

reached_lem : (s t : State) → (transition s t).1 ≡ true → (transition s t).0 ≡ t
unfolding transition
reached_lem s t h = ground arith

kept_lem : (s t : State) → (transition s t).1 ≡ false → (transition s t).0 ≡ s
unfolding transition
kept_lem s t h = ground arith

-- A change is accepted exactly along an edge of the diagram, or as the repeat of a state that is
-- not terminal. An accepted change leaves the machine in the state asked for, a refused one leaves
-- it as it was.
pub transition_exact :
    (s t : State)
    → (((transition s t).1 ≡ true) ↔ ((s ⟶ t) ⊎ ((s ≡ t) × (terminal s ≡ false))))
      × ((transition s t).1 ≡ true → (transition s t).0 ≡ t)
      × ((transition s t).1 ≡ false → (transition s t).0 ≡ s)
transition_exact s t = ((accepted_lem s t, offered), reached_lem s t, kept_lem s t)
  where
    offered : (s ⟶ t) ⊎ ((s ≡ t) × (terminal s ≡ false)) → (transition s t).1 ≡ true
    offered (inl edge) = ap (λ (r : State × Bool). r.1) (⟶-transition edge)
    offered (inr (same, live)) = repeat_lem s t same live

-- What the diagram says of a caller that asks for one state after another, whatever it is answered:
-- the machine takes the edge to the state asked for, and stays where there is no such edge.
pub data Follows : State → List State → State → Type 0 where
  stays : {s : State} → Follows s [] s
  moves : {s t u : State} {ts : List State} → s ⟶ t → Follows t ts u → Follows s (t ∷ ts) u
  ignores : {s t u : State} {ts : List State} → ¬ (s ⟶ t) → Follows s ts u → Follows s (t ∷ ts) u

edge_changes : {s t : State} → s ⟶ t → state_eq s t ≡ false
edge_changes dial = refl
edge_changes stop_idle = refl
edge_changes establish = refl
edge_changes dial_failed = refl
edge_changes wobble = refl
edge_changes recover = refl
edge_changes drop = refl
edge_changes drop_degraded = refl
edge_changes redial = refl
edge_changes resume = refl
edge_changes (revoke connecting_live) = refl
edge_changes (revoke connected_live) = refl
edge_changes (revoke degraded_live) = refl
edge_changes (revoke reconnecting_live) = refl
edge_changes (stop connecting_live) = refl
edge_changes (stop connected_live) = refl
edge_changes (stop degraded_live) = refl
edge_changes (stop reconnecting_live) = refl

state_eq-same : (s : State) → state_eq s s ≡ true
state_eq-same s = ground arith

edge_cases :
    (s t : State) → ((s ⟶ t) × ((transition s t).0 ≡ t)) ⊎ (¬ (s ⟶ t) × ((transition s t).0 ≡ s))
edge_cases s t = elim (Bool-cases (transition s t).1) [
  | inl e ↦ elim (accepted_lem s t e) [
    | inl edge ↦ inl (edge, reached_lem s t e)
    | inr (same, _) ↦ inr (
      λ edge.
          true≢false (sym (state_eq-same s) ∙ (ap (λ x. state_eq s x) same ∙ edge_changes edge)),
      reached_lem s t e ∙ sym same,
    )
  ]
  | inr e ↦ inr (
    λ edge. true≢false (sym (ap (λ (r : State × Bool). r.1) (⟶-transition edge)) ∙ e),
    kept_lem s t e,
  )
]

run-Follows : (s : State) (ts : List State) → Follows s ts (run s ts)
unfolding run
run-Follows s [] = stays
run-Follows s (t ∷ ts) = elim (edge_cases s t) [
  | inl (edge, e) ↦ moves edge (rw e (run-Follows t ts))
  | inr (n, e) ↦ ignores n (rw e (run-Follows s ts))
]

Follows-run : {s u : State} {ts : List State} → Follows s ts u → run s ts ≡ u
unfolding run
Follows-run stays = refl
Follows-run (moves {s} {t} {u} {ts} edge rest) =
    ap (λ (r : State × Bool). run r.0 ts) (⟶-transition edge) ∙ Follows-run rest
Follows-run (ignores {s} {t} {u} {ts} n rest) = elim (edge_cases s t) [
  | inl (edge, _) ↦ absurd (n edge)
  | inr (_, e) ↦ ap (λ x. run x ts) e ∙ Follows-run rest
]

-- Over a lifetime of requests, accepted or not, the machine ends in a state exactly when the diagram
-- leads there: each request for which there is an edge from the state at that time takes that edge,
-- and each other one is without effect. So no state is entered but along its edges.
pub run_iff : (s u : State) (ts : List State) → (run s ts ≡ u) ↔ Follows s ts u
run_iff s u ts = (λ e. subst (Follows s ts) e (run-Follows s ts), Follows-run)

-- A revoked or stopped machine stays as it is, whatever is asked of it.
pub run-terminal : (s : State) (ts : List State) → terminal s ≡ true → run s ts ≡ s
unfolding run transition
run-terminal s [] h = refl
run-terminal s (t ∷ ts) h = rw h (run-terminal s ts h)
