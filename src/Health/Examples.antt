-- ===== src/Health/Examples.antt =====
-- State machines and combined views on concrete input.
use hooshi_xagent.Health.{
  State, init, connecting, connected, degraded, revoked, terminal, transition, run,
}
use hooshi_xagent.Health.Diagram.{◌⟶◌, Follows, transition_exact, run_iff}
use hooshi_xagent.Health.Aggregate.{aggregate_state, aggregate_revoked}
use hooshi_xagent.Base.{List, [], refl, inl, inr, true, false, ◌∷◌, ◌≡◌, ◌↔◌, ◌⊎◌}

transition_exact_example :
    (((transition connecting connected).1 ≡ true)
      ↔ ((connecting ⟶ connected) ⊎ ((connecting ≡ connected) × (terminal connecting ≡ false))))
    × ((transition connecting connected).1 ≡ true → (transition connecting connected).0 ≡ connected)
    × ((transition connecting connected).1 ≡ false
        → (transition connecting connected).0 ≡ connecting)
transition_exact_example = transition_exact connecting connected

asked : List State
asked = connecting ∷ connected ∷ init ∷ degraded ∷ revoked ∷ connecting ∷ []

run_iff_example : (run init asked ≡ revoked) ↔ Follows init asked revoked
run_iff_example = run_iff init revoked asked

aggregate_revoked_example : aggregate_state (init ∷ revoked ∷ []) ≡ revoked
aggregate_revoked_example =
    aggregate_revoked (init ∷ revoked ∷ []) (inr (inl refl)) (inr (inr refl), (inl refl, tt))
