-- ===== src/Stateful/Laws.antt =====
-- What a service's state says of the procedures that ran.
use tempesta_test.Base.{
  ◌≡◌, ap, ◌∙◌, List, [], ◌∷◌, ◌++◌, none, some, Error, arith, append-nil, append_assoc,
  Option-cases, inl, inr,
}
use tempesta_test.Stateful.{State, Service, Procedure, append_exception, stop_step, force_stop}

module _ {W : Type 0} where
  -- The world after all procedures, whichever of them raise.
  abbrev pub world_after : List (Procedure W) → W → W
  world_after [] w = w
  world_after (p ∷ l) w = world_after l (p w).0

  -- The exceptions that they raise, in order.
  pub raised_by : List (Procedure W) → W → List Error
  raised_by [] w = []
  raised_by (p ∷ l) w =
      let rest = raised_by l (p w).0 in elim (p w).1 [ none ↦ rest | some e ↦ e ∷ rest ]

  -- What the last procedure leaves: no exception is `stopped`, one is `error`.
  pub last_state : State → List (Procedure W) → W → State
  last_state s [] w = s
  last_state s (p ∷ l) w =
      last_state (elim (p w).1 [ none ↦ State.stopped | some e ↦ State.error ]) l (p w).0

  -- `force_stop` runs every stop procedure, also after one has raised; it puts every exception
  -- behind the old ones, in order; and its state is the one that the last procedure leaves.
  force_stop_lem :
      (procedures : List (Procedure W)) (s : Service W)
      → force_stop procedures s ≡ record {
        state = last_state s.state procedures s.world;
        exceptions = s.exceptions ++ raised_by procedures s.world;
        world = world_after procedures s.world;
      }
  unfolding force_stop last_state raised_by
  force_stop_lem [] s = rw append-nil
  force_stop_lem (p ∷ l) s = elim (Option-cases ((p s.world).1)) [
    | inl fine ↦ force_stop_lem l (stop_step p s) ∙ (unfold stop_step in ground arith)
    | inr (e, bad) ↦
        force_stop_lem l (stop_step p s)
        ∙ (unfold stop_step append_exception in
            ground (arith, append_assoc s.exceptions (e ∷ []) (raised_by l (p s.world).0)))
  ]

  -- A failure is masked: if the last procedure succeeds, the service counts as stopped, although
  -- the exceptions of the earlier ones are recorded.
  pub last_state-append :
      (s : State) (procedures : List (Procedure W)) (p : Procedure W) (w : W)
      → (p (world_after procedures w)).1 ≡ none
      → last_state s (procedures ++ p ∷ []) w ≡ State.stopped
  unfolding last_state
  last_state-append s [] p w h = ground arith
  last_state-append s (q ∷ l) p w h =
      last_state-append (elim (q w).1 [ none ↦ State.stopped | some e ↦ State.error ]) l p (q w).0 h

  -- If the last stop procedure raises nothing, then the service is stopped and not in error after
  -- `force_stop`, whatever the procedures before it raised.
  pub force_stop-append :
      (procedures : List (Procedure W)) (p : Procedure W) (s : Service W)
      → (p (world_after procedures s.world)).1 ≡ none
      → (force_stop (procedures ++ p ∷ []) s).state ≡ State.stopped
  force_stop-append procedures p s h =
      ap (λ (r : Service W). r.state) (force_stop_lem (procedures ++ p ∷ []) s)
      ∙ last_state-append s.state procedures p s.world h
