-- ===== src/Streams/Ending.antt =====
-- The end of a stream.
use universal_agent_studio.Prelude.{
  ℕ, ◌≡◌, refl, true, Result-cases, List, [], ◌∷◌, ◌++◌, ok, inl, inr,
}
use mathlib.Core.Path.{fun_ext, ap}
use universal_agent_studio.Catalog.{Tenant}
use universal_agent_studio.RunService.{StoredRun, is_terminal}
use universal_agent_studio.RunService.Requests.{Outside, get_run, list_run_events}
use universal_agent_studio.Streams.{Poll, Stream, go_on, turn, stream_run_events}

module _ (o : Outside) (t : Tenant) (run_id : ℕ) (q : Poll) (more : List Poll) (run : StoredRun)
    (known : (get_run o t run_id q.checked).0 ≡ ok run) (over : is_terminal run.status ≡ true) where
  last_turn :
      (c : ℕ) (rest rest' : ℕ → Stream) → turn o t run_id c q rest ≡ turn o t run_id c q rest'
  unfolding turn go_on
  last_turn c rest rest' = elim (Result-cases (list_run_events o t run_id c q.listed).0) [
    | inl (rows, e) ↦ simp (e, known, over) refl
    | inr (x, e) ↦ simp (e) refl
  ]

  -- A stream does not outlive its run: once a poll reads the run in a terminal status, the stream is
  -- the same whatever would be polled later, after any polls before it.
  pub stream_run_events-ended :
      (before : List Poll)
      → stream_run_events o t run_id (before ++ q ∷ more)
        ≡ stream_run_events o t run_id (before ++ q ∷ [])
  unfolding stream_run_events
  stream_run_events-ended [] =
      fun_ext
        (λ c. last_turn c (stream_run_events o t run_id more) (stream_run_events o t run_id []))
  stream_run_events-ended (p ∷ ps) =
      fun_ext (λ c. ap (turn o t run_id c p) (stream_run_events-ended ps))
