-- ===== src/AsyncIsle/Rounds.antt =====
-- src/async_isle.rs, `run_async_loop`: what one round makes of the first request.
use mlua_isle.Base.{
  ◌≡◌, refl, true, false, List, [], ◌∷◌, Result, arith, Bool-cases, inl, inr, ◌⊎◌, some, update,
}
use mlua_isle.Tokio.{Notify}
use mlua_isle.Error.{IsleError}
use mlua_isle.Handle.{Outcome, returns, panics}
use mlua_isle.AsyncIsle.{
  AsyncIsle, Request, run, jobs, receive, sync, coroutine, shutdown_request, close, drop_senders,
}
use mlua_isle.AsyncIsle.Steps.{drop_senders_lem}

module _ {N : Notify} {T : Type 0} where
  -- What a round of the receive loop, from `w` to `u`, makes of the first of the requests `q`: its
  -- coroutine is spawned, or its job has run, and its result is sent, or a panic of it ended the loop.
  abbrev pub IsFirstStarted :
      List Request → Outcome (Result T IsleError) → AsyncIsle N T → AsyncIsle N T → Type 0
  IsFirstStarted [] out w u = Unit
  IsFirstStarted (shutdown_request ∷ rest) out w u = Unit
  IsFirstStarted (run coroutine r n ∷ rest) out w u = u.coroutines ≡ r ∷ w.coroutines
  IsFirstStarted (run sync r n ∷ rest) (returns v) w u =
      u.reply r ≡ record { value = some v; sender = false }
  IsFirstStarted (run sync r n ∷ rest) (panics m) w u =
      ((u.reply r).sender ≡ false) × (u.receiver ≡ false)

  pub receive-IsFirstStarted :
      (out : Outcome (Result T IsleError)) (w : AsyncIsle N T) (q : List Request)
      → w.queue ≡ q
      → (w.receiver ≡ true) ⊎ (q ≡ [])
      → IsFirstStarted q out w (receive out w)
  unfolding receive close
  receive-IsFirstStarted out w [] e o = tt
  receive-IsFirstStarted out w (shutdown_request ∷ rest) e o = tt
  receive-IsFirstStarted out w (run j r n ∷ rest) e (inr z) = absurd (ground (arith, z))
  receive-IsFirstStarted out w (run coroutine r n ∷ rest) e (inl t) = rw (receive, t, e) refl
  receive-IsFirstStarted (returns v) w (run sync r n ∷ rest) e (inl t) = ground (arith, t, e)
  receive-IsFirstStarted (panics m) w (run sync r n ∷ rest) e (inl t) =
      let reply = update w.reply r (record (w.reply r) { sender = false }) in
      let (a, b) = drop_senders_lem (jobs rest) reply r in
      rw (receive, t, e)
        ((
          elim (Bool-cases (drop_senders (jobs rest) reply r).sender) [
            | inl x ↦ absurd (ground (arith, b x))
            | inr f ↦ f
          ],
          refl,
        ))
