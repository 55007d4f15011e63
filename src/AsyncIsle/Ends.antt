-- ===== src/AsyncIsle/Ends.antt =====
-- src/async_isle.rs: the end of an isle that is shut down, and the answers of what is refused.
use mlua_isle.Base.{
  ℕ, suc, ◌≡◌, ◌⊎◌, refl, sym, ap, ◌∙◌, true, false, Bool, List, [], ◌∷◌, ◌++◌, Option, none, some,
  Result, err, ready, pending, length, arith, Bool-cases, Option-cases, inl, inr, ◌==◌, ◌&&◌,
  if◌then◌else◌,
}
use mlua_isle.Tokio.{Notify}
use mlua_isle.Error.{IsleError}
use mlua_isle.Cancel.{new}
use mlua_isle.Handle.{Outcome, returns, panics, Thread, serving, stopped, panicked, is_serving}
use mlua_isle.AsyncIsle.{
  AsyncIsle, AsyncTask, Job, sync, coroutine, Request, run, shutdown_request, Shutdown, sending,
  waiting, returned, jobs, submit, receive, finish, end_thread, poll, shutdown, close, await_done,
  joined, join_result, is_alive, driver_is_alive, make_error_task, try_send_to_isle_error, new_task,
}
use mlua_isle.AsyncIsle.Runs.{Event, exec, started_isle}
use mlua_isle.AsyncIsle.Effects.{finish_lem}
use mlua_isle.AsyncIsle.Steps.{jobs-append, receive_off}
use mlua_isle.AsyncIsle.Answers.{
  IsAnswering, exec-IsAnswering, started_isle-IsAnswering, ended_polls,
}

module _ {N : Notify} {T : Type 0} where
  -- Rounds of the receive loop, and the ends of coroutines.
  abbrev pub rounds : List (Outcome (Result T IsleError)) → AsyncIsle N T → AsyncIsle N T
  rounds [] w = w
  rounds (out ∷ outs) w = rounds outs (receive out w)

  abbrev pub settle : (ℕ → Outcome (Result T IsleError)) → List ℕ → AsyncIsle N T → AsyncIsle N T
  settle f [] w = w
  settle f (r ∷ rs) w = settle f rs (finish r (f r) w)

  -- The thread of an isle whose rounds and coroutines give these outcomes.
  unfoldable pub drain :
      List (Outcome (Result T IsleError))
      → (ℕ → Outcome (Result T IsleError))
      → AsyncIsle N T
      → AsyncIsle N T
  drain outs f w = let u = rounds outs w in end_thread (returns tt) (settle f u.coroutines u)

  receive-thread :
      (out : Outcome (Result T IsleError)) (w : AsyncIsle N T) (q : List Request)
      → w.queue ≡ q
      → (receive out w).thread ≡ w.thread
  unfolding receive close
  receive-thread out w [] e = elim (Bool-cases w.receiver) [
    | inr f ↦ ap (λ u. u.thread) (receive_off out w f)
    | inl f ↦ elim (Bool-cases (w.senders == 0)) [
      | inl z ↦ rw (receive, f, e, z) refl
      | inr z ↦ rw (receive, f, e, z) refl
    ]
  ]
  receive-thread out w (shutdown_request ∷ rest) e = elim (Bool-cases w.receiver) [
    | inr f ↦ rw (receive, f) refl
    | inl f ↦ rw (receive, f, e) refl
  ]
  receive-thread out w (run coroutine r n ∷ rest) e = elim (Bool-cases w.receiver) [
    | inr f ↦ rw (receive, f) refl
    | inl f ↦ rw (receive, f, e) refl
  ]
  receive-thread (returns v) w (run sync r n ∷ rest) e = elim (Bool-cases w.receiver) [
    | inr f ↦ rw (receive, f) refl
    | inl f ↦ rw (receive, f, e) refl
  ]
  receive-thread (panics m) w (run sync r n ∷ rest) e = elim (Bool-cases w.receiver) [
    | inr f ↦ rw (receive, f) refl
    | inl f ↦ rw (receive, f, e) refl
  ]

  rounds-thread :
      (outs : List (Outcome (Result T IsleError))) (w : AsyncIsle N T)
      → (rounds outs w).thread ≡ w.thread
  rounds-thread [] w = refl
  rounds-thread (out ∷ outs) w =
      rounds-thread outs (receive out w) ∙ receive-thread out w w.queue refl

  -- A loop that has ended stays so.
  rounds_off :
      (outs : List (Outcome (Result T IsleError))) (w : AsyncIsle N T)
      → w.receiver ≡ false
      → (rounds outs w).receiver ≡ false
  rounds_off [] w f = f
  rounds_off (out ∷ outs) w f =
      rounds_off outs (receive out w) (ap (λ u. u.receiver) (receive_off out w f) ∙ f)

  -- A round leaves the rest of the queue, or ends the loop.
  receive_rest :
      (out : Outcome (Result T IsleError)) (w : AsyncIsle N T) (j : Job) (r n : ℕ)
      (rest : List Request)
      → w.receiver ≡ true
      → w.queue ≡ run j r n ∷ rest
      → ((receive out w).receiver ≡ false) ⊎ ((receive out w).queue ≡ rest)
  unfolding receive close
  receive_rest out w coroutine r n rest f e = inr (rw (receive, f, e) refl)
  receive_rest (returns v) w sync r n rest f e = inr (rw (receive, f, e) refl)
  receive_rest (panics m) w sync r n rest f e = inl (rw (receive, f, e) refl)

  receive_last :
      (out : Outcome (Result T IsleError)) (w : AsyncIsle N T) (rest : List Request)
      → w.receiver ≡ true
      → w.queue ≡ shutdown_request ∷ rest
      → (receive out w).receiver ≡ false
  unfolding receive close
  receive_last out w rest f e = rw (receive, f, e) refl

  -- The receive loop ends with the first shutdown request that it receives, so within as many rounds
  -- as there are requests up to it, whatever the requests before it do.
  rounds_end :
      (before after : List Request) (outs : List (Outcome (Result T IsleError))) (w : AsyncIsle N T)
      → w.queue ≡ before ++ shutdown_request ∷ after
      → length outs ≡ suc (length before)
      → (rounds outs w).receiver ≡ false
  rounds_end before after [] w e l = absurd (omega (arith, l))
  rounds_end [] after (out ∷ outs) w e l = elim (Bool-cases w.receiver) [
    | inr f ↦ rounds_off (out ∷ outs) w f
    | inl f ↦ rounds_off outs (receive out w) (receive_last out w after f e)
  ]
  rounds_end (run j r n ∷ before) after (out ∷ outs) w e l = elim (Bool-cases w.receiver) [
    | inr f ↦ rounds_off (out ∷ outs) w f
    | inl f ↦ elim (receive_rest out w j r n (before ++ shutdown_request ∷ after) f e) [
      | inl k ↦ rounds_off outs (receive out w) k
      | inr k ↦ rounds_end before after outs (receive out w) k (omega (arith, l))
    ]
  ]
  rounds_end (shutdown_request ∷ before) after (out ∷ outs) w e l = elim (Bool-cases w.receiver) [
    | inr f ↦ rounds_off (out ∷ outs) w f
    | inl f ↦
        rounds_off outs (receive out w)
          (receive_last out w (before ++ shutdown_request ∷ after) f e)
  ]

  settle_lem :
      (f : ℕ → Outcome (Result T IsleError)) (rs : List ℕ) (w : AsyncIsle N T)
      → w.coroutines ≡ rs
      → let u = settle f rs w in
        (u.coroutines ≡ []) × (u.receiver ≡ w.receiver) × (u.thread ≡ w.thread)
  settle_lem f [] w e = (e, refl, refl)
  settle_lem f (r ∷ rs) w e =
      let k = finish_lem r (f r) w (ground (arith, e)) in
      let (a, b, c) =
        settle_lem f rs (finish r (f r) w) (ap (λ u. u.coroutines) k ∙ ground (arith, e)) in
      (a, b ∙ ap (λ u. u.receiver) k, c ∙ ap (λ u. u.thread) k)

  end_thread_lem :
      (w : AsyncIsle N T)
      → w.receiver ≡ false
      → w.coroutines ≡ []
      → w.thread ≡ serving
      → (end_thread (returns tt) w).thread ≡ stopped
        × ((end_thread (returns tt) w).done ≡ some true)
  unfolding end_thread
  end_thread_lem w f c t = ground (arith, f, c, t)

  await_done_lem : (w : AsyncIsle N T) → (await_done w).2 ≡ joined w
  unfolding await_done
  await_done_lem w =
      elim (joined w) as (λ p. joined w ≡ p → (await_done w).2 ≡ joined w) [
        | pending ↦ λ e. rw (await_done, e) refl
        | ready r ↦ λ e. rw (await_done, e) refl
      ]
        refl

  joined_ended :
      (w : AsyncIsle N T) (t : Thread) (r : Option IsleError)
      → w.thread ≡ t
      → joined w ≡ ready r
      → is_serving t ≡ false
  unfolding joined join_result
  joined_ended w stopped r k e = refl
  joined_ended w (panicked m) r k e = refl
  joined_ended w serving r k e = elim (Option-cases w.done) [
    | inl d ↦ absurd (ground (arith, rw (joined, d) at e))
    | inr (d, x) ↦ absurd (ground (arith, rw (joined, x, k) at e))
  ]

  -- A shutdown ends. From any state of an isle whose thread serves and in whose queue there is a
  -- shutdown request, as many rounds of the receive loop as there are requests up to it, with any
  -- outcomes, and then the end of each coroutine that runs, with any outcome, let the thread end; the
  -- driver's `shutdown` then returns without an error.
  pub shutdown_ends :
      (before after : List Request) (outs : List (Outcome (Result T IsleError)))
      (f : ℕ → Outcome (Result T IsleError)) (room : Bool) (w : AsyncIsle N T)
      → w.queue ≡ before ++ shutdown_request ∷ after
      → length outs ≡ suc (length before)
      → w.thread ≡ serving
      → ((drain outs f w).thread ≡ stopped)
        × ((shutdown room waiting (drain outs f w)).2 ≡ ready none)
  unfolding drain shutdown joined join_result
  shutdown_ends before after outs f room w e l t =
      let u = rounds outs w in
      let (a, b, c) = settle_lem f u.coroutines u refl in
      let (x, y) =
        end_thread_lem (settle f u.coroutines u) (b ∙ rounds_end before after outs w e l) a
          (c ∙ rounds-thread outs w ∙ t) in
      (x, await_done_lem (drain outs f w) ∙ ground (arith, x, y))

  -- A `shutdown` that returns has seen the end of the thread.
  shutdown_lem :
      (room : Bool) (stage : Shutdown) (w : AsyncIsle N T) (r : Option IsleError)
      → (shutdown room stage w).2 ≡ ready r
      → is_serving w.thread ≡ false
  unfolding shutdown
  shutdown_lem room returned w r e = absurd (ground (arith, e))
  shutdown_lem room waiting w r e = joined_ended w w.thread r refl (sym (await_done_lem w) ∙ e)
  shutdown_lem room sending w r e = elim (Bool-cases w.receiver) [
    | inr f ↦ joined_ended w w.thread r refl (sym (await_done_lem w) ∙ ground (arith, f, e))
    | inl f ↦ elim (Bool-cases room) [
      | inr g ↦ absurd (ground (arith, f, g, e))
      | inl g ↦
          let u = record w { queue = w.queue ++ shutdown_request ∷ [] } in
          joined_ended u w.thread r refl (sym (await_done_lem u) ∙ ground (arith, f, g, e))
    ]
  ]

  -- One request on every branch: a request that is accepted is the last of the queue and its task is
  -- pending; a request that is refused, since the channel has no room or its receiver is gone, leaves
  -- the queue as it was, and its task answers at once with `channel_full` or `shutdown`.
  pub submit_lem :
      (j : Job) (room : Bool) (w : AsyncIsle N T)
      → let (u, t) = submit j room w in
        (jobs u.queue ≡ (if w.receiver && room then jobs w.queue ++ t.rx ∷ [] else jobs w.queue))
        × ((poll t u).2 ≡ (
            if w.receiver
            then (if room then pending else ready (err IsleError.channel_full))
            else ready (err IsleError.shutdown)))
  unfolding submit make_error_task try_send_to_isle_error poll new_task
  submit_lem j room w = elim (Bool-cases w.receiver) [
    | inr f ↦ ground (arith, f)
    | inl f ↦ elim (Bool-cases room) [
      | inr g ↦ ground (arith, f, g)
      | inl g ↦ ground (arith, f, g, jobs-append w.queue (run j w.next_reply (new w.tree).1 ∷ []))
    ]
  ]

module _ (N : Notify) {T : Type 0} where
  -- When a poll of the driver's `shutdown` returns, after any run of an isle, the isle is not alive, for
  -- its handles and for its driver, and no poll of a task is pending.
  pub shutdown_answers :
      (es : List (Event T)) (room : Bool) (stage : Shutdown) (r : Option IsleError) (t : AsyncTask)
      → let w = (exec es (started_isle N T)).isle in
        (shutdown room stage w).2 ≡ ready r
        → (is_alive w ≡ false)
          × (driver_is_alive w ≡ false)
          × ((v : Result T IsleError) × ((poll t w).2 ≡ ready v))
  unfolding is_alive driver_is_alive
  shutdown_answers es room stage r t e =
      let w : AsyncIsle N T = (exec es (started_isle N T)).isle in
      let h : IsAnswering w = exec-IsAnswering es (started_isle N T) (started_isle-IsAnswering N) in
      let g = shutdown_lem room stage w r e in ((h.over g).0, g, ended_polls N es t g)
