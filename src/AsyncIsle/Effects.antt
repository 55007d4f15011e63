-- ===== src/AsyncIsle/Effects.antt =====
-- src/async_isle.rs and src/async_task.rs: what the steps of an isle change of its queue and its coroutines.
use mathlib.Core.List.{append-nil}
use mlua_isle.Base.{
  ℕ, ◌+◌, ◌≡◌, refl, sym, ap, true, false, Bool, List, [], ◌∷◌, ◌++◌, Result, count, arith,
  Bool-cases, Option-cases, inl, inr, ◌==◌,
}
use mlua_isle.Tokio.{Notify}
use mlua_isle.Error.{IsleError}
use mlua_isle.Handle.{Outcome, returns, panics}
use mlua_isle.AsyncIsle.{
  AsyncIsle, AsyncTask, Job, sync, coroutine, Request, run, shutdown_request, jobs, receive, finish,
  poll, drop, member, without, close, cancel_task, end_thread, shutdown, Shutdown,
}
use mlua_isle.AsyncIsle.Runs.{started_by, ended_by, lost_by}
use mlua_isle.AsyncIsle.Steps.{receive_wait, end_thread-cases, shutdown-cases}

-- What a round of the receive loop does to its queue and to the coroutines.
pub record Received {N : Notify} {T : Type 0} (w u : AsyncIsle N T)
    (out : Outcome (Result T IsleError)) : Type 0 where
  pub same_next : u.next_reply ≡ w.next_reply
  pub split : jobs w.queue ≡ started_by w.queue ++ (lost_by w.queue out ++ jobs u.queue)
  pub balanced :
      (r : ℕ)
      → count r (started_by w.queue) + count r w.coroutines
        ≡ count r (ended_by w.queue) + count r u.coroutines
  pub kept : u.receiver ≡ true → (lost_by w.queue out ≡ []) × (w.receiver ≡ true)
  pub emptied : u.receiver ≡ false → u.queue ≡ []

-- What stays where no request is accepted or received.
pub record Same {N : Notify} {T : Type 0} (w u : AsyncIsle N T) : Type 0 where
  pub same_next : u.next_reply ≡ w.next_reply
  pub same_jobs : jobs u.queue ≡ jobs w.queue
  pub same_receiver : u.receiver ≡ w.receiver
  pub same_coroutines : u.coroutines ≡ w.coroutines
  pub emptied : u.receiver ≡ false → u.queue ≡ w.queue

module _ {N : Notify} {T : Type 0} where
  pub Same-refl : (w : AsyncIsle N T) → Same w w
  Same-refl w = record {
    same_next = refl;
    same_jobs = refl;
    same_receiver = refl;
    same_coroutines = refl;
    emptied = λ e. refl;
  }

  run_job-Received :
      (j : Job) (r n : ℕ) (rest : List Request) (out : Outcome (Result T IsleError))
      (w : AsyncIsle N T)
      → w.receiver ≡ true
      → w.queue ≡ run j r n ∷ rest
      → Received w (receive out w) out
  unfolding receive close
  run_job-Received coroutine r n rest out w f e =
      rw (receive, f, e)
        (record {
          same_next = refl;
          split = refl;
          balanced = λ q. omega arith;
          kept = λ x. (refl, refl);
          emptied = λ x. absurd (ground (arith, x, f));
        })
  run_job-Received sync r n rest (returns v) w f e =
      rw (receive, f, e)
        (record {
          same_next = refl;
          split = refl;
          balanced = λ q. omega arith;
          kept = λ x. (refl, refl);
          emptied = λ x. absurd (ground (arith, x, f));
        })
  run_job-Received sync r n rest (panics m) w f e =
      rw (receive, f, e)
        (record {
          same_next = refl;
          split = ap (λ l. r ∷ l) (sym (append-nil (jobs rest)));
          balanced = λ q. omega arith;
          kept = λ x. absurd (ground (arith, x));
          emptied = λ x. refl;
        })

  pub receive-Received :
      (out : Outcome (Result T IsleError)) (w : AsyncIsle N T) (q : List Request)
      → w.queue ≡ q
      → w.receiver ≡ true
      → Received w (receive out w) out
  unfolding receive close
  receive-Received out w (run j r n ∷ rest) e f = run_job-Received j r n rest out w f e
  receive-Received out w (shutdown_request ∷ rest) e f =
      rw (receive, f, e)
        (record {
          same_next = refl;
          split = sym (append-nil (jobs rest));
          balanced = λ q. refl;
          kept = λ x. absurd (ground (arith, x));
          emptied = λ x. refl;
        })
  receive-Received out w [] e f = elim (Bool-cases (w.senders == 0)) [
    | inl z ↦
        rw (receive, f, e, z)
          (record {
            same_next = refl;
            split = refl;
            balanced = λ q. refl;
            kept = λ x. absurd (ground (arith, x));
            emptied = λ x. refl;
          })
    | inr z ↦
        rw (receive_wait out w f e z, e)
          (record {
            same_next = refl;
            split = refl;
            balanced = λ q. refl;
            kept = λ x. (refl, f);
            emptied = λ x. refl;
          })
  ]

  pub finish_lem :
      (r : ℕ) (out : Outcome (Result T IsleError)) (w : AsyncIsle N T)
      → member r w.coroutines ≡ true
      → finish r out w
        ≡ record w { coroutines = without r w.coroutines; reply = (finish r out w).reply }
  unfolding finish
  finish_lem r (returns v) w e = rw (finish, e) refl
  finish_lem r (panics m) w e = rw (finish, e) refl

  pub Same-senders : (n : ℕ) (w : AsyncIsle N T) → Same w (record w { senders = n })
  Same-senders n w = record {
    same_next = refl;
    same_jobs = refl;
    same_receiver = refl;
    same_coroutines = refl;
    emptied = λ e. refl;
  }

  pub Same-poll : (t : AsyncTask) (w : AsyncIsle N T) → Same w (poll t w).0
  unfolding poll
  Same-poll t w = elim (Option-cases (w.reply t.rx).value) [
    | inr (v, e) ↦
        rw (poll, e)
          (record {
            same_next = refl;
            same_jobs = refl;
            same_receiver = refl;
            same_coroutines = refl;
            emptied = λ e. refl;
          })
    | inl e ↦ elim (Bool-cases (w.reply t.rx).sender) [
      | inl f ↦ rw (poll, e, f) (Same-refl w)
      | inr f ↦ rw (poll, e, f) (Same-refl w)
    ]
  ]

  pub Same-drop : (t : AsyncTask) (w : AsyncIsle N T) → Same w (drop t w)
  unfolding drop cancel_task
  Same-drop t w = elim (Bool-cases t.released) [
    | inl e ↦ rw (drop, e) (Same-refl w)
    | inr e ↦
        rw (drop, e)
          (record {
            same_next = refl;
            same_jobs = refl;
            same_receiver = refl;
            same_coroutines = refl;
            emptied = λ e. refl;
          })
  ]

  pub Same-shutdown :
      (room : Bool) (stage : Shutdown) (w : AsyncIsle N T) → Same w (shutdown room stage w).0
  Same-shutdown room stage w =
      let k = shutdown-cases room stage w in
      rw k.same (record {
        same_next = refl;
        same_jobs = k.same_jobs;
        same_receiver = refl;
        same_coroutines = refl;
        emptied = k.gone;
      })

  pub Same-end_thread : (out : Outcome Unit) (w : AsyncIsle N T) → Same w (end_thread out w)
  Same-end_thread out w = elim (end_thread-cases out w) [
    | inl e ↦ rw e (Same-refl w)
    | inr (f, c, (t, (d, e))) ↦ rw e (record {
      same_next = refl;
      same_jobs = refl;
      same_receiver = refl;
      same_coroutines = refl;
      emptied = λ e. refl;
    })
  ]
