-- ===== src/AsyncIsle/Answers.antt =====
-- src/async_isle.rs and src/async_task.rs: the end of the waits.
use mlua_isle.Base.{
  ℕ, ◌+◌, ◌≡◌, ◌<◌, ◌⊎◌, refl, sym, ◌∙◌, true, false, List, [], ◌∷◌, none, some, Result, err, ready,
  count, arith, Bool-cases, Option-cases, inl, inr, ◌==◌, Bool, ◌&&◌,
}
use mlua_isle.Tokio.{Notify}
use mlua_isle.Error.{IsleError}
use mlua_isle.Cancel.{new}
use mlua_isle.Handle.{Outcome, returns, panics, is_serving}
use mlua_isle.AsyncIsle.{
  AsyncIsle, AsyncTask, Job, sync, coroutine, Request, run, shutdown_request, Shutdown, jobs,
  submit, clone, drop_sender, receive, finish, end_thread, poll, drop, detach, shutdown, member,
  without, drop_senders, close, answer, run_job, make_error_task, cancel_task,
}
use mlua_isle.AsyncIsle.Steps.{
  count-jobs, count-without, drop_senders_lem, receive_off, receive_wait, end_thread-cases,
  shutdown-cases,
}
use mlua_isle.AsyncIsle.Runs.{
  System, Event, submits, clones, drops_sender, receives, finishes, ends, polls, drops, detaches,
  shuts, step, exec, started_isle,
}

-- A reply that is neither sent nor given up belongs to a request that is queued or runs.
pub record IsAnswering {N : Notify} {T : Type 0} (w : AsyncIsle N T) : Type 0 where
  pub due :
      (r : ℕ)
      → (w.reply r).value ≡ none
      → (w.reply r).sender ≡ true
      → 0 < count r (jobs w.queue) + count r w.coroutines
  pub sent :
      (r : ℕ) (v : Result T IsleError) → (w.reply r).value ≡ some v → (w.reply r).sender ≡ false
  pub emptied : w.receiver ≡ false → w.queue ≡ []
  pub over : is_serving w.thread ≡ false → (w.receiver ≡ false) × (w.coroutines ≡ [])

module _ {N : Notify} {T : Type 0} where
  close-IsAnswering : (w : AsyncIsle N T) → IsAnswering w → IsAnswering (close w)
  unfolding close
  close-IsAnswering w h = record {
    due = λ r a b.
        let (x, y) = drop_senders_lem (jobs w.queue) w.reply r in ground (arith, h.due r, x, y b);
    sent = λ r v a.
        let (x, y) = drop_senders_lem (jobs w.queue) w.reply r in
        elim (Bool-cases (drop_senders (jobs w.queue) w.reply r).sender) [
          | inl e ↦ absurd (ground (arith, h.sent r v (sym x ∙ a), y e))
          | inr e ↦ e
        ];
    emptied = λ e. refl;
    over = λ e. (refl, (h.over e).1);
  }

  -- The request that is answered need not be due any more.
  answer-IsAnswering :
      (r : ℕ) (out : Outcome (Result T IsleError)) (u : AsyncIsle N T)
      → ((q : ℕ)
          → (q == r) ≡ false
          → (u.reply q).value ≡ none
          → (u.reply q).sender ≡ true
          → 0 < count q (jobs u.queue) + count q u.coroutines)
      → ((q : ℕ) (v : Result T IsleError) → (u.reply q).value ≡ some v → (u.reply q).sender ≡ false)
      → (u.receiver ≡ false → u.queue ≡ [])
      → (is_serving u.thread ≡ false → (u.receiver ≡ false) × (u.coroutines ≡ []))
      → IsAnswering (answer r out u)
  answer-IsAnswering r (returns v) u d s k o = record {
    due = λ q a b. ground (arith, d q);
    sent = λ q x a. ground (arith, s q x);
    emptied = k;
    over = o;
  }
  answer-IsAnswering r (panics m) u d s k o = record {
    due = λ q a b. ground (arith, d q);
    sent = λ q x a. ground (arith, s q x);
    emptied = k;
    over = o;
  }

  submit-IsAnswering :
      (j : Job) (room : Bool) (w : AsyncIsle N T) → IsAnswering w → IsAnswering (submit j room w).0
  unfolding submit make_error_task
  submit-IsAnswering j room w h = elim (Bool-cases (w.receiver && room)) [
    | inl e ↦
        rw (submit, e)
          (record {
            due = λ r a b. ground (
              arith,
              h.due r,
              a,
              b,
              count-jobs r w.queue (run j w.next_reply (new w.tree).1 ∷ []),
            );
            sent = λ r v a. ground (arith, h.sent r v);
            emptied = λ q. absurd (ground (arith, q, e));
            over = λ q. absurd (ground (arith, (h.over q).0, e));
          })
    | inr e ↦
        rw (submit, e)
          (record {
            due = λ r a b. ground (arith, h.due r);
            sent = λ r v a. ground (arith, h.sent r v);
            emptied = h.emptied;
            over = h.over;
          })
  ]

  -- The first of the queue is received.
  run_job-IsAnswering :
      (j : Job) (r n : ℕ) (rest : List Request) (out : Outcome (Result T IsleError))
      (w : AsyncIsle N T)
      → w.receiver ≡ true
      → w.queue ≡ run j r n ∷ rest
      → IsAnswering w
      → IsAnswering (run_job j r out (record w { queue = rest }))
  run_job-IsAnswering coroutine r n rest out w f e h = record {
    due = λ q a b. ground (arith, h.due q a b, e);
    sent = h.sent;
    emptied = λ q. absurd (ground (arith, q, f));
    over = λ q. absurd (ground (arith, (h.over q).0, f));
  }
  run_job-IsAnswering sync r n rest (returns v) w f e h =
      answer-IsAnswering r (returns v) (record w { queue = rest })
        (λ q x a b. ground (arith, h.due q a b, e, x)) h.sent (λ q. absurd (ground (arith, q, f)))
        (λ q. absurd (ground (arith, (h.over q).0, f)))
  run_job-IsAnswering sync r n rest (panics m) w f e h =
      close-IsAnswering (answer r (panics m) (record w { queue = rest })) (
        answer-IsAnswering r (panics m) (record w { queue = rest })
          (λ q x a b. ground (arith, h.due q a b, e, x)) h.sent (λ q. absurd (ground (arith, q, f)))
          (λ q. absurd (ground (arith, (h.over q).0, f))))

  receive-IsAnswering :
      (out : Outcome (Result T IsleError)) (w : AsyncIsle N T) (q : List Request)
      → w.queue ≡ q
      → IsAnswering w
      → IsAnswering (receive out w)
  unfolding receive
  receive-IsAnswering out w q e h = elim (Bool-cases w.receiver) [
    | inr f ↦ rw (receive_off out w f) h
    | inl f ↦
        elim q as (λ q. w.queue ≡ q → IsAnswering (receive out w)) [
          | [] ↦ λ e. elim (Bool-cases (w.senders == 0)) [
            | inl z ↦ rw (receive, f, e, z) (close-IsAnswering w h)
            | inr z ↦ rw (receive_wait out w f e z) h
          ]
          | shutdown_request ∷ rest ↦ λ e.
              rw (receive, f, e)
                (close-IsAnswering (record w { queue = rest })
                  (record {
                    due = λ r a b. ground (arith, h.due r a b, e);
                    sent = h.sent;
                    emptied = λ q. absurd (ground (arith, q, f));
                    over = h.over;
                  }))
          | run j r n ∷ rest ↦ λ e. rw (receive, f, e) (run_job-IsAnswering j r n rest out w f e h)
        ]
          e
  ]

  finish-IsAnswering :
      (r : ℕ) (out : Outcome (Result T IsleError)) (w : AsyncIsle N T)
      → IsAnswering w
      → IsAnswering (finish r out w)
  unfolding finish
  finish-IsAnswering r out w h = elim (Bool-cases (member r w.coroutines)) [
    | inr e ↦ rw (finish, e) h
    | inl e ↦
        rw (finish, e)
          (answer-IsAnswering r out (record w { coroutines = without r w.coroutines })
            (λ q x a b. ground (arith, h.due q a b, count-without q r w.coroutines e, x)) h.sent
            h.emptied
            (λ q. absurd (ground (arith, count-without r r w.coroutines e, (h.over q).1))))
  ]

  end_thread-IsAnswering :
      (out : Outcome Unit) (w : AsyncIsle N T) → IsAnswering w → IsAnswering (end_thread out w)
  end_thread-IsAnswering out w h = elim (end_thread-cases out w) [
    | inl e ↦ rw e h
    | inr (f, c, (t, (d, e))) ↦
        rw e (record { due = h.due; sent = h.sent; emptied = h.emptied; over = λ q. (f, c) })
  ]

  poll-IsAnswering : (t : AsyncTask) (w : AsyncIsle N T) → IsAnswering w → IsAnswering (poll t w).0
  unfolding poll
  poll-IsAnswering t w h = elim (Option-cases (w.reply t.rx).value) [
    | inr (v, e) ↦
        rw (poll, e)
          (record {
            due = λ r a b. ground (arith, h.due r, h.sent t.rx v e);
            sent = λ r x a. ground (arith, h.sent r x);
            emptied = h.emptied;
            over = h.over;
          })
    | inl e ↦ elim (Bool-cases (w.reply t.rx).sender) [
      | inl f ↦ rw (poll, e, f) h
      | inr f ↦ rw (poll, e, f) h
    ]
  ]

  drop-IsAnswering : (t : AsyncTask) (w : AsyncIsle N T) → IsAnswering w → IsAnswering (drop t w)
  unfolding drop cancel_task
  drop-IsAnswering t w h = elim (Bool-cases t.released) [
    | inl e ↦ rw e h
    | inr e ↦ rw e (record { due = h.due; sent = h.sent; emptied = h.emptied; over = h.over })
  ]

  shutdown-IsAnswering :
      (room : Bool) (stage : Shutdown) (w : AsyncIsle N T)
      → IsAnswering w
      → IsAnswering (shutdown room stage w).0
  shutdown-IsAnswering room stage w h =
      let k = shutdown-cases room stage w in
      rw k.same (record {
        due = λ r a b. ground (arith, h.due r a b, k.same_jobs);
        sent = h.sent;
        emptied = λ e. k.gone e ∙ h.emptied e;
        over = h.over;
      })

  step-IsAnswering :
      (e : Event T) (s : System N T) → IsAnswering s.isle → IsAnswering (step s e).isle
  unfolding step detach clone drop_sender
  step-IsAnswering (submits j room) s h = submit-IsAnswering j room s.isle h
  step-IsAnswering clones s h = record {
    due = h.due;
    sent = h.sent;
    emptied = h.emptied;
    over = h.over;
  }
  step-IsAnswering drops_sender s h = record {
    due = h.due;
    sent = h.sent;
    emptied = h.emptied;
    over = h.over;
  }
  step-IsAnswering (receives out) s h = receive-IsAnswering out s.isle s.isle.queue refl h
  step-IsAnswering (finishes r out) s h = finish-IsAnswering r out s.isle h
  step-IsAnswering (ends out) s h = end_thread-IsAnswering out s.isle h
  step-IsAnswering (polls t) s h = poll-IsAnswering t s.isle h
  step-IsAnswering (drops t) s h = drop-IsAnswering t s.isle h
  step-IsAnswering (detaches t) s h = drop-IsAnswering (record t { released = true }) s.isle h
  step-IsAnswering (shuts room stage) s h = shutdown-IsAnswering room stage s.isle h

  pub exec-IsAnswering :
      (es : List (Event T)) (s : System N T) → IsAnswering s.isle → IsAnswering (exec es s).isle
  unfolding exec
  exec-IsAnswering [] s h = h
  exec-IsAnswering (e ∷ es) s h = exec-IsAnswering es (step s e) (step-IsAnswering e s h)

  -- A task that waits has its request in the queue or among the coroutines.
  poll_lem :
      (t : AsyncTask) (w : AsyncIsle N T)
      → IsAnswering w
      → (0 < count t.rx (jobs w.queue) + count t.rx w.coroutines)
        ⊎ ((v : Result T IsleError) × ((poll t w).2 ≡ ready v))
  unfolding poll
  poll_lem t w h = elim (Option-cases (w.reply t.rx).value) [
    | inr (v, e) ↦ inr (v, rw (poll, e) refl)
    | inl e ↦ elim (Bool-cases (w.reply t.rx).sender) [
      | inl f ↦ inl (h.due t.rx e f)
      | inr f ↦ inr (err IsleError.recv_failed, rw (poll, e, f) refl)
    ]
  ]

module _ (N : Notify) {T : Type 0} where
  pub started_isle-IsAnswering : IsAnswering (started_isle N T).isle
  started_isle-IsAnswering = record {
    due = λ r a b. absurd (ground (arith, b));
    sent = λ r v a. refl;
    emptied = λ e. absurd (ground (arith, e));
    over = λ e. absurd (ground (arith, e));
  }

  -- After any run of an isle, once its thread has ended, normally or by a panic, no poll of a task is
  -- pending: each gives an answer at once.
  pub ended_polls :
      (es : List (Event T)) (t : AsyncTask)
      → is_serving (exec es (started_isle N T)).isle.thread ≡ false
      → (v : Result T IsleError) × ((poll t (exec es (started_isle N T)).isle).2 ≡ ready v)
  ended_polls es t e =
      let w : AsyncIsle N T = (exec es (started_isle N T)).isle in
      let h : IsAnswering w = exec-IsAnswering es (started_isle N T) started_isle-IsAnswering in
      elim (poll_lem t w h) [
        | inl c ↦ absurd (ground (arith, c, h.over e, h.emptied (h.over e).0))
        | inr v ↦ v
      ]
