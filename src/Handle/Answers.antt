-- ===== src/Handle/Answers.antt =====
-- src/handle.rs, src/task.rs and src/thread.rs: the order of the answers, and the end of the waits.
use mlua_isle.Base.{
  ℕ, ◌+◌, ◌≡◌, ◌<◌, ◌⊎◌, refl, sym, ap, ◌∙◌, true, false, List, [], ◌∷◌, ◌++◌, none, some, Result,
  err, ready, count, count-append, arith, Bool-cases, Option-cases, inl, inr,
}
use mlua_isle.Tokio.{Notify}
use mlua_isle.Error.{IsleError}
use mlua_isle.Cancel.{new}
use mlua_isle.Handle.{
  Isle, Task, Thread, Request, Reply, Outcome, returns, panics, stopped, panicked, is_serving, jobs,
  submit, serve, try_recv, wait, drop, detach, cancel_task, shutdown, drop_isle, run,
  shutdown_request, send, exit, drop_requests, set_reply,
}
use mlua_isle.Handle.Runs.{
  System, Event, submits, serves, tries, drops, detaches, shuts, drops_isle, step, exec, started,
}

pub jobs-append : (xs ys : List Request) → jobs (xs ++ ys) ≡ jobs xs ++ jobs ys
jobs-append [] ys = refl
jobs-append (run r n ∷ xs) ys = ap (λ l. r ∷ l) (jobs-append xs ys)
jobs-append (shutdown_request ∷ xs) ys = jobs-append xs ys

count-jobs :
    (r : ℕ) (xs ys : List Request)
    → count r (jobs (xs ++ ys)) ≡ count r (jobs xs) + count r (jobs ys)
count-jobs r xs ys = ap (count r) (jobs-append xs ys) ∙ count-append r (jobs xs) (jobs ys)

-- A reply that is neither sent nor given up belongs to one of the requests.
abbrev pub IsDue : {T : Type 0} → (ℕ → Reply T) → List Request → Type 0
IsDue reply queue =
    (r : ℕ) → (reply r).value ≡ none → (reply r).sender ≡ true → 0 < count r (jobs queue)

-- The sender of a reply that was sent is gone.
abbrev pub IsSent : {T : Type 0} → (ℕ → Reply T) → Type 0
IsSent {T} reply =
    (r : ℕ) (v : Result T IsleError) → (reply r).value ≡ some v → (reply r).sender ≡ false

module _ {N : Notify} {T : Type 0} where
  pub drop_requests_lem :
      (rs : List Request) (w : Isle N T)
      → drop_requests rs w ≡ record w { reply = (drop_requests rs w).reply }
  drop_requests_lem [] w = refl
  drop_requests_lem (run r n ∷ rs) w =
      drop_requests_lem rs (set_reply w r (record (w.reply r) { sender = false }))
  drop_requests_lem (shutdown_request ∷ rs) w = drop_requests_lem rs w

  pub drop_requests_reply :
      (rs : List Request) (w : Isle N T) (r : ℕ)
      → (((drop_requests rs w).reply r).value ≡ (w.reply r).value)
        × (((drop_requests rs w).reply r).sender ≡ true
            → ((w.reply r).sender ≡ true) × (count r (jobs rs) ≡ 0))
  drop_requests_reply [] w r = (refl, λ e. (e, refl))
  drop_requests_reply (run q n ∷ rs) w r =
      let u = set_reply w q (record (w.reply q) { sender = false }) in
      let (a, b) = drop_requests_reply rs u r in (ground (arith, a), λ e. ground (arith, b e))
  drop_requests_reply (shutdown_request ∷ rs) w r = drop_requests_reply rs w r

  pub record IsAnswering (w : Isle N T) : Type 0 where
    pub due : IsDue w.reply w.queue
    pub sent : IsSent w.reply
    pub emptied : is_serving w.thread ≡ false → w.queue ≡ []

  exit-IsAnswering :
      (t : Thread) (w : Isle N T) → IsDue w.reply w.queue → IsSent w.reply → IsAnswering (exit t w)
  unfolding exit
  exit-IsAnswering t w h k =
      let u : Isle N T = record w { thread = t; queue = [] } in
      rw (drop_requests_lem w.queue u) (record {
        due = λ r a b. let (x, y) = drop_requests_reply w.queue u r in ground (arith, h r, x, y b);
        sent = λ r v a.
            let (x, y) = drop_requests_reply w.queue u r in
            elim (Bool-cases ((drop_requests w.queue u).reply r).sender) [
              | inl e ↦ absurd (ground (arith, k r v (sym x ∙ a), y e))
              | inr e ↦ e
            ];
        emptied = λ e. refl;
      })

  send-IsAnswering : (w : Isle N T) → IsAnswering w → IsAnswering (send shutdown_request w)
  unfolding send
  send-IsAnswering w h = elim (Bool-cases (is_serving w.thread)) [
    | inl e ↦ rw e (record {
      due = λ r a b. ground (arith, h.due r a b, count-jobs r w.queue (shutdown_request ∷ []));
      sent = h.sent;
      emptied = λ q. absurd (ground (arith, q, e));
    })
    | inr e ↦ rw e h
  ]

  submit-IsAnswering : (w : Isle N T) → IsAnswering w → IsAnswering (submit w).0
  unfolding submit send
  submit-IsAnswering w h = elim (Bool-cases (is_serving w.thread)) [
    | inl e ↦ rw e (record {
      due = λ r a b.
          ground
            (arith, h.due r, a, b, count-jobs r w.queue (run w.next_reply (new w.tree).1 ∷ []));
      sent = λ r v a. ground (arith, h.sent r v);
      emptied = λ q. absurd (ground (arith, q, e));
    })
    | inr e ↦ rw e (record {
      due = λ r a b. ground (arith, h.due r);
      sent = λ r v a. ground (arith, h.sent r v);
      emptied = h.emptied;
    })
  ]

  serve-IsAnswering :
      (out : Outcome (Result T IsleError)) (w : Isle N T) (q : List Request)
      → w.queue ≡ q
      → IsAnswering w
      → IsAnswering (serve out w)
  unfolding serve
  serve-IsAnswering out w [] e h =
      rw e (record {
        due = λ r a b. ground (arith, h.due r a b, e);
        sent = h.sent;
        emptied = λ q. refl;
      })
  serve-IsAnswering out w (shutdown_request ∷ rest) e h = rw e (
      exit-IsAnswering stopped (record w { queue = rest }) (λ r a b. ground (arith, h.due r a b, e))
        h.sent)
  serve-IsAnswering (returns v) w (run r n ∷ rest) e h = rw e (record {
    due = λ x a b. ground (arith, h.due x, e);
    sent = λ x y a. ground (arith, h.sent x y);
    emptied = λ q. absurd (ground (arith, h.emptied q, e));
  })
  serve-IsAnswering (panics m) w (run r n ∷ rest) e h =
      let u = set_reply w r (record (w.reply r) { sender = false }) in
      rw e (
        exit-IsAnswering (panicked m) (record u { queue = rest })
          (λ x a b. ground (arith, h.due x, e)) (λ x y a. ground (arith, h.sent x y)))

  try_recv-IsAnswering : (t : Task) (w : Isle N T) → IsAnswering w → IsAnswering (try_recv t w).0
  unfolding try_recv
  try_recv-IsAnswering t w h = elim (Option-cases (w.reply t.rx).value) [
    | inl e ↦ rw (try_recv, e) h
    | inr (v, e) ↦
        rw (try_recv, e)
          (record {
            due = λ r a b. ground (arith, h.due r, h.sent t.rx v e);
            sent = λ r x a. ground (arith, h.sent r x);
            emptied = h.emptied;
          })
  ]

  cancel_task-IsAnswering :
      (t : Task) (w : Isle N T) → IsAnswering w → IsAnswering (cancel_task t w)
  unfolding cancel_task
  cancel_task-IsAnswering t w h = record { due = h.due; sent = h.sent; emptied = h.emptied }

  drop-IsAnswering : (t : Task) (w : Isle N T) → IsAnswering w → IsAnswering (drop t w)
  unfolding drop
  drop-IsAnswering t w h = elim (Bool-cases t.released) [
    | inl e ↦ rw e h
    | inr e ↦ rw e (cancel_task-IsAnswering t w h)
  ]

  shutdown-IsAnswering : (w : Isle N T) → IsAnswering w → IsAnswering (shutdown w)
  unfolding shutdown
  shutdown-IsAnswering w h =
      let k = send-IsAnswering w h in record { due = k.due; sent = k.sent; emptied = k.emptied }

  step-IsAnswering :
      (e : Event T) (s : System N T) → IsAnswering s.isle → IsAnswering (step s e).isle
  unfolding step detach drop_isle
  step-IsAnswering submits s h = submit-IsAnswering s.isle h
  step-IsAnswering (serves out) s h = serve-IsAnswering out s.isle s.isle.queue refl h
  step-IsAnswering (tries t) s h = try_recv-IsAnswering t s.isle h
  step-IsAnswering (drops t) s h = drop-IsAnswering t s.isle h
  step-IsAnswering (detaches t) s h = drop-IsAnswering (record t { released = true }) s.isle h
  step-IsAnswering shuts s h = shutdown-IsAnswering s.isle h
  step-IsAnswering drops_isle s h = send-IsAnswering s.isle h

  pub exec-IsAnswering :
      (es : List (Event T)) (s : System N T) → IsAnswering s.isle → IsAnswering (exec es s).isle
  unfolding exec
  exec-IsAnswering [] s h = h
  exec-IsAnswering (e ∷ es) s h = exec-IsAnswering es (step s e) (step-IsAnswering e s h)

  -- A task that waits has its request in the queue.
  wait_lem :
      (t : Task) (w : Isle N T)
      → IsAnswering w
      → (0 < count t.rx (jobs w.queue)) ⊎ ((v : Result T IsleError) × (wait t w ≡ ready v))
  unfolding wait
  wait_lem t w h = elim (Option-cases (w.reply t.rx).value) [
    | inr (v, e) ↦ inr (v, rw (wait, e) refl)
    | inl e ↦ elim (Bool-cases (w.reply t.rx).sender) [
      | inl f ↦ inl (h.due t.rx e f)
      | inr f ↦ inr (err IsleError.recv_failed, rw (wait, e, f) refl)
    ]
  ]

module _ (N : Notify) {T : Type 0} where
  pub started-IsAnswering : IsAnswering (started N T).isle
  started-IsAnswering = record {
    due = λ r a b. absurd (ground (arith, b));
    sent = λ r v a. refl;
    emptied = λ e. refl;
  }

  -- After any run of an isle, once its thread has ended, by a shutdown or by a panic, no wait for a
  -- task blocks: each gives an answer at once.
  pub ended_answers :
      (es : List (Event T)) (t : Task)
      → is_serving (exec es (started N T)).isle.thread ≡ false
      → (v : Result T IsleError) × (wait t (exec es (started N T)).isle ≡ ready v)
  ended_answers es t e =
      let h = exec-IsAnswering es (started N T) started-IsAnswering in
      elim (wait_lem t (exec es (started N T)).isle h) [
        | inl c ↦ absurd (ground (arith, c, h.emptied e))
        | inr v ↦ v
      ]
