-- ===== src/AsyncIsle/Steps.antt =====
-- src/async_isle.rs: what one step of an isle changes.
use mathlib.Core.List.{append-nil}
use mlua_isle.Base.{
  ℕ, ◌-◌, ◌+◌, ◌≡◌, ◌⊎◌, refl, ap, ◌∙◌, true, false, List, [], ◌∷◌, ◌++◌, some, Result, ready,
  pending, count, count-append, arith, Bool-cases, inl, inr, ◌==◌, Bool, ◌&&◌, update, not, Option,
}
use mlua_isle.Tokio.{Notify}
use mlua_isle.Error.{IsleError}
use mlua_isle.Handle.{Outcome, returns, panics, Thread, is_serving, Reply, stopped, panicked}
use mlua_isle.AsyncIsle.{
  AsyncIsle, Request, run, shutdown_request, Shutdown, sending, waiting, returned, jobs,
  drop_sender, receive, end_thread, shutdown, member, without, drop_senders, await_done, joined,
}

pub jobs-append : (xs ys : List Request) → jobs (xs ++ ys) ≡ jobs xs ++ jobs ys
jobs-append [] ys = refl
jobs-append (run j r n ∷ xs) ys = ap (λ l. r ∷ l) (jobs-append xs ys)
jobs-append (shutdown_request ∷ xs) ys = jobs-append xs ys

pub count-jobs :
    (r : ℕ) (xs ys : List Request)
    → count r (jobs (xs ++ ys)) ≡ count r (jobs xs) + count r (jobs ys)
count-jobs r xs ys = ap (count r) (jobs-append xs ys) ∙ count-append r (jobs xs) (jobs ys)

pub count-without :
    (r q : ℕ) (xs : List ℕ) → member q xs ≡ true → count r xs ≡ count r (q ∷ without q xs)
count-without r q [] e = absurd (ground (arith, e))
count-without r q (x ∷ xs) e = ground (arith, e, count-without r q xs)

module _ {T : Type 0} where
  pub drop_senders_lem :
      (rs : List ℕ) (reply : ℕ → Reply T) (r : ℕ)
      → ((drop_senders rs reply r).value ≡ (reply r).value)
        × ((drop_senders rs reply r).sender ≡ true → ((reply r).sender ≡ true) × (count r rs ≡ 0))
  drop_senders_lem [] reply r = (refl, λ e. (e, refl))
  drop_senders_lem (q ∷ rs) reply r =
      let (a, b) = drop_senders_lem rs (update reply q (record (reply q) { sender = false })) r in
      (ground (arith, a), λ e. ground (arith, b e))

module _ {N : Notify} {T : Type 0} where
  pub receive_off :
      (out : Outcome (Result T IsleError)) (w : AsyncIsle N T)
      → w.receiver ≡ false
      → receive out w ≡ w
  unfolding receive
  receive_off out w f = rw (receive, f) refl

  pub receive_wait :
      (out : Outcome (Result T IsleError)) (w : AsyncIsle N T)
      → w.receiver ≡ true
      → w.queue ≡ []
      → (w.senders == 0) ≡ false
      → receive out w ≡ w
  unfolding receive
  receive_wait out w f e z = ground (arith, f, e, z)

  -- The thread is as it was, or it ends with no local task left.
  abbrev pub EndCases : AsyncIsle N T → AsyncIsle N T → Type 0
  EndCases w u =
      (u ≡ w)
      ⊎ ((w.receiver ≡ false)
          × (w.coroutines ≡ [])
          × ((t : Thread) × ((d : Option Bool) × (u ≡ record w { thread = t; done = d }))))

  end_thread_now :
      (out : Outcome Unit) (w : AsyncIsle N T)
      → (is_serving w.thread && not w.receiver) ≡ true
      → w.coroutines ≡ []
      → (t : Thread) × ((d : Option Bool) × (end_thread out w ≡ record w { thread = t; done = d }))
  unfolding end_thread
  end_thread_now (returns u) w e c = (stopped, (some true, ground (arith, e, c)))
  end_thread_now (panics m) w e c = (panicked m, (some false, ground (arith, e, c)))

  pub end_thread-cases : (out : Outcome Unit) (w : AsyncIsle N T) → EndCases w (end_thread out w)
  unfolding end_thread
  end_thread-cases out w = elim (Bool-cases (is_serving w.thread && not w.receiver)) [
    | inr e ↦ inl (rw (end_thread, e) refl)
    | inl e ↦
        elim w.coroutines as (λ c. w.coroutines ≡ c → EndCases w (end_thread out w)) [
          | r ∷ rs ↦ λ c. inl (ground (arith, e, c))
          | [] ↦ λ c. inr (ground (arith, e), c, end_thread_now out w e c)
        ]
          refl
  ]

  -- What a poll of `shutdown` changes.
  pub record ShutdownCases (w u : AsyncIsle N T) : Type 0 where
    pub queue : List Request
    pub senders : ℕ
    pub same : u ≡ record w { queue = queue; senders = senders }
    pub same_jobs : jobs queue ≡ jobs w.queue
    pub gone : w.receiver ≡ false → queue ≡ w.queue

  await_done-cases : (w : AsyncIsle N T) → (n : ℕ) × ((await_done w).0 ≡ record w { senders = n })
  unfolding await_done drop_sender
  await_done-cases w =
      elim (joined w)
          as (λ p. joined w ≡ p → (n : ℕ) × ((await_done w).0 ≡ record w { senders = n })) [
            | pending ↦ λ e. (w.senders, rw (await_done, e) refl)
            | ready r ↦ λ e. (w.senders - 1, rw (await_done, e) refl)
          ]
        refl

  pub shutdown-cases :
      (room : Bool) (stage : Shutdown) (w : AsyncIsle N T)
      → ShutdownCases w (shutdown room stage w).0
  unfolding shutdown
  shutdown-cases room returned w = record {
    queue = w.queue;
    senders = w.senders;
    same = refl;
    same_jobs = refl;
    gone = λ e. refl;
  }
  shutdown-cases room waiting w =
      let (n, e) = await_done-cases w in
      record { queue = w.queue; senders = n; same = e; same_jobs = refl; gone = λ e. refl }
  shutdown-cases room sending w = elim (Bool-cases w.receiver) [
    | inr f ↦
        let (n, e) = await_done-cases w in
        record {
          queue = w.queue;
          senders = n;
          same = ground (arith, f, e);
          same_jobs = refl;
          gone = λ e. refl;
        }
    | inl f ↦ elim (Bool-cases room) [
      | inl g ↦
          let q = w.queue ++ shutdown_request ∷ [] in
          let (n, e) = await_done-cases (record w { queue = q }) in
          record {
            queue = q;
            senders = n;
            same = ground (arith, f, g, e);
            same_jobs = jobs-append w.queue (shutdown_request ∷ []) ∙ append-nil (jobs w.queue);
            gone = λ x. absurd (ground (arith, x, f));
          }
      | inr g ↦ record {
        queue = w.queue;
        senders = w.senders;
        same = ground (arith, f, g);
        same_jobs = refl;
        gone = λ e. refl;
      }
    ]
  ]
