-- ===== src/AsyncIsle/Order.antt =====
-- src/async_isle.rs: the order in which the requests of an isle are started, and what becomes of each.
use mathlib.Core.List.{append_assoc, append-nil}
use mlua_isle.Base.{
  ℕ, zero, suc, ◌-◌, ◌+◌, ◌≡◌, ◌≤◌, ◌<◌, refl, sym, ap, ◌∙◌, true, false, Bool, List, [], ◌∷◌, ◌++◌,
  Result, count, count-append, arith, Bool-cases, subst, inl, inr, ◌&&◌, ◌⊎◌, Option-cases,
}
use mlua_isle.Tokio.{Notify}
use mlua_isle.Error.{IsleError}
use mlua_isle.Cancel.{new}
use mlua_isle.Handle.{Outcome, is_serving}
use mlua_isle.AsyncIsle.{
  AsyncIsle, Job, Request, run, jobs, submit, clone, drop_sender, receive, finish, poll, drop,
  detach, member, make_error_task, end_thread, shutdown,
}
use mlua_isle.AsyncIsle.Runs.{
  System, Event, submits, clones, drops_sender, receives, finishes, ends, polls, drops, detaches,
  shuts, started_by, ended_by, lost_by, step, exec, started_isle,
}
use mlua_isle.AsyncIsle.Effects.{
  Same, Same-senders, receive-Received, finish_lem, Same-poll, Same-drop, Same-shutdown,
  Same-end_thread,
}
use mlua_isle.AsyncIsle.Steps.{jobs-append, count-without, receive_off}
use mlua_isle.AsyncIsle.Answers.{IsAnswering, exec-IsAnswering, started_isle-IsAnswering}
use mlua_isle.AsyncIsle.Rounds.{IsFirstStarted, receive-IsFirstStarted}

zero_or_some : (n : ℕ) → (n ≡ 0) ⊎ (0 < n)
zero_or_some zero = inl refl
zero_or_some (suc n) = inr (omega arith)

append_last :
    (accepted xs ys zs ls : List ℕ)
    → accepted ≡ xs ++ (ys ++ zs)
    → accepted ++ ls ≡ xs ++ (ys ++ (zs ++ ls))
append_last accepted xs ys zs ls e =
    ap (λ l. l ++ ls) e ∙ append_assoc xs (ys ++ zs) ls ∙ ap (λ l. xs ++ l) (append_assoc ys zs ls)

-- What is left is started, dropped or left.
one_received :
    (accepted started lost left xs ys zs : List ℕ)
    → accepted ≡ started ++ (lost ++ left)
    → lost ≡ []
    → left ≡ xs ++ (ys ++ zs)
    → accepted ≡ (started ++ xs) ++ ((lost ++ ys) ++ zs)
one_received accepted started lost left xs ys zs e z f =
    e
    ∙ ap (λ l. started ++ (l ++ left)) z
    ∙ ap (λ l. started ++ l) f
    ∙ sym (append_assoc started xs (ys ++ zs))
    ∙ ap (λ l. (started ++ xs) ++ ((l ++ ys) ++ zs)) (sym z)

module _ {N : Notify} {T : Type 0} where
  record IsOrdered (s : System N T) : Type 0 where
    order : s.accepted ≡ s.started ++ (s.lost ++ jobs s.isle.queue)
    kept : s.isle.receiver ≡ true → s.lost ≡ []
    emptied : s.isle.receiver ≡ false → s.isle.queue ≡ []
    once : (r : ℕ) → count r s.accepted ≤ 1
    below : (r : ℕ) → 0 < count r s.accepted → r < s.isle.next_reply
    balanced : (r : ℕ) → count r s.started ≡ count r s.ended + count r s.isle.coroutines

  Same-IsOrdered :
      (s : System N T) (u : AsyncIsle N T)
      → Same s.isle u
      → IsOrdered s
      → IsOrdered (record s { isle = u })
  Same-IsOrdered s u k h = record {
    order = h.order ∙ ap (λ l. s.started ++ (s.lost ++ l)) (sym k.same_jobs);
    kept = λ e. h.kept (sym k.same_receiver ∙ e);
    emptied = λ e. k.emptied e ∙ h.emptied (sym k.same_receiver ∙ e);
    once = h.once;
    below = λ r c. ground (arith, h.below r c, k.same_next);
    balanced = λ r. ground (arith, h.balanced r, k.same_coroutines);
  }

  submit-IsOrdered :
      (j : Job) (room : Bool) (s : System N T) → IsOrdered s → IsOrdered (step s (submits j room))
  unfolding step submit make_error_task
  submit-IsOrdered j room s h = elim (Bool-cases (s.isle.receiver && room)) [
    | inr e ↦
        rw (step, submit, e)
          (record {
            order = h.order;
            kept = h.kept;
            emptied = h.emptied;
            once = h.once;
            below = λ r c. ground (arith, h.below r c);
            balanced = h.balanced;
          })
    | inl e ↦
        rw (step, submit, e)
          (record {
            order =
                append_last s.accepted s.started s.lost (jobs s.isle.queue) (s.isle.next_reply ∷ [])
                  h.order
                ∙ ap (λ l. s.started ++ (s.lost ++ l))
                    (sym (
                      jobs-append s.isle.queue (run j s.isle.next_reply (new s.isle.tree).1 ∷ [])));
            kept = h.kept;
            emptied = λ q. absurd (ground (arith, q, e));
            once = λ r.
                ground
                  (arith, h.once r, h.below r, count-append r s.accepted (s.isle.next_reply ∷ []));
            below = λ r c.
                ground (arith, h.below r, c, count-append r s.accepted (s.isle.next_reply ∷ []));
            balanced = h.balanced;
          })
  ]

  -- A round of the loop, with what it starts, drops and ends.
  abbrev received :
      System N T → AsyncIsle N T → List Request → Outcome (Result T IsleError) → System N T
  received s u q out = record s {
    isle = u;
    started = s.started ++ started_by q;
    lost = s.lost ++ lost_by q out;
    ended = s.ended ++ ended_by q;
  }

  nothing-IsOrdered :
      (out : Outcome (Result T IsleError)) (s : System N T)
      → IsOrdered s
      → IsOrdered (received s s.isle [] out)
  nothing-IsOrdered out s h = record {
    order =
        h.order
        ∙ ap (λ l. l ++ (s.lost ++ jobs s.isle.queue)) (sym (append-nil s.started))
        ∙ ap (λ l. (s.started ++ []) ++ (l ++ jobs s.isle.queue)) (sym (append-nil s.lost));
    kept = λ e. append-nil s.lost ∙ h.kept e;
    emptied = h.emptied;
    once = h.once;
    below = h.below;
    balanced =
        λ r. omega (arith, h.balanced r, count-append r s.started [], count-append r s.ended []);
  }

  receive-IsOrdered :
      (out : Outcome (Result T IsleError)) (s : System N T)
      → IsOrdered s
      → IsOrdered (received s (receive out s.isle) s.isle.queue out)
  receive-IsOrdered out s h = elim (Bool-cases s.isle.receiver) [
    | inr f ↦
        subst (λ u. IsOrdered (received s u s.isle.queue out)) (sym (receive_off out s.isle f))
          (subst (λ q. IsOrdered (received s s.isle q out)) (sym (h.emptied f))
            (nothing-IsOrdered out s h))
    | inl f ↦
        let q = s.isle.queue in
        let k = receive-Received out s.isle q refl f in
        record {
          order =
              one_received s.accepted s.started s.lost (jobs q) (started_by q) (lost_by q out)
                (jobs (receive out s.isle).queue) h.order (h.kept f) k.split;
          kept = λ e. ap (λ l. l ++ lost_by q out) (h.kept f) ∙ (k.kept e).0;
          emptied = k.emptied;
          once = h.once;
          below = λ r c. subst (λ m. r < m) (sym k.same_next) (h.below r c);
          balanced = λ r. omega (
            arith,
            h.balanced r,
            k.balanced r,
            count-append r s.started (started_by q),
            count-append r s.ended (ended_by q),
          );
        }
  ]

  finish-IsOrdered :
      (r : ℕ) (out : Outcome (Result T IsleError)) (s : System N T)
      → IsOrdered s
      → IsOrdered (step s (finishes r out))
  unfolding step finish
  finish-IsOrdered r out s h = elim (Bool-cases (member r s.isle.coroutines)) [
    | inr e ↦
        let off : finish r out s.isle ≡ s.isle = rw (finish, e) refl in
        rw (off, e)
          (record {
            order = h.order;
            kept = h.kept;
            emptied = h.emptied;
            once = h.once;
            below = h.below;
            balanced = h.balanced;
          })
    | inl e ↦
        rw (finish_lem r out s.isle e, e)
          (record {
            order = h.order;
            kept = h.kept;
            emptied = h.emptied;
            once = h.once;
            below = h.below;
            balanced = λ q. ground (
              arith,
              h.balanced q,
              count-without q r s.isle.coroutines e,
              count-append q s.ended (r ∷ []),
            );
          })
  ]

  step-IsOrdered : (e : Event T) (s : System N T) → IsOrdered s → IsOrdered (step s e)
  unfolding step detach clone drop_sender
  step-IsOrdered (submits j room) s h = submit-IsOrdered j room s h
  step-IsOrdered clones s h =
      Same-IsOrdered s (clone s.isle) (Same-senders (suc s.isle.senders) s.isle) h
  step-IsOrdered drops_sender s h =
      Same-IsOrdered s (drop_sender s.isle) (Same-senders (s.isle.senders - 1) s.isle) h
  step-IsOrdered (receives out) s h = receive-IsOrdered out s h
  step-IsOrdered (finishes r out) s h = finish-IsOrdered r out s h
  step-IsOrdered (ends out) s h =
      Same-IsOrdered s (end_thread out s.isle) (Same-end_thread out s.isle) h
  step-IsOrdered (polls t) s h = Same-IsOrdered s (poll t s.isle).0 (Same-poll t s.isle) h
  step-IsOrdered (drops t) s h = Same-IsOrdered s (drop t s.isle) (Same-drop t s.isle) h
  step-IsOrdered (detaches t) s h =
      let u = record t { released = true } in
      Same-IsOrdered s (drop u s.isle) (Same-drop u s.isle) h
  step-IsOrdered (shuts room stage) s h =
      Same-IsOrdered s (shutdown room stage s.isle).0 (Same-shutdown room stage s.isle) h

  exec-IsOrdered : (es : List (Event T)) (s : System N T) → IsOrdered s → IsOrdered (exec es s)
  unfolding exec
  exec-IsOrdered [] s h = h
  exec-IsOrdered (e ∷ es) s h = exec-IsOrdered es (step s e) (step-IsOrdered e s h)

module _ {N : Notify} {T : Type 0} where
  -- A request that was started and does not run is not queued either, so that it has its answer.
  started_answered :
      (s : System N T) (r : ℕ)
      → IsOrdered s
      → IsAnswering s.isle
      → (count r s.started ≡ 0)
        ⊎ ((0 < count r s.isle.coroutines) ⊎ ((s.isle.reply r).sender ≡ false))
  started_answered s r h k = elim (Option-cases (s.isle.reply r).value) [
    | inr (v, e) ↦ inr (inr (k.sent r v e))
    | inl e ↦ elim (Bool-cases (s.isle.reply r).sender) [
      | inr f ↦ inr (inr f)
      | inl f ↦ elim (zero_or_some (count r s.isle.coroutines)) [
        | inr c ↦ inr (inl c)
        | inl z ↦ inl (
            ground (
              arith,
              z,
              k.due r e f,
              h.once r,
              ap (count r) h.order,
              count-append r s.started (s.lost ++ jobs s.isle.queue),
              count-append r s.lost (jobs s.isle.queue),
            ))
      ]
    ]
  ]

module _ (N : Notify) {T : Type 0} where
  started_isle-IsOrdered : IsOrdered (started_isle N T)
  started_isle-IsOrdered = record {
    order = refl;
    kept = λ e. refl;
    emptied = λ e. refl;
    once = λ r. omega arith;
    below = λ r c. absurd (omega (arith, c));
    balanced = λ r. refl;
  }

  -- After any run of an isle the requests that it accepted are, in the order in which they were
  -- accepted, those that the receive loop started, then those that its end dropped, then those that
  -- are queued; none was accepted twice, and while the loop runs none was dropped. Each that was
  -- started runs as a coroutine, or the sender of its answer is gone. The next round of the loop
  -- spawns the coroutine of the first of the queue, or sends the result that its job returned, or
  -- ends the loop when that job panicked.
  pub starts_in_order :
      (es : List (Event T)) (r : ℕ) (out : Outcome (Result T IsleError))
      → let s = exec es (started_isle N T) in
        (s.accepted ≡ s.started ++ (s.lost ++ jobs s.isle.queue))
        × (count r s.accepted ≤ 1)
        × (s.isle.receiver ≡ true → s.lost ≡ [])
        × ((count r s.started ≡ 0)
            ⊎ ((0 < count r s.isle.coroutines) ⊎ ((s.isle.reply r).sender ≡ false)))
        × IsFirstStarted s.isle.queue out s.isle (receive out s.isle)
  starts_in_order es r out =
      let s : System N T = exec es (started_isle N T) in
      let h : IsOrdered s = exec-IsOrdered es (started_isle N T) started_isle-IsOrdered in
      let k : IsAnswering s.isle =
        exec-IsAnswering es (started_isle N T) (started_isle-IsAnswering N) in
      let o : (s.isle.receiver ≡ true) ⊎ (s.isle.queue ≡ []) = elim (Bool-cases s.isle.receiver) [
        | inl t ↦ inl t
        | inr f ↦ inr (h.emptied f)
      ] in
      (
        h.order,
        h.once r,
        h.kept,
        started_answered s r h k,
        receive-IsFirstStarted out s.isle s.isle.queue refl o,
      )

  -- The drain is graceful: after any run of an isle, once its thread has ended, every request that it
  -- accepted was started or dropped by the end of the receive loop, and every request that was started,
  -- a coroutine too, has ended as often as it was started.
  pub drains :
      (es : List (Event T))
      → let s = exec es (started_isle N T) in
        is_serving s.isle.thread ≡ false
        → (s.accepted ≡ s.started ++ s.lost) × ((r : ℕ) → count r s.started ≡ count r s.ended)
  drains es e =
      let s : System N T = exec es (started_isle N T) in
      let h : IsOrdered s = exec-IsOrdered es (started_isle N T) started_isle-IsOrdered in
      let k : IsAnswering s.isle =
        exec-IsAnswering es (started_isle N T) (started_isle-IsAnswering N) in
      let (f, c) = k.over e in
      (
        h.order
            ∙ ap (λ q. s.started ++ (s.lost ++ jobs q)) (h.emptied f)
            ∙ ap (λ l. s.started ++ l) (append-nil s.lost),
        λ r. ground (arith, h.balanced r, c),
      )
