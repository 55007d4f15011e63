-- ===== src/Handle/Order.antt =====
-- src/handle.rs and src/thread.rs: the order in which the requests of an isle are answered.
use mathlib.Core.List.{append_assoc, append-nil}
use mlua_isle.Base.{
  ℕ, ◌≡◌, ◌≤◌, ◌<◌, ◌⊎◌, refl, sym, ap, ◌∙◌, subst, true, false, List, [], ◌∷◌, ◌++◌, Result, count,
  count-append, arith, Bool-cases, Option-cases, inl, inr,
}
use mlua_isle.Tokio.{Notify}
use mlua_isle.Error.{IsleError}
use mlua_isle.Cancel.{new}
use mlua_isle.Handle.{
  Isle, Request, Outcome, returns, panics, is_serving, jobs, submit, serve, try_recv, drop, detach,
  shutdown, drop_isle, run, shutdown_request, new_task, send,
}
use mlua_isle.Handle.Runs.{
  System, Event, submits, serves, tries, drops, detaches, shuts, drops_isle, served_by, lost_by,
  step, exec, started,
}
use mlua_isle.Handle.Answers.{jobs-append, IsAnswering, exec-IsAnswering, started-IsAnswering}
use mlua_isle.Handle.Rounds.{IsFirstAnswered, serve-IsFirstAnswered}
use mlua_isle.Handle.Effects.{
  given_up, one_served, Same, serve_lem, send-Same, try_recv-Same, drop-Same,
}

module _ {N : Notify} {T : Type 0} where
  record IsOrdered (s : System N T) : Type 0 where
    order : s.accepted ≡ s.served ++ (s.lost ++ jobs s.isle.queue)
    emptied : is_serving s.isle.thread ≡ false → jobs s.isle.queue ≡ []
    kept : is_serving s.isle.thread ≡ true → s.lost ≡ []
    once : (r : ℕ) → count r s.accepted ≤ 1
    below : (r : ℕ) → 0 < count r s.accepted → r < s.isle.next_reply

  Same-IsOrdered :
      (s : System N T) (u : Isle N T)
      → Same s.isle u
      → IsOrdered s
      → IsOrdered (record s { isle = u })
  Same-IsOrdered s u (n, q, t) h = record {
    order = h.order ∙ ap (λ l. s.served ++ (s.lost ++ l)) (sym q);
    emptied = λ e. q ∙ h.emptied (ap is_serving (sym t) ∙ e);
    kept = λ e. h.kept (ap is_serving (sym t) ∙ e);
    once = h.once;
    below = λ r c. subst (λ k. r < k) (sym n) (h.below r c);
  }

  submit-IsOrdered : (s : System N T) → IsOrdered s → IsOrdered (step s submits)
  unfolding step submit send new_task
  submit-IsOrdered s h = elim (Bool-cases (is_serving s.isle.thread)) [
    | inl e ↦
        let w = s.isle in
        let r = w.next_reply in
        let q = jobs w.queue in
        let cs = λ (x : ℕ). count-append x s.accepted (r ∷ []) in
        rw (submit, e)
          (record {
            order =
                ap (λ l. l ++ r ∷ []) h.order
                ∙ append_assoc s.served (s.lost ++ q) (r ∷ [])
                ∙ ap (λ l. s.served ++ l) (append_assoc s.lost q (r ∷ []))
                ∙ ap (λ l. s.served ++ (s.lost ++ l))
                    (sym (jobs-append w.queue (run r (new w.tree).1 ∷ [])));
            emptied = λ f. absurd (ground (arith, f, e));
            kept = h.kept;
            once = λ x. ground (arith, h.once x, h.below x, cs x);
            below = λ x c. ground (arith, h.below x, cs x);
          })
    | inr e ↦
        rw (submit, e)
          (record {
            order = h.order;
            emptied = h.emptied;
            kept = h.kept;
            once = h.once;
            below = λ x c. omega (arith, h.below x c);
          })
  ]

  serve-IsOrdered :
      (out : Outcome (Result T IsleError)) (s : System N T) (q : List Request)
      → s.isle.queue ≡ q
      → IsOrdered s
      → IsOrdered (record s {
        isle = serve out s.isle;
        served = s.served ++ served_by q out;
        lost = s.lost ++ lost_by q out;
      })
  serve-IsOrdered out s [] e h =
      let (n, k, t) = serve_lem out s.isle [] e in
      record {
        order =
            given_up s.accepted s.served s.lost [] (jobs (serve out s.isle).queue)
              (h.order ∙ ap (λ l. s.served ++ (s.lost ++ jobs l)) e) (ap jobs k);
        emptied = λ f. ap jobs k;
        kept = λ f. append-nil s.lost ∙ h.kept (ap is_serving (sym t) ∙ f);
        once = h.once;
        below = λ x c. subst (λ m. x < m) (sym n) (h.below x c);
      }
  serve-IsOrdered out s (shutdown_request ∷ rest) e h =
      let (n, k, t) = serve_lem out s.isle (shutdown_request ∷ rest) e in
      record {
        order =
            given_up s.accepted s.served s.lost (jobs rest) (jobs (serve out s.isle).queue)
              (h.order ∙ ap (λ l. s.served ++ (s.lost ++ jobs l)) e) (ap jobs k);
        emptied = λ f. ap jobs k;
        kept = λ f. absurd (ground (arith, f, t));
        once = h.once;
        below = λ x c. subst (λ m. x < m) (sym n) (h.below x c);
      }
  serve-IsOrdered (returns v) s (run r i ∷ rest) e h =
      let (n, k, t) = serve_lem (returns v) s.isle (run r i ∷ rest) e in
      let busy : is_serving s.isle.thread ≡ true = elim (Bool-cases (is_serving s.isle.thread)) [
        | inl b ↦ b
        | inr b ↦ absurd (ground (arith, h.emptied b, ap jobs e))
      ] in
      record {
        order =
            one_served s.accepted s.served s.lost (jobs s.isle.queue)
              (jobs (serve (returns v) s.isle).queue) r h.order (h.kept busy)
              (ap jobs e ∙ ap (λ l. r ∷ jobs l) (sym k));
        emptied = λ f. absurd (ground (arith, f, t, busy));
        kept = λ f. append-nil s.lost ∙ h.kept busy;
        once = h.once;
        below = λ x c. subst (λ m. x < m) (sym n) (h.below x c);
      }
  serve-IsOrdered (panics m) s (run r i ∷ rest) e h =
      let (n, k, t) = serve_lem (panics m) s.isle (run r i ∷ rest) e in
      record {
        order =
            given_up s.accepted s.served s.lost (r ∷ jobs rest)
              (jobs (serve (panics m) s.isle).queue)
              (h.order ∙ ap (λ l. s.served ++ (s.lost ++ jobs l)) e) (ap jobs k);
        emptied = λ f. ap jobs k;
        kept = λ f. absurd (ground (arith, f, t));
        once = h.once;
        below = λ x c. subst (λ m. x < m) (sym n) (h.below x c);
      }

  step-IsOrdered : (e : Event T) (s : System N T) → IsOrdered s → IsOrdered (step s e)
  unfolding step detach drop_isle shutdown
  step-IsOrdered submits s h = submit-IsOrdered s h
  step-IsOrdered (serves out) s h = serve-IsOrdered out s s.isle.queue refl h
  step-IsOrdered (tries t) s h = Same-IsOrdered s (try_recv t s.isle).0 (try_recv-Same t s.isle) h
  step-IsOrdered (drops t) s h = Same-IsOrdered s (drop t s.isle) (drop-Same t s.isle) h
  step-IsOrdered (detaches t) s h =
      let u = record t { released = true } in
      Same-IsOrdered s (drop u s.isle) (drop-Same u s.isle) h
  step-IsOrdered shuts s h = Same-IsOrdered s (shutdown s.isle) (send-Same s.isle) h
  step-IsOrdered drops_isle s h = Same-IsOrdered s (drop_isle s.isle) (send-Same s.isle) h

  exec-IsOrdered : (es : List (Event T)) (s : System N T) → IsOrdered s → IsOrdered (exec es s)
  unfolding exec
  exec-IsOrdered [] s h = h
  exec-IsOrdered (e ∷ es) s h = exec-IsOrdered es (step s e) (step-IsOrdered e s h)

module _ {N : Notify} {T : Type 0} where
  -- A request that was served is not queued, so that the sender of its reply is gone.
  served_answered :
      (s : System N T) (r : ℕ)
      → IsOrdered s
      → IsAnswering s.isle
      → (count r s.served ≡ 0) ⊎ ((s.isle.reply r).sender ≡ false)
  served_answered s r h k = elim (Option-cases (s.isle.reply r).value) [
    | inr (v, e) ↦ inr (k.sent r v e)
    | inl e ↦ elim (Bool-cases (s.isle.reply r).sender) [
      | inr f ↦ inr f
      | inl f ↦ inl (
          ground (
            arith,
            k.due r e f,
            h.once r,
            ap (count r) h.order,
            count-append r s.served (s.lost ++ jobs s.isle.queue),
            count-append r s.lost (jobs s.isle.queue),
          ))
    ]
  ]

module _ (N : Notify) {T : Type 0} where
  -- After any run of an isle the requests that it took are, in the order in which they were taken,
  -- those that were answered, then those that the end of the thread dropped, then those that are
  -- queued; none was taken twice, and while the thread serves none was dropped. The sender of the
  -- reply of each that was answered is gone. When the thread now serves the first of the queue, the
  -- wait for its task gives the result that its job returned, or an answer when the job panicked.
  pub answers_in_order :
      (es : List (Event T)) (r : ℕ) (out : Outcome (Result T IsleError))
      → let s = exec es (started N T) in
        (s.accepted ≡ s.served ++ (s.lost ++ jobs s.isle.queue))
        × (count r s.accepted ≤ 1)
        × ((s.lost ≡ []) ⊎ (is_serving s.isle.thread ≡ false))
        × ((count r s.served ≡ 0) ⊎ ((s.isle.reply r).sender ≡ false))
        × IsFirstAnswered s.isle.queue out (serve out s.isle)
  answers_in_order es r out =
      let s : System N T = exec es (started N T) in
      let h : IsOrdered s = exec-IsOrdered es (started N T) (record {
        order = refl;
        emptied = λ e. refl;
        kept = λ e. refl;
        once = λ x. omega arith;
        below = λ x c. absurd (omega (arith, c));
      }) in
      let k : IsAnswering s.isle = exec-IsAnswering es (started N T) (started-IsAnswering N) in
      (
        h.order,
        h.once r,
        elim (Bool-cases (is_serving s.isle.thread)) [ inl e ↦ inl (h.kept e) | inr e ↦ inr e ],
        served_answered s r h k,
        serve-IsFirstAnswered out s.isle s.isle.queue refl,
      )
