-- ===== src/Handle/Effects.antt =====
-- src/handle.rs and src/thread.rs: what the operations of an isle change of what the order of its
-- requests depends on.
use mathlib.Core.List.{append_assoc, append-nil}
use mlua_isle.Base.{
  ℕ, ◌≡◌, refl, sym, ap, ◌∙◌, false, List, [], ◌∷◌, ◌++◌, Result, Bool-cases, Option-cases, inl,
  inr,
}
use mlua_isle.Tokio.{Notify}
use mlua_isle.Error.{IsleError}
use mlua_isle.Handle.{
  Isle, Task, Thread, Request, Outcome, returns, panics, stopped, panicked, is_serving, jobs, serve,
  try_recv, drop, cancel_task, run, shutdown_request, send, exit, set_reply,
}
use mlua_isle.Handle.Answers.{jobs-append, drop_requests_lem}

abbrev queue_after : {T : Type 0} → List Request → Outcome (Result T IsleError) → List Request
queue_after (run r n ∷ rest) (returns v) = rest
queue_after (run r n ∷ rest) (panics m) = []
queue_after (shutdown_request ∷ rest) out = []
queue_after [] out = []

abbrev thread_after : {T : Type 0} → List Request → Outcome (Result T IsleError) → Thread → Thread
thread_after (run r n ∷ rest) (returns v) t = t
thread_after (run r n ∷ rest) (panics m) t = panicked m
thread_after (shutdown_request ∷ rest) out t = stopped
thread_after [] out t = t

-- What is left is given up.
pub given_up :
    (accepted served lost left none_left : List ℕ)
    → accepted ≡ served ++ (lost ++ left)
    → none_left ≡ []
    → accepted ≡ (served ++ []) ++ ((lost ++ left) ++ none_left)
given_up accepted served lost left none_left e z =
    e
    ∙ ap (λ l. l ++ (lost ++ left)) (sym (append-nil served))
    ∙ ap (λ l. (served ++ []) ++ l)
        (sym (append-nil (lost ++ left)) ∙ ap (λ l. (lost ++ left) ++ l) (sym z))

-- The first of what is left is served.
pub one_served :
    (accepted served lost left rest : List ℕ) (r : ℕ)
    → accepted ≡ served ++ (lost ++ left)
    → lost ≡ []
    → left ≡ r ∷ rest
    → accepted ≡ (served ++ r ∷ []) ++ ((lost ++ []) ++ rest)
one_served accepted served lost left rest r e z f =
    e
    ∙ ap (λ l. served ++ (l ++ left)) z
    ∙ ap (λ l. served ++ l) f
    ∙ sym (append_assoc served (r ∷ []) rest)
    ∙ ap (λ l. (served ++ r ∷ []) ++ ((l ++ []) ++ rest)) (sym z)

module _ {N : Notify} {T : Type 0} where
  -- What the order of the requests depends on.
  abbrev pub Same : Isle N T → Isle N T → Type 0
  Same w u = (u.next_reply ≡ w.next_reply) × (jobs u.queue ≡ jobs w.queue) × (u.thread ≡ w.thread)

  exit_lem :
      (t : Thread) (w : Isle N T)
      → let u = exit t w in (u.next_reply ≡ w.next_reply) × (u.queue ≡ []) × (u.thread ≡ t)
  unfolding exit
  exit_lem t w =
      let e = drop_requests_lem w.queue (record w { thread = t; queue = [] }) in
      (ap (λ u. u.next_reply) e, ap (λ u. u.queue) e, ap (λ u. u.thread) e)

  pub serve_lem :
      (out : Outcome (Result T IsleError)) (w : Isle N T) (q : List Request)
      → w.queue ≡ q
      → let u = serve out w in
        (u.next_reply ≡ w.next_reply)
        × (u.queue ≡ queue_after q out)
        × (u.thread ≡ thread_after q out w.thread)
  unfolding serve
  serve_lem out w [] e = rw (serve, e) (refl, e, refl)
  serve_lem out w (shutdown_request ∷ rest) e =
      rw (serve, e) (exit_lem stopped (record w { queue = rest }))
  serve_lem (returns v) w (run r n ∷ rest) e = rw (serve, e) (refl, refl, refl)
  serve_lem (panics m) w (run r n ∷ rest) e =
      rw (serve, e)
        (exit_lem (panicked m)
          (record (set_reply w r (record (w.reply r) { sender = false })) { queue = rest }))

  pub send-Same : (w : Isle N T) → Same w (send shutdown_request w)
  unfolding send
  send-Same w = elim (Bool-cases (is_serving w.thread)) [
    | inl e ↦
        rw (send, e)
          (refl, jobs-append w.queue (shutdown_request ∷ []) ∙ append-nil (jobs w.queue), refl)
    | inr e ↦ rw (send, e) (refl, refl, refl)
  ]

  pub try_recv-Same : (t : Task) (w : Isle N T) → Same w (try_recv t w).0
  unfolding try_recv
  try_recv-Same t w = elim (Option-cases (w.reply t.rx).value) [
    | inl e ↦ rw (try_recv, e) (refl, refl, refl)
    | inr (v, e) ↦ rw (try_recv, e) (refl, refl, refl)
  ]

  pub drop-Same : (t : Task) (w : Isle N T) → Same w (drop t w)
  unfolding drop cancel_task
  drop-Same t w = elim (Bool-cases t.released) [
    | inl e ↦ rw (drop, e) (refl, refl, refl)
    | inr e ↦ rw (drop, e) (refl, refl, refl)
  ]
