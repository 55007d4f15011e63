-- ===== src/Handle/Rounds.antt =====
-- src/thread.rs, `run_loop`: what one round makes of the first request.
use mlua_isle.Base.{
  ◌≡◌, refl, ap, ◌∙◌, false, List, [], ◌∷◌, Result, arith, Bool-cases, Option-cases, inl, inr, err,
  ready,
}
use mlua_isle.Tokio.{Notify}
use mlua_isle.Error.{IsleError}
use mlua_isle.Handle.{
  Isle, Task, Request, Outcome, returns, panics, panicked, serve, run, shutdown_request, new_task,
  exit, set_reply, wait, drop_requests,
}
use mlua_isle.Handle.Answers.{drop_requests_reply}

module _ {N : Notify} {T : Type 0} where
  -- What the thread makes of the first of the requests `q`: the wait for its task gives the result that
  -- the job returned, and does not block when it panicked.
  abbrev pub IsFirstAnswered : List Request → Outcome (Result T IsleError) → Isle N T → Type 0
  IsFirstAnswered [] out u = Unit
  IsFirstAnswered (shutdown_request ∷ rest) out u = Unit
  IsFirstAnswered (run r n ∷ rest) (returns v) u = wait (new_task r n) u ≡ ready v
  IsFirstAnswered (run r n ∷ rest) (panics m) u =
      (v : Result T IsleError) × (wait (new_task r n) u ≡ ready v)

  gone_answers :
      (t : Task) (u : Isle N T)
      → (u.reply t.rx).sender ≡ false
      → (v : Result T IsleError) × (wait t u ≡ ready v)
  unfolding wait
  gone_answers t u f = elim (Option-cases (u.reply t.rx).value) [
    | inr (v, e) ↦ (v, rw (wait, e) refl)
    | inl e ↦ (err IsleError.recv_failed, rw (wait, e, f) refl)
  ]

  pub serve-IsFirstAnswered :
      (out : Outcome (Result T IsleError)) (w : Isle N T) (q : List Request)
      → w.queue ≡ q
      → IsFirstAnswered q out (serve out w)
  unfolding serve wait exit new_task
  serve-IsFirstAnswered out w [] e = tt
  serve-IsFirstAnswered out w (shutdown_request ∷ rest) e = tt
  serve-IsFirstAnswered (returns v) w (run r n ∷ rest) e = ground (arith, e)
  serve-IsFirstAnswered (panics m) w (run r n ∷ rest) e =
      let u = set_reply (record w { queue = rest }) r (record (w.reply r) { sender = false }) in
      let x : Isle N T = record u { thread = panicked m; queue = [] } in
      let same : serve (panics m) w ≡ drop_requests rest x = rw (serve, e) refl in
      let (a, b) = drop_requests_reply rest x r in
      gone_answers (new_task r n) (serve (panics m) w)
        (elim (Bool-cases ((drop_requests rest x).reply r).sender) [
          | inl t ↦ absurd (ground (arith, b t))
          | inr f ↦ ap (λ y. (y.reply r).sender) same ∙ f
        ])
