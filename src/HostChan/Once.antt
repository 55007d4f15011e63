-- ===== src/HostChan/Once.antt =====
-- src/host_chan.rs: a request is answered once, and the requester sees that answer.
use mlua_isle.Base.{
  String, ℕ, ◌+◌, ◌≡◌, refl, sym, ap, ◌∙◌, Bool, true, false, if◌then◌else◌, some, Result, ok, err,
  Poll, ready, arith, Bool-cases, inl, inr,
}
use mlua_isle.Error.Convert.{MluaError}
use mlua_isle.HostChan.{
  Request, Answer, ReplyState, open_reply, answered, RequestError, rejected, is_open, reply, reject,
  reply_with, answer, answered_error, close, give_up, into_lua, replied, wait_answer,
}
use mlua_isle.HostChan.Acts.{
  Act, Acts, replies, rejects, closes, gives_up, done, next, act, acts, successes, act_successes,
  one_if_ok,
}

abbrev one_if : Bool → ℕ
one_if true = 1
one_if false = 0

-- What a requester sees of an answer.
abbrev seen : {Req Resp E : Type 0} → Result Resp E → Poll (Result Resp (RequestError Req E))
seen (ok v) = ready (ok v)
seen (err e) = ready (err (rejected e))

-- What no step changes once the request is not open.
record Frozen {Resp E : Type 0} (r s : Request Resp E) : Type 0 where
  same_state : s.state ≡ r.state
  same_value : s.answer.value ≡ r.answer.value
  same_sender : s.answer.sender ≡ r.answer.sender

module _ {Resp E : Type 0} where
  -- An answer on each branch.
  answer_lem :
      (m : String) (v : Result Resp E) (s : Request Resp E) (st : ReplyState)
      → s.state ≡ st
      → one_if_ok (answer m v s).1 + one_if (replied s) ≡ one_if (replied (answer m v s).0)
  unfolding answer replied
  answer_lem m v s open_reply e = ground (arith, e)
  answer_lem m v s answered e = ground (arith, e)
  answer_lem m v s ReplyState.closed e = ground (arith, e)

  -- A method of a request that is not open fails and changes nothing.
  pub reply_with_shut :
      {A : Type 0} (m : String) (wrap : A → Result Resp E)
      (convert : Request Resp E → Request Resp E × Result A MluaError) (r : Request Resp E)
      (st : ReplyState)
      → r.state ≡ st
      → is_open r ≡ false
      → ((reply_with m wrap convert r).0 ≡ r) × (one_if_ok (reply_with m wrap convert r).1 ≡ 0)
  unfolding reply_with answered_error is_open
  reply_with_shut m wrap convert r open_reply e o = absurd (ground (arith, e, o))
  reply_with_shut m wrap convert r answered e o = ground (arith, e)
  reply_with_shut m wrap convert r ReplyState.closed e o = ground (arith, e)

  -- A method of an open request converts its argument.
  pub reply_with_fails :
      {A : Type 0} (m : String) (wrap : A → Result Resp E)
      (convert : Request Resp E → Request Resp E × Result A MluaError) (r : Request Resp E)
      (st : ReplyState) (x : MluaError)
      → r.state ≡ st
      → is_open r ≡ true
      → (convert r).1 ≡ err x
      → reply_with m wrap convert r ≡ ((convert r).0, err x)
  unfolding reply_with answered_error is_open
  reply_with_fails m wrap convert r open_reply x e o c = ground (arith, e, c)
  reply_with_fails m wrap convert r answered x e o c = absurd (ground (arith, e, o))
  reply_with_fails m wrap convert r ReplyState.closed x e o c = absurd (ground (arith, e, o))

  pub reply_with_open :
      {A : Type 0} (m : String) (wrap : A → Result Resp E)
      (convert : Request Resp E → Request Resp E × Result A MluaError) (r : Request Resp E)
      (st : ReplyState) (x : A)
      → r.state ≡ st
      → is_open r ≡ true
      → (convert r).1 ≡ ok x
      → reply_with m wrap convert r ≡ answer m (wrap x) (convert r).0
  unfolding reply_with answered_error is_open
  reply_with_open m wrap convert r open_reply x e o c = ground (arith, e, c)
  reply_with_open m wrap convert r answered x e o c = absurd (ground (arith, e, o))
  reply_with_open m wrap convert r ReplyState.closed x e o c = absurd (ground (arith, e, o))

  -- One method call counts what it answers.
  reply_with_count :
      {A : Type 0} (m : String) (wrap : A → Result Resp E) (during : Acts Resp E)
      (v : Result A MluaError) (r : Request Resp E) (n : ℕ)
      → n + one_if (replied r) ≡ one_if (replied (acts during r))
      → (if is_open r then n + one_if_ok (reply_with m wrap (λ s. (acts during s, v)) r).1 else 0)
          + one_if (replied r)
        ≡ one_if (replied (reply_with m wrap (λ s. (acts during s, v)) r).0)
  reply_with_count m wrap during (err x) r n e = elim (Bool-cases (is_open r)) [
    | inl o ↦
        rw (reply_with_fails m wrap (λ s. (acts during s, err x)) r r.state x refl o refl)
          (ground (arith, o, e))
    | inr o ↦
        let (a, b) = reply_with_shut m wrap (λ s. (acts during s, err x)) r r.state refl o in
        rw (a, o) (omega arith)
  ]
  reply_with_count m wrap during (ok x) r n e = elim (Bool-cases (is_open r)) [
    | inl o ↦
        rw (reply_with_open m wrap (λ s. (acts during s, ok x)) r r.state x refl o refl)
          (ground (arith, o, e, answer_lem m (wrap x) (acts during r) (acts during r).state refl))
    | inr o ↦
        let (a, b) = reply_with_shut m wrap (λ s. (acts during s, ok x)) r r.state refl o in
        rw (a, o) (omega arith)
  ]

  close_count :
      (r : Request Resp E) (st : ReplyState)
      → r.state ≡ st
      → one_if (replied r) ≡ one_if (replied (close r))
  unfolding close replied
  close_count r open_reply e = ground (arith, e)
  close_count r answered e = ground (arith, e)
  close_count r ReplyState.closed e = ground (arith, e)

  give_up_count : (r : Request Resp E) → one_if (replied r) ≡ one_if (replied (give_up r))
  unfolding give_up replied
  give_up_count r = refl

  mutual
    unfolding act successes reply reject replied

    act-count :
        (a : Act Resp E) (r : Request Resp E)
        → act_successes a r + one_if (replied r) ≡ one_if (replied (act a r))
    act-count (replies during v) r =
        reply_with_count "reply" ok during v r (successes during r) (acts-count during r)
    act-count (rejects during v) r =
        reply_with_count "reject" err during v r (successes during r) (acts-count during r)
    act-count closes r = omega (arith, close_count r r.state refl)
    act-count gives_up r = omega (arith, give_up_count r)

    acts-count :
        (rest : Acts Resp E) (r : Request Resp E)
        → successes rest r + one_if (replied r) ≡ one_if (replied (acts rest r))
    acts-count done r = omega arith
    acts-count (next a rest) r = omega (arith, act-count a r, acts-count rest (act a r))

  Frozen-refl : (r : Request Resp E) → Frozen r r
  Frozen-refl r = record { same_state = refl; same_value = refl; same_sender = refl }

  Frozen-trans : (r s t : Request Resp E) → Frozen r s → Frozen s t → Frozen r t
  Frozen-trans r s t a b = record {
    same_state = b.same_state ∙ a.same_state;
    same_value = b.same_value ∙ a.same_value;
    same_sender = b.same_sender ∙ a.same_sender;
  }

  close-Frozen :
      (r : Request Resp E) (st : ReplyState) → r.state ≡ st → is_open r ≡ false → Frozen r (close r)
  unfolding close is_open
  close-Frozen r open_reply e o = absurd (ground (arith, e, o))
  close-Frozen r answered e o = let k : close r ≡ r = ground (arith, e) in rw k (Frozen-refl r)
  close-Frozen r ReplyState.closed e o =
      let k : close r ≡ r = ground (arith, e) in rw k (Frozen-refl r)

  act-Frozen : (a : Act Resp E) (r : Request Resp E) → is_open r ≡ false → Frozen r (act a r)
  unfolding act reply reject give_up
  act-Frozen (replies during v) r o =
      rw (reply_with_shut "reply" ok (λ s. (acts during s, v)) r r.state refl o).0 (Frozen-refl r)
  act-Frozen (rejects during v) r o =
      rw (reply_with_shut "reject" err (λ s. (acts during s, v)) r r.state refl o).0 (Frozen-refl r)
  act-Frozen closes r o = close-Frozen r r.state refl o
  act-Frozen gives_up r o = record { same_state = refl; same_value = refl; same_sender = refl }

  Frozen-is_open : (r s : Request Resp E) → Frozen r s → is_open r ≡ is_open s
  unfolding is_open
  Frozen-is_open r s h = ground (arith, h.same_state)

  acts-Frozen :
      (rest : Acts Resp E) (r : Request Resp E) → is_open r ≡ false → Frozen r (acts rest r)
  unfolding acts
  acts-Frozen done r o = Frozen-refl r
  acts-Frozen (next a rest) r o =
      let h = act-Frozen a r o in
      Frozen-trans r (act a r) (acts rest (act a r)) h
        (acts-Frozen rest (act a r) (sym (Frozen-is_open r (act a r) h) ∙ o))

  -- An answer that is delivered is there, and the request is not open any more.
  answer_delivers :
      (m : String) (v : Result Resp E) (s : Request Resp E) (st : ReplyState)
      → s.state ≡ st
      → (answer m v s).1 ≡ ok true
      → ((answer m v s).0.answer.value ≡ some v) × (is_open (answer m v s).0 ≡ false)
  unfolding answer is_open
  answer_delivers m v s open_reply e d = elim (Bool-cases s.answer.receiver) [
    | inl f ↦ ground (arith, e, f)
    | inr f ↦ absurd (ground (arith, e, f, d))
  ]
  answer_delivers m v s answered e d = absurd (ground (arith, e, d))
  answer_delivers m v s ReplyState.closed e d = absurd (ground (arith, e, d))

  wait_seen :
      {Req : Type 0} (v : Result Resp E) (a : Answer Resp E)
      → a.value ≡ some v
      → wait_answer {Req = Req} a ≡ seen v
  unfolding wait_answer
  wait_seen (ok v) a e = rw (wait_answer, e) refl
  wait_seen (err x) a e = rw (wait_answer, e) refl

  -- Whatever happened before, during its conversion and after it: when a `reply` or a `reject` answers
  -- `true`, the requester gets the value that it gave, as a reply or as a rejection, and nothing later
  -- changes that.
  pub reply_delivers :
      {A : Type 0} (Req : Type 0) (m : String) (wrap : A → Result Resp E)
      (during after : Acts Resp E) (x : A) (r : Request Resp E)
      → (reply_with m wrap (λ s. (acts during s, ok x)) r).1 ≡ ok true
      → wait_answer {Req = Req}
          (acts after (reply_with m wrap (λ s. (acts during s, ok x)) r).0).answer
        ≡ seen (wrap x)
  reply_delivers Req m wrap during after x r e = elim (Bool-cases (is_open r)) [
    | inr o ↦
        let (a, b) = reply_with_shut m wrap (λ s. (acts during s, ok x)) r r.state refl o in
        absurd (ground (arith, b, e))
    | inl o ↦
        let k = reply_with_open m wrap (λ s. (acts during s, ok x)) r r.state x refl o refl in
        let (v, c) =
          answer_delivers m (wrap x) (acts during r) (acts during r).state refl
            (ap (λ p. p.1) (sym k) ∙ e) in
        let u = (answer m (wrap x) (acts during r)).0 in
        let h = acts-Frozen after u c in
        rw k (wait_seen (wrap x) (acts after u).answer (h.same_value ∙ v))
  ]

  -- A request is answered at most once: in any run of a request that Lua took, as many calls of `reply` and
  -- `reject` succeed, those that run during a conversion too, as `replied` says: one or none.
  pub answered_once :
      (rest : Acts Resp E)
      → successes rest (into_lua true) ≡ (if replied (acts rest (into_lua true)) then 1 else 0)
  unfolding into_lua replied
  answered_once rest =
      let r : Request Resp E = into_lua true in
      let e = acts-count rest r in
      elim (Bool-cases (replied (acts rest r))) [
        | inl f ↦ ground (arith, e, f)
        | inr f ↦ ground (arith, e, f)
      ]
