-- ===== src/HostChan/Waits.antt =====
-- src/host_chan.rs: the end of a requester's wait.
use mlua_isle.HostChan.Once.{reply_with_shut, reply_with_fails, reply_with_open}
use mlua_isle.Base.{
  String, ◌≡◌, refl, Bool, true, false, Result, ok, err, ready, arith, Bool-cases, Option-cases,
  inl, inr,
}
use mlua_isle.Error.Convert.{MluaError}
use mlua_isle.HostChan.{
  Request, ReplyState, open_reply, answered, RequestError, rejected, no_reply, is_open, reply,
  reject, reply_with, answer, close, give_up, into_lua, wait_answer,
}
use mlua_isle.HostChan.Acts.{Act, Acts, replies, rejects, closes, gives_up, done, next, act, acts}

module _ {Resp E : Type 0} where
  -- The sender of a request that is not open is gone.
  abbrev IsShut : Request Resp E → Type 0
  IsShut r = is_open r ≡ false → r.answer.sender ≡ false

  answer-IsShut :
      (m : String) (v : Result Resp E) (s : Request Resp E) (st : ReplyState)
      → s.state ≡ st
      → IsShut s
      → IsShut (answer m v s).0
  unfolding answer is_open
  answer-IsShut m v s open_reply e h = elim (Bool-cases s.answer.receiver) [
    | inl f ↦ λ o. ground (arith, e, f)
    | inr f ↦ λ o. ground (arith, e, f)
  ]
  answer-IsShut m v s answered e h = λ o. ground (arith, e, h)
  answer-IsShut m v s ReplyState.closed e h = λ o. ground (arith, e, h)

  reply_with-IsShut :
      {A : Type 0} (m : String) (wrap : A → Result Resp E) (during : Acts Resp E)
      (v : Result A MluaError) (r : Request Resp E)
      → IsShut r
      → IsShut (acts during r)
      → IsShut (reply_with m wrap (λ s. (acts during s, v)) r).0
  reply_with-IsShut m wrap during (err x) r h k = elim (Bool-cases (is_open r)) [
    | inr o ↦ rw (reply_with_shut m wrap (λ s. (acts during s, err x)) r r.state refl o).0 h
    | inl o ↦ rw (reply_with_fails m wrap (λ s. (acts during s, err x)) r r.state x refl o refl) k
  ]
  reply_with-IsShut m wrap during (ok x) r h k = elim (Bool-cases (is_open r)) [
    | inr o ↦ rw (reply_with_shut m wrap (λ s. (acts during s, ok x)) r r.state refl o).0 h
    | inl o ↦
        rw (reply_with_open m wrap (λ s. (acts during s, ok x)) r r.state x refl o refl)
          (answer-IsShut m (wrap x) (acts during r) (acts during r).state refl k)
  ]

  close-IsShut : (r : Request Resp E) (st : ReplyState) → r.state ≡ st → IsShut r → IsShut (close r)
  unfolding close is_open
  close-IsShut r open_reply e h = λ o. ground (arith, e)
  close-IsShut r answered e h = λ o. ground (arith, e, h)
  close-IsShut r ReplyState.closed e h = λ o. ground (arith, e, h)

  give_up-IsShut : (r : Request Resp E) → IsShut r → IsShut (give_up r)
  unfolding give_up is_open
  give_up-IsShut r h = h

  mutual
    unfolding act reply reject give_up

    act-IsShut : (a : Act Resp E) (r : Request Resp E) → IsShut r → IsShut (act a r)
    act-IsShut (replies during v) r h =
        reply_with-IsShut "reply" ok during v r h (acts-IsShut during r h)
    act-IsShut (rejects during v) r h =
        reply_with-IsShut "reject" err during v r h (acts-IsShut during r h)
    act-IsShut closes r h = close-IsShut r r.state refl h
    act-IsShut gives_up r h = give_up-IsShut r h

    acts-IsShut : (rest : Acts Resp E) (r : Request Resp E) → IsShut r → IsShut (acts rest r)
    acts-IsShut done r h = h
    acts-IsShut (next a rest) r h = acts-IsShut rest (act a r) (act-IsShut a r h)

into_lua-IsShut :
    (Resp E : Type 0) (converted : Bool) → IsShut (into_lua {Resp = Resp} {E = E} converted)
unfolding into_lua is_open
into_lua-IsShut Resp E true = λ o. absurd (ground (arith, o))
into_lua-IsShut Resp E false = λ o. refl

-- A requester does not wait for nothing: in any run of a request that the channel took, whether or not
-- its value was converted, once the request is not open (answered, closed or collected) the wait for
-- its answer is over.
pub waits_end :
    {Resp E : Type 0} (Req : Type 0) (converted : Bool) (rest : Acts Resp E)
    → is_open (acts rest (into_lua converted)) ≡ false
    → (v : Result Resp (RequestError Req E)) × (wait_answer (acts rest (into_lua converted)).answer
        ≡ ready v)
unfolding wait_answer
waits_end {Resp} {E} Req converted rest o =
    let r : Request Resp E = acts rest (into_lua converted) in
    let f = acts-IsShut rest (into_lua converted) (into_lua-IsShut Resp E converted) o in
    elim (Option-cases r.answer.value) [
      | inl e ↦ (err no_reply, rw (wait_answer, e, f) refl)
      | inr (ok v, e) ↦ (ok v, rw (wait_answer, e) refl)
      | inr (err x, e) ↦ (err (rejected x), rw (wait_answer, e) refl)
    ]
