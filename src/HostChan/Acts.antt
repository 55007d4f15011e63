-- ===== src/HostChan/Acts.antt =====
-- src/host_chan.rs: what Lua and the requester do with a request, in any order. The conversion of an
-- argument of `reply` or `reject` may run Lua code, which uses the same request.
use mlua_isle.Base.{ℕ, ◌+◌, Bool, if◌then◌else◌, Result, ok, err}
use mlua_isle.Error.Convert.{MluaError}
use mlua_isle.HostChan.{Request, is_open, reply, reject, close, give_up}

mutual
  -- `replies` and `rejects`: what happens during the conversion, and what the conversion gives.
  pub data Act (Resp : Type 0) (E : Type 0) : Type 0 where
    replies : Acts Resp E → Result Resp MluaError → Act Resp E
    rejects : Acts Resp E → Result E MluaError → Act Resp E
    closes gives_up : Act Resp E

  pub data Acts (Resp : Type 0) (E : Type 0) : Type 0 where
    done : Acts Resp E
    next : Act Resp E → Acts Resp E → Acts Resp E

-- Whether a call of a method succeeded.
abbrev pub one_if_ok : Result Bool MluaError → ℕ
one_if_ok (ok b) = 1
one_if_ok (err e) = 0

module _ {Resp E : Type 0} where
  unfoldable mutual
    pub act : Act Resp E → Request Resp E → Request Resp E
    act (replies during v) r = (reply (λ s. (acts during s, v)) r).0
    act (rejects during v) r = (reject (λ s. (acts during s, v)) r).0
    act closes r = close r
    act gives_up r = give_up r

    pub acts : Acts Resp E → Request Resp E → Request Resp E
    acts done r = r
    acts (next a rest) r = acts rest (act a r)

  unfoldable mutual
    -- How many calls of `reply` and `reject` succeeded, those during conversions too.
    pub successes : Acts Resp E → Request Resp E → ℕ
    successes done r = 0
    successes (next a rest) r = act_successes a r + successes rest (act a r)

    -- A conversion runs only while the request is open.
    pub act_successes : Act Resp E → Request Resp E → ℕ
    act_successes (replies during v) r =
        if is_open r
        then successes during r + one_if_ok (reply (λ s. (acts during s, v)) r).1
        else 0
    act_successes (rejects during v) r =
        if is_open r
        then successes during r + one_if_ok (reject (λ s. (acts during s, v)) r).1
        else 0
    act_successes closes r = 0
    act_successes gives_up r = 0
