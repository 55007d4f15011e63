-- ===== src/HostChan/Tests.antt =====
-- src/host_chan.rs: a request that is answered during the conversion of another answer, at concrete calls.
use mlua_isle.Base.{ℕ, ◌≡◌, refl, true, if◌then◌else◌, Result, ok, ready}
use mlua_isle.HostChan.{
  Request, RequestError, is_open, reply_with, reply, reject, answer, answered_error, into_lua,
  replied, wait_answer, close,
}
use mlua_isle.HostChan.Acts.{Acts, replies, rejects, closes, done, next, act, acts, successes}
use mlua_isle.HostChan.Once.{reply_delivers, answered_once}
use mlua_isle.HostChan.Waits.{waits_end}

-- A reply whose conversion rejects the request, and a close after it.
abbrev nested : Acts ℕ ℕ
nested = next (replies (next (rejects done (ok 3)) done) (ok 7)) (next closes done)

answered_once_example :
    successes nested (into_lua true) ≡ (if replied (acts nested (into_lua true)) then 1 else 0)
answered_once_example = answered_once nested

abbrev taken : Request ℕ ℕ
taken = into_lua true

reply_delivers_example :
    wait_answer {Req = ℕ}
      (acts nested (reply_with "reply" ok (λ s. (acts done s, ok 7)) taken).0).answer
    ≡ ready (ok 7)
unfolding reply_with answered_error answer into_lua acts
reply_delivers_example = reply_delivers ℕ "reply" ok done nested 7 taken refl

waits_end_example :
    (v : Result ℕ (RequestError ℕ ℕ)) × (wait_answer (acts nested (into_lua true)).answer ≡ ready v)
unfolding acts act reply reject reply_with answered_error answer into_lua close is_open
waits_end_example = waits_end ℕ true nested refl
