-- ===== src/SimpleCc/Handshake.antt =====
-- A request crosses a bundle once, whatever the last level does with its register in between; so does
-- an answer, and a snoop.
use nullrvsim.Prelude.{ℕ, ◌≡◌, ◌≢◌, arith}
use nullrvsim.SimpleCc.Port.{Bundle, retire_request, pass_request, retire_answer, pass_answer}

-- A new request reaches the register of the last level at the end of the cycle. In the next cycle it
-- is withdrawn, and what the last level has made of its register by then (it takes the request out)
-- stays.
pub request_once :
    (p : Bundle) (taken : ℕ)
    → p.req_next ≢ 0
    → p.req_previous ≡ 0
    → ((pass_request p).req ≡ p.req_next)
      × ((pass_request p).req_line ≡ p.req_line_next)
      × ((retire_request (record (pass_request p) { req = taken })).req_next ≡ 0)
      × ((pass_request (retire_request (record (pass_request p) { req = taken }))).req ≡ taken)
unfolding retire_request pass_request
request_once p taken h z = ground arith

-- So it is with an answer and a snoop of the last level.
pub answer_once :
    (p : Bundle) (resp snoop : ℕ)
    → p.req_resp_vld_next ≢ 0
    → p.req_resp_vld_previous ≡ 0
    → p.snoop_next ≢ 0
    → p.snoop_previous ≡ 0
    → let sent = pass_answer p in
      let later = pass_answer (retire_answer (record sent { req_resp = resp; snoop = snoop })) in
      (sent.req_resp ≡ p.req_resp_vld_next)
      × (sent.snoop ≡ p.snoop_next)
      × (sent.snoop_line ≡ p.snoop_line_next)
      × (later.req_resp ≡ resp)
      × (later.snoop ≡ snoop)
unfolding retire_answer pass_answer
answer_once p resp snoop h z k y = ground arith
