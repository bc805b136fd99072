-- ===== src/Router/TrafficTests.antt =====
-- router/mod.rs: two requests to a worker of a small router, of which the second is answered first.
use ida_mcp.Base.{
  suc, ◌+◌, ◌^◌, ◌<◌, ◌≡◌, ◌≢◌, refl, inr, true, none, some, List, [], ◌∷◌, Text, text, decimal,
  length, arith, text_key, text_discrete, ℕ_discrete, hex, hex_padded,
}
use ida_mcp.Json
use ida_mcp.Json.{null}
use ida_mcp.Router.{ok, worker_key_discrete}
use ida_mcp.Router.Invariant.{empty}
use ida_mcp.Router.Numbered.{IsNumbered}
use ida_mcp.Router.Numbers.{Traffic, asks, answers, run_traffic, run_traffic-deliver}
use ida_mcp.Router.Refs.{ref_token}
use ida_mcp.Router.Registry.{next_counter}
use ida_mcp.Router.Route.{
  negsuc, choose_target, admit, next_req_id, admit_to, timeout_secs, send_request, deliver,
  RpcResponse, answer_of,
}
use ida_mcp.Router.Spawn.{new_handle, register, spawn_new, spawn_or_share, spawn_commit}
use ida_mcp.Router.Tests.{tiny, two_open, first_handle}

abbrev pong : Text → RpcResponse
pong id = record {
  jsonrpc = text "2.0";
  id = id;
  result = none;
  error = some (record { code = negsuc 0; message = text "no"; error_data = none });
}

request_sent :
    (send_request tiny (some first_handle) (text "ping") null 5 40 true two_open).1
    ≡ ok (record { target = first_handle; req_id = text "r2"; timeout = 120 })
unfolding spawn_commit spawn_or_share spawn_new register new_handle ref_token empty hex hex_padded
    worker_key_discrete text_discrete ℕ_discrete send_request choose_target admit next_req_id
    admit_to decimal timeout_secs Json.get
request_sent = refl

-- Another request to the same worker, and its answer.
abbrev traffic : List Traffic
traffic =
    asks (some first_handle) (text "ping") null 6 41 true
    ∷ answers first_handle (pong (text "r3"))
    ∷ []

two_open-IsNumbered : IsNumbered two_open
unfolding spawn_commit spawn_or_share spawn_new register new_handle ref_token empty hex hex_padded
    worker_key_discrete text_discrete ℕ_discrete IsNumbered
two_open-IsNumbered = (tt, (tt, tt))

few_sent : suc (two_open.req_counter + length traffic) < 2 ^ 64
unfolding spawn_commit spawn_or_share spawn_new register new_handle ref_token empty hex hex_padded
    worker_key_discrete text_discrete ℕ_discrete next_counter
few_sent = omega arith

third_not_second : text "r3" ≢ text "r2"
third_not_second e = absurd (ground arith)

run_traffic-deliver_example :
    let later =
      run_traffic tiny traffic
        (send_request tiny (some first_handle) (text "ping") null 5 40 true two_open).0 in
    let (answered, told) = deliver first_handle (pong (text "r2")) later in
    (told ≡ some (5, answer_of (pong (text "r2"))))
    × ((deliver first_handle (pong (text "r2")) answered).1 ≡ none)
    × IsNumbered later
run_traffic-deliver_example =
    run_traffic-deliver tiny (some first_handle) (text "ping") null 5 40 true two_open
      (record { target = first_handle; req_id = text "r2"; timeout = 120 }) traffic
      (pong (text "r2")) (pong (text "r2")) two_open-IsNumbered few_sent request_sent
      (tt, (inr third_not_second, tt)) refl refl
