-- ===== src/Hcm/Backoff.antt =====
-- The payload and the delays of the outbound worker (workers/outbound-sync.worker.ts).
use native.Mathlib.Omega.{pow_step}
use timeoff_request.Base.{ℕ, suc, ◌*◌, ◌^◌, ◌≤◌, ◌≡◌, refl, String, Option, none, some, arith, min}
use timeoff_request.Store.Rows.{TimeOffRequest}
use timeoff_request.Store.World.{Trace}
use timeoff_request.Requests.Service.{outbound_payload}
use timeoff_request.Hcm.Worker

-- of a request context, the ids that a payload carries
abbrev pub ids_of : Option Trace → Option (String × String)
ids_of none = none
ids_of (some t) = some (t.correlation_id, t.request_id)

-- For every request and request context, also none: the worker reads from the payload of an approval
-- the employee, the location, the days and the two ids that `approve` wrote.
pub parse_payload-outbound_payload :
    (request : TimeOffRequest) (trace : Option Trace)
    → Worker.parse_payload (outbound_payload request trace)
      ≡ some (record {
        employee_id = request.employee_id;
        location_id = request.location_id;
        days = request.days;
        trace = ids_of trace;
      })
unfolding Worker.parse_payload outbound_payload
parse_payload-outbound_payload request none = refl
parse_payload-outbound_payload request (some t) = refl

-- For every attempt and jitter: the delay is at least 250 ms times two to the attempt or the cap,
-- at most 30 s, and grows with the attempt.
pub backoff_bounds :
    (attempt jitter : ℕ)
    → (Worker.backoff_delay attempt jitter ≤ 30000)
      × (min (250 * 2 ^ attempt) 30000 ≤ Worker.backoff_delay attempt jitter)
      × (Worker.backoff_delay attempt jitter ≤ Worker.backoff_delay (suc attempt) jitter)
unfolding Worker.backoff_delay
backoff_bounds attempt jitter = (omega arith, omega arith, omega (arith, pow_step 2 attempt))
