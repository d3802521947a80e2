-- ===== src/Store/Guard.antt =====
-- `StateGuard` of adapters/cloudflare/state-do.js: one Durable Object, addressed by one key. Times
-- are in milliseconds. The runtime runs one event at a time, and the alarm no earlier than it is
-- set for; both are in the step relation of `Guard.Steps`.
pub mod Steps
use smart_access_gateway.Prelude.{
  ℕ, zero, suc, ◌+◌, ◌*◌, min, max, String, Bool, true, false, not, Option, none, some, ◌==◌,
  nat_eq, string_eq, if◌then◌else◌, or_default,
}

-- `Number(body.ttlSeconds)`, for whole numbers.
pub data JsNumber : Type 0 where
  not_a_number : JsNumber
  negative : ℕ → JsNumber
  whole : ℕ → JsNumber

-- The parsed JSON body; a field that is absent or of another type is `none`.
pub record Body : Type 0 where
  pub id : Option String
  pub op : Option String
  pub ttl_seconds : JsNumber

pub record Request : Type 0 where
  pub method : String
  pub body : Option Body

pub data Response : Type 0 where
  method_not_allowed : Response
  invalid_request : Response
  claimed_body : Bool → Response
  count_body : ℕ → Response
  fresh_body : Bool → Response

-- The object's storage and its pending alarm.
pub record Guard : Type 0 where
  pub claimed : Option ℕ
  pub count : Option ℕ
  pub alarm_at : Option ℕ

abbrev pub no_record : Guard
no_record = record { claimed = none; count = none; alarm_at = none }

-- `Number(x) || 120`
abbrev pub number_or_default : JsNumber → JsNumber
number_or_default (whole zero) = whole 120
number_or_default not_a_number = whole 120
number_or_default n = n

abbrev pub at_least_minute : JsNumber → ℕ
at_least_minute (whole n) = max n 60
at_least_minute _ = 60

-- `Math.min(Math.max(Number(body.ttlSeconds) || 120, 60), 366 * 86400)`
abbrev pub clamped_ttl : JsNumber → ℕ
clamped_ttl n = min (at_least_minute (number_or_default n)) (366 * 86400)

-- `Boolean(value)` of a stored number.
abbrev pub truthy : Option ℕ → Bool
truthy none = false
truthy (some zero) = false
truthy (some (suc n)) = true

-- `get('count') || 0`
abbrev pub current_count : Option ℕ → ℕ
current_count c = or_default c 0

increment : ℕ → ℕ → Guard → Response × Guard
increment now ttl g =
    let current = current_count g.count in
    let next = current + 1 in
    let stored = record g { count = some next } in
    (
      count_body next,
      if current == 0 then record stored { alarm_at = some (now + ttl * 1000) } else stored,
    )

claim : ℕ → ℕ → Guard → Response × Guard
claim now ttl g =
    if truthy g.claimed
    then (fresh_body false, g)
    else (fresh_body true, record g { claimed = some now; alarm_at = some (now + ttl * 1000) })

-- `['claim', 'has', 'increment'].includes(body.op) ? body.op : 'claim'`, and the branches on it.
dispatch : ℕ → Option String → ℕ → Guard → Response × Guard
unfolding increment claim
dispatch now none ttl g = claim now ttl g
dispatch now (some op) ttl g =
    if op == "has"
    then (claimed_body (truthy g.claimed), g)
    else if op == "increment"
    then increment now ttl g
    else claim now ttl g

handle_body : ℕ → Option Body → Guard → Response × Guard
unfolding dispatch
handle_body now none g = (invalid_request, g)
handle_body now (some body) g =
    if or_default body.id "" == ""
    then (invalid_request, g)
    else dispatch now body.op (clamped_ttl body.ttl_seconds) g

unfoldable pub fetch : ℕ → Request → Guard → Response × Guard
unfolding handle_body
fetch now request g =
    if not (request.method == "POST")
    then (method_not_allowed, g)
    else handle_body now request.body g

-- `alarm()`: the storage is emptied, and the alarm that ran is gone.
unfoldable pub alarm : Guard → Guard
alarm g = no_record
