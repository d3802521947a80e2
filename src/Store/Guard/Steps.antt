-- ===== src/Store/Guard/Steps.antt =====
-- The runs of one Durable Object: requests and alarms, in any order that the runtime may choose.
use smart_access_gateway.Prelude.{ℕ, ◌+◌, ◌*◌, ◌≤◌, ◌<◌, ◌≡◌, ◌≢◌, true, none, some, arith}
use smart_access_gateway.Store.Guard.{
  Body, Request, Guard, fresh_body, truthy, clamped_ttl, fetch, alarm,
}

-- One event: a request that arrives at a time, or the alarm, once it is due.
pub data Step : ℕ → Guard → Guard → Type 0 where
  serve : (now : ℕ) (request : Request) (g : Guard) → Step now g (fetch now request g).1
  ring : (now due : ℕ) (g : Guard) → g.alarm_at ≡ some due → due ≤ now → Step now g (alarm g)

-- A run in which every event happens before `limit`, and no request counts.
pub data Run (limit : ℕ) : Guard → Guard → Type 0 where
  here : (g : Guard) → Run limit g g
  next :
      {now : ℕ} {g h k : Guard}
      → now < limit
      → h.count ≡ none
      → Step now g h
      → Run limit h k
      → Run limit g k

-- A live claim whose alarm is not due before `limit`.
pub record IsHeld (limit : ℕ) (g : Guard) : Type 0 where
  pub claimed : truthy g.claimed ≡ true
  pub due : (a : ℕ) → g.alarm_at ≡ some a → limit ≤ a

fetch-IsHeld :
    (limit now : ℕ) (request : Request) (g : Guard)
    → IsHeld limit g
    → (fetch now request g).1.count ≡ none
    → IsHeld limit (fetch now request g).1
unfolding fetch
fetch-IsHeld limit now request g h c = record {
  claimed = ground (arith, h.claimed);
  due = λ a e. ground (arith, h.due a, h.claimed);
}

Step-IsHeld :
    {now : ℕ} {g h : Guard} (limit : ℕ)
    → now < limit
    → h.count ≡ none
    → Step now g h
    → IsHeld limit g
    → IsHeld limit h
Step-IsHeld limit lt c (serve now request g) held = fetch-IsHeld limit now request g held c
Step-IsHeld limit lt c (ring now due g e le) held = absurd (omega (arith, held.due due e))

Run-IsHeld : {limit : ℕ} {g h : Guard} → Run limit g h → IsHeld limit g → IsHeld limit h
Run-IsHeld (here g) held = held
Run-IsHeld {limit} (next lt c step run) held = Run-IsHeld run (Step-IsHeld limit lt c step held)

fresh-IsHeld :
    (now : ℕ) (body : Body) (g : Guard)
    → 0 < now
    → (fetch now (record { method = "POST"; body = some body }) g).0 ≡ fresh_body true
    → IsHeld
        (now + clamped_ttl body.ttl_seconds * 1000)
        (fetch now (record { method = "POST"; body = some body }) g).1
unfolding fetch
fresh-IsHeld now body g pos h = record { claimed = ground arith; due = λ a e. ground arith }

-- A request that claims is answered, and changes the object, as `fetch` at the operation `claim`.
held-refuses :
    (limit now : ℕ) (request : Request) (g : Guard)
    → IsHeld limit g
    → (fetch now request g).0 ≢ fresh_body true
unfolding fetch
held-refuses limit now request g h e = ground (arith, h.claimed)

-- Once a POST at a positive time has been told `fresh: true`, then after any run of requests that
-- count nothing and of due alarms, all before the clamped lifetime ends, no request is told
-- `fresh: true` again.
pub fresh_once :
    (now later : ℕ) (body : Body) (request : Request) (g h : Guard)
    → 0 < now
    → (fetch now (record { method = "POST"; body = some body }) g).0 ≡ fresh_body true
    → Run
        (now + clamped_ttl body.ttl_seconds * 1000)
        (fetch now (record { method = "POST"; body = some body }) g).1
        h
    → (fetch later request h).0 ≢ fresh_body true
fresh_once now later body request g h pos fresh run =
    held-refuses (now + clamped_ttl body.ttl_seconds * 1000) later request h
      (Run-IsHeld run (fresh-IsHeld now body g pos fresh))
