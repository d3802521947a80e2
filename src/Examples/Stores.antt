-- ===== src/Examples/Stores.antt =====
-- Runs of the state stores.
use smart_access_gateway.Prelude.{
  ◌+◌, ◌≤◌, String, ◌≡◌, refl, ◌≢◌, true, false, none, some, [], ◌∷◌, arith, ok, length,
}
use smart_access_gateway.Prelude.Maps.{lookup, insert}
use smart_access_gateway.Util.Bytes.{codes}
use smart_access_gateway.Store.Memory.{Counter, MemoryStore, empty, claim, increment}
use smart_access_gateway.Store.Memory.Traces.{
  claim_call, increment_call, hits, run, memory_state_store, claim_once, protected_count_exact,
  run-IsBounded,
}
use smart_access_gateway.Store.Guard.{whole, Body, no_record, fetch, fresh_body, Request}
use smart_access_gateway.Store.Guard.Steps.{here, fresh_once}
use smart_access_gateway.Limits.{
  check_window, check_daily, address_key, counter_key, OtpLimits, LocalLimits, Keys,
  check_otp_send_allowed,
}
use smart_access_gateway.Limits.Lockout.{attempt, other, allowed_count, address_counter}
use smart_access_gateway.Limits.Lockout.Opening.{allowed_count-le}
use smart_access_gateway.Limits.Windows.{IsRefusal, check_otp_send_allowed-IsRefusal}

first_claim : (claim 10 "c" 60 (empty 2)).0 ≡ ok true
unfolding claim lookup
first_claim = refl

claim_once_example :
    (claim 40 "c" 5 (run (increment_call 20 "n" 9 false ∷ []) (claim 10 "c" 60 (empty 2)).1)).0
    ≡ ok false
claim_once_example =
    claim_once 10 40 "c" 60 5 (empty 2) (increment_call 20 "n" 9 false ∷ []) first_claim
      (omega arith) (omega arith, tt)

-- A protected counter, as its first increment leaves it.
abbrev counter : Counter
counter = record { expires_at = 70; count = 1; fail_closed = true }

abbrev guarded : MemoryStore
guarded = (increment 10 "n" 60 true (empty 1)).1

counter_held : lookup "n" guarded.counters ≡ some counter
unfolding increment lookup insert
counter_held = refl

protected_count_exact_example :
    lookup "n"
      (run (increment_call 20 "m" 9 false ∷ increment_call 30 "n" 9 false ∷ []) guarded).counters
    ≡ some (record counter {
      count = 1 + hits "n" (increment_call 20 "m" 9 false ∷ increment_call 30 "n" 9 false ∷ []);
    })
protected_count_exact_example =
    protected_count_exact (increment_call 20 "m" 9 false ∷ increment_call 30 "n" 9 false ∷ []) "n"
      counter guarded counter_held refl (omega arith, (omega arith, tt))

run-IsBounded_example :
    (length (run (claim_call 1 "a" 9 ∷ claim_call 2 "b" 9 ∷ []) (empty 1)).claims ≤ 1)
    × (length (run (claim_call 1 "a" 9 ∷ claim_call 2 "b" 9 ∷ []) (empty 1)).counters ≤ 1)
run-IsBounded_example = run-IsBounded 1 (claim_call 1 "a" 9 ∷ claim_call 2 "b" 9 ∷ [])

abbrev body : Body
body = record { id = some "x"; op = some "claim"; ttl_seconds = whole 90 }

abbrev post : Request
post = record { method = "POST"; body = some body }

first_fresh : (fetch 1000 post no_record).0 ≡ fresh_body true
unfolding fetch
first_fresh = refl

fresh_once_example : (fetch 2000 post (fetch 1000 post no_record).1).0 ≢ fresh_body true
fresh_once_example =
    fresh_once 1000 2000 body post no_record (fetch 1000 post no_record).1 (omega arith) first_fresh
      (here (fetch 1000 post no_record).1)

abbrev keys : Keys
keys = record { address_tag = λ t. "a"; network_tag = λ t. "n"; decimal = λ n. "0" }

abbrev local_limits : LocalLimits
local_limits = record { attempt_window_seconds = 300; max_attempts = 3; network_max_attempts = 0 }

abbrev address : String
address = address_counter keys local_limits 10 (codes "a@b.c") "password"

no_counter : lookup address (empty 5).counters ≡ none
unfolding lookup
no_counter = refl

allowed_count-le_example :
    allowed_count keys local_limits
      (codes "a@b.c")
      "password"
      (attempt 20 none ∷ other (claim_call 21 "c" 9) ∷ attempt 30 none ∷ [])
      (empty 5)
    ≤ 3
allowed_count-le_example =
    allowed_count-le keys local_limits (codes "a@b.c") "password" 10 address
      (attempt 20 none ∷ other (claim_call 21 "c" 9) ∷ attempt 30 none ∷ []) (empty 5) no_counter
      (
        (omega arith, omega arith, refl),
        ((omega arith, refl), ((omega arith, omega arith, refl), tt)),
      )

abbrev mail_limits : OtpLimits
mail_limits = record { send_window_seconds = 60; send_burst = 1; send_daily_limit = 0 }

abbrev sent : MemoryStore
sent =
    (check_otp_send_allowed keys (some memory_state_store) mail_limits 100 (codes "a@b.c")
      (empty 5)).1

second_refused :
    (check_otp_send_allowed keys
      (some memory_state_store)
      mail_limits
      110
      (codes "a@b.c")
      sent).0.allowed
    ≡ false
unfolding check_otp_send_allowed check_window check_daily address_key increment lookup insert
    counter_key
second_refused = refl

check_otp_send_allowed-IsRefusal_example :
    IsRefusal mail_limits 110
      (check_otp_send_allowed keys (some memory_state_store) mail_limits 110 (codes "a@b.c") sent).0
check_otp_send_allowed-IsRefusal_example =
    check_otp_send_allowed-IsRefusal keys memory_state_store mail_limits 110 (codes "a@b.c") sent
      second_refused
