-- ===== src/Store/Memory.antt =====
-- `createMemoryStore` of src/store/index.js: two capped maps in one process. A method returns the
-- new maps beside its result; what a throw leaves behind comes back too.
pub mod Claims
pub mod Counters
pub mod Traces
use smart_access_gateway.Prelude.{
  ℕ, ◌+◌, ◌-◌, ◌/◌, max, String, Bool, true, false, not, Option, none, some, [], ◌∷◌, Result, ok,
  err, length, drop, keep, Dict, ltb, leb, if◌then◌else◌,
}
use smart_access_gateway.Prelude.Maps.{lookup, insert, delete}
use smart_access_gateway.Store.{StoreError, full}

pub record Counter : Type 0 where
  pub expires_at : ℕ
  pub count : ℕ
  pub fail_closed : Bool

pub record MemoryStore : Type 0 where
  pub max_entries : ℕ
  pub claims : Dict ℕ
  pub counters : Dict Counter

abbrev pub empty : ℕ → MemoryStore
empty max_entries = record { max_entries = max_entries; claims = []; counters = [] }

-- `existing !== undefined && existing >= now`
abbrev pub claim_live : ℕ → Option ℕ → Bool
claim_live now none = false
claim_live now (some expiry) = leb now expiry

abbrev pub counter_live : ℕ → Option Counter → Bool
counter_live now none = false
counter_live now (some c) = leb now c.expires_at

-- `sweep(map, now)`, at each of its two entry types.
unfoldable pub sweep_claims : ℕ → Dict ℕ → Dict ℕ
sweep_claims now = keep (λ e. not (ltb e.1 now))

unfoldable pub sweep_counters : ℕ → Dict Counter → Dict Counter
sweep_counters now = keep (λ e. not (ltb e.1.expires_at now))

-- `claims.set(id, now + Math.max(1, ttlSeconds))`
set_claim : ℕ → String → ℕ → MemoryStore → MemoryStore
set_claim now id ttl s = record s { claims = insert id (now + max 1 ttl) s.claims }

unfoldable pub claim : ℕ → String → ℕ → MemoryStore → Result StoreError Bool × MemoryStore
unfolding set_claim
claim now id ttl s =
    if claim_live now (lookup id s.claims)
    then (ok false, s)
    else if leb s.max_entries (length s.claims)
    then (let swept = record s { claims = sweep_claims now s.claims } in
        if leb s.max_entries (length swept.claims)
        then (err full, swept)
        else (ok true, set_claim now id ttl swept))
    else (ok true, set_claim now id ttl s)

has_at : ℕ → String → MemoryStore → Option ℕ → Result StoreError Bool × MemoryStore
has_at now id s none = (ok false, s)
has_at now id s (some expiry) =
    if ltb expiry now then (ok false, record s { claims = delete id s.claims }) else (ok true, s)

unfoldable pub has : ℕ → String → MemoryStore → Result StoreError Bool × MemoryStore
unfolding has_at
has now id s = has_at now id s (lookup id s.claims)

-- The eviction loop of `increment`: `size` is `counters.size` and `drop` the loop's counter.
unfoldable pub evict : ℕ → ℕ → ℕ → Dict Counter → Dict Counter
evict limit size drop [] = []
evict limit size drop ((oldest, entry) ∷ rest) =
    let skipped = evict limit size drop rest in
    let dropped = evict limit (size - 1) (drop - 1) rest in
    if ltb size limit
    then (oldest, entry) ∷ rest
    else if entry.fail_closed
    then (oldest, entry) ∷ skipped
    else if leb drop 1
    then rest
    else dropped

-- `Math.max(1, Math.ceil(maxEntries / 10))`
abbrev pub drop_budget : ℕ → ℕ
drop_budget max_entries = max 1 ((max_entries + 9) / 10)

unfoldable pub make_room : ℕ → ℕ → Dict Counter → Dict Counter
unfolding sweep_counters evict
make_room now limit counters =
    let swept = sweep_counters now counters in evict limit (length swept) (drop_budget limit) swept

set_counter : ℕ → String → ℕ → Bool → MemoryStore → MemoryStore
set_counter now key ttl fail_closed s = record s {
  counters =
      insert key (record { expires_at = now + max 1 ttl; count = 1; fail_closed = fail_closed })
        s.counters;
}

-- The branch of `increment` for a key with no live counter.
start_counter : ℕ → String → ℕ → Bool → MemoryStore → Result StoreError ℕ × MemoryStore
unfolding set_counter
start_counter now key ttl fail_closed s =
    if leb s.max_entries (length s.counters)
    then (let room = record s { counters = make_room now s.max_entries s.counters } in
        if leb s.max_entries (length room.counters)
        then (err full, room)
        else (ok 1, set_counter now key ttl fail_closed room))
    else (ok 1, set_counter now key ttl fail_closed s)

-- `if (failClosed) existing.failClosed = true; existing.count += 1`
abbrev pub bumped : Bool → Counter → Counter
bumped fail_closed c = record c {
  count = c.count + 1;
  fail_closed = if fail_closed then true else c.fail_closed;
}

increment_at :
    ℕ → String → ℕ → Bool → MemoryStore → Option Counter → Result StoreError ℕ × MemoryStore
unfolding start_counter
increment_at now key ttl fail_closed s none = start_counter now key ttl fail_closed s
increment_at now key ttl fail_closed s (some existing) =
    if leb now existing.expires_at
    then (
      ok (existing.count + 1),
      record s { counters = insert key (bumped fail_closed existing) s.counters },
    )
    else start_counter now key ttl fail_closed s

unfoldable pub increment : ℕ → String → ℕ → Bool → MemoryStore → Result StoreError ℕ × MemoryStore
unfolding increment_at
increment now key ttl fail_closed s = increment_at now key ttl fail_closed s (lookup key s.counters)
