-- ===== src/Store/Memory/Traces.antt =====
-- What holds of the in-process store over every sequence of calls.
use smart_access_gateway.Prelude.{
  ℕ, suc, ◌+◌, ◌≤◌, max, String, ◌≡◌, ◌∙◌, inl, inr, Bool, true, false, some, List, [], ◌∷◌, arith,
  ok, length, All, ◌==◌, nat_eq, string_eq, if◌then◌else◌, Bool-cases,
}
use smart_access_gateway.Prelude.Maps.{lookup}
use smart_access_gateway.Store.{StateStore}
use smart_access_gateway.Store.Memory.{Counter, MemoryStore, empty, claim, has, increment}
use smart_access_gateway.Store.Memory.Claims.{
  claimed, has-eq-claimed, claim_free, claim_old, claim_new, claim_keeps, has_keeps,
  increment-claims, claim-frame, has-frame, increment-max_entries, claim-bounded, has-bounded,
}
use smart_access_gateway.Store.Memory.Counters.{IsProtected, increment_protected, increment-bounded}

-- One call of the store, at its time.
pub data Call : Type 0 where
  claim_call : ℕ → String → ℕ → Call
  has_call : ℕ → String → Call
  increment_call : ℕ → String → ℕ → Bool → Call

abbrev pub time : Call → ℕ
time (claim_call now id ttl) = now
time (has_call now id) = now
time (increment_call now key ttl fc) = now

-- The calls that count the key.
abbrev pub hits : String → List Call → ℕ
hits j [] = 0
hits j (increment_call now key ttl fc ∷ calls) =
    let rest = hits j calls in if key == j then suc rest else rest
hits j (claim_call now id ttl ∷ calls) = hits j calls
hits j (has_call now id ∷ calls) = hits j calls

unfoldable pub run : List Call → MemoryStore → MemoryStore
run [] s = s
run (claim_call now id ttl ∷ calls) s = run calls (claim now id ttl s).1
run (has_call now id ∷ calls) s = run calls (has now id s).1
run (increment_call now key ttl fc ∷ calls) s = run calls (increment now key ttl fc s).1

pub increment_keeps :
    (now t : ℕ) (key j : String) (ttl : ℕ) (fc : Bool) (s : MemoryStore)
    → now ≤ t
    → claimed t s j ≡ true
    → claimed t (increment now key ttl fc s).1 j ≡ true
unfolding claimed
increment_keeps now t key j ttl fc s le h = rw (increment-claims now key ttl fc s) h

-- The in-process store keeps the promises of the interface.
abbrev pub memory_state_store : StateStore MemoryStore
memory_state_store = record {
  claim = claim;
  has = has;
  increment = increment;
  claimed = claimed;
  claim_old = claim_old;
  claim_free = claim_free;
  has_claimed = λ now id s h. rw (has-eq-claimed now id s, h);
  claim_new = λ now t id ttl s h le. claim_new now id ttl s t h (omega arith);
  claim_keeps = λ now t id j ttl s le h. claim_keeps now id ttl s t j le h;
  has_keeps = has_keeps;
  increment_keeps = increment_keeps;
}

run_keeps_claim :
    (calls : List Call) (t : ℕ) (j : String) (s : MemoryStore)
    → All (λ c. time c ≤ t) calls
    → claimed t s j ≡ true
    → claimed t (run calls s) j ≡ true
unfolding run
run_keeps_claim [] t j s le h = h
run_keeps_claim (claim_call now id ttl ∷ calls) t j s le h =
    run_keeps_claim calls t j (claim now id ttl s).1 le.1 (claim_keeps now id ttl s t j le.0 h)
run_keeps_claim (has_call now id ∷ calls) t j s le h =
    run_keeps_claim calls t j (has now id s).1 le.1 (has_keeps now t id j s le.0 h)
run_keeps_claim (increment_call now key ttl fc ∷ calls) t j s le h =
    run_keeps_claim calls t j (increment now key ttl fc s).1 le.1
      (increment_keeps now t key j ttl fc s le.0 h)

-- Once a claim of an id has succeeded, then after any calls no later than the next claim, on any
-- keys and also when the store is full, a claim of that id up to the end of its lifetime is
-- refused.
pub claim_once :
    (now later : ℕ) (id : String) (ttl ttl' : ℕ) (s : MemoryStore) (calls : List Call)
    → (claim now id ttl s).0 ≡ ok true
    → later ≤ now + max 1 ttl
    → All (λ c. time c ≤ later) calls
    → (claim later id ttl' (run calls (claim now id ttl s).1)).0 ≡ ok false
claim_once now later id ttl ttl' s calls won le times =
    claim_old later id ttl' (run calls (claim now id ttl s).1) (
      run_keeps_claim calls later id (claim now id ttl s).1 times
        (claim_new now id ttl s later won le))

run_keeps_protected :
    (calls : List Call) (j : String) (c : Counter) (s : MemoryStore)
    → lookup j s.counters ≡ some c
    → c.fail_closed ≡ true
    → All (λ e. time e ≤ c.expires_at) calls
    → lookup j (run calls s).counters ≡ some (record c { count = c.count + hits j calls })
unfolding run
run_keeps_protected [] j c s held closed times = ground arith
run_keeps_protected (claim_call now id ttl ∷ calls) j c s held closed times =
    run_keeps_protected calls j c (claim now id ttl s).1 (rw ((claim-frame now id ttl s).0) held)
      closed times.1
run_keeps_protected (has_call now id ∷ calls) j c s held closed times =
    run_keeps_protected calls j c (has now id s).1 (rw ((has-frame now id s).0) held) closed times.1
run_keeps_protected (increment_call now key ttl fc ∷ calls) j c s held closed times =
    let p : IsProtected now j c s.counters = record {
      held = held;
      fail_closed = closed;
      live = times.0;
    } in
    let step = increment_protected now key ttl fc s j c p in
    elim (Bool-cases (key == j)) [
      | inl same ↦ rw same (
          run_keeps_protected calls j (record c { count = c.count + 1 })
            (increment now key ttl fc s).1 (rw same at step) closed times.1
          ∙ ground arith)
      | inr other ↦ rw other (
          run_keeps_protected calls j c (increment now key ttl fc s).1 (rw other at step) closed
            times.1)
    ]

-- A fail-closed counter counts exactly the calls that increment its key, over any calls at times
-- while it lives: no call, on any key and however full the store is, evicts it or restores the
-- allowance.
pub protected_count_exact :
    (calls : List Call) (j : String) (c : Counter) (s : MemoryStore)
    → lookup j s.counters ≡ some c
    → c.fail_closed ≡ true
    → All (λ e. time e ≤ c.expires_at) calls
    → lookup j (run calls s).counters ≡ some (record c { count = c.count + hits j calls })
protected_count_exact = run_keeps_protected

pub record IsBounded (limit : ℕ) (s : MemoryStore) : Type 0 where
  pub limit_kept : s.max_entries ≡ limit
  pub claims : length s.claims ≤ limit
  pub counters : length s.counters ≤ limit

run-IsBounded_from :
    (limit : ℕ) (calls : List Call) (s : MemoryStore)
    → IsBounded limit s
    → IsBounded limit (run calls s)
unfolding run
run-IsBounded_from limit [] s h = h
run-IsBounded_from limit (claim_call now id ttl ∷ calls) s h =
    run-IsBounded_from limit calls (claim now id ttl s).1
      (grind (arith, h, claim-frame now id ttl s, claim-bounded now id ttl s))
run-IsBounded_from limit (has_call now id ∷ calls) s h =
    run-IsBounded_from limit calls (has now id s).1
      (grind (arith, h, has-frame now id s, has-bounded now id s))
run-IsBounded_from limit (increment_call now key ttl fc ∷ calls) s h =
    run-IsBounded_from limit calls (increment now key ttl fc s).1 (
      grind (
        arith,
        h,
        increment-claims now key ttl fc s,
        increment-max_entries now key ttl fc s,
        increment-bounded now key ttl fc s,
      ))

-- From an empty store, whatever is called, neither map grows past the configured number of entries.
pub run-IsBounded :
    (limit : ℕ) (calls : List Call)
    → (length (run calls (empty limit)).claims ≤ limit)
      × (length (run calls (empty limit)).counters ≤ limit)
run-IsBounded limit calls =
    let h = run-IsBounded_from limit calls (empty limit) (ground arith) in (h.claims, h.counters)
