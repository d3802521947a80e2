-- ===== src/Limits/Lockout/Opening.antt =====
-- A window of the limit on local credentials, from its first attempt on.
use Prim.Native.String.{◌++◌ as str_append}
use mathlib.Core.Path.{subst}
use smart_access_gateway.Prelude.{
  ℕ, suc, ◌+◌, ◌/◌, ◌≤◌, max, String, ◌≡◌, refl, sym, inl, inr, true, false, Option, none, some,
  List, [], ◌∷◌, arith, Result, ok, err, All, ltb, leb, ◌==◌, ==_iff, nat_eq, string_eq,
  if◌then◌else◌, Bool-cases,
}
use smart_access_gateway.Prelude.Maps.{lookup}
use smart_access_gateway.Util.Bytes.{Text}
use smart_access_gateway.Store.{StoreError}
use smart_access_gateway.Store.Memory.{Counter, MemoryStore, increment}
use smart_access_gateway.Store.Memory.Claims.{claim-frame, has-frame}
use smart_access_gateway.Store.Memory.Counters.{
  IsStarted, started, no_room, increment-IsStarted, increment_absent,
}
use smart_access_gateway.Store.Memory.Traces.{
  Call, claim_call, has_call, increment_call, time, hits, run, memory_state_store,
}
use smart_access_gateway.Limits.{
  LocalLimits, Decision, Keys, counter_key, check_address, check_network, check_local_auth_allowed,
  within, after_network,
}
use smart_access_gateway.Limits.Lockout.{
  Event, attempt, other, address_counter, allowed_count, InWindow, IsCounted, address-IsCounted,
  after_network-IsCounted, allowed_count-bounded,
}

module _ (keys : Keys) (limits : LocalLimits) (email : Text) (factor : String) (start : ℕ)
    (j : String) where
  -- An event no later than a window after the start: an attempt that is counted under the key, or a
  -- call of the store that does not count the key.
  abbrev pub InSpan : Event → Type 0
  InSpan (attempt now network) =
      (start ≤ now)
      × (now ≤ start + limits.attempt_window_seconds)
      × (address_counter keys limits now email factor ≡ j)
  InSpan (other call) =
      (time call ≤ start + limits.attempt_window_seconds) × (hits j (call ∷ []) ≡ 0)

  -- What the first attempts leave: no counter and no allowance, or a counter that lasts.
  data IsOpening (out : Decision × MemoryStore) : Type 0 where
    unstarted : lookup j out.1.counters ≡ none → out.0.allowed ≡ false → IsOpening out
    counting :
        (c : Counter)
        → lookup j out.1.counters ≡ some c
        → c.fail_closed ≡ true
        → start + limits.attempt_window_seconds ≤ c.expires_at
        → (out.0.allowed ≡ true → (1 ≤ c.count) × (c.count ≤ limits.max_attempts))
        → IsOpening out

  within-IsOpening :
      (now : ℕ) (out : Result StoreError ℕ × MemoryStore)
      → start ≤ now
      → IsStarted now j limits.attempt_window_seconds true out
      → IsOpening (within keys limits.max_attempts out)
  within-IsOpening now out le (no_room e t missing) = unstarted missing refl
  within-IsOpening now out le (started t held) = elim (Bool-cases (leb 1 limits.max_attempts)) [
    | inl fits ↦ rw fits (counting _ held refl (omega arith) (λ e. (omega arith, ground arith)))
    | inr over ↦ rw over (counting _ held refl (omega arith) (λ e. cc))
  ]

  address-IsOpening :
      (now : ℕ) (s : MemoryStore)
      → start ≤ now
      → address_counter keys limits now email factor ≡ j
      → lookup j s.counters ≡ none
      → IsOpening (check_address keys memory_state_store limits now email factor s)
  unfolding check_address
  address-IsOpening now s le same missing = rw same (
      within-IsOpening now _ le
        (increment-IsStarted now j limits.attempt_window_seconds true s missing))

  counted-IsOpening :
      (c : Counter) (out : Decision × MemoryStore)
      → c.fail_closed ≡ true
      → start + limits.attempt_window_seconds ≤ c.expires_at
      → IsCounted keys limits email factor j c out
      → IsOpening out
  counted-IsOpening c out closed lasts h =
      counting _ h.held closed lasts (λ e. ground (arith, h.lets e))

  after_network-IsOpening :
      (now limit : ℕ) (out : Result StoreError ℕ × MemoryStore)
      → start ≤ now
      → now ≤ start + limits.attempt_window_seconds
      → address_counter keys limits now email factor ≡ j
      → IsStarted now j limits.attempt_window_seconds true out
      → IsOpening (
          after_network keys limit
            (check_address keys memory_state_store limits now email factor)
            out)
  after_network-IsOpening now limit out le soon same (no_room e t missing) = unstarted missing refl
  after_network-IsOpening now limit out le soon same (started t held) =
      let c : Counter = record {
        expires_at = now + max 1 limits.attempt_window_seconds;
        count = 1;
        fail_closed = true;
      } in
      counted-IsOpening c _ refl (omega arith) (
        after_network-IsCounted keys limits email factor j c limit 1
          (check_address keys memory_state_store limits now email factor) (ok 1, t) held
          (omega arith)
          (λ u h.
            subst
              (λ k.
                IsCounted keys limits email factor k c
                  (check_address keys memory_state_store limits now email factor u))
              same
              (address-IsCounted keys limits email factor now c u (rw same h) refl (omega arith))))

  other_network-IsOpening :
      (now limit : ℕ) (out : Result StoreError ℕ × MemoryStore)
      → start ≤ now
      → address_counter keys limits now email factor ≡ j
      → lookup j out.1.counters ≡ none
      → IsOpening (
          after_network keys limit
            (check_address keys memory_state_store limits now email factor)
            out)
  other_network-IsOpening now limit (err e, t) le same missing = unstarted missing refl
  other_network-IsOpening now limit (ok used, t) le same missing =
      elim (Bool-cases (ltb limit used)) [
        | inl over ↦ rw over (unstarted missing refl)
        | inr under ↦ rw under (address-IsOpening now t le same missing)
      ]

  attempt-IsOpening :
      (now : ℕ) (network : Option Text) (s : MemoryStore)
      → InSpan (attempt now network)
      → lookup j s.counters ≡ none
      → IsOpening (
          check_local_auth_allowed keys (some memory_state_store) limits now network email factor s)
  unfolding check_local_auth_allowed check_network
  attempt-IsOpening now none s (le, soon, same) missing = address-IsOpening now s le same missing
  attempt-IsOpening now (some []) s (le, soon, same) missing =
      address-IsOpening now s le same missing
  attempt-IsOpening now (some (x ∷ network)) s (le, soon, same) missing =
      let key =
        counter_key keys (str_append "local-" (str_append factor ":network:"))
          (keys.network_tag (x ∷ network)) (now / limits.attempt_window_seconds) in
      elim (Bool-cases (ltb 0 limits.network_max_attempts)) [
        | inr off ↦ rw off (address-IsOpening now s le same missing)
        | inl on ↦ elim (Bool-cases (key == j)) [
          | inl equal ↦ rw on (
              after_network-IsOpening now limits.network_max_attempts _ le soon same (
                subst
                  (λ k.
                    IsStarted now j limits.attempt_window_seconds true
                      (increment now k limits.attempt_window_seconds true s))
                  (sym ((==_iff key j).0 equal))
                  (increment-IsStarted now j limits.attempt_window_seconds true s missing)))
          | inr distinct ↦ rw on (
              other_network-IsOpening now limits.network_max_attempts _ le same
                (increment_absent now key limits.attempt_window_seconds true s j distinct missing))
        ]
      ]

  span-InWindow :
      (c : Counter) (events : List Event)
      → start + limits.attempt_window_seconds ≤ c.expires_at
      → All InSpan events
      → All (InWindow keys limits email factor j c) events
  span-InWindow c [] lasts h = tt
  span-InWindow c (attempt now network ∷ events) lasts h =
      ((omega (arith, h.0.1), h.0.2), span-InWindow c events lasts h.1)
  span-InWindow c (other call ∷ events) lasts h =
      (omega (arith, h.0.0), span-InWindow c events lasts h.1)

  call-none :
      (call : Call) (s : MemoryStore)
      → hits j (call ∷ []) ≡ 0
      → lookup j s.counters ≡ none
      → lookup j (run (call ∷ []) s).counters ≡ none
  unfolding run
  call-none (claim_call now id ttl) s apart missing = rw ((claim-frame now id ttl s).0) missing
  call-none (has_call now id) s apart missing = rw ((has-frame now id s).0) missing
  call-none (increment_call now key ttl fc) s apart missing =
      increment_absent now key ttl fc s j (ground (arith, apart)) missing

  -- In one window at most the configured number of attempts on an address is allowed. The window
  -- begins in any state of the in-process store in which no counter stands for its key yet, however
  -- full, and lasts for as many seconds as are configured. In it come attempts, from any network,
  -- that are counted under this key, and any other calls of the store that do not count it.
  pub allowed_count-le :
      (events : List Event) (s : MemoryStore)
      → lookup j s.counters ≡ none
      → All InSpan events
      → allowed_count keys limits email factor events s ≤ limits.max_attempts
  unfolding allowed_count
  allowed_count-le [] s missing h = omega arith
  allowed_count-le (other call ∷ events) s missing h =
      allowed_count-le events (run (call ∷ []) s) (call-none call s h.0.1 missing) h.1
  allowed_count-le (attempt now network ∷ events) s missing h =
      let out =
        check_local_auth_allowed keys (some memory_state_store) limits now network email factor s in
      go out (attempt-IsOpening now network s h.0 missing)
        (λ absent. allowed_count-le events out.1 absent h.1)
    where
      go :
          (out : Decision × MemoryStore)
          → IsOpening out
          → (lookup j out.1.counters ≡ none
              → allowed_count keys limits email factor events out.1 ≤ limits.max_attempts)
          → (let rest = allowed_count keys limits email factor events out.1 in
              if out.0.allowed then suc rest else rest)
            ≤ limits.max_attempts
      go out (unstarted absent refused) next = rw refused (next absent)
      go out (counting c held closed lasts lets) next =
          let rest =
            allowed_count-bounded keys limits email factor j events c out.1 held closed
              (span-InWindow c events lasts h.1) in
          elim (Bool-cases out.0.allowed) [
            | inl allows ↦ rw allows (grind (arith, rest, lets allows))
            | inr denies ↦ rw denies (grind (arith, rest))
          ]
