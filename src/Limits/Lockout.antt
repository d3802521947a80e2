-- ===== src/Limits/Lockout.antt =====
-- The limit on local credentials over the in-process store: a window lets at most the configured
-- number of attempts through, whatever else the store is asked in between.
pub mod Opening
use smart_access_gateway.Prelude.{
  ℕ, suc, ◌+◌, ◌/◌, ◌≤◌, max, String, ◌≡◌, refl, inl, inr, true, Option, none, some, List, [], ◌∷◌,
  arith, Result, ok, err, All, ltb, leb, ◌==◌, ==_iff, nat_eq, string_eq, if◌then◌else◌, Bool-cases,
}
use smart_access_gateway.Prelude.Maps.{lookup}
use smart_access_gateway.Util.Bytes.{Text}
use smart_access_gateway.Store.{StoreError}
use smart_access_gateway.Store.Memory.{Counter, MemoryStore}
use smart_access_gateway.Store.Memory.Counters.{
  IsProtected, increment_protected, increment_protected_count,
}
use smart_access_gateway.Store.Memory.Traces.{
  Call, time, hits, run, memory_state_store, protected_count_exact,
}
use smart_access_gateway.Limits.{
  LocalLimits, Decision, Keys, address_key, counter_key, check_address, check_network,
  check_local_auth_allowed, within, after_network,
}
use Prim.Native.String.{◌++◌ as str_append}

-- The counter of an address in the window of a time.
abbrev pub address_counter : Keys → LocalLimits → ℕ → Text → String → String
address_counter keys limits now email factor =
    counter_key keys (str_append "local-" (str_append factor ":address:")) (address_key keys email)
      (now / limits.attempt_window_seconds)

-- An attempt at a time and from a network address, or any call of the store.
pub data Event : Type 0 where
  attempt : ℕ → Option Text → Event
  other : Call → Event

module _ (keys : Keys) (limits : LocalLimits) (email : Text) (factor : String) where
  -- The attempts that are allowed.
  unfoldable pub allowed_count : List Event → MemoryStore → ℕ
  allowed_count [] s = 0
  allowed_count (attempt now network ∷ events) s =
      let (d, t) =
        check_local_auth_allowed keys (some memory_state_store) limits now network email factor s in
      let rest = allowed_count events t in if d.allowed then suc rest else rest
  allowed_count (other call ∷ events) s = allowed_count events (run (call ∷ []) s)

  -- An event of the window that the counter `j` counts.
  abbrev pub InWindow : String → Counter → Event → Type 0
  InWindow j c (attempt now network) =
      (now ≤ c.expires_at) × (address_counter keys limits now email factor ≡ j)
  InWindow j c (other call) = time call ≤ c.expires_at

  -- What an attempt leaves of the counter.
  pub record IsCounted (j : String) (c : Counter) (out : Decision × MemoryStore) : Type 0 where
    pub count : ℕ
    pub held : lookup j out.1.counters ≡ some (record c { count = count })
    pub grows : c.count ≤ count
    pub lets : out.0.allowed ≡ true → (suc c.count ≤ count) × (count ≤ limits.max_attempts)

  within-IsCounted :
      (j : String) (c : Counter) (out : Result StoreError ℕ × MemoryStore)
      → out.0 ≡ ok (c.count + 1)
      → lookup j out.1.counters ≡ some (record c { count = c.count + 1 })
      → IsCounted j c (within keys limits.max_attempts out)
  within-IsCounted j c (err e, t) counted held = cc
  within-IsCounted j c (ok used, t) counted held =
      elim (Bool-cases (leb used limits.max_attempts)) [
        | inl fits ↦ rw fits (record {
          count = c.count + 1;
          held = held;
          grows = omega arith;
          lets = λ e. ground arith;
        })
        | inr over ↦
            rw over
              (record { count = c.count + 1; held = held; grows = omega arith; lets = λ e. cc })
      ]

  later-IsCounted :
      (j : String) (c : Counter) (n : ℕ) (out : Decision × MemoryStore)
      → c.count ≤ n
      → IsCounted j (record c { count = n }) out
      → IsCounted j c out
  later-IsCounted j c n out le h = record {
    count = h.count;
    held = h.held;
    grows = ground (arith, h.grows);
    lets = λ e. ground (arith, h.lets e);
  }

  pub after_network-IsCounted :
      (j : String) (c : Counter) (limit n : ℕ) (continue : MemoryStore → Decision × MemoryStore)
      (out : Result StoreError ℕ × MemoryStore)
      → lookup j out.1.counters ≡ some (record c { count = n })
      → c.count ≤ n
      → ((t : MemoryStore)
          → lookup j t.counters ≡ some (record c { count = n })
          → IsCounted j (record c { count = n }) (continue t))
      → IsCounted j c (after_network keys limit continue out)
  after_network-IsCounted j c limit n continue (err e, t) held le next = record {
    count = n;
    held = held;
    grows = le;
    lets = λ k. cc;
  }
  after_network-IsCounted j c limit n continue (ok used, t) held le next =
      elim (Bool-cases (ltb limit used)) [
        | inl over ↦ rw over (record { count = n; held = held; grows = le; lets = λ k. cc })
        | inr under ↦ rw under (later-IsCounted j c n (continue t) le (next t held))
      ]

  pub address-IsCounted :
      (now : ℕ) (c : Counter) (s : MemoryStore)
      → let j = address_counter keys limits now email factor in
        lookup j s.counters ≡ some c
        → c.fail_closed ≡ true
        → now ≤ c.expires_at
        → IsCounted j c (check_address keys memory_state_store limits now email factor s)
  unfolding check_address
  address-IsCounted now c s held closed live =
      let j = address_counter keys limits now email factor in
      let p : IsProtected now j c s.counters = record {
        held = held;
        fail_closed = closed;
        live = live;
      } in
      within-IsCounted j c _
        (increment_protected_count now j limits.attempt_window_seconds true s c p)
        (rw ((==_iff j j).1 refl) at
          (increment_protected now j limits.attempt_window_seconds true s j c p))

  network-IsCounted :
      (now : ℕ) (network : Option Text) (c : Counter) (s : MemoryStore)
      → let j = address_counter keys limits now email factor in
        lookup j s.counters ≡ some c
        → c.fail_closed ≡ true
        → now ≤ c.expires_at
        → IsCounted j c (check_network keys memory_state_store limits now network email factor s)
  unfolding check_network
  network-IsCounted now none c s held closed live = address-IsCounted now c s held closed live
  network-IsCounted now (some []) c s held closed live = address-IsCounted now c s held closed live
  network-IsCounted now (some (x ∷ network)) c s held closed live =
      let j = address_counter keys limits now email factor in
      let key =
        counter_key keys (str_append "local-" (str_append factor ":network:"))
          (keys.network_tag (x ∷ network)) (now / limits.attempt_window_seconds) in
      let p : IsProtected now j c s.counters = record {
        held = held;
        fail_closed = closed;
        live = live;
      } in
      let step = increment_protected now key limits.attempt_window_seconds true s j c p in
      elim (Bool-cases (ltb 0 limits.network_max_attempts)) [
        | inr off ↦ rw off (address-IsCounted now c s held closed live)
        | inl on ↦ elim (Bool-cases (key == j)) [
          | inl same ↦ rw on (
              after_network-IsCounted j c limits.network_max_attempts (c.count + 1)
                (check_address keys memory_state_store limits now email factor) _ (rw same at step)
                (omega arith)
                (λ t h. address-IsCounted now (record c { count = c.count + 1 }) t h closed live))
          | inr distinct ↦ rw on (
              after_network-IsCounted j c limits.network_max_attempts c.count
                (check_address keys memory_state_store limits now email factor) _
                (rw distinct at step) (omega arith)
                (λ t h. address-IsCounted now c t h closed live))
        ]
      ]

  attempt-IsCounted :
      (j : String) (now : ℕ) (network : Option Text) (c : Counter) (s : MemoryStore)
      → lookup j s.counters ≡ some c
      → c.fail_closed ≡ true
      → InWindow j c (attempt now network)
      → IsCounted j c (
          check_local_auth_allowed keys (some memory_state_store) limits now network email factor s)
  unfolding check_local_auth_allowed
  attempt-IsCounted j now network c s held closed live =
      rw (← live.1) (network-IsCounted now network c s (rw live.1 held) closed live.0)

  -- Take a fail-closed counter, and events at times while it lives: attempts on the address that
  -- it counts, from any network, and other calls of the store. The attempts that are allowed and
  -- those it had counted are at most the configured number, or only the latter if they are more.
  pub allowed_count-bounded :
      (j : String) (events : List Event) (c : Counter) (s : MemoryStore)
      → lookup j s.counters ≡ some c
      → c.fail_closed ≡ true
      → All (InWindow j c) events
      → c.count + allowed_count events s ≤ max c.count limits.max_attempts
  unfolding allowed_count
  allowed_count-bounded j [] c s held closed live = omega arith
  allowed_count-bounded j (attempt now network ∷ events) c s held closed live =
      let out =
        check_local_auth_allowed keys (some memory_state_store) limits now network email factor s in
      let h : IsCounted j c out = attempt-IsCounted j now network c s held closed live.0 in
      let rest =
        allowed_count-bounded j events (record c { count = h.count }) out.1 h.held closed live.1 in
      elim (Bool-cases out.0.allowed) [
        | inl lets ↦ rw lets (grind (arith, rest, h.lets lets))
        | inr stops ↦ rw stops (grind (arith, rest, h.grows))
      ]
  allowed_count-bounded j (other call ∷ events) c s held closed live =
      let counted = protected_count_exact (call ∷ []) j c s held closed (live.0, tt) in
      grind (
        arith,
        allowed_count-bounded j events (record c { count = c.count + hits j (call ∷ []) })
            (run (call ∷ []) s) counted closed live.1,
      )
