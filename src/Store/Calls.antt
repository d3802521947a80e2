-- ===== src/Store/Calls.antt =====
-- Sequences of calls of a state store, through its interface: what other requests may do in between.
use smart_access_gateway.Prelude.{ℕ, ◌≤◌, String, ◌≡◌, refl, Bool, true, List, [], ◌∷◌, ◌++◌, All}
use smart_access_gateway.Store.{StateStore}

pub data Call : Type 0 where
  claim_call : ℕ → String → ℕ → Call
  has_call : ℕ → String → Call
  increment_call : ℕ → String → ℕ → Bool → Call

abbrev pub time : Call → ℕ
time (claim_call now id ttl) = now
time (has_call now id) = now
time (increment_call now key ttl fc) = now

module _ {S : Type 0} (store : StateStore S) where
  unfoldable pub run : List Call → S → S
  run [] s = s
  run (claim_call now id ttl ∷ calls) s = run calls (store.claim now id ttl s).1
  run (has_call now id ∷ calls) s = run calls (store.has now id s).1
  run (increment_call now key ttl fc ∷ calls) s = run calls (store.increment now key ttl fc s).1

  -- A claim that is live at a time is live whatever calls come before that time.
  pub run_keeps :
      (calls : List Call) (t : ℕ) (j : String) (s : S)
      → All (λ c. time c ≤ t) calls
      → store.claimed t s j ≡ true
      → store.claimed t (run calls s) j ≡ true
  unfolding run
  run_keeps [] t j s le h = h
  run_keeps (claim_call now id ttl ∷ calls) t j s le h =
      run_keeps calls t j (store.claim now id ttl s).1 le.1
        (store.claim_keeps now t id j ttl s le.0 h)
  run_keeps (has_call now id ∷ calls) t j s le h =
      run_keeps calls t j (store.has now id s).1 le.1 (store.has_keeps now t id j s le.0 h)
  run_keeps (increment_call now key ttl fc ∷ calls) t j s le h =
      run_keeps calls t j (store.increment now key ttl fc s).1 le.1
        (store.increment_keeps now t key j ttl fc s le.0 h)

  pub run-append :
      (first second : List Call) (s : S) → run (first ++ second) s ≡ run second (run first s)
  unfolding run
  run-append [] second s = refl
  run-append (claim_call now id ttl ∷ first) second s =
      run-append first second (store.claim now id ttl s).1
  run-append (has_call now id ∷ first) second s = run-append first second (store.has now id s).1
  run-append (increment_call now key ttl fc ∷ first) second s =
      run-append first second (store.increment now key ttl fc s).1

  -- One state follows from another by calls of the store that are no later than `t`.
  pub record Follows (t : ℕ) (s u : S) : Type 0 where
    pub calls : List Call
    pub times : All (λ c. time c ≤ t) calls
    pub reached : u ≡ run calls s
