-- ===== src/Store.antt =====
-- src/store/index.js and adapters/cloudflare/state-do.js: the optional shared state, as the
-- interface that the endpoints use and the backends that this repository implements.
pub mod Memory
pub mod Guard
pub mod Calls
use smart_access_gateway.Prelude.{ℕ, ◌+◌, ◌≤◌, String, ◌≡◌, ◌≢◌, Bool, true, false, Result, ok}

-- `throw new Error(...)` of a backend.
pub data StoreError : Type 0 where
  full : StoreError
  unavailable : StoreError

-- The three primitives over a store's state, at the time `now` in seconds. `claimed` is the view
-- of the claims that are live at a time; the laws are what single use rests on.
pub record StateStore (S : Type 0) : Type 0 where
  pub claim : (now : ℕ) (id : String) (ttl : ℕ) → S → Result StoreError Bool × S
  pub has : (now : ℕ) (id : String) → S → Result StoreError Bool × S
  pub increment :
      (now : ℕ) (key : String) (ttl : ℕ) (fail_closed : Bool) → S → Result StoreError ℕ × S
  pub claimed : (t : ℕ) → S → String → Bool
  pub claim_old :
      (now : ℕ) (id : String) (ttl : ℕ) (s : S)
      → claimed now s id ≡ true
      → (claim now id ttl s).0 ≡ ok false
  pub claim_free :
      (now : ℕ) (id : String) (ttl : ℕ) (s : S)
      → claimed now s id ≡ false
      → (claim now id ttl s).0 ≢ ok false
  pub has_claimed :
      (now : ℕ) (id : String) (s : S) → claimed now s id ≡ true → (has now id s).0 ≡ ok true
  pub claim_new :
      (now t : ℕ) (id : String) (ttl : ℕ) (s : S)
      → (claim now id ttl s).0 ≡ ok true
      → t ≤ now + ttl
      → claimed t (claim now id ttl s).1 id ≡ true
  pub claim_keeps :
      (now t : ℕ) (id j : String) (ttl : ℕ) (s : S)
      → now ≤ t
      → claimed t s j ≡ true
      → claimed t (claim now id ttl s).1 j ≡ true
  pub has_keeps :
      (now t : ℕ) (id j : String) (s : S)
      → now ≤ t
      → claimed t s j ≡ true
      → claimed t (has now id s).1 j ≡ true
  pub increment_keeps :
      (now t : ℕ) (key j : String) (ttl : ℕ) (fail_closed : Bool) (s : S)
      → now ≤ t
      → claimed t s j ≡ true
      → claimed t (increment now key ttl fail_closed s).1 j ≡ true
