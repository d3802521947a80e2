-- ===== src/Store/Memory/Claims.antt =====
-- The claims of the in-process store: single use, persistence and the size bound.
use smart_access_gateway.Prelude.{
  ℕ, ◌+◌, ◌≤◌, max, String, ◌≡◌, refl, ◌≢◌, Bool, true, false, [], ◌∷◌, arith, ok, err, length,
  Dict, leb, ==_iff, nat_eq, string_eq, if◌then◌else◌,
}
use smart_access_gateway.Prelude.Maps.{lookup, lookup-insert, lookup-delete}
use smart_access_gateway.Store.{full}
use smart_access_gateway.Prelude.Maps.{length-insert-le, length-delete-le}
use smart_access_gateway.Store.Memory.{MemoryStore, claim_live, sweep_claims, claim, has, increment}

-- The claims that are live at a time.
unfoldable pub claimed : ℕ → MemoryStore → String → Bool
claimed t s id = claim_live t (lookup id s.claims)

-- A claim that is live at `t` survives a sweep that happens no later.
lookup-sweep_live :
    (now t : ℕ) (j : String) (m : Dict ℕ)
    → now ≤ t
    → claim_live t (lookup j m) ≡ true
    → lookup j (sweep_claims now m) ≡ lookup j m
unfolding sweep_claims lookup
lookup-sweep_live now t j [] h l = refl
lookup-sweep_live now t j ((i, e) ∷ m) h l = ground (arith, lookup-sweep_live now t j m h)

length-sweep-le : (now : ℕ) (m : Dict ℕ) → length (sweep_claims now m) ≤ length m
unfolding sweep_claims
length-sweep-le now [] = omega arith
length-sweep-le now ((i, e) ∷ m) = ground (arith, length-sweep-le now m)

module _ (now : ℕ) (id : String) (ttl : ℕ) (s : MemoryStore) where
  pub claim_old : claimed now s id ≡ true → (claim now id ttl s).0 ≡ ok false
  unfolding claim claimed
  claim_old h = ground arith

  pub claim_new :
      (t : ℕ)
      → (claim now id ttl s).0 ≡ ok true
      → t ≤ now + max 1 ttl
      → claimed t (claim now id ttl s).1 id ≡ true
  unfolding claim claimed
  claim_new t h le = ground (
    arith,
    lookup-insert id id (now + max 1 ttl) s.claims,
    lookup-insert id id (now + max 1 ttl) (sweep_claims now s.claims),
    ==_iff id id,
  )

  pub claim_keeps :
      (t : ℕ) (j : String)
      → now ≤ t
      → claimed t s j ≡ true
      → claimed t (claim now id ttl s).1 j ≡ true
  unfolding claim claimed
  claim_keeps t j le h = ground (
    arith,
    lookup-sweep_live now t j s.claims le h,
    lookup-insert id j (now + max 1 ttl) s.claims,
    lookup-insert id j (now + max 1 ttl) (sweep_claims now s.claims),
    ==_iff id j,
  )

pub has-eq-claimed :
    (now : ℕ) (id : String) (s : MemoryStore) → (has now id s).0 ≡ ok (claimed now s id)
unfolding has claimed
has-eq-claimed now id s = ground arith

pub has_keeps :
    (now t : ℕ) (id j : String) (s : MemoryStore)
    → now ≤ t
    → claimed t s j ≡ true
    → claimed t (has now id s).1 j ≡ true
unfolding has claimed
has_keeps now t id j s le h = ground (arith, lookup-delete id j s.claims, ==_iff id j)

pub increment-claims :
    (now : ℕ) (key : String) (ttl : ℕ) (fc : Bool) (s : MemoryStore)
    → (increment now key ttl fc s).1.claims ≡ s.claims
unfolding increment
increment-claims now key ttl fc s = ground arith

-- The exact outcome of a claim: an id that is live is refused, and one that is not is refused only
-- for want of room, when the live claims alone fill the store.
pub claim-outcome :
    (now : ℕ) (id : String) (ttl : ℕ) (s : MemoryStore)
    → (claim now id ttl s).0 ≡ (
        if claimed now s id
        then ok false
        else if leb s.max_entries (length (sweep_claims now s.claims))
        then err full
        else ok true)
unfolding claim claimed
claim-outcome now id ttl s = ground (arith, length-sweep-le now s.claims)

pub claim_free :
    (now : ℕ) (id : String) (ttl : ℕ) (s : MemoryStore)
    → claimed now s id ≡ false
    → (claim now id ttl s).0 ≢ ok false
claim_free now id ttl s free h = ground (arith, rw (claim-outcome now id ttl s, free) at h)

pub claim-bounded :
    (now : ℕ) (id : String) (ttl : ℕ) (s : MemoryStore)
    → length s.claims ≤ s.max_entries
    → length (claim now id ttl s).1.claims ≤ s.max_entries
unfolding claim
claim-bounded now id ttl s h = ground (
  arith,
  length-sweep-le now s.claims,
  length-insert-le id (now + max 1 ttl) s.claims,
  length-insert-le id (now + max 1 ttl) (sweep_claims now s.claims),
)

pub has-bounded :
    (now : ℕ) (id : String) (s : MemoryStore)
    → length s.claims ≤ s.max_entries
    → length (has now id s).1.claims ≤ s.max_entries
unfolding has
has-bounded now id s h = ground (arith, length-delete-le id s.claims)

-- What a claim and a look leave alone.
pub claim-frame :
    (now : ℕ) (id : String) (ttl : ℕ) (s : MemoryStore)
    → ((claim now id ttl s).1.counters ≡ s.counters)
      × ((claim now id ttl s).1.max_entries ≡ s.max_entries)
unfolding claim
claim-frame now id ttl s = (ground arith, ground arith)

pub has-frame :
    (now : ℕ) (id : String) (s : MemoryStore)
    → ((has now id s).1.counters ≡ s.counters) × ((has now id s).1.max_entries ≡ s.max_entries)
unfolding has
has-frame now id s = (ground arith, ground arith)

pub increment-max_entries :
    (now : ℕ) (key : String) (ttl : ℕ) (fc : Bool) (s : MemoryStore)
    → (increment now key ttl fc s).1.max_entries ≡ s.max_entries
unfolding increment
increment-max_entries now key ttl fc s = ground arith
