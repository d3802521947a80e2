-- ===== src/Store/Memory/Counters.antt =====
-- The counters of the in-process store: protected counters are never evicted, and the size bound.
use smart_access_gateway.Prelude.{
  ℕ, ◌+◌, ◌-◌, ◌≤◌, max, String, ◌≡◌, inl, inr, Bool, true, false, some, [], ◌∷◌, arith, ok, length,
  Dict, ◌==◌, ==_iff, nat_eq, string_eq, if◌then◌else◌, Bool-cases, Option-cases,
}
use smart_access_gateway.Prelude.Maps.{
  lookup, insert, lookup-insert, length-insert-le, length-insert_old,
}
use smart_access_gateway.Store.Memory.{
  Counter, MemoryStore, sweep_counters, evict, drop_budget, make_room, bumped, increment,
}
use smart_access_gateway.Prelude.{none, refl, Result, err, leb}
use smart_access_gateway.Store.{StoreError}

length-sweep-le : (now : ℕ) (m : Dict Counter) → length (sweep_counters now m) ≤ length m
unfolding sweep_counters
length-sweep-le now [] = omega arith
length-sweep-le now ((i, e) ∷ m) = ground (arith, length-sweep-le now m)

-- A counter that an account's protection rests on.
pub record IsProtected (t : ℕ) (j : String) (c : Counter) (m : Dict Counter) : Type 0 where
  pub held : lookup j m ≡ some c
  pub fail_closed : c.fail_closed ≡ true
  pub live : t ≤ c.expires_at

lookup-sweep_protected :
    (now : ℕ) (j : String) (c : Counter) (m : Dict Counter)
    → now ≤ c.expires_at
    → lookup j m ≡ some c
    → lookup j (sweep_counters now m) ≡ some c
unfolding sweep_counters lookup
lookup-sweep_protected now j c [] l h = cc
lookup-sweep_protected now j c ((i, e) ∷ m) l h = ground (arith, lookup-sweep_protected now j c m l)

lookup-evict_protected :
    (limit size budget : ℕ) (j : String) (c : Counter) (m : Dict Counter)
    → c.fail_closed ≡ true
    → lookup j m ≡ some c
    → lookup j (evict limit size budget m) ≡ some c
unfolding evict lookup
lookup-evict_protected limit size budget j c [] l h = cc
lookup-evict_protected limit size budget j c ((i, e) ∷ m) l h = ground (
  arith,
  lookup-evict_protected limit size budget j c m l,
  lookup-evict_protected limit (size - 1) (budget - 1) j c m l,
)

lookup-make_room_protected :
    (now limit : ℕ) (j : String) (c : Counter) (m : Dict Counter)
    → IsProtected now j c m
    → lookup j (make_room now limit m) ≡ some c
unfolding make_room
lookup-make_room_protected now limit j c m p =
    lookup-evict_protected limit (length (sweep_counters now m)) (drop_budget limit) j c
      (sweep_counters now m) p.fail_closed (lookup-sweep_protected now j c m p.live p.held)

increment_self :
    (now : ℕ) (j : String) (ttl : ℕ) (fc : Bool) (s : MemoryStore) (c : Counter)
    → lookup j s.counters ≡ some c
    → now ≤ c.expires_at
    → increment now j ttl fc s
      ≡ (ok (c.count + 1), record s { counters = insert j (bumped fc c) s.counters })
unfolding increment
increment_self now j ttl fc s c held live = ground arith

increment_other :
    (now : ℕ) (key : String) (ttl : ℕ) (fc : Bool) (s : MemoryStore) (j : String) (c : Counter)
    → (key == j) ≡ false
    → lookup j s.counters ≡ some c
    → lookup j (make_room now s.max_entries s.counters) ≡ some c
    → lookup j (increment now key ttl fc s).1.counters ≡ some c
unfolding increment
increment_other now key ttl fc s j c ne held room =
    let fresh : Counter = record { expires_at = now + max 1 ttl; count = 1; fail_closed = fc } in
    elim (Option-cases (lookup key s.counters)) [
      | inl missing ↦ ground (
        arith,
        lookup-insert key j fresh s.counters,
        lookup-insert key j fresh (make_room now s.max_entries s.counters),
      )
      | inr (e, found) ↦ ground (
        arith,
        lookup-insert key j (bumped fc e) s.counters,
        lookup-insert key j fresh s.counters,
        lookup-insert key j fresh (make_room now s.max_entries s.counters),
      )
    ]

-- Whatever key is counted, a live protected counter stays, and grows exactly when it is its own
-- key that is counted.
pub increment_protected :
    (now : ℕ) (key : String) (ttl : ℕ) (fc : Bool) (s : MemoryStore) (j : String) (c : Counter)
    → IsProtected now j c s.counters
    → lookup j (increment now key ttl fc s).1.counters
      ≡ some (if key == j then record c { count = c.count + 1 } else c)
increment_protected now key ttl fc s j c p = elim (Bool-cases (key == j)) [
  | inl same ↦
      let e = (==_iff key j).0 same in
      rw (same, e, increment_self now j ttl fc s c p.held p.live)
        (ground (arith, lookup-insert j j (bumped fc c) s.counters, ==_iff j j, p.fail_closed))
  | inr other ↦ rw other (
      increment_other now key ttl fc s j c other p.held
        (lookup-make_room_protected now s.max_entries j c s.counters p))
]

-- Counting the key of a live protected counter answers with the count that follows.
pub increment_protected_count :
    (now : ℕ) (j : String) (ttl : ℕ) (fc : Bool) (s : MemoryStore) (c : Counter)
    → IsProtected now j c s.counters
    → (increment now j ttl fc s).0 ≡ ok (c.count + 1)
increment_protected_count now j ttl fc s c p = rw (increment_self now j ttl fc s c p.held p.live)

lookup-sweep_none :
    (now : ℕ) (j : String) (m : Dict Counter)
    → lookup j m ≡ none
    → lookup j (sweep_counters now m) ≡ none
unfolding sweep_counters lookup
lookup-sweep_none now j [] h = refl
lookup-sweep_none now j ((i, e) ∷ m) h = ground (arith, lookup-sweep_none now j m)

lookup-evict-none :
    (limit size budget : ℕ) (j : String) (m : Dict Counter)
    → lookup j m ≡ none
    → lookup j (evict limit size budget m) ≡ none
unfolding evict lookup
lookup-evict-none limit size budget j [] h = refl
lookup-evict-none limit size budget j ((i, e) ∷ m) h = ground (
  arith,
  lookup-evict-none limit size budget j m,
  lookup-evict-none limit (size - 1) (budget - 1) j m,
)

lookup-make_room-none :
    (now limit : ℕ) (j : String) (m : Dict Counter)
    → lookup j m ≡ none
    → lookup j (make_room now limit m) ≡ none
unfolding make_room
lookup-make_room-none now limit j m h =
    lookup-evict-none limit (length (sweep_counters now m)) (drop_budget limit) j
      (sweep_counters now m) (lookup-sweep_none now j m h)

-- Counting another key starts no counter.
pub increment_absent :
    (now : ℕ) (key : String) (ttl : ℕ) (fc : Bool) (s : MemoryStore) (j : String)
    → (key == j) ≡ false
    → lookup j s.counters ≡ none
    → lookup j (increment now key ttl fc s).1.counters ≡ none
unfolding increment
increment_absent now key ttl fc s j ne missing =
    let fresh : Counter = record { expires_at = now + max 1 ttl; count = 1; fail_closed = fc } in
    let room = lookup-make_room-none now s.max_entries j s.counters missing in
    elim (Option-cases (lookup key s.counters)) [
      | inl none_there ↦ ground (
        arith,
        room,
        lookup-insert key j fresh s.counters,
        lookup-insert key j fresh (make_room now s.max_entries s.counters),
      )
      | inr (e, found) ↦ ground (
        arith,
        room,
        lookup-insert key j (bumped fc e) s.counters,
        lookup-insert key j fresh s.counters,
        lookup-insert key j fresh (make_room now s.max_entries s.counters),
      )
    ]

-- The first count of a key starts its counter, or finds no room for it.
pub data IsStarted (now : ℕ) (j : String) (ttl : ℕ) (fc : Bool)
    : Result StoreError ℕ × MemoryStore → Type 0 where
  started :
      (t : MemoryStore)
      → lookup j t.counters
        ≡ some (record { expires_at = now + max 1 ttl; count = 1; fail_closed = fc })
      → IsStarted now j ttl fc (ok 1, t)
  no_room :
      (e : StoreError) (t : MemoryStore)
      → lookup j t.counters ≡ none
      → IsStarted now j ttl fc (err e, t)

pub increment-IsStarted :
    (now : ℕ) (j : String) (ttl : ℕ) (fc : Bool) (s : MemoryStore)
    → lookup j s.counters ≡ none
    → IsStarted now j ttl fc (increment now j ttl fc s)
unfolding increment
increment-IsStarted now j ttl fc s missing =
    let fresh : Counter = record { expires_at = now + max 1 ttl; count = 1; fail_closed = fc } in
    let room = make_room now s.max_entries s.counters in
    let here : (m : Dict Counter) → lookup j (insert j fresh m) ≡ some fresh =
      λ m. ground (arith, lookup-insert j j fresh m, ==_iff j j) in
    elim (Bool-cases (leb s.max_entries (length s.counters))) [
      | inr small ↦ rw (missing, small) (started _ (here s.counters))
      | inl big ↦ elim (Bool-cases (leb s.max_entries (length room))) [
        | inr fits ↦ rw (missing, big, fits) (started _ (here room))
        | inl stuck ↦
            rw (missing, big, stuck)
              (no_room _ _ (lookup-make_room-none now s.max_entries j s.counters missing))
      ]
    ]

length-evict-le :
    (limit size budget : ℕ) (m : Dict Counter) → length (evict limit size budget m) ≤ length m
unfolding evict
length-evict-le limit size budget [] = omega arith
length-evict-le limit size budget ((i, e) ∷ m) =
    ground
      (arith, length-evict-le limit size budget m, length-evict-le limit (size - 1) (budget - 1) m)

pub increment-bounded :
    (now : ℕ) (key : String) (ttl : ℕ) (fc : Bool) (s : MemoryStore)
    → length s.counters ≤ s.max_entries
    → length (increment now key ttl fc s).1.counters ≤ s.max_entries
unfolding increment make_room
increment-bounded now key ttl fc s h =
    let fresh : Counter = record { expires_at = now + max 1 ttl; count = 1; fail_closed = fc } in
    let swept = sweep_counters now s.counters in
    let smaller = length-evict-le s.max_entries (length swept) (drop_budget s.max_entries) swept in
    let added = length-insert-le key fresh s.counters in
    let replaced = length-insert-le key fresh (make_room now s.max_entries s.counters) in
    let less = length-sweep-le now s.counters in
    elim (Option-cases (lookup key s.counters)) [
      | inl missing ↦ ground arith
      | inr (e, found) ↦ ground (arith, length-insert_old key (bumped fc e) e s.counters found)
    ]
