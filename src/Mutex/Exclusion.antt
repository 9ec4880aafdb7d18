-- ===== src/Mutex/Exclusion.antt =====
-- A spin lock (runtime/gc/realtime_thread.c) is held by one thread at a time, and a thread that takes
-- it twice spins.
use rtmlton.Prelude.{
  ℕ, ◌≡◌, ◌≢◌, refl, sym, ap, ◌∙◌, true, false, ◌==◌, ◌&&◌, Option, none, some, Bool-cases, inl,
  inr, arith,
}
use rtmlton.Mutex.{
  Locks, Place, start, outside, testing, swapping, is_owned, is_owner, lock_call, lock_test,
  lock_swap, unlock,
}
use rtmlton.Mutex.Steps.{Step, Reach, call, test, swap, release, here, later}

-- What a thread holds, its mutex says.
abbrev pub AreOwned : Locks → Type 0
AreOwned s = (t p : ℕ) → s.held t p ≡ true → s.mutexes p ≡ some t

-- the owner of a mutex is a thread
owned : (o : Option ℕ) (t : ℕ) → o ≡ some t → is_owned o ≡ true
owned none t e = cc e
owned (some u) t e = refl

owner_only : (o : Option ℕ) (t u : ℕ) → o ≡ some t → is_owner o u ≡ (t == u)
owner_only o t u e = rw e refl

-- A free mutex goes to one thread.
swap_owned :
    (s : Locks) (t p : ℕ) → is_owned (s.mutexes p) ≡ false → AreOwned s → AreOwned (lock_swap t p s)
unfolding lock_swap
swap_owned s t p free h v q = rw free (λ k. elim (Bool-cases (q == p)) [
  | inl e ↦ elim (Bool-cases (v == t)) [
    | inl mine ↦ let same : v ≡ t = ground (arith, mine) in rw e (ap some (sym same))
    | inr other ↦
        let there : q ≡ p = ground (arith, e) in
        let k' = (rw (other, there) at k) in absurd (cc (owned (s.mutexes p) v (h v p k'), free))
  ]
  | inr away ↦ elim (Bool-cases (v == t)) [
    | inl mine ↦
        let same : v ≡ t = ground (arith, mine) in
        let k' = (rw (mine, away) at k) in rw away (h t q k' ∙ ap some (sym same))
    | inr other ↦ let k' = (rw other at k) in rw away (h v q k')
  ]
])

-- What is held after a release was held before, and is not what was released.
still_held :
    (s : Locks) (t p v q : ℕ)
    → (unlock t p s).held v q ≡ true
    → (s.held v q ≡ true) × ((v == t) && (q == p) ≡ false)
unfolding unlock
still_held s t p v q k = elim (Bool-cases (v == t)) [
  | inr other ↦ let k' = (rw other at k) in (k', rw other refl)
  | inl mine ↦ elim (Bool-cases (q == p)) [
    | inl e ↦ let k' = (rw (mine, e) at k) in absurd (cc k')
    | inr away ↦
        let same : v ≡ t = ground (arith, mine) in
        let k' = (rw (mine, away) at k) in (rw same k', rw (mine, away) refl)
  ]
]

-- A mutex that its owner releases is held by no thread.
release_owned : (s : Locks) (t p : ℕ) → AreOwned s → AreOwned (unlock t p s)
unfolding unlock
release_owned s t p h v q k =
    let (held, apart) = still_held s t p v q k in
    let own : s.mutexes q ≡ some v = h v q held in
    elim (Bool-cases (is_owner (s.mutexes p) t)) [
      | inr n ↦ rw n own
      | inl y ↦ elim (Bool-cases (q == p)) [
        | inr away ↦ rw (y, away) own
        | inl e ↦
            let same : q ≡ p = ground (arith, e) in
            let mine : (v == t) ≡ true =
              sym (owner_only (s.mutexes p) v t (rw (sym same) own)) ∙ y in
            let apart' = (rw (mine, e) at apart) in absurd (cc apart')
      ]
    ]

Step-AreOwned : {s u : Locks} → Step s u → AreOwned s → AreOwned u
unfolding lock_call lock_test lock_swap
Step-AreOwned (call t p r e) h = h
Step-AreOwned (test t p e) h = h
Step-AreOwned {s} (swap t p e) h = elim (Bool-cases (is_owned (s.mutexes p))) [
  | inl taken ↦ rw taken h
  | inr free ↦ swap_owned s t p free h
]
Step-AreOwned {s} (release t p r e) h = release_owned s t p h

-- the thread spins in the lock that it holds
record IsStuck (t p : ℕ) (s : Locks) : Type 0 where
  owner : s.mutexes p ≡ some t
  spins : s.place t ≡ testing p

-- A thread at another place is another thread.
apart_at :
    (s : Locks) (t u : ℕ) (x y : Place) → s.place t ≡ x → s.place u ≡ y → x ≢ y → (t == u) ≡ false
apart_at s t u x y e k ne = elim (Bool-cases (t == u)) [
  | inr n ↦ n
  | inl y ↦ let same : t ≡ u = ground (arith, y) in absurd (ne (cc (same, e, k)))
]

full_apart :
    (s : Locks) (p q : ℕ)
    → is_owned (s.mutexes p) ≡ true
    → is_owned (s.mutexes q) ≡ false
    → (p == q) ≡ false
full_apart s p q full free = elim (Bool-cases (p == q)) [
  | inr n ↦ n
  | inl y ↦ let same : p ≡ q = ground (arith, y) in absurd (cc (same, full, free))
]

-- Another thread does not release a mutex.
still_owned :
    (s : Locks) (t p u q : ℕ)
    → s.mutexes p ≡ some t
    → (t == u) ≡ false
    → (unlock u q s).mutexes p ≡ some t
unfolding unlock
still_owned s t p u q own other = elim (Bool-cases (is_owner (s.mutexes q) u)) [
  | inr n ↦ rw n own
  | inl y ↦ elim (Bool-cases (p == q)) [
    | inr away ↦ rw (y, away) own
    | inl e ↦
        let same : p ≡ q = ground (arith, e) in
        let mine = owner_only (s.mutexes q) t u (rw (sym same) own) in absurd (cc (mine, y, other))
  ]
]

Step-IsStuck : {s u : Locks} (t p : ℕ) → Step s u → IsStuck t p s → IsStuck t p u
unfolding lock_call lock_test lock_swap unlock
Step-IsStuck {s} t p (call u q r e) h =
    let other = apart_at s t u (testing p) outside h.spins e (λ z. cc z) in
    record { owner = h.owner; spins = rw other h.spins }
Step-IsStuck {s} t p (test u q e) h = record {
  owner = h.owner;
  spins = elim (Bool-cases (t == u)) [
    | inr other ↦ rw other h.spins
    | inl mine ↦
        let same : t ≡ u = ground (arith, mine) in
        let here' : testing p ≡ testing q = cc (same, h.spins, e) in
        let lock : q ≡ p = cc here' in
        let full = owned (s.mutexes p) t h.owner in rw (mine, lock) (rw full refl)
  ];
}
Step-IsStuck {s} t p (swap u q e) h = elim (Bool-cases (is_owned (s.mutexes q))) [
  | inl taken ↦ rw taken (record {
    owner = h.owner;
    spins = rw (apart_at s t u (testing p) (swapping q) h.spins e (λ z. cc z)) h.spins;
  })
  | inr free ↦
      let other = apart_at s t u (testing p) (swapping q) h.spins e (λ z. cc z) in
      let lock = full_apart s p q (owned (s.mutexes p) t h.owner) free in
      rw free (record { owner = rw lock h.owner; spins = rw other h.spins })
]
Step-IsStuck {s} t p (release u q r e) h =
    let other = apart_at s t u (testing p) outside h.spins e (λ z. cc z) in
    record { owner = still_owned s t p u q h.owner other; spins = h.spins }

Reach-AreOwned : (m : ℕ → Option ℕ) {s : Locks} → Reach (start m) s → AreOwned s
Reach-AreOwned m here = λ t p k. cc k
Reach-AreOwned m (later r st) = Step-AreOwned st (Reach-AreOwned m r)

Reach-IsStuck : {s u : Locks} (t p : ℕ) → Reach s u → IsStuck t p s → IsStuck t p u
Reach-IsStuck t p here h = h
Reach-IsStuck t p (later r st) h = Step-IsStuck t p st (Reach-IsStuck t p r h)

-- In every state that can be reached from `InitializeMutexes`, a thread that has returned from the lock
-- of a mutex, and not released it since, is the one that the mutex names, and no other thread has
-- returned from its lock in that way.
pub Reach-exclusive :
    (m : ℕ → Option ℕ) {s : Locks} (t u p : ℕ)
    → Reach (start m) s
    → s.held t p ≡ true
    → (s.mutexes p ≡ some t) × (s.held u p ≡ true → u ≡ t)
Reach-exclusive m t u p r k =
    let own = Reach-AreOwned m r in
    (own t p k, λ j. let e : some u ≡ some t = sym (own u p j) ∙ own t p k in cc e)

-- A thread that calls the lock of a mutex that it holds spins in it in every state that can be reached
-- from there.
pub lock_call-testing :
    (m : ℕ → Option ℕ) {s u : Locks} (t p : ℕ)
    → Reach (start m) s
    → s.held t p ≡ true
    → Reach (lock_call t p s) u
    → u.place t ≡ testing p
unfolding lock_call
lock_call-testing m {s = s} t p r k next =
    let here' : (t == t) ≡ true = ground arith in
    (Reach-IsStuck t p next
      (record { owner = Reach-AreOwned m r t p k; spins = rw here' refl })).spins
