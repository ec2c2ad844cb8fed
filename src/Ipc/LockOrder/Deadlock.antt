-- ===== src/Ipc/LockOrder/Deadlock.antt =====
-- src/ipc/darwin/ConditionVariable.cpp and win32/ConditionVariable.cpp: a thread that wakes up and one
-- that notifies can wait for each other for ever.
use libazul.Base.{
  ℕ, ◌≡◌, ◌≢◌, refl, subst, Bool, true, false, List, [], ◌∷◌, ◌++◌, Option, none, some, ◌==◌,
  ==_iff, update, Bool-cases, inl, inr, arith,
}
use libazul.Ipc.LockOrder.{
  queue_lock, callers_lock, Operation, take, give, sleep, wake, Threads, wait_operations,
  notify_operations, under_lock, operate, advance, step, and_then, run,
}

-- Each of the two has a lock and is about to take that of the other.
pub record WaitsForOther (t u : ℕ) (s : Threads) : Type 0 where
  pub queue_taken : s.queue_owner ≡ some t
  pub callers_taken : s.callers_owner ≡ some u
  pub rest_t : List Operation
  pub rest_u : List Operation
  pub t_next : s.rest t ≡ take callers_lock ∷ rest_t
  pub u_next : s.rest u ≡ take queue_lock ∷ rest_u

stuck_t : (t u : ℕ) (s : Threads) → WaitsForOther t u s → step t s ≡ none
stuck_t t u s w = rw (w.t_next, w.callers_taken) refl

stuck_u : (t u : ℕ) (s : Threads) → WaitsForOther t u s → step u s ≡ none
stuck_u t u s w = rw (w.u_next, w.queue_taken) refl

abbrev nowhere : Option Threads
nowhere = none

woken-WaitsForOther :
    (t u : ℕ) (s : Threads) (f : ℕ → Bool)
    → WaitsForOther t u s
    → WaitsForOther t u (record s { woken = f })
woken-WaitsForOther t u s f w = record {
  queue_taken = w.queue_taken;
  callers_taken = w.callers_taken;
  rest_t = w.rest_t;
  rest_u = w.rest_u;
  t_next = w.t_next;
  u_next = w.u_next;
}

-- Another thread can neither give nor take the two locks.
operate-WaitsForOther :
    (t u v : ℕ) (o : Operation) (s s' : Threads)
    → t ≢ v
    → u ≢ v
    → operate v o s ≡ some s'
    → WaitsForOther t u s
    → WaitsForOther t u s'
operate-WaitsForOther t u v (take queue_lock) s s' n m e w =
    let e' : nowhere ≡ some s' = rw w.queue_taken at e in absurd (cc)
operate-WaitsForOther t u v (take callers_lock) s s' n m e w =
    let e' : nowhere ≡ some s' = rw w.callers_taken at e in absurd (cc)
operate-WaitsForOther t u v (give queue_lock) s s' n m e w =
    let other : (t == v) ≡ false = ground arith in
    let e' : nowhere ≡ some s' = rw (w.queue_taken, other) at e in absurd (cc)
operate-WaitsForOther t u v (give callers_lock) s s' n m e w =
    let other : (u == v) ≡ false = ground arith in
    let e' : nowhere ≡ some s' = rw (w.callers_taken, other) at e in absurd (cc)
operate-WaitsForOther t u v sleep s s' n m e w = elim (Bool-cases (s.woken v)) [
  | inl y ↦
      let e' : some (record s { woken = update s.woken v false }) ≡ some s' = rw y at e in
      let same : record s { woken = update s.woken v false } ≡ s' = cc in
      subst (WaitsForOther t u) same (woken-WaitsForOther t u s (update s.woken v false) w)
  | inr y ↦ let e' : nowhere ≡ some s' = rw y at e in absurd (cc)
]
operate-WaitsForOther t u v (wake x) s s' n m e w =
    let same : record s { woken = update s.woken x true } ≡ s' = cc in
    subst (WaitsForOther t u) same (woken-WaitsForOther t u s (update s.woken x true) w)

-- A step of a thread, of the two or another.
step-WaitsForOther :
    (t u v : ℕ) (s s' : Threads) → step v s ≡ some s' → WaitsForOther t u s → WaitsForOther t u s'
step-WaitsForOther t u v s s' e w = elim (Bool-cases (t == v)) [
  | inl same ↦
      let eq : t ≡ v = (==_iff t v).0 same in
      let e' : step t s ≡ some s' = rw eq e in
      let none_left : step t s ≡ none = stuck_t t u s w in absurd (cc)
  | inr n ↦ elim (Bool-cases (u == v)) [
    | inl same ↦
        let eq : u ≡ v = (==_iff u v).0 same in
        let e' : step u s ≡ some s' = rw eq e in
        let none_left : step u s ≡ none = stuck_u t u s w in absurd (cc)
    | inr m ↦ by_rest (s.rest v) n m e
  ]
]
  where
    by_rest :
        (os : List Operation)
        → (t == v) ≡ false
        → (u == v) ≡ false
        → advance v os s ≡ some s'
        → WaitsForOther t u s'
    by_rest [] n m e = absurd (cc)
    by_rest (o ∷ os) n m e =
        operate-WaitsForOther t u v o (record s { rest = update s.rest v os }) s' (ground arith)
          (ground arith) e
          (record {
            queue_taken = w.queue_taken;
            callers_taken = w.callers_taken;
            rest_t = w.rest_t;
            rest_u = w.rest_u;
            t_next = let n' : (v == t) ≡ false = ground arith in rw n' w.t_next;
            u_next = let m' : (v == u) ≡ false = ground arith in rw m' w.u_next;
          })

-- Whatever the threads do from then on, the two wait.
run-WaitsForOther :
    (t u : ℕ) (vs : List ℕ) (s s' : Threads)
    → run vs s ≡ some s'
    → WaitsForOther t u s
    → WaitsForOther t u s'
run-WaitsForOther t u [] s s' e w = let same : s ≡ s' = cc in subst (WaitsForOther t u) same w
run-WaitsForOther t u (v ∷ vs) s s' e w =
    go (step v s) refl (λ s'' e'' w''. run-WaitsForOther t u vs s'' s' e'' w'') e
  where
    go :
        (r : Option Threads)
        → step v s ≡ r
        → ((s'' : Threads) → run vs s'' ≡ some s' → WaitsForOther t u s'' → WaitsForOther t u s')
        → and_then r (run vs) ≡ some s'
        → WaitsForOther t u s'
    go none f k e = absurd (cc)
    go (some s'') f k e = k s'' e (step-WaitsForOther t u v s s'' f w)

-- Thread 0 is in `Wait`, and thread 1 notifies it and then notifies once more; there can be others.
abbrev pub start : (others : ℕ → List Operation) → (k l : List Operation) → Threads
start others k l = record {
  queue_owner = none;
  callers_owner = some 0;
  woken = λ v. false;
  rest =
      update (update others 0 (wait_operations ++ k)) 1
        (under_lock (notify_operations 0) ++ (under_lock (notify_operations 0) ++ l));
}

-- Thread 0 goes to sleep, thread 1 wakes it and takes the mutex of the caller again, and then thread
-- 0 takes that of the queue.
abbrev pub schedule : List ℕ
schedule = 0 ∷ 0 ∷ 0 ∷ 1 ∷ 1 ∷ 1 ∷ 1 ∷ 1 ∷ 1 ∷ 0 ∷ 0 ∷ []

abbrev pub or_else : Option Threads → Threads → Threads
or_else none s = s
or_else (some s') s = s'

-- Where they have come to then.
abbrev pub met : (others : ℕ → List Operation) → (k l : List Operation) → Threads
met others k l = or_else (run schedule (start others k l)) (start others k l)

met-WaitsForOther :
    (others : ℕ → List Operation) (k l : List Operation) → WaitsForOther 0 1 (met others k l)
met-WaitsForOther others k l = record {
  queue_taken = refl;
  callers_taken = refl;
  rest_t = give queue_lock ∷ k;
  rest_u = wake 0 ∷ give queue_lock ∷ give callers_lock ∷ l;
  t_next = refl;
  u_next = refl;
}

-- A thread that waits and is woken, and the thread that woke it and notifies once more with the mutex
-- of the caller, can come to where neither of them ever goes on, whatever the other threads do, and
-- whatever the two had still to do.
pub deadlock :
    (others : ℕ → List Operation) (k l : List Operation) (vs : List ℕ) (s : Threads)
    → run vs (met others k l) ≡ some s
    → (run schedule (start others k l) ≡ some (met others k l))
      × (step 0 s ≡ none)
      × (step 1 s ≡ none)
deadlock others k l vs s e =
    let w : WaitsForOther 0 1 s =
      run-WaitsForOther 0 1 vs (met others k l) s e (met-WaitsForOther others k l) in
    (refl, stuck_t 0 1 s w, stuck_u 0 1 s w)
