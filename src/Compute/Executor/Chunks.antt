-- ===== src/Compute/Executor/Chunks.antt =====
-- include/azul/compute/clcpp/OpenClComputeExecutor.hpp: how the work items are cut into tasks.
use mathlib.Core.List.{append-nil}
use native.Mathlib.Nat.{div-le_self, sub-zero}
use Prim.Native.Nat.{max, min}
use libazul.Base.{
  ℕ, zero, suc, ◌+◌, ◌-◌, ◌/◌, ◌≤◌, ◌<◌, ◌≡◌, refl, sym, ap, ap₂, ◌∙◌, ok, List, [], ◌∷◌, ◌++◌,
  slots, slots-append, throw, false, ◌==◌, ◌^◌, lt→ltb, not-lt→ltb, mod64, add64, arith, dec_lt,
}
use libazul.Compute.Executor.{Chunk, work_items_per_task, chunks_from, chunks, division_by_zero}

-- The values at the work items of some chunks, in order.
abbrev pub gather {ℓ} : {A : Type ℓ} → (ℕ → A) → List Chunk → List A
gather f [] = []
gather f (c ∷ cs) = slots f c.start c.count ++ gather f cs

-- Every chunk lies within the `n` work items and has at most `per` of them.
abbrev pub Within : (n per : ℕ) → List Chunk → Type 0
Within n per [] = Unit {0}
Within n per (c ∷ cs) = (c.start + c.count ≤ n) × (0 < c.count) × (c.count ≤ per) × Within n per cs

-- One chunk and what follows it.
cut {ℓ} :
    {A : Type ℓ} (f : ℕ → A) (n per i : ℕ)
    → slots f i (min per (n - i)) ++ slots f (i + per) (n - (i + per)) ≡ slots f i (n - i)
cut f n per i = elim (dec_lt (n - i) per) [
  | yes short ↦
      ap₂ (λ k m. slots f i k ++ slots f (i + per) m) {y = n - i} {v = 0} (omega arith)
        (omega arith)
      ∙ append-nil (slots f i (n - i))
  | no long ↦
      ap₂ (λ k m. slots f i k ++ slots f (i + per) m) {y = per} {v = n - i - per} (omega arith)
        (omega arith)
      ∙ sym (slots-append f i per (n - i - per))
      ∙ ap (slots f i) (omega arith)
]

-- The loop ends, and its chunks go through the work items from `i` on.
abbrev Cuts {ℓ} : {A : Type ℓ} (f : ℕ → A) (fuel n per i : ℕ) → Type ℓ
Cuts f fuel n per i =
    (cs : List Chunk) × (chunks_from fuel n per i ≡ ok cs)
    × (gather f cs ≡ slots f i (n - i))
    × Within n per cs

chunks_step {ℓ} :
    {A : Type ℓ} (f : ℕ → A) (fuel n per i : ℕ)
    → 0 < per
    → n + per ≤ mod64
    → i < n
    → Cuts f fuel n per (i + per)
    → Cuts f (suc fuel) n per i
unfolding chunks_from
chunks_step f fuel n per i p m lt (cs, eq, all, within) = (
  record { start = i; count = min per (n - i) } ∷ cs,
  rw (lt→ltb i n lt, next, eq) refl,
  ap (λ xs. slots f i (min per (n - i)) ++ xs) all ∙ cut f n per i,
  (omega arith, omega arith, omega arith, within),
)
  where
    next : add64 i per ≡ i + per
    next = omega arith

chunks_from_lem {ℓ} :
    {A : Type ℓ} (f : ℕ → A) (fuel n per i : ℕ)
    → 0 < per
    → n + per ≤ mod64
    → n - i < fuel
    → Cuts f fuel n per i
unfolding chunks_from
chunks_from_lem f zero n per i p m h = absurd (omega arith)
chunks_from_lem f (suc fuel) n per i p m h = elim (dec_lt i n) [
  | yes lt ↦
      chunks_step f fuel n per i p m lt (chunks_from_lem f fuel n per (i + per) p m (omega arith))
  | no ge ↦ ([], rw (not-lt→ltb i n ge) refl, ap (slots f i) {x = 0} (omega arith), tt)
]

max-div_bound : (n t : ℕ) → n < 2 ^ 63 → n + max (n / t) 1 ≤ mod64
max-div_bound n t h = omega (arith, div-le_self n t)

-- With a thread in the pool and fewer than 2 ^ 63 work items the loop ends: its chunks go through
-- all work items, each once and in order, and each chunk is within them, not empty, and of at most
-- the intended size.
pub chunks_lem {ℓ} :
    {A : Type ℓ} (f : ℕ → A) (n t : ℕ)
    → 0 < t
    → n < 2 ^ 63
    → (cs : List Chunk) × (chunks n t ≡ ok cs)
      × (gather f cs ≡ slots f 0 n)
      × Within n (max (n / t) 1) cs
unfolding chunks work_items_per_task
chunks_lem f n t p h =
    let some_thread : (t == 0) ≡ false = ground arith in
    let (cs, eq, all, within) =
      chunks_from_lem f (n + 1) n (max (n / t) 1) 0 (omega arith) (max-div_bound n t h)
        (omega arith) in
    (cs, rw (chunks, some_thread) eq, all ∙ ap (slots f 0) (sub-zero n), within)

-- A pool with no thread makes the division trap.
pub chunks_no_thread : (n : ℕ) → chunks n 0 ≡ throw division_by_zero
unfolding chunks work_items_per_task
chunks_no_thread n = refl
