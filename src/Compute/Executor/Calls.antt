-- ===== src/Compute/Executor/Calls.antt =====
-- include/azul/compute/clcpp/OpenClComputeExecutor.hpp: the calls of the kernel, over all tasks.
use native.Mathlib.Nat.{mod-lt, div-lt_iff_lt-mul, mod-eq_of_lt}
use libazul.Base.{
  ℕ, zero, suc, ◌+◌, ◌-◌, ◌*◌, ◌/◌, ◌%◌, ◌^◌, ◌≤◌, ◌<◌, ◌≡◌, refl, ap, ap₂, ◌∙◌, Result, ok, throw,
  List, [], ◌∷◌, ◌++◌, slots, slots_ext, arith, map, mod64, add64, mul64,
}
use libazul.Compute.GlobalId.{GlobalIndex}
use libazul.Compute.Executor.{
  Chunk, ExecuteError, Tasks, chunks, task_loop, task1, task2, task3, body1, body2, body3, execute1,
  execute2, execute3, with_chunks,
}
use libazul.Compute.Executor.Chunks.{gather, Within, chunks_lem}
use libazul.Compute.Executor.Grid.{plane, volume, slots-plane, slots-volume}

-- What the kernel sees at each call: the tasks in the order in which they were handed over, the
-- `k`-th on a thread whose indices are `g k` before it.
abbrev pub all_calls {ℓ} :
    {B : Type ℓ}
    → (GlobalIndex → B)
    → (ℕ → GlobalIndex)
    → ℕ
    → List (GlobalIndex → List GlobalIndex)
    → List B
all_calls see g k [] = []
all_calls see g k (t ∷ ts) = map see (t (g k)) ++ all_calls see g (k + 1) ts

abbrev pub observe {ℓ} :
    {B : Type ℓ} → (GlobalIndex → B) → (ℕ → GlobalIndex) → Tasks → Result ExecuteError (List B)
observe see g (ok ts) = ok (all_calls see g 0 ts)
observe see g (throw e) = throw e

module _ {ℓ} {B : Type ℓ} (see : GlobalIndex → B) where
  -- A task's loop shows the kernel one index after the other.
  task_loop-slots :
      (body : ℕ → GlobalIndex → GlobalIndex) (f : ℕ → B) (rounds j : ℕ) (g : GlobalIndex)
      → ((k : ℕ) (h : GlobalIndex) → j ≤ k → k < j + rounds → see (body k h) ≡ f k)
      → map see (task_loop body rounds j g) ≡ slots f j rounds
  unfolding task_loop
  task_loop-slots body f zero j g e = refl
  task_loop-slots body f (suc n) j g e =
      ap₂ ◌∷◌ (e j g (omega arith) (omega arith))
        (task_loop-slots body f n (j + 1) (body j g) (λ k h p q. e k h (omega arith) (omega arith)))

  all_calls-gather :
      (task : Chunk → GlobalIndex → List GlobalIndex) (f : ℕ → B) (g : ℕ → GlobalIndex)
      (n per k : ℕ) (cs : List Chunk)
      → ((c : Chunk) (h : GlobalIndex)
          → c.start + c.count ≤ n
          → map see (task c h) ≡ slots f c.start c.count)
      → Within n per cs
      → all_calls see g k (map task cs) ≡ gather f cs
  all_calls-gather task f g n per k [] e w = refl
  all_calls-gather task f g n per k (c ∷ cs) e (within, _, _, w) =
      ap₂ ◌++◌ (e c (g k) within) (all_calls-gather task f g n per (k + 1) cs e w)

  -- The whole of `Execute`, for a task that handles its own chunk.
  execute_lem :
      (task : Chunk → GlobalIndex → List GlobalIndex) (f : ℕ → B) (g : ℕ → GlobalIndex) (n t : ℕ)
      → 0 < t
      → n < 2 ^ 63
      → ((c : Chunk) (h : GlobalIndex)
          → c.start + c.count ≤ n
          → map see (task c h) ≡ slots f c.start c.count)
      → observe see g (with_chunks task (chunks n t)) ≡ ok (slots f 0 n)
  execute_lem task f g n t p m e =
      let (cs, eq, all, within) = chunks_lem f n t p m in
      rw eq (ap ok (all_calls-gather task f g n _ 0 cs e within ∙ all))

abbrev pub dims2 : GlobalIndex → ℕ × ℕ
dims2 h = (h.dim0, h.dim1)

abbrev pub dims3 : GlobalIndex → ℕ × ℕ × ℕ
dims3 h = (h.dim0, h.dim1, h.dim2)

-- A remainder and a quotient of a number below `h * w`.
column-lt : (j w h : ℕ) → j < h * w → j % w < w
column-lt j zero h p = absurd (omega arith)
column-lt j (suc w) h p = mod-lt j (omega arith)

row-lt : (j w h : ℕ) → j < h * w → j / w < h
row-lt j zero h p = absurd (omega arith)
row-lt j (suc w) h p = (div-lt_iff_lt-mul (omega arith)).1 p

task1-slots :
    (o n : ℕ) (c : Chunk) (h : GlobalIndex)
    → n < 2 ^ 63
    → o + n < mod64
    → c.start + c.count ≤ n
    → map (λ g. g.dim0) (task1 o c h) ≡ slots (λ j. o + j) c.start c.count
unfolding task1 body1
task1-slots o n c h m r within =
    rw (first, rounds)
      (task_loop-slots (λ g. g.dim0) body1 (λ j. j) c.count (o + c.start) h (λ k g p q. refl)
        ∙ slots_ext (λ j. j) (λ j. o + j) (o + c.start) c.start c.count (λ k q. omega arith))
  where
    first : add64 o c.start ≡ o + c.start
    first = omega arith

    rounds : add64 (o + c.start) c.count - (o + c.start) ≡ c.count
    rounds = omega arith

task2-slots :
    (sx sy ox oy : ℕ) (c : Chunk) (h : GlobalIndex)
    → sy * sx < 2 ^ 63
    → ox + sx ≤ mod64
    → oy + sy ≤ mod64
    → c.start + c.count ≤ sy * sx
    → map dims2 (task2 sx ox oy c h) ≡ slots (λ j. (ox + j % sx, oy + j / sx)) c.start c.count
unfolding task2 body2
task2-slots sx sy ox oy c h m rx ry within = rw rounds (
    task_loop-slots dims2 (body2 sx ox oy) (λ j. (ox + j % sx, oy + j / sx)) c.count c.start h
      (λ k g p q.
        ap₂ (λ x y. (x, y)) (omega (arith, column-lt k sx sy (omega arith)))
          (omega (arith, row-lt k sx sy (omega arith)))))
  where
    rounds : add64 c.start c.count - c.start ≡ c.count
    rounds = omega arith

-- The three coordinates of a work item stay in range.
coordinates :
    (sx sy sz ox oy oz k : ℕ)
    → ox + sx ≤ mod64
    → oy + sy ≤ mod64
    → oz + sz ≤ mod64
    → k < sz * (sx * sy)
    → (add64 ox (k % sx) ≡ ox + k % sx)
      × (add64 oy (k % (sx * sy) / sx) ≡ oy + k % (sx * sy) / sx)
      × (add64 oz (k / (sx * sy)) ≡ oz + k / (sx * sy))
coordinates sx sy sz ox oy oz k rx ry rz h = (
  omega (arith, column-lt k sx (sz * sy) (omega arith)),
  omega (arith, row-lt (k % (sx * sy)) sx sy inner),
  omega (arith, row-lt k (sx * sy) sz h),
)
  where
    inner : k % (sx * sy) < sy * sx
    inner = omega (arith, column-lt k (sx * sy) sz h)

task3-slots :
    (sx sy sz ox oy oz : ℕ) (c : Chunk) (h : GlobalIndex)
    → sx * sy < mod64
    → sz * (sx * sy) < 2 ^ 63
    → ox + sx ≤ mod64
    → oy + sy ≤ mod64
    → oz + sz ≤ mod64
    → c.start + c.count ≤ sz * (sx * sy)
    → map dims3 (task3 sx sy ox oy oz c h)
      ≡ slots (λ j. (ox + j % sx, oy + j % (sx * sy) / sx, oz + j / (sx * sy))) c.start c.count
unfolding task3 body3
task3-slots sx sy sz ox oy oz c h area m rx ry rz within = rw rounds (
    task_loop-slots dims3 (body3 sx sy ox oy oz)
      (λ j. (ox + j % sx, oy + j % (sx * sy) / sx, oz + j / (sx * sy))) c.count c.start h
      λ k g p q.
        let (x, y, z) = coordinates sx sy sz ox oy oz k rx ry rz (omega arith) in
        rw flat (λ i. (x i, y i, z i)))
  where
    rounds : add64 c.start c.count - c.start ≡ c.count
    rounds = omega arith

    flat : mul64 sx sy ≡ sx * sy
    flat = mod-eq_of_lt area

-- In one dimension the kernel sees the indices from the offset on, each once and in order: on
-- whatever threads the tasks run, if there is a thread, and the numbers stay in range.
pub execute1_lem :
    (t n o : ℕ) (g : ℕ → GlobalIndex)
    → 0 < t
    → n < 2 ^ 63
    → o + n < mod64
    → observe (λ h. h.dim0) g (execute1 t n o) ≡ ok (slots (λ j. o + j) 0 n)
unfolding execute1
execute1_lem t n o g p m r =
    execute_lem (λ h. h.dim0) (task1 o) (λ j. o + j) g n t p m
      (λ c h within. task1-slots o n c h m r within)

-- In two dimensions the kernel sees every pair of indices of the plane behind the offsets, once and
-- row by row: on whatever threads the tasks run, if there is a thread, and the numbers stay in range.
pub execute2_lem :
    (t sx sy ox oy : ℕ) (g : ℕ → GlobalIndex)
    → 0 < t
    → sy * sx < 2 ^ 63
    → ox + sx ≤ mod64
    → oy + sy ≤ mod64
    → observe dims2 g (execute2 t sx sy ox oy) ≡ ok (plane (λ x y. (ox + x, oy + y)) sx sy)
unfolding execute2
execute2_lem t sx sy ox oy g p m rx ry =
    let size : mul64 sx sy ≡ sy * sx = omega arith in
    rw size (
      execute_lem dims2 (task2 sx ox oy) _ g (sy * sx) t p m
        (λ c h within. task2-slots sx sy ox oy c h m rx ry within)
      ∙ ap ok (slots-plane (λ x y. (ox + x, oy + y)) sx sy))

-- In three dimensions the kernel sees every triple of indices of the volume behind the offsets,
-- once, layer by layer and row by row: on whatever threads the tasks run, if there is a thread, and
-- the numbers stay in range.
pub execute3_lem :
    (t sx sy sz ox oy oz : ℕ) (g : ℕ → GlobalIndex)
    → 0 < t
    → sx * sy < mod64
    → sz * (sx * sy) < 2 ^ 63
    → ox + sx ≤ mod64
    → oy + sy ≤ mod64
    → oz + sz ≤ mod64
    → observe dims3 g (execute3 t sx sy sz ox oy oz)
      ≡ ok (volume (λ x y z. (ox + x, oy + y, oz + z)) sx sy sz)
unfolding execute3
execute3_lem t sx sy sz ox oy oz g p area m rx ry rz =
    let size : mul64 (mul64 sx sy) sz ≡ sz * (sx * sy) =
      ap (λ a. mul64 a sz) (mod-eq_of_lt area) ∙ omega arith in
    rw size (
      execute_lem dims3 (task3 sx sy ox oy oz) _ g (sz * (sx * sy)) t p m
        (λ c h within. task3-slots sx sy sz ox oy oz c h area m rx ry rz within)
      ∙ ap ok (slots-volume (λ x y z. (ox + x, oy + y, oz + z)) sx sy sz))
