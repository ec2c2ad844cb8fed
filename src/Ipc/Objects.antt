-- ===== src/Ipc/Objects.antt =====
-- src/ipc: mutexes and condition variables that lie in shared memory, and the lock files that go
-- with them: the calls that are made in the life of such an object, on any system. `C` is the type of
-- the calls on shared memory.
use libazul.Base.{
  ◌≡◌, refl, ap, ◌∙◌, Bool, true, false, List, [], ◌∷◌, ◌++◌, map, Option, none, some,
  if◌then◌else◌,
}

-- What the attributes are set to.
pub data Attribute : Type 0 where
  robust process_shared error_check realtime : Attribute

-- `object_init` and `file_open` tell whether they succeed.
pub data ObjectCall (C : Type 0) : Type 0 where
  memory : C → ObjectCall C
  attributes_init attributes_destroy object_destroy : ObjectCall C
  set_attribute : Attribute → ObjectCall C
  object_init : (succeeds : Bool) → ObjectCall C
  file_status file_create file_close : ObjectCall C
  file_open : (succeeds : Bool) → ObjectCall C

-- What there is besides the memory.
pub record Live : Type 0 where
  pub attributes : Bool
  pub object : Bool
  pub file : Bool

abbrev pub nothing_live : Live
nothing_live = record { attributes = false; object = false; file = false }

abbrev pub and_then : Option Live → (Live → Option Live) → Option Live
and_then none f = none
and_then (some w) f = f w

module _ {C : Type 0} where
  abbrev pub in_memory : List C → List (ObjectCall C)
  in_memory cs = map memory cs

  abbrev set_attributes : List Attribute → List (ObjectCall C)
  set_attributes setters = map set_attribute setters

  -- The calls that put an object into the memory.
  abbrev pub make_object : (setters : List Attribute) → (init : Bool) → List (ObjectCall C)
  make_object setters init =
      attributes_init ∷ (set_attributes setters ++ (object_init init ∷ attributes_destroy ∷ []))

  -- The calls that are about the memory.
  abbrev pub memory_calls : List (ObjectCall C) → List C
  memory_calls [] = []
  memory_calls (memory c ∷ cs) = c ∷ memory_calls cs
  memory_calls (attributes_init ∷ cs) = memory_calls cs
  memory_calls (attributes_destroy ∷ cs) = memory_calls cs
  memory_calls (object_destroy ∷ cs) = memory_calls cs
  memory_calls (set_attribute a ∷ cs) = memory_calls cs
  memory_calls (object_init b ∷ cs) = memory_calls cs
  memory_calls (file_status ∷ cs) = memory_calls cs
  memory_calls (file_create ∷ cs) = memory_calls cs
  memory_calls (file_close ∷ cs) = memory_calls cs
  memory_calls (file_open b ∷ cs) = memory_calls cs

  -- What a call leaves, if it can be made: attributes are set and used while they are there, an
  -- object is made where there is none and destroyed where there is one, the memory is touched only
  -- while there is none, and a file is closed that is open.
  abbrev pub allowed : ObjectCall C → Live → Option Live
  allowed (memory c) w = if w.object then none else some w
  allowed attributes_init w = if w.attributes then none else some (record w { attributes = true })
  allowed attributes_destroy w =
      if w.attributes then some (record w { attributes = false }) else none
  allowed object_destroy w = if w.object then some (record w { object = false }) else none
  allowed (set_attribute a) w = if w.attributes then some w else none
  allowed (object_init b) w =
      if w.attributes then if w.object then none else some (record w { object = b }) else none
  allowed file_status w = some w
  allowed file_create w = some w
  allowed file_close w = if w.file then some (record w { file = false }) else none
  allowed (file_open b) w = if w.file then none else some (record w { file = b })

  abbrev pub live_after : List (ObjectCall C) → Live → Option Live
  live_after [] w = some w
  live_after (c ∷ cs) w = and_then (allowed c w) (live_after cs)

  live_after-append :
      (xs ys : List (ObjectCall C)) (w : Live)
      → live_after (xs ++ ys) w ≡ and_then (live_after xs w) (live_after ys)
  live_after-append [] ys w = refl
  live_after-append (x ∷ xs) ys w = go (allowed x w) (live_after-append xs ys)
    where
      go :
          (o : Option Live)
          → ((v : Live) → live_after (xs ++ ys) v ≡ and_then (live_after xs v) (live_after ys))
          → and_then o (live_after (xs ++ ys))
            ≡ and_then (and_then o (live_after xs)) (live_after ys)
      go none h = refl
      go (some v) h = h v

  -- Calls that are allowed, and then others.
  pub live_after-then :
      (xs ys : List (ObjectCall C)) (w v : Live) {o : Option Live}
      → live_after xs w ≡ some v
      → live_after ys v ≡ o
      → live_after (xs ++ ys) w ≡ o
  live_after-then xs ys w v e f =
      live_after-append xs ys w ∙ ap (λ r. and_then r (live_after ys)) e ∙ f

  pub memory_calls-append :
      (xs ys : List (ObjectCall C)) → memory_calls (xs ++ ys) ≡ memory_calls xs ++ memory_calls ys
  memory_calls-append [] ys = refl
  memory_calls-append (memory c ∷ xs) ys = ap (λ zs. c ∷ zs) (memory_calls-append xs ys)
  memory_calls-append (attributes_init ∷ xs) ys = memory_calls-append xs ys
  memory_calls-append (attributes_destroy ∷ xs) ys = memory_calls-append xs ys
  memory_calls-append (object_destroy ∷ xs) ys = memory_calls-append xs ys
  memory_calls-append (set_attribute a ∷ xs) ys = memory_calls-append xs ys
  memory_calls-append (object_init b ∷ xs) ys = memory_calls-append xs ys
  memory_calls-append (file_status ∷ xs) ys = memory_calls-append xs ys
  memory_calls-append (file_create ∷ xs) ys = memory_calls-append xs ys
  memory_calls-append (file_close ∷ xs) ys = memory_calls-append xs ys
  memory_calls-append (file_open b ∷ xs) ys = memory_calls-append xs ys

  pub memory_calls-in_memory : (cs : List C) → memory_calls (in_memory cs) ≡ cs
  memory_calls-in_memory [] = refl
  memory_calls-in_memory (c ∷ cs) = ap (λ zs. c ∷ zs) (memory_calls-in_memory cs)

  pub live_after-in_memory :
      (cs : List C) (a f : Bool)
      → live_after (in_memory cs) (record { attributes = a; object = false; file = f })
        ≡ some (record { attributes = a; object = false; file = f })
  live_after-in_memory [] a f = refl
  live_after-in_memory (c ∷ cs) a f = live_after-in_memory cs a f

module _ (C : Type 0) where
  memory_calls-set_attributes :
      (ss : List Attribute) → memory_calls (set_attributes {C = C} ss) ≡ []
  memory_calls-set_attributes [] = refl
  memory_calls-set_attributes (a ∷ ss) = memory_calls-set_attributes ss

  pub memory_calls-make_object :
      (setters : List Attribute) (init : Bool)
      → memory_calls (make_object {C = C} setters init) ≡ []
  memory_calls-make_object setters init =
      memory_calls-append (set_attributes setters) (object_init init ∷ attributes_destroy ∷ [])
      ∙ ap (λ zs. zs ++ []) (memory_calls-set_attributes setters)

  live_after-set_attributes :
      (ss : List Attribute) (f : Bool)
      → live_after
          (set_attributes {C = C} ss)
          (record { attributes = true; object = false; file = f })
        ≡ some (record { attributes = true; object = false; file = f })
  live_after-set_attributes [] f = refl
  live_after-set_attributes (a ∷ ss) f = live_after-set_attributes ss f

  pub live_after-make_object :
      (setters : List Attribute) (init f : Bool)
      → live_after
          (make_object {C = C} setters init)
          (record { attributes = false; object = false; file = f })
        ≡ some (record { attributes = false; object = init; file = f })
  live_after-make_object setters init f =
      live_after-then (set_attributes setters) (object_init init ∷ attributes_destroy ∷ [])
        (record { attributes = true; object = false; file = f })
        (record { attributes = true; object = false; file = f })
        (live_after-set_attributes setters f) refl
