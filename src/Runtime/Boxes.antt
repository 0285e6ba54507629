-- ===== src/Runtime/Boxes.antt =====
-- The boxes to which a worker's thread of worker.rs writes the answers that `wait_on` of waitable.rs
-- reads: no two tasks wait with the same box.
use krcore_artifacts.Prelude.{
  ℕ, ◌+◌, ◌∷◌, [], ◌<◌, ◌≤◌, ◌≡◌, refl, ◌∙◌, ap, inl, inr, Bool, true, false, List, length, ltb,
  ◌==◌, arith, length-append, length-set, Bool-cases, eq_cases, ltb→lt,
}
use krcore_artifacts.Prelude.Maps.{Map, insert, remove, count, hit, hit_le, hit_ne}
use krcore_artifacts.Runtime.{WaitStatus, WaitableWrapper}
use krcore_artifacts.Runtime.Worker.{Worker, start_wait, set_flag, ask}

pub length-set_flag :
    (status : WaitStatus) (a : ℕ) (boxes : List Bool)
    → length (set_flag status a boxes) ≡ length boxes
length-set_flag WaitStatus.ready a boxes = length-set boxes a true
length-set_flag WaitStatus.waiting a boxes = refl
length-set_flag WaitStatus.error a boxes = length-set boxes a false

module _ {Waitable : Type 0} where
  abbrev pub flags : Map (WaitableWrapper Waitable) → List ℕ
  flags [] = []
  flags ((id, w) ∷ m) = w.flag ∷ flags m

  pub count-flags-insert :
      (a k : ℕ) (w : WaitableWrapper Waitable) (m : Map (WaitableWrapper Waitable))
      → count a (flags (insert k w m)) ≤ hit a w.flag + count a (flags m)
  count-flags-insert a k w [] = omega arith
  count-flags-insert a k w ((i, x) ∷ m) = elim (Bool-cases (ltb k i)) [
    | inl e ↦ rw e (omega arith)
    | inr e ↦ elim (Bool-cases (k == i)) [
      | inl e' ↦ rw (e, e') (omega arith)
      | inr e' ↦ rw (e, e') (omega (arith, count-flags-insert a k w m))
    ]
  ]

  pub count-flags-remove :
      (a k : ℕ) (m : Map (WaitableWrapper Waitable))
      → count a (flags (remove k m)) ≤ count a (flags m)
  count-flags-remove a k [] = omega arith
  count-flags-remove a k ((i, x) ∷ m) = elim (Bool-cases (k == i)) [
    | inl e ↦ rw e (omega (arith, count-flags-remove a k m))
    | inr e ↦ rw e (omega (arith, count-flags-remove a k m))
  ]

  -- The boxes that are waited on are allocated, and different.
  pub record Apart (m : Map (WaitableWrapper Waitable)) (boxes : List Bool) : Type 0 where
    pub distinct : (a : ℕ) → count a (flags m) ≤ 1
    pub allocated : (a : ℕ) → 0 < count a (flags m) → a < length boxes

  pub Apart-less :
      (m m' : Map (WaitableWrapper Waitable)) (boxes boxes' : List Bool)
      → Apart m boxes
      → ((a : ℕ) → count a (flags m') ≤ count a (flags m))
      → length boxes' ≡ length boxes
      → Apart m' boxes'
  Apart-less m m' boxes boxes' h less same = record {
    distinct = λ a. omega (arith, h.distinct a, less a);
    allocated = λ a there. omega (arith, same, h.allocated a (omega (arith, less a, there)));
  }

  pub Apart-start :
      {R : Type 0} (w : Waitable) (s : Worker Waitable R)
      → Apart s.waiting s.boxes
      → Apart (start_wait w s).waiting (start_wait w s).boxes
  Apart-start w s h =
      let wrapper : WaitableWrapper Waitable = record { inner = w; flag = length s.boxes } in
      let more : (a : ℕ)
          → count a (flags (insert s.task_id wrapper s.waiting))
            ≤ hit a (length s.boxes) + count a (flags s.waiting) =
        λ a. count-flags-insert a s.task_id wrapper s.waiting in
      record {
        distinct = λ a. elim (eq_cases a (length s.boxes)) [
          | inl e ↦ elim (Bool-cases (ltb 0 (count a (flags s.waiting)))) [
            | inl p ↦ absurd (omega (arith, e, h.allocated a (ltb→lt 0 _ p)))
            | inr p ↦ ground (arith, more a, p, hit_le a (length s.boxes))
          ]
          | inr ne ↦ omega (arith, more a, hit_ne a (length s.boxes) ne, h.distinct a)
        ];
        allocated = λ a there. elim (eq_cases a (length s.boxes)) [
          | inl e ↦ omega (arith, e, length-append s.boxes (false ∷ []))
          | inr ne ↦ omega (
            arith,
            length-append s.boxes (false ∷ []),
            h.allocated a (omega (arith, more a, hit_ne a (length s.boxes) ne, there)),
          )
        ];
      }

  -- Asking keeps the addresses and the number of boxes.
  pub ask-flags :
      (wait_one_round : Waitable → WaitStatus × Waitable) (m : Map (WaitableWrapper Waitable))
      (boxes : List Bool)
      → (flags (ask wait_one_round m boxes).1 ≡ flags m)
        × (length (ask wait_one_round m boxes).2 ≡ length boxes)
  unfolding ask
  ask-flags wait_one_round [] boxes = (refl, refl)
  ask-flags wait_one_round ((id, w) ∷ m) boxes =
      let (status, inner) = wait_one_round w.inner in
      let (same, size) = ask-flags wait_one_round m (set_flag status w.flag boxes) in
      (ap (◌∷◌ w.flag) same, size ∙ length-set_flag status w.flag boxes)
