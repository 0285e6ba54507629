-- ===== src/Runtime/Asked.antt =====
-- Asking the waitables in a round of worker.rs: what it makes of the entry of one task.
use krcore_artifacts.Prelude.{
  ℕ, ◌+◌, ◌*◌, ◌∷◌, [], ◌<◌, ◌≤◌, ◌≡◌, refl, ◌∙◌, ap, subst, inl, inr, ◌≢◌, Bool, true, false,
  Option, none, some, List, length, get_or, ◌==◌, arith, Bool-cases, eq_cases, get_or-set_self,
  get_or-set_ne,
}
use krcore_artifacts.Prelude.Maps.{Map, lookup, keys, count, hit, hit_self, hit_ne}
use krcore_artifacts.Runtime.{WaitStatus, WaitableWrapper}
use krcore_artifacts.Runtime.Worker.{set_flag, collect, ask}
use krcore_artifacts.Runtime.Boxes.{flags, Apart, length-set_flag}

-- What the answer makes of the box.
abbrev pub answer_in : WaitStatus → Bool → Bool
answer_in WaitStatus.ready b = true
answer_in WaitStatus.error b = false
answer_in WaitStatus.waiting b = b

-- Whether the task goes on waiting, and then for which object.
abbrev pub left_waiting :
    {Waitable : Type 0} → WaitStatus → WaitableWrapper Waitable → Option (WaitableWrapper Waitable)
left_waiting WaitStatus.waiting w = some w
left_waiting _ w = none

set_flag_self :
    (status : WaitStatus) (a : ℕ) (boxes : List Bool)
    → a < length boxes
    → get_or (set_flag status a boxes) a false ≡ answer_in status (get_or boxes a false)
set_flag_self WaitStatus.ready a boxes h = get_or-set_self boxes a true false h
set_flag_self WaitStatus.error a boxes h = get_or-set_self boxes a false false h
set_flag_self WaitStatus.waiting a boxes h = refl

set_flag_other :
    (status : WaitStatus) (a b : ℕ) (boxes : List Bool)
    → a ≢ b
    → get_or (set_flag status a boxes) b false ≡ get_or boxes b false
set_flag_other WaitStatus.ready a b boxes h = get_or-set_ne boxes a b true false h
set_flag_other WaitStatus.error a b boxes h = get_or-set_ne boxes a b false false h
set_flag_other WaitStatus.waiting a b boxes h = refl

-- How often a collected id is counted.
abbrev pub taken : WaitStatus → ℕ
taken WaitStatus.waiting = 0
taken _ = 1

count-collect :
    (status : WaitStatus) (j id : ℕ) (ids : List ℕ)
    → count j (collect status id ids) ≡ taken status * hit j id + count j ids
count-collect WaitStatus.ready j id ids = omega arith
count-collect WaitStatus.error j id ids = omega arith
count-collect WaitStatus.waiting j id ids = omega arith

module _ {Waitable : Type 0} (wait_one_round : Waitable → WaitStatus × Waitable) where
  -- A box that nothing in the map waits with stays as it is.
  ask-other :
      (m : Map (WaitableWrapper Waitable)) (boxes : List Bool) (a : ℕ)
      → count a (flags m) ≡ 0
      → get_or (ask wait_one_round m boxes).2 a false ≡ get_or boxes a false
  unfolding ask
  ask-other [] boxes a h = refl
  ask-other ((id, w) ∷ m) boxes a h =
      let status = (wait_one_round w.inner).0 in
      let ne : w.flag ≢ a = λ e. absurd (omega (arith, h, hit_self a, ap (hit a) e)) in
      ask-other m (set_flag status w.flag boxes) a (omega (arith, h))
      ∙ set_flag_other status w.flag a boxes ne

  ask-none :
      (m : Map (WaitableWrapper Waitable)) (boxes : List Bool) (id : ℕ)
      → count id (keys m) ≡ 0
      → count id (ask wait_one_round m boxes).0 ≡ 0
  unfolding ask
  ask-none [] boxes id h = refl
  ask-none ((i, w) ∷ m) boxes id h =
      let status = (wait_one_round w.inner).0 in
      let rest = ask-none m (set_flag status w.flag boxes) id (omega (arith, h)) in
      count-collect status id i _ ∙ ground (arith, rest, h)

  lookup-flags :
      (m : Map (WaitableWrapper Waitable)) (id : ℕ) (w : WaitableWrapper Waitable)
      → lookup id m ≡ some w
      → 0 < count w.flag (flags m)
  lookup-flags [] id w found = absurd (cc)
  lookup-flags ((i, x) ∷ m) id w found = elim (Bool-cases (id == i)) [
    | inl e ↦
        let here : some x ≡ some w = rw e at found in
        let same : x.flag ≡ w.flag = ground (arith, here) in
        omega (arith, hit_self w.flag, ap (hit w.flag) same)
    | inr e ↦
        let later : lookup id m ≡ some w = rw e at found in omega (arith, lookup-flags m id w later)
  ]

  -- The entry of `id` after asking: its box, its object, and whether it is collected.
  pub record Asked (m : Map (WaitableWrapper Waitable)) (boxes : List Bool) (id : ℕ)
      (w : WaitableWrapper Waitable) : Type 0 where
    pub box :
        get_or (ask wait_one_round m boxes).2 w.flag false
        ≡ answer_in (wait_one_round w.inner).0 (get_or boxes w.flag false)
    pub next :
        lookup id (ask wait_one_round m boxes).1
        ≡ some (record w { inner = (wait_one_round w.inner).1 })
    pub collected : count id (ask wait_one_round m boxes).0 ≡ taken (wait_one_round w.inner).0

  pub ask-Asked :
      (m : Map (WaitableWrapper Waitable)) (boxes : List Bool) (id : ℕ)
      (w : WaitableWrapper Waitable)
      → Apart m boxes
      → count id (keys m) ≤ 1
      → lookup id m ≡ some w
      → Asked m boxes id w
  unfolding ask
  ask-Asked [] boxes id w apart once found = absurd (cc)
  ask-Asked ((i, x) ∷ m) boxes id w apart once found = elim (eq_cases id i) [
    | inl e ↦
        let on : (id == i) ≡ true = ground (arith, e) in
        let here : some x ≡ some w = rw on at found in
        let same : x ≡ w = ground (arith, here) in
        subst (Asked ((i, x) ∷ m) boxes id) same (first e)
    | inr ne ↦
        let off : (id == i) ≡ false = ground (arith, ne) in
        let later : lookup id m ≡ some w = rw off at found in
        let boxes1 = set_flag (wait_one_round x.inner).0 x.flag boxes in
        let there = lookup-flags m id w later in
        let apart1 : Apart m boxes1 = record {
          distinct = λ a. omega (arith, apart.distinct a);
          allocated = λ a h. omega (
            arith,
            length-set_flag (wait_one_round x.inner).0 x.flag boxes,
            apart.allocated a (omega (arith, h)),
          );
        } in
        let rest = ask-Asked m boxes1 id w apart1 (omega (arith, once)) later in
        let other : x.flag ≢ w.flag = λ q.
          absurd
            (omega (arith, apart.distinct w.flag, there, hit_self w.flag, ap (hit w.flag) q)) in
        record {
          box =
              rest.box
              ∙ ap (answer_in (wait_one_round w.inner).0)
                  (set_flag_other (wait_one_round x.inner).0 x.flag w.flag boxes other);
          next = rw off rest.next;
          collected =
              count-collect (wait_one_round x.inner).0 id i _
              ∙ omega_miss (taken (wait_one_round x.inner).0) (hit id i) _ _ (hit_ne id i ne)
                  rest.collected;
        }
  ]
    where
      omega_miss : (t b c d : ℕ) → b ≡ 0 → c ≡ d → t * b + c ≡ d
      omega_miss t b c d e q = ground (arith, e, q)

      first : id ≡ i → Asked ((i, x) ∷ m) boxes id x
      first e =
          let on : (id == i) ≡ true = ground (arith, e) in
          let status = (wait_one_round x.inner).0 in
          let one : hit id i ≡ 1 = ground (arith, e) in
          let gone : count id (keys m) ≡ 0 = omega (arith, once, one) in
          let alone : count x.flag (flags m) ≡ 0 =
            omega (arith, apart.distinct x.flag, hit_self x.flag) in
          let room = apart.allocated x.flag (omega (arith, hit_self x.flag)) in
          record {
            box =
                ask-other m (set_flag status x.flag boxes) x.flag alone
                ∙ set_flag_self status x.flag boxes room;
            next = rw on refl;
            collected =
                count-collect status id i _
                ∙ ground (arith, one, ask-none m (set_flag status x.flag boxes) id gone);
          }
