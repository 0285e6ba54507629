-- ===== src/Prelude/Maps.antt =====
-- `BTreeMap<usize, _>` as the list of its entries in ascending order of the keys, and how often a
-- number occurs in a list.
use Prim.Native.Nat.{ℕ, suc, ◌+◌, ◌<◌, ◌≤◌}
use mathlib.Core.Path.{◌≡◌, refl, ap, ◌∙◌}
use mathlib.Core.Logic.{◌≢◌, inl, inr}
use mathlib.Core.Bool.{true, false}
use mathlib.Core.List.{List, [], ◌∷◌, ◌++◌}
use mathlib.Core.Option.{Option, none, some}
use native.Mathlib.Omega.{arith}
use krcore_artifacts.Prelude.Tests.{if◌then◌else◌, ltb, ◌==◌, eq_cases, Bool-cases}
use krcore_artifacts.Prelude.Lists.{length}

-- 1 if the numbers are the same, else 0.
abbrev pub hit : ℕ → ℕ → ℕ
hit i j = if i == j then 1 else 0

abbrev pub count : ℕ → List ℕ → ℕ
count i [] = 0
count i (x ∷ xs) = hit i x + count i xs

pub hit_self : (i : ℕ) → hit i i ≡ 1
hit_self i = ground arith

pub hit_ne : (i j : ℕ) → i ≢ j → hit i j ≡ 0
hit_ne i j h = ground arith

pub hit_le : (i j : ℕ) → hit i j ≤ 1
hit_le i j = ground arith

pub count-append : (i : ℕ) (xs ys : List ℕ) → count i (xs ++ ys) ≡ count i xs + count i ys
count-append i [] ys = omega arith
count-append i (x ∷ xs) ys = omega (arith, count-append i xs ys)

abbrev pub Map : Type 0 → Type 0
Map V = List (ℕ × V)

module _ {V : Type 0} where
  abbrev pub keys : Map V → List ℕ
  keys [] = []
  keys ((i, a) ∷ m) = i ∷ keys m

  -- `get`
  abbrev pub lookup : ℕ → Map V → Option V
  lookup k [] = none
  lookup k ((i, a) ∷ m) = if k == i then some a else lookup k m

  abbrev pub insert : ℕ → V → Map V → Map V
  insert k v [] = (k, v) ∷ []
  insert k v ((i, a) ∷ m) =
      if ltb k i then (k, v) ∷ (i, a) ∷ m else if k == i then (k, v) ∷ m else (i, a) ∷ insert k v m

  abbrev pub remove : ℕ → Map V → Map V
  remove k [] = []
  remove k ((i, a) ∷ m) = if k == i then remove k m else (i, a) ∷ remove k m

  -- A write through `get_mut`.
  abbrev pub put : ℕ → V → Map V → Map V
  put k v [] = []
  put k v ((i, a) ∷ m) = if k == i then (i, v) ∷ m else (i, a) ∷ put k v m

  pub count-insert :
      (j k : ℕ) (v : V) (m : Map V)
      → count k (keys m) ≡ 0
      → count j (keys (insert k v m)) ≡ hit j k + count j (keys m)
  count-insert j k v [] h = refl
  count-insert j k v ((i, a) ∷ m) h = elim (Bool-cases (ltb k i)) [
    | inl e ↦ rw e refl
    | inr e ↦ elim (eq_cases k i) [
      | inl e' ↦ absurd (omega (arith, h, hit_self k, ap (hit k) e'))
      | inr ne ↦
          let off : (k == i) ≡ false = ground (arith, ne) in
          let zero_hit = hit_ne k i ne in
          rw (e, off) (omega (arith, count-insert j k v m (omega (arith, h, zero_hit))))
    ]
  ]

  pub length-insert :
      (k : ℕ) (v : V) (m : Map V) → count k (keys m) ≡ 0 → length (insert k v m) ≡ suc (length m)
  length-insert k v [] h = refl
  length-insert k v ((i, a) ∷ m) h = elim (Bool-cases (ltb k i)) [
    | inl e ↦ rw e refl
    | inr e ↦ elim (eq_cases k i) [
      | inl e' ↦ absurd (omega (arith, h, hit_self k, ap (hit k) e'))
      | inr ne ↦
          let off : (k == i) ≡ false = ground (arith, ne) in
          let zero_hit = hit_ne k i ne in
          rw (e, off) (ap suc (length-insert k v m (omega (arith, h, zero_hit))))
    ]
  ]

  pub count-remove_self : (k : ℕ) (m : Map V) → count k (keys (remove k m)) ≡ 0
  count-remove_self k [] = refl
  count-remove_self k ((i, a) ∷ m) = elim (eq_cases k i) [
    | inl e ↦ let on : (k == i) ≡ true = ground (arith, e) in rw on (count-remove_self k m)
    | inr ne ↦
        let off : (k == i) ≡ false = ground (arith, ne) in
        rw off (omega (arith, hit_ne k i ne, count-remove_self k m))
  ]

  pub count-remove_ne :
      (j k : ℕ) (m : Map V) → j ≢ k → count j (keys (remove k m)) ≡ count j (keys m)
  count-remove_ne j k [] h = refl
  count-remove_ne j k ((i, a) ∷ m) h = elim (eq_cases k i) [
    | inl e ↦
        let on : (k == i) ≡ true = ground (arith, e) in
        rw on (omega (arith, hit_ne j i (λ q. h (rw (q, e) refl)), count-remove_ne j k m h))
    | inr ne ↦
        let off : (k == i) ≡ false = ground (arith, ne) in
        rw off (omega (arith, count-remove_ne j k m h))
  ]

  pub count-remove_one :
      (j k : ℕ) (m : Map V)
      → count k (keys m) ≡ 1
      → hit j k + count j (keys (remove k m)) ≡ count j (keys m)
  count-remove_one j k m h = elim (eq_cases j k) [
    | inl e ↦ rw e (omega (arith, h, hit_self k, count-remove_self k m))
    | inr ne ↦ omega (arith, hit_ne j k ne, count-remove_ne j k m ne)
  ]

  pub length-remove : (k : ℕ) (m : Map V) → length (remove k m) + count k (keys m) ≡ length m
  length-remove k [] = refl
  length-remove k ((i, a) ∷ m) = elim (eq_cases k i) [
    | inl e ↦
        let on : (k == i) ≡ true = ground (arith, e) in rw on (omega (arith, length-remove k m))
    | inr ne ↦
        let off : (k == i) ≡ false = ground (arith, ne) in rw off (omega (arith, length-remove k m))
  ]

  pub keys-put : (k : ℕ) (v : V) (m : Map V) → keys (put k v m) ≡ keys m
  keys-put k v [] = refl
  keys-put k v ((i, a) ∷ m) = elim (Bool-cases (k == i)) [
    | inl e ↦ rw e refl
    | inr e ↦ rw e (ap (◌∷◌ i) (keys-put k v m))
  ]

  pub length-put : (k : ℕ) (v : V) (m : Map V) → length (put k v m) ≡ length m
  length-put k v [] = refl
  length-put k v ((i, a) ∷ m) = elim (Bool-cases (k == i)) [
    | inl e ↦ rw e refl
    | inr e ↦ rw e (ap suc (length-put k v m))
  ]

  -- A key that occurs is found.
  pub lookup-of_count : (k : ℕ) (m : Map V) → 0 < count k (keys m) → (v : V) × (lookup k m ≡ some v)
  lookup-of_count k [] h = absurd (omega (arith, h))
  lookup-of_count k ((i, a) ∷ m) h = elim (Bool-cases (k == i)) [
    | inl e ↦ (a, rw e refl)
    | inr e ↦
        let (v, at) = lookup-of_count k m (ground (arith, e, h)) in
        (v, ap (λ b. if b then some a else lookup k m) e ∙ at)
  ]

  -- One that is found occurs.
  pub count-of_lookup : (k : ℕ) (v : V) (m : Map V) → lookup k m ≡ some v → 0 < count k (keys m)
  count-of_lookup k v [] h = absurd (cc)
  count-of_lookup k v ((i, a) ∷ m) h = elim (eq_cases k i) [
    | inl e ↦ omega (arith, hit_self k, ap (hit k) e)
    | inr ne ↦
        let off : (k == i) ≡ false = ground (arith, ne) in
        let later : lookup k m ≡ some v = rw off at h in omega (arith, count-of_lookup k v m later)
  ]

  pub remove-absent : (k : ℕ) (m : Map V) → count k (keys m) ≡ 0 → remove k m ≡ m
  remove-absent k [] h = refl
  remove-absent k ((i, a) ∷ m) h = elim (eq_cases k i) [
    | inl e ↦ absurd (omega (arith, h, hit_self k, ap (hit k) e))
    | inr ne ↦
        let off : (k == i) ≡ false = ground (arith, ne) in
        let absent : count k (keys m) ≡ 0 = omega (arith, h) in
        rw off (ap (◌∷◌ (i, a)) (remove-absent k m absent))
  ]

  -- Removing an entry that was inserted under a new key.
  pub remove-insert :
      (k : ℕ) (v : V) (m : Map V) → count k (keys m) ≡ 0 → remove k (insert k v m) ≡ m
  remove-insert k v [] h = let self : (k == k) ≡ true = ground arith in rw self
  remove-insert k v ((i, a) ∷ m) h =
      let self : (k == k) ≡ true = ground arith in
      elim (eq_cases k i) [
        | inl e ↦ absurd (omega (arith, h, hit_self k, ap (hit k) e))
        | inr ne ↦
            let off : (k == i) ≡ false = ground (arith, ne) in
            let absent : count k (keys m) ≡ 0 = omega (arith, h) in
            elim (Bool-cases (ltb k i)) [
              | inl e ↦ rw (e, self, off) (ap (◌∷◌ (i, a)) (remove-absent k m absent))
              | inr e ↦ rw (e, off) (rw off (ap (◌∷◌ (i, a)) (remove-insert k v m absent)))
            ]
      ]

  pub lookup-remove_self : (k : ℕ) (m : Map V) → lookup k (remove k m) ≡ none
  lookup-remove_self k [] = refl
  lookup-remove_self k ((i, a) ∷ m) = elim (Bool-cases (k == i)) [
    | inl e ↦ rw e (lookup-remove_self k m)
    | inr e ↦ rw e (rw e (lookup-remove_self k m))
  ]

  pub lookup-remove_ne : (j k : ℕ) (m : Map V) → j ≢ k → lookup j (remove k m) ≡ lookup j m
  lookup-remove_ne j k [] h = refl
  lookup-remove_ne j k ((i, a) ∷ m) h = elim (eq_cases k i) [
    | inl e ↦
        let on : (k == i) ≡ true = ground (arith, e) in
        let off : (j == i) ≡ false = ground (arith, e, h) in rw (on, off) (lookup-remove_ne j k m h)
    | inr ne ↦
        let off : (k == i) ≡ false = ground (arith, ne) in
        rw off (ap (λ o. if j == i then some a else o) (lookup-remove_ne j k m h))
  ]

  -- A key that is not found does not occur.
  pub count-of_none : (k : ℕ) (m : Map V) → lookup k m ≡ none → count k (keys m) ≡ 0
  count-of_none k [] h = refl
  count-of_none k ((i, a) ∷ m) h = elim (Bool-cases (k == i)) [
    | inl e ↦ let found : some a ≡ none = rw e at h in absurd (cc)
    | inr e ↦
        let later : lookup k m ≡ none = rw e at h in ground (arith, e, count-of_none k m later)
  ]

  pub lookup-insert_self : (k : ℕ) (v : V) (m : Map V) → lookup k (insert k v m) ≡ some v
  lookup-insert_self k v [] = let self : (k == k) ≡ true = ground arith in rw self
  lookup-insert_self k v ((i, a) ∷ m) =
      let self : (k == k) ≡ true = ground arith in
      elim (Bool-cases (ltb k i)) [
        | inl e ↦ rw e (rw self)
        | inr e ↦ elim (Bool-cases (k == i)) [
          | inl e' ↦ rw (e, e') (rw self)
          | inr e' ↦ rw (e, e') (rw e' (lookup-insert_self k v m))
        ]
      ]

  pub lookup-insert_ne :
      (j k : ℕ) (v : V) (m : Map V) → j ≢ k → lookup j (insert k v m) ≡ lookup j m
  lookup-insert_ne j k v [] h = let off : (j == k) ≡ false = ground (arith, h) in rw off
  lookup-insert_ne j k v ((i, a) ∷ m) h =
      let off : (j == k) ≡ false = ground (arith, h) in
      elim (Bool-cases (ltb k i)) [
        | inl e ↦ rw e (rw off)
        | inr e ↦ elim (eq_cases k i) [
          | inl e' ↦
              let on : (k == i) ≡ true = ground (arith, e') in
              let other : (j == i) ≡ false = ground (arith, h, e') in rw (e, on) (rw (off, other))
          | inr ne ↦
              let past : (k == i) ≡ false = ground (arith, ne) in
              rw (e, past) (ap (λ o. if j == i then some a else o) (lookup-insert_ne j k v m h))
        ]
      ]
