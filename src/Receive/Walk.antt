-- ===== src/Receive/Walk.antt =====
-- What the NIC reads when it is handed a pointer to a receive request of recv_helper.rs.
use mathlib.Core.Option
use native.Mathlib.Nat.{mod-eq_of_lt, mod-eq-sub-mod}
use krcore_artifacts.Prelude.{
  ℕ, zero, suc, ◌+◌, ◌-◌, ◌%◌, ◌≤◌, ◌<◌, ◌≡◌, ◌≢◌, refl, ◌∙◌, ap, inl, inr, ◌⊎◌, lt_or_ge, Option,
  none, some, List, [], ◌∷◌, get_elem?, arith,
}
use krcore_artifacts.Receive.{RecvWr}

-- The requests that are reached by `next`. `none` is a pointer out of the array, or a chain with more
-- than `fuel` requests.
unfoldable pub walk : ℕ → List RecvWr → Option ℕ → Option (List ℕ)
walk fuel wrs none = some []
walk zero wrs (some i) = none
walk (suc fuel) wrs (some i) = elim (get_elem? wrs i) [
  | none ↦ none
  | some w ↦ Option.map (◌∷◌ i) (walk fuel wrs w.next)
]

-- `n` neighbouring slots of a ring of `c`, from `x` on.
abbrev pub slots : ℕ → ℕ → ℕ → List ℕ
slots c x zero = []
slots c x (suc n) = x % c ∷ slots c (suc x) n

walk-cons :
    (fuel : ℕ) (wrs : List RecvWr) (i : ℕ) (w : RecvWr) (rest : List ℕ)
    → get_elem? wrs i ≡ some w
    → walk fuel wrs w.next ≡ some rest
    → walk (suc fuel) wrs (some i) ≡ some (i ∷ rest)
unfolding walk
walk-cons fuel wrs i w rest at e = ground (arith, at, e)

-- Slots that are each linked to the next, the last to none, are read in order.
pub walk-slots :
    (c n x fuel : ℕ) (wrs : List RecvWr) (last : RecvWr)
    → n < fuel
    → ((j : ℕ)
        → j < n
        → (w : RecvWr) × (get_elem? wrs ((x + j) % c) ≡ some w) × (w.next ≡ some (suc (x + j) % c)))
    → get_elem? wrs ((x + n) % c) ≡ some last
    → last.next ≡ none
    → walk fuel wrs (some (x % c)) ≡ some (slots c x (suc n))
walk-slots c n x zero wrs last h links at stop = elim h [ ]
walk-slots c zero x (suc fuel) wrs last h links at stop =
    let z : x + 0 ≡ x = omega arith in
    walk-cons fuel wrs (x % c) last [] (rw z at at) (rw stop (unfold walk in refl))
walk-slots c (suc n) x (suc fuel) wrs last h links at stop =
    let (w, here, link) = links 0 (omega arith) in
    let z : x + 0 ≡ x = omega arith in
    let shift : x + suc n ≡ suc x + n = omega arith in
    let rest =
      walk-slots c n (suc x) fuel wrs last (omega arith)
        (λ j k.
          let moved : suc x + j ≡ x + suc j = omega arith in rw moved (links (suc j) (omega arith)))
        (rw shift at at) stop in
    walk-cons fuel wrs (x % c) w _ (rw z at here) (ap (walk fuel wrs) (rw z at link) ∙ rest)

-- The slot of a number below `2 * c`.
slot-cases : (c x : ℕ) → x < c + c → (x % c ≡ x) × (x < c) ⊎ (x % c ≡ x - c) × (c ≤ x)
slot-cases c x h = elim (lt_or_ge x c) [
  | inl lt ↦ inl (mod-eq_of_lt lt, lt)
  | inr ge ↦ inr (mod-eq-sub-mod ge ∙ mod-eq_of_lt (omega arith), ge)
]

-- Slots at a distance below the size of the ring are distinct.
pub slot-ne : (c x j n : ℕ) → x < c → j < n → n < c → (x + j) % c ≢ (x + n) % c
slot-ne c x j n hx hj hn e = elim (slot-cases c (x + j) (omega arith)) [
  | inl (e1, h1) ↦ elim (slot-cases c (x + n) (omega arith)) [
    | inl (e2, h2) ↦ absurd (omega arith)
    | inr (e2, h2) ↦ absurd (omega arith)
  ]
  | inr (e1, h1) ↦ elim (slot-cases c (x + n) (omega arith)) [
    | inl (e2, h2) ↦ absurd (omega arith)
    | inr (e2, h2) ↦ absurd (omega arith)
  ]
]
