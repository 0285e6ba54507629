-- ===== src/Doorbell/Chain.antt =====
-- What the NIC reads when it is handed a pointer to a work request of doorbell_helper.rs: the
-- requests that are reached by `next`, up to a null pointer, each with its scatter entries.
use mathlib.Core.Option
use krcore_artifacts.Prelude.{
  ℕ, zero, suc, ◌+◌, ◌≤◌, ◌<◌, ◌≡◌, refl, ap, ◌∙◌, sym, Bool, Option, none, some, List, [], ◌∷◌,
  ◌++◌, arith, length, get_elem?, take, drop, get_elem?-of_lt,
}
use krcore_artifacts.Doorbell.{SendWr, Sge, Opcode, Target}

-- One operation as the NIC sees it.
pub record Entry : Type 0 where
  pub wr_id : ℕ
  pub opcode : Opcode
  pub signaled : Bool
  pub wr : Target
  pub sges : List Sge

abbrev pub gather : List Sge → Option ℕ → ℕ → List Sge
gather sges none n = []
gather sges (some j) n = take n (drop j sges)

abbrev pub entry_of : List Sge → SendWr → Entry
entry_of sges w = record {
  wr_id = w.wr_id;
  opcode = w.opcode;
  signaled = w.signaled;
  wr = w.wr;
  sges = gather sges w.sg_list w.num_sge;
}

-- `none` is a pointer out of the array, or a chain with more than `fuel` requests.
unfoldable pub chain : ℕ → List SendWr → List Sge → Option ℕ → Option (List Entry)
chain fuel wrs sges none = some []
chain zero wrs sges (some i) = none
chain (suc fuel) wrs sges (some i) = elim (get_elem? wrs i) [
  | none ↦ none
  | some w ↦ Option.map (◌∷◌ (entry_of sges w)) (chain fuel wrs sges w.next)
]

abbrev pub entry_at : List SendWr → List Sge → ℕ → Option Entry
entry_at wrs sges i = Option.map (entry_of sges) (get_elem? wrs i)

-- The `n` entries from index `i` on, in the order of the array.
unfoldable pub window : List SendWr → List Sge → ℕ → ℕ → List Entry
window wrs sges i zero = []
window wrs sges i (suc n) = elim (entry_at wrs sges i) [
  | none ↦ []
  | some e ↦ e ∷ window wrs sges (suc i) n
]

chain-cons :
    (fuel : ℕ) (wrs : List SendWr) (sges : List Sge) (i : ℕ) (w : SendWr) (rest : List Entry)
    → get_elem? wrs i ≡ some w
    → chain fuel wrs sges w.next ≡ some rest
    → chain (suc fuel) wrs sges (some i) ≡ some (entry_of sges w ∷ rest)
unfolding chain
chain-cons fuel wrs sges i w rest at e = ground (arith, at, e)

window-cons :
    (wrs : List SendWr) (sges : List Sge) (i n : ℕ) (e : Entry)
    → entry_at wrs sges i ≡ some e
    → window wrs sges i (suc n) ≡ e ∷ window wrs sges (suc i) n
unfolding window
window-cons wrs sges i n e at = rw (at, window)

entry_at-some :
    (wrs : List SendWr) (sges : List Sge) (i : ℕ)
    → i < length wrs
    → (e : Entry) × (entry_at wrs sges i ≡ some e)
entry_at-some wrs sges i h = let (w, e) = get_elem?-of_lt wrs i h in (entry_of sges w, rw e)

pub window-zero : (wrs : List SendWr) (sges : List Sge) → window wrs sges 0 0 ≡ []
unfolding window
window-zero wrs sges = refl

-- A window is determined by the entries in it.
pub window-congr :
    (wrs wrs' : List SendWr) (sges sges' : List Sge) (i n : ℕ)
    → ((j : ℕ) → i ≤ j → j < i + n → entry_at wrs sges j ≡ entry_at wrs' sges' j)
    → window wrs sges i n ≡ window wrs' sges' i n
unfolding window
window-congr wrs wrs' sges sges' i zero same = refl
window-congr wrs wrs' sges sges' i (suc n) same = ground (
  arith,
  same i (omega arith) (omega arith),
  window-congr wrs wrs' sges sges' (suc i) n (λ j h k. same j (omega arith) (omega arith)),
)

pub length-window :
    (wrs : List SendWr) (sges : List Sge) (i n : ℕ)
    → i + n ≤ length wrs
    → length (window wrs sges i n) ≡ n
length-window wrs sges i zero h = unfold window in refl
length-window wrs sges i (suc n) h =
    let (e, at) = entry_at-some wrs sges i (omega arith) in
    ap length (window-cons wrs sges i n e at)
    ∙ ap suc (length-window wrs sges (suc i) n (omega arith))

-- One more entry goes to the end.
pub window-suc :
    (wrs : List SendWr) (sges : List Sge) (i n : ℕ) (e : Entry)
    → i + n < length wrs
    → entry_at wrs sges (i + n) ≡ some e
    → window wrs sges i (suc n) ≡ window wrs sges i n ++ (e ∷ [])
window-suc wrs sges i zero e h at =
    let z : i + 0 ≡ i = omega arith in unfold window in window-cons wrs sges i 0 e (rw z at at)
window-suc wrs sges i (suc n) e h at =
    let (x, here) = entry_at-some wrs sges i (omega arith) in
    let shift : i + suc n ≡ suc i + n = omega arith in
    window-cons wrs sges i (suc n) x here
    ∙ ap (◌∷◌ x) (window-suc wrs sges (suc i) n e (omega arith) (rw shift at at))
    ∙ ap (λ l. l ++ (e ∷ [])) (sym (window-cons wrs sges i n x here))

-- A run of requests, each linked to the one after it and the last one to nothing, is read whole.
pub chain-window :
    (wrs : List SendWr) (sges : List Sge) (n i fuel : ℕ) (last : SendWr)
    → n < fuel
    → ((j : ℕ) → j < i + n → (w : SendWr) × (get_elem? wrs j ≡ some w) × (w.next ≡ some (suc j)))
    → get_elem? wrs (i + n) ≡ some last
    → last.next ≡ none
    → chain fuel wrs sges (some i) ≡ some (window wrs sges i (suc n))
chain-window wrs sges n i zero last h links at stop = elim h [ ]
chain-window wrs sges zero i (suc fuel) last h links at stop =
    let z : i + 0 ≡ i = omega arith in
    chain-cons fuel wrs sges i last [] (rw z at at) (rw stop (unfold chain in refl))
    ∙ ap some (
        sym (
          unfold window in
          window-cons wrs sges i 0 (entry_of sges last)
            (ap (Option.map (entry_of sges)) (rw z at at))))
chain-window wrs sges (suc n) i (suc fuel) last h links at stop =
    let (w, here, link) = links i (omega arith) in
    let shift : i + suc n ≡ suc i + n = omega arith in
    let rest =
      chain-window wrs sges n (suc i) fuel last (omega arith) (λ j k. links j (omega arith))
        (rw shift at at) stop in
    chain-cons fuel wrs sges i w _ here (ap (chain fuel wrs sges) link ∙ rest)
    ∙ ap some (
        sym
          (window-cons wrs sges i (suc n) (entry_of sges w) (ap (Option.map (entry_of sges)) here)))
