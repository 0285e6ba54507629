-- ===== src/Doorbell/Ring.antt =====
-- The representation invariant of doorbell_helper.rs: between two calls the work requests are linked
-- to a ring, each to the scatter entry of its own index.
use krcore_artifacts.Prelude.{
  ℕ, zero, suc, ◌+◌, ◌%◌, ◌^◌, ◌≤◌, ◌<◌, ◌≡◌, refl, sym, ◌∙◌, ◌≢◌, inl, inr, true, some, List, done,
  arith, length, get_elem?, set, get_elem?-set_self, get_elem?-set_ne, get_elem?-of_lt, length-set,
  length-replicate, minus_one, eq_cases,
}
use krcore_artifacts.Doorbell.{
  SendWr, DoorbellHelper, modify, pointer_to, init_at, init_from, new_uninit, create_and_init,
  sanity_check, sanity_check_from, size,
}

-- What `init` writes, and what posting leaves alone.
abbrev pub IsWired : ℕ → ℕ → SendWr → Type 0
IsWired len i w = (w.next ≡ some ((i + 1) % len)) × (w.sg_list ≡ some i) × (w.num_sge ≡ 1)

-- The entries of `wrs` below `n` are wired as those of a ring of `len` entries.
abbrev pub AreWired : ℕ → ℕ → List SendWr → Type 0
AreWired len n wrs = (i : ℕ) → i < n → (w : SendWr) × (get_elem? wrs i ≡ some w) × IsWired len i w

-- Both arrays have `capacity` entries. A boxed slice has fewer than 2^63 bytes.
pub record HasRoom (d : DoorbellHelper) : Type 0 where
  pub wr_room : length d.wr_list ≡ d.capacity
  pub sg_room : length d.sg_list ≡ d.capacity
  pub small : d.capacity < 2 ^ 63
  pub bounded : size d ≤ d.capacity
  pub word_idx : d.cur_idx < 2 ^ 64

pub record IsValid (d : DoorbellHelper) : Type 0 where
  pub room : HasRoom d
  pub wired : AreWired d.capacity d.capacity d.wr_list

pub modify-done {ℓ} :
    {A : Type ℓ} (xs : List A) (i : ℕ) (f : A → A) (x : A)
    → get_elem? xs i ≡ some x
    → modify xs i f ≡ done (set xs i (f x))
unfolding modify
modify-done xs i f x e = rw e

pub pointer_to-done {ℓ} :
    {A : Type ℓ} (xs : List A) (i : ℕ) → i < length xs → pointer_to xs i ≡ done (some i)
unfolding pointer_to
pointer_to-done xs i h = let (x, e) = get_elem?-of_lt xs i h in rw e

-- A change of one entry that leaves it wired leaves all wired.
pub AreWired-set :
    (len n : ℕ) (wrs : List SendWr) (i : ℕ) (v : SendWr)
    → i < length wrs
    → IsWired len i v
    → ((j : ℕ) → j < n → j ≢ i → (w : SendWr) × (get_elem? wrs j ≡ some w) × IsWired len j w)
    → AreWired len n (set wrs i v)
AreWired-set len n wrs i v h ok rest j hj = elim (eq_cases j i) [
  | inl e ↦ (v, rw e (get_elem?-set_self wrs i v h), rw e ok)
  | inr ne ↦
      let (w, at, wd) = rest j hj ne in (w, get_elem?-set_ne wrs i j v (λ q. ne (sym q)) ∙ at, wd)
]

-- What holds of the loop of `init` before round `i`.
record Initialised (len i : ℕ) (d : DoorbellHelper) : Type 0 where
  wr_room : length d.wr_list ≡ len
  sg_room : length d.sg_list ≡ len
  cap_eq : d.capacity ≡ len
  idx : d.cur_idx ≡ minus_one
  wired : AreWired len i d.wr_list

AreWired-init_at :
    (len i : ℕ) (wrs : List SendWr) (w : SendWr)
    → i < length wrs
    → IsWired len i w
    → AreWired len i wrs
    → AreWired len (suc i) (set wrs i w)
AreWired-init_at len i wrs w h ok ws =
    AreWired-set len (suc i) wrs i w h ok (λ j hj ne. ws j (omega arith))

init_at-Initialised :
    (len i : ℕ) (d : DoorbellHelper) (w : SendWr)
    → get_elem? d.wr_list i ≡ some w
    → i < len
    → Initialised len i d
    → let w' = record w { num_sge = 1; next = some ((i + 1) % len); sg_list = some i } in
      let d' = record d { wr_list = set d.wr_list i w' } in
      (init_at d i ≡ done d') × Initialised len (suc i) d'
unfolding init_at
init_at-Initialised len i d w e h v =
    let w' = record w { num_sge = 1; next = some ((i + 1) % len); sg_list = some i } in
    (
      rw (
        pointer_to-done d.wr_list ((i + 1) % d.capacity) (omega arith),
        pointer_to-done d.sg_list i (omega arith),
        modify-done d.wr_list i _ w e,
        v.cap_eq,
      ),
      record {
        wr_room = length-set d.wr_list i w' ∙ v.wr_room;
        sg_room = v.sg_room;
        cap_eq = v.cap_eq;
        idx = v.idx;
        wired = AreWired-init_at len i d.wr_list w' (omega arith) (refl, refl, refl) v.wired;
      },
    )

init_from-Initialised :
    (n i len : ℕ) (d : DoorbellHelper)
    → i + n ≡ len
    → Initialised len i d
    → (d' : DoorbellHelper) × (init_from n i d ≡ done d') × Initialised len len d'
unfolding init_from
init_from-Initialised zero i len d e v = let e' : i ≡ len = omega arith in (d, refl, rw e' at v)
init_from-Initialised (suc n) i len d e v =
    let (w, at) = get_elem?-of_lt d.wr_list i (omega arith) in
    let (step, v1) = init_at-Initialised len i d w at (omega arith) v in
    let next : suc i ≡ i + 1 = omega arith in
    let (d2, rest, v2) = init_from-Initialised n (i + 1) len _ (omega arith) (rw next at v1) in
    (d2, rw step rest, v2)

Initialised-IsValid :
    (len : ℕ) (d : DoorbellHelper) → len < 2 ^ 63 → Initialised len len d → IsValid d
Initialised-IsValid len d h v = record {
  room = record {
    wr_room = v.wr_room ∙ sym v.cap_eq;
    sg_room = v.sg_room ∙ sym v.cap_eq;
    small = omega (arith, v.cap_eq);
    bounded = rw v.idx (omega arith);
    word_idx = rw v.idx (omega arith);
  };
  wired = rw v.cap_eq v.wired;
}

sanity_check_from-true :
    (n i len : ℕ) (d : DoorbellHelper)
    → i + n ≡ len
    → length d.sg_list ≡ len
    → AreWired len len d.wr_list
    → sanity_check_from n i d ≡ done true
unfolding sanity_check_from
sanity_check_from-true zero i len d e room ws = refl
sanity_check_from-true (suc n) i len d e room ws =
    let (s, at) = get_elem?-of_lt d.sg_list i (omega arith) in
    let (w, at', wd) = ws i (omega arith) in
    ground (arith, at, at', wd, sanity_check_from-true n (i + 1) len d (omega arith) room ws)

-- Of a valid helper `sanity_check` finds nothing wrong.
pub sanity_check-IsValid : (d : DoorbellHelper) → IsValid d → sanity_check d ≡ done true
unfolding sanity_check
sanity_check-IsValid d v =
    sanity_check_from-true d.capacity 0 d.capacity d (omega arith) v.room.sg_room v.wired

-- For every capacity that an allocation can have, `create_and_init` does not panic and returns a
-- valid helper of that capacity with no entry posted.
pub create_and_init-IsValid :
    (n : ℕ)
    → n < 2 ^ 63
    → (d : DoorbellHelper) × (create_and_init n ≡ done d)
      × IsValid d
      × (d.capacity ≡ n)
      × (size d ≡ 0)
      × (sanity_check d ≡ done true)
unfolding create_and_init
create_and_init-IsValid n h =
    let (d, e, v) = init_from-Initialised n 0 n (new_uninit n) (omega arith) start in
    let valid = Initialised-IsValid n d h v in
    (d, e, valid, v.cap_eq, rw v.idx, sanity_check-IsValid d valid)
  where
    start : Initialised n 0 (new_uninit n)
    start = record {
      wr_room = length-replicate n _;
      sg_room = length-replicate n _;
      cap_eq = refl;
      idx = refl;
      wired = λ i h. elim h [ ];
    }
