-- ===== src/Metadata/Bytes.antt =====
-- The memory of a machine, and numbers in it.
use krcore_artifacts.Prelude.{
  ℕ, zero, suc, ◌+◌, ◌*◌, ◌/◌, ◌%◌, ◌^◌, ◌≤◌, ◌<◌, ◌≡◌, ◌⊎◌, inl, inr, refl, ap, ap₂, ◌∙◌, List, [],
  ◌∷◌, true, false, ◌==◌, if◌then◌else◌, length, arith,
}

-- A byte at each address. An address is a physical one: the linear map of the kernel is left out.
abbrev pub Mem : Type 0
Mem = ℕ → ℕ

abbrev pub put_byte : ℕ → ℕ → Mem → Mem
put_byte a b m x = if x == a then b else m x

-- `memcpy` to an address.
unfoldable pub write : ℕ → List ℕ → Mem → Mem
write a [] m = m
write a (b ∷ bs) m = write (a + 1) bs (put_byte a b m)

-- So many bytes from an address.
unfoldable pub read : ℕ → ℕ → Mem → List ℕ
read a zero m = []
read a (suc n) m = m a ∷ read (a + 1) n m

pub write_below : (a : ℕ) (bs : List ℕ) (m : Mem) (x : ℕ) → x < a → write a bs m x ≡ m x
unfolding write
write_below a [] m x h = refl
write_below a (b ∷ bs) m x h =
    let off : (x == a) ≡ false = ground (arith, h) in
    write_below (a + 1) bs (put_byte a b m) x (omega arith) ∙ rw off

pub write_above : (a : ℕ) (bs : List ℕ) (m : Mem) (x : ℕ) → a + length bs ≤ x → write a bs m x ≡ m x
unfolding write
write_above a [] m x h = refl
write_above a (b ∷ bs) m x h =
    let off : (x == a) ≡ false = ground (arith, h) in
    write_above (a + 1) bs (put_byte a b m) x (omega arith) ∙ rw off

-- Memories that agree where they are read, `c` bytes and `a` bytes from the start.
pub read_ext :
    (c a n : ℕ) (m1 m2 : Mem)
    → ((j : ℕ) → j < n → m1 (c + j) ≡ m2 (a + j))
    → read c n m1 ≡ read a n m2
unfolding read
read_ext c a zero m1 m2 same = refl
read_ext c a (suc n) m1 m2 same =
    let c0 : c + 0 ≡ c = omega arith in
    let a0 : a + 0 ≡ a = omega arith in
    let first : m1 c ≡ m2 a = rw (c0, a0) at (same 0 (omega arith)) in
    ap₂ ◌∷◌ first (
      read_ext (c + 1) (a + 1) n m1 m2 (λ j h.
        let c1 : (c + 1) + j ≡ c + suc j = omega arith in
        let a1 : (a + 1) + j ≡ a + suc j = omega arith in rw (c1, a1) (same (suc j) (omega arith))))

pub read-write_self : (a : ℕ) (bs : List ℕ) (m : Mem) → read a (length bs) (write a bs m) ≡ bs
unfolding read write
read-write_self a [] m = refl
read-write_self a (b ∷ bs) m =
    let on : (a == a) ≡ true = ground arith in
    ap₂ ◌∷◌ (write_below (a + 1) bs (put_byte a b m) a (omega arith) ∙ rw on)
      (read-write_self (a + 1) bs (put_byte a b m))

pub read-write_apart :
    (a n c : ℕ) (bs : List ℕ) (m : Mem)
    → (a + n ≤ c) ⊎ (c + length bs ≤ a)
    → read a n (write c bs m) ≡ read a n m
read-write_apart a n c bs m (inl h) =
    read_ext a a n (write c bs m) m (λ j lt. write_below c bs m (a + j) (omega arith))
read-write_apart a n c bs m (inr h) =
    read_ext a a n (write c bs m) m (λ j lt. write_above c bs m (a + j) (omega arith))

pub length-read : (a n : ℕ) (m : Mem) → length (read a n m) ≡ n
unfolding read
length-read a zero m = refl
length-read a (suc n) m = ap suc (length-read (a + 1) n m)

-- A byte of a copy.
pub copy_byte : (c a n : ℕ) (m l : Mem) (j : ℕ) → j < n → write c (read a n m) l (c + j) ≡ m (a + j)
unfolding write read
copy_byte c a zero m l j h = absurd (omega (arith, h))
copy_byte c a (suc n) m l zero h =
    let c0 : c + 0 ≡ c = omega arith in
    let a0 : a + 0 ≡ a = omega arith in
    let on : (c == c) ≡ true = ground arith in
    rw (c0, a0)
      (write_below (c + 1) (read (a + 1) n m) (put_byte c (m a) l) c (omega arith) ∙ rw on)
copy_byte c a (suc n) m l (suc j) h =
    let c1 : c + suc j ≡ (c + 1) + j = omega arith in
    let a1 : a + suc j ≡ (a + 1) + j = omega arith in
    rw (c1, a1) (copy_byte (c + 1) (a + 1) n m (put_byte c (m a) l) j (omega (arith, h)))

-- A number in so many bytes, the least one first.
unfoldable pub le_bytes : ℕ → ℕ → List ℕ
le_bytes zero n = []
le_bytes (suc k) n = (n % 256) ∷ le_bytes k (n / 256)

unfoldable pub of_le : List ℕ → ℕ
of_le [] = 0
of_le (b ∷ bs) = b + 256 * of_le bs

pub length-le_bytes : (k n : ℕ) → length (le_bytes k n) ≡ k
unfolding le_bytes
length-le_bytes zero n = refl
length-le_bytes (suc k) n = ap suc (length-le_bytes k (n / 256))

abbrev Fits : ℕ → ℕ → Type 0
Fits zero n = n ≡ 0
Fits (suc k) n = Fits k (n / 256)

of_le-Fits : (k n : ℕ) → Fits k n → of_le (le_bytes k n) ≡ n
unfolding le_bytes of_le
of_le-Fits zero n h = omega (arith, h)
of_le-Fits (suc k) n h = omega (arith, of_le-Fits k (n / 256) h)

pub of_le-le_bytes : (n : ℕ) → n < 2 ^ 64 → of_le (le_bytes 8 n) ≡ n
of_le-le_bytes n h = of_le-Fits 8 n (omega (arith, h))
