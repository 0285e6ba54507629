-- ===== src/Metadata/Tests.antt =====
-- End points of two numbers, a metadata server with two regions and a virtual queue, and the theorems
-- applied there.
use krcore_artifacts.Prelude.{
  ℕ, suc, ◌≡◌, inl, inr, refl, ap, ◌∙◌, true, false, Bool-cases, eq_cases, Option, some, none, List,
  [], ◌∷◌, ◌==◌, if◌then◌else◌, length, arith, done,
}
use krcore_artifacts.Prelude.Maps.{Map, keys, lookup}
use krcore_artifacts.Metadata.{
  Kit, IsKit, Has, RegDcMeta, Server, reg_dc_meta_handler, dereg_dc_meta_handler,
  query_dc_meta_handler, Reader, query_dct_meta,
}
use krcore_artifacts.Metadata.Bytes.{Mem}
use krcore_artifacts.Metadata.Reading.{CanRead}
use krcore_artifacts.Metadata.Agree.{
  Served, query_dct_meta-Served, query_dct_meta-stale, reg_dc_meta_handler-within,
}

record Point : Type 0 where
  number : ℕ
  dct : ℕ

abbrev point_of : List ℕ → Point
point_of (g ∷ d ∷ bs) = record { number = g; dct = d }
point_of bs = record { number = 0; dct = 0 }

-- The text of a gid is the gid, and the keys come in their order.
abbrev small_kit : Kit
small_kit = record {
  EndPoint = Point;
  gid = λ e. e.number;
  size = 2;
  encode = λ e. e.number ∷ e.dct ∷ [];
  decode = point_of;
  gid_to_str = λ g. g;
  str_to_gid = λ t. t;
  iterate = keys;
}

keys_all : (m : Map Point) (t : ℕ) (e : Point) → lookup t m ≡ some e → Has t (keys m)
keys_all [] t e h = absurd (cc)
keys_all ((i, a) ∷ m) t e h = elim (eq_cases t i) [
  | inl same ↦ inl same
  | inr other ↦
      let off : (t == i) ≡ false = ground (arith, other) in inr (keys_all m t e (rw off at h))
]

keys_only : (m : Map Point) (t : ℕ) → Has t (keys m) → (e : Point) × (lookup t m ≡ some e)
keys_only [] t h = absurd h
keys_only ((i, a) ∷ m) t (inl same) =
    let on : (t == i) ≡ true = ground (arith, same) in (a, rw on refl)
keys_only ((i, a) ∷ m) t (inr h) =
    let (e, at) = keys_only m t h in
    elim (Bool-cases (t == i)) [
      | inl on ↦ (a, rw on refl)
      | inr off ↦ (e, ap (λ b. if b then some a else lookup t m) off ∙ at)
    ]

keys_length : (m : Map Point) → length (keys m) ≡ length m
keys_length [] = refl
keys_length ((i, a) ∷ m) = ap suc (keys_length m)

small_law : IsKit small_kit
small_law = record {
  some_size = omega arith;
  length-encode = λ e. refl;
  decode-encode = λ e. refl;
  str_to_gid-gid_to_str = λ g. refl;
  iterate_all = keys_all;
  iterate_only = keys_only;
  length-iterate = keys_length;
}

abbrev old : Point
old = record { number = 3; dct = 30 }

abbrev payload : RegDcMeta small_kit
payload = record { gid = 5; port = 7; local_point = record { number = 5; dct = 50 } }

abbrev server : Server small_kit
server = record { metas = (3, old) ∷ []; mem = λ a. 0; regions = 4096 ∷ 8192 ∷ [] }

-- Its memory region stands at 100, and META_KV_PA is the second region.
abbrev queue : Reader small_kit
queue = record {
  meta_info = (9, old) ∷ [];
  meta_server_gid = 9;
  local_dc = some 1;
  local_mr = some 100;
  local = λ a. 0;
  meta_kv_pa = 8192;
}

can_read : CanRead small_kit (λ a n. true) queue
can_read = record {
  point = old;
  dc = 1;
  local_pa = 100;
  knows = refl;
  has_dc = refl;
  has_mr = refl;
  reads = λ a n lo hi. refl;
}

keyed : (t : ℕ) (e : Point) → lookup t server.metas ≡ some e → t ≡ e.number
keyed t e h = elim (eq_cases t 3) [
  | inl same ↦
      let on : (t == 3) ≡ true = ground (arith, same) in
      let is : some old ≡ some e = rw on at h in same ∙ ap number_of is
  | inr other ↦
      let off : (t == 3) ≡ false = ground (arith, other) in
      let clash : none ≡ some e = rw off at h in absurd (cc clash)
]
  where
    number_of : Option Point → ℕ
    number_of none = 0
    number_of (some p) = p.number

query_dct_meta-Served_example : Served small_kit payload server 8192 (λ a n. true) queue 3
query_dct_meta-Served_example =
    query_dct_meta-Served small_kit small_law payload server 8192 (λ a n. true) queue keyed refl
      ((inl (omega arith), tt), (tt, tt)) refl (omega arith) can_read refl 3 refl

query_dct_meta-stale_example :
    (s1 : Server small_kit) × (reg_dc_meta_handler small_kit payload server
      ≡ done (record { len = 64; meta_pa = 8192 }, s1))
    × (query_dc_meta_handler small_kit 5 (dereg_dc_meta_handler small_kit 5 s1).1 ≡ none)
    × ((l : Mem) × (query_dct_meta small_kit
            (λ a n. true)
            (dereg_dc_meta_handler small_kit 5 s1).1.mem
            5
            queue
          ≡ done (some payload.local_point, record queue { local = l })))
query_dct_meta-stale_example =
    query_dct_meta-stale small_kit small_law payload server 8192 (λ a n. true) queue keyed refl
      ((inl (omega arith), tt), (tt, tt)) refl (omega arith) can_read refl

reg_dc_meta_handler-within_example :
    (s1 : Server small_kit) × (reg_dc_meta_handler small_kit payload server
      ≡ done (record { len = 64; meta_pa = 8192 }, s1))
    × (s1.mem 12288 ≡ 0)
reg_dc_meta_handler-within_example =
    reg_dc_meta_handler-within small_kit small_law payload server 8192 refl (omega arith) 12288
      (inr (omega arith), (inr (omega arith), tt))
