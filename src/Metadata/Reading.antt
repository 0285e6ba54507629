-- ===== src/Metadata/Reading.antt =====
-- `query_dct_meta` where the region at META_KV_PA holds end points.
use krcore_artifacts.Prelude.{
  ℕ, ◌+◌, ◌*◌, ◌%◌, ◌^◌, ◌≤◌, ◌≡◌, ap, ◌∙◌, Bool, true, some, List, length, arith, done,
}
use krcore_artifacts.Prelude.Maps.{lookup}
use krcore_artifacts.Metadata.{Kit, IsKit, Reader, query_dct_meta}
use krcore_artifacts.Metadata.Bytes.{Mem, read, write, read_ext, copy_byte, of_le, of_le-le_bytes}
use krcore_artifacts.Metadata.Image.{span-length, Holds, Holds-ext, find_gid, find_point-Holds}
use krcore_artifacts.Metadata.Regions.{Image}

-- A virtual queue that can read: it knows the metadata server, it has a queue pair and a memory region,
-- and its reads of the 4096 bytes at META_KV_PA succeed.
pub record CanRead (k : Kit) (reaches : ℕ → ℕ → Bool) (r : Reader k) : Type 0 where
  pub point : k.EndPoint
  pub dc : ℕ
  pub local_pa : ℕ
  pub knows : lookup r.meta_server_gid r.meta_info ≡ some point
  pub has_dc : r.local_dc ≡ some dc
  pub has_mr : r.local_mr ≡ some local_pa
  pub reads : (a n : ℕ) → r.meta_kv_pa ≤ a → a + n ≤ r.meta_kv_pa + 4096 → reaches a n ≡ true

module _ (k : Kit) (law : IsKit k) where
  few : (n : ℕ) → 8 + n * k.size ≤ 4096 → n ≤ 4088
  few n h = let pos = law.some_size in grind (arith, pos, h)

  module _ (reaches : ℕ → ℕ → Bool) (r : Reader k) (can : CanRead k reaches r) (remote : Mem)
      (es : List k.EndPoint) (image : Image k law r.meta_kv_pa es remote)
      (room : 8 + length es * k.size ≤ 4096) where
    abbrev pub with_header : Mem
    with_header = write can.local_pa (read r.meta_kv_pa 8 remote) r.local

    header-read : of_le (read can.local_pa 8 with_header) ≡ length es
    header-read =
        ap of_le (
          read_ext can.local_pa r.meta_kv_pa 8 with_header remote
            (λ j lt. copy_byte can.local_pa r.meta_kv_pa 8 remote r.local j lt)
          ∙ image.header)
        ∙ of_le-le_bytes (length es) (omega (arith, few (length es) room))

    abbrev pub with_points : Mem
    with_points =
        write (can.local_pa + 8) (read (r.meta_kv_pa + 8) (length es * k.size) remote) with_header

    points-Holds : Holds k (can.local_pa + 8 + 0 * k.size) es with_points
    points-Holds =
        let start : can.local_pa + 8 + 0 * k.size ≡ can.local_pa + 8 = omega arith in
        rw start (
          Holds-ext k (can.local_pa + 8) (r.meta_kv_pa + 8) es with_points remote
            (λ j lt.
              copy_byte (can.local_pa + 8) (r.meta_kv_pa + 8) (length es * k.size) remote
                with_header j (omega (arith, lt, span-length k es)))
            image.points)

    pub query_dct_meta-Image :
        (t : ℕ)
        → query_dct_meta k reaches remote t r
          ≡ done (find_gid k (k.str_to_gid t) es, record r { local = with_points })
    unfolding query_dct_meta
    query_dct_meta-Image t =
        let whole : length es * k.size % 2 ^ 64 ≡ length es * k.size = omega (arith, room) in
        let first = can.reads r.meta_kv_pa 8 (omega arith) (omega arith) in
        let second =
          can.reads (r.meta_kv_pa + 8) (length es * k.size) (omega arith) (omega (arith, room)) in
        let found =
          find_point-Holds k law (k.str_to_gid t) (can.local_pa + 8) 0 es with_points
            points-Holds in
        rw (can.knows, can.has_dc, can.has_mr, first, header-read, whole, second, found)
