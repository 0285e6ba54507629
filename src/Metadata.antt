-- ===== src/Metadata.antt =====
-- The metadata service of the configuration `meta_kv`: the handlers of KRdmaKit-syscall/src/rpc/protocol.rs
-- with the map META_INFO and the memory of client.rs, and `query_dct_meta` of virtual_queue.rs, which
-- reads that memory by RDMA.
pub mod Bytes
pub mod Image
pub mod Gather
pub mod Regions
pub mod Reading
pub mod Registration
pub mod Agree
mod Tests
use krcore_artifacts.Prelude.{
  ℕ, zero, suc, ◌+◌, ◌*◌, ◌%◌, ◌^◌, ◌<◌, ◌≡◌, ◌⊎◌, Outcome, done, unwrap, ◌>>=◌, Bool, Option, none,
  some, List, [], ◌∷◌, ◌==◌, if◌then◌else◌, length, get_elem?,
}
use krcore_artifacts.Prelude.Maps.{Map, lookup, insert, remove}
use krcore_artifacts.Metadata.Bytes.{Mem, read, write, le_bytes, of_le}

-- What the code has from KRdmaKit and the compiler: `EndPoint` with its bytes in memory, the texts of
-- gids, and the order in which a HashMap gives its keys. A gid and a text are numbers.
pub record Kit : Type 1 where
  pub EndPoint : Type 0
  pub gid : EndPoint → ℕ
  pub size : ℕ
  pub encode : EndPoint → List ℕ
  pub decode : List ℕ → EndPoint
  pub gid_to_str : ℕ → ℕ
  pub str_to_gid : ℕ → ℕ
  pub iterate : Map EndPoint → List ℕ

abbrev pub Has : ℕ → List ℕ → Type 0
Has t [] = ⊥
Has t (x ∷ xs) = (t ≡ x) ⊎ Has t xs

-- Documented behaviour: the bytes of a value are `size` many, at least one, and read back; a gid reads back from its
-- text; iterating gives the keys of the map, no others, and as many as its length.
pub record IsKit (k : Kit) : Type 0 where
  pub some_size : 0 < k.size
  pub length-encode : (e : k.EndPoint) → length (k.encode e) ≡ k.size
  pub decode-encode : (e : k.EndPoint) → k.decode (k.encode e) ≡ e
  pub str_to_gid-gid_to_str : (g : ℕ) → k.str_to_gid (k.gid_to_str g) ≡ g
  pub iterate_all :
      (m : Map k.EndPoint) (t : ℕ) (e : k.EndPoint) → lookup t m ≡ some e → Has t (k.iterate m)
  pub iterate_only :
      (m : Map k.EndPoint) (t : ℕ) → Has t (k.iterate m) → (e : k.EndPoint) × (lookup t m ≡ some e)
  pub length-iterate : (m : Map k.EndPoint) → length (k.iterate m) ≡ length m

module _ (k : Kit) where
  -- `payload::RegDCMeta`
  pub record RegDcMeta : Type 0 where
    pub gid : ℕ
    pub port : ℕ
    pub local_point : k.EndPoint

  -- META_INFO, the memory, and the addresses of GLOBAL_MEM.
  pub record Server : Type 0 where
    pub metas : Map k.EndPoint
    pub mem : Mem
    pub regions : List ℕ

  -- The length that a handler answers, with the reply's content.
  pub record RegReply : Type 0 where
    pub len : ℕ
    pub meta_pa : ℕ

  abbrev pub put_remote_dc_meta : ℕ → k.EndPoint → Map k.EndPoint → Map k.EndPoint
  put_remote_dc_meta remote_gid point metas = insert remote_gid point metas

  abbrev pub evict_remote_dc_meta : ℕ → Map k.EndPoint → Map k.EndPoint
  evict_remote_dc_meta remote_gid metas = remove remote_gid metas

  abbrev pub get_remote_dc_meta : ℕ → Map k.EndPoint → Option k.EndPoint
  get_remote_dc_meta remote_gid metas = lookup remote_gid metas

  -- The remainder by 0 panics, as the index does then.
  abbrev pub get_global_test_mem_pa : List ℕ → ℕ → Outcome ℕ
  get_global_test_mem_pa regions idx = unwrap (get_elem? regions (idx % length regions))

  -- The loop over the keys: each end point is copied behind the ones before it.
  unfoldable pub copy_metas : Map k.EndPoint → List ℕ → ℕ → ℕ → Mem → Outcome Mem
  copy_metas metas [] va idx m = done m
  copy_metas metas (t ∷ ts) va idx m = unwrap (lookup t metas) >>= λ meta.
      copy_metas metas ts va (idx + 1) (write (va + 8 + idx * k.size) (k.encode meta) m)

  -- The body of the loop over the regions: the end points, then how many they are.
  unfoldable pub fill_region : Map k.EndPoint → ℕ → Mem → Outcome Mem
  fill_region metas va m = copy_metas metas (k.iterate metas) va 0 m >>= λ m1.
      done (write va (le_bytes 8 (length metas)) m1)

  unfoldable pub fill_regions : Map k.EndPoint → List ℕ → Mem → Outcome Mem
  fill_regions metas [] m = done m
  fill_regions metas (va ∷ vas) m = fill_region metas va m >>= λ m1. fill_regions metas vas m1

  unfoldable pub reg_dc_meta_handler : RegDcMeta → Server → Outcome (RegReply × Server)
  reg_dc_meta_handler payload s = do
    let metas = put_remote_dc_meta (k.gid_to_str payload.gid) payload.local_point s.metas
    kv_meta_pa ← get_global_test_mem_pa s.regions payload.port
    m ← fill_regions metas s.regions s.mem
    done (record { len = 64; meta_pa = kv_meta_pa }, record s { metas = metas; mem = m })

  unfoldable pub dereg_dc_meta_handler : ℕ → Server → ℕ × Server
  dereg_dc_meta_handler gid s =
      (64, record s { metas = evict_remote_dc_meta (k.gid_to_str gid) s.metas })

  -- The reply, which is of the length 0 if there is none.
  unfoldable pub query_dc_meta_handler : ℕ → Server → Option k.EndPoint
  query_dc_meta_handler gid s = get_remote_dc_meta (k.gid_to_str gid) s.metas

  -- What a virtual queue reads the end points by: META_INFO and META_KV_PA of its machine, the text of
  -- the metadata server's gid, its queue pair and its memory region, and the memory.
  pub record Reader : Type 0 where
    pub meta_info : Map k.EndPoint
    pub meta_server_gid : ℕ
    pub local_dc : Option ℕ
    pub local_mr : Option ℕ
    pub local : Mem
    pub meta_kv_pa : ℕ

  -- The loop over the end points that were read.
  unfoldable pub find_point : ℕ → ℕ → ℕ → ℕ → Mem → Option k.EndPoint
  find_point target_gid base i zero l = none
  find_point target_gid base i (suc n) l =
      let rest = find_point target_gid base (i + 1) n l in
      let cur_point = k.decode (read (base + i * k.size) k.size l) in
      if k.gid cur_point == target_gid then some cur_point else rest

  module _ (reaches : ℕ → ℕ → Bool) (remote : Mem) where
    -- An RDMA read of so many bytes and the wait for it. If it fails, which the caller ignores, the
    -- local memory stays.
    abbrev pub push_read : ℕ → ℕ → ℕ → Mem → Mem
    push_read local_pa len remote_pa l =
        if reaches remote_pa len then write local_pa (read remote_pa len remote) l else l

    unfoldable pub query_dct_meta : ℕ → Reader → Outcome (Option k.EndPoint × Reader)
    query_dct_meta remote_gid r = do
      meta_point ← unwrap (get_remote_dc_meta r.meta_server_gid r.meta_info)
      dc ← unwrap r.local_dc
      local_pa ← unwrap r.local_mr
      let l1 = push_read local_pa 8 r.meta_kv_pa r.local
      let entries_num = of_le (read local_pa 8 l1)
      let l2 = push_read (local_pa + 8) (entries_num * k.size % 2 ^ 64) (r.meta_kv_pa + 8) l1
      done (
        find_point (k.str_to_gid remote_gid) (local_pa + 8) 0 entries_num l2,
        record r { local = l2 },
      )
