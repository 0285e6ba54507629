-- ===== src/Services/Lifetime.antt =====
-- comm_manager/mod.rs: an `ib_cm_id` is destroyed at most once, by ib_cm or by its wrapper.
use krcore_artifacts.Prelude.{[], ℕ, suc, ◌≡◌, Bool, false, ◌==◌, List, ◌∷◌, if◌then◌else◌}
use krcore_artifacts.Services.{CmEventType, CmCallbacker, CmId, cm_handler, explicit_drop}

-- What happens to an id: an event of ib_cm, or the drop of its wrapper. A drop reads the context also
-- if the id is freed, and then `stale` is whether what it reads there is not null.
pub data Happening (E : Type 0) : Type 0 where
  event : CmEventType → E → Happening E
  dropped : (stale : Bool) → Happening E

-- An id, and how often it has been destroyed.
pub record Life (S : Type 0) : Type 0 where
  pub id : CmId S
  pub destroyed : ℕ

module _ {E S : Type 0} (c : CmCallbacker E S) where
  -- ib_cm destroys the id when the handler does not answer 0.
  abbrev after_event : ℕ → Bool × CmId S → Life S
  after_event n (answer, id) = record { id = id; destroyed = if answer then n else suc n }

  -- The wrapper destroys it by `ib_destroy_cm_id`.
  abbrev after_drop : ℕ → Bool × CmId S → Life S
  after_drop n (destroys, id) = record { id = id; destroyed = if destroys then suc n else n }

  -- The id as a drop of the wrapper finds it.
  abbrev seen : Bool → Life S → CmId S
  seen stale l = if l.destroyed == 0 then l.id else record l.id { has_context = stale }

  unfoldable pub happens : Happening E → Life S → Life S
  happens (event t e) l = after_event l.destroyed (cm_handler c t e l.id)
  happens (dropped stale) l = after_drop l.destroyed (explicit_drop (seen stale l))

  unfoldable pub history : List (Happening E) → Life S → Life S
  history [] l = l
  history (h ∷ hs) l = history hs (happens h l)

  -- The context is the sign that the id is alive.
  abbrev Marked : Life S → Type 0
  Marked l = l.destroyed ≡ (if l.id.has_context then 0 else 1)

  -- The memory of a freed id still reads as null.
  abbrev pub ReadsNull : Happening E → Type 0
  ReadsNull (event t e) = Unit {0}
  ReadsNull (dropped stale) = stale ≡ false

  abbrev pub AllReadNull : List (Happening E) → Type 0
  AllReadNull [] = Unit {0}
  AllReadNull (h ∷ hs) = ReadsNull h × AllReadNull hs
