-- ===== src/Services/Refused.antt =====
-- handshake_kernel.rs against services/rc.rs, where the server cannot build a queue pair.
use krcore_artifacts.Prelude.{[], ℕ, true, ◌∷◌}
use krcore_artifacts.Bringup.Build.{PreparedQueuePair}
use krcore_artifacts.Manager.{Host}
use krcore_artifacts.Services.{CmId}
use krcore_artifacts.Services.Reliable.{rejected, RcServer}
use krcore_artifacts.Services.Handshake.{ConnReq, Local, Client}
use krcore_artifacts.Services.Peer.{peer}

-- The server's side of a request for which it cannot build a queue pair, and the client's wait.
module _ (h : Host) (key : ℕ) (v : RcServer h) (req : ConnReq) (w1 : h.device.World) where
  abbrev rejecting : RcServer h
  rejecting = record v { world = w1; outbox = rejected 2 ∷ v.outbox }

  module _ (hc : Host) (p : PreparedQueuePair) (w : hc.device.World) where
    abbrev at_rest : CmId (Local hc)
    at_rest = record {
      has_context = true;
      context = record { world = w; rc_comm = record { completed = 0; rtus = 0 } };
    }

    abbrev signalled : CmId (Local hc)
    signalled = record {
      has_context = true;
      context = record { world = w; rc_comm = record { completed = 1; rtus = 0 } };
    }

    abbrev emptied : Client hc (peer h key)
    emptied = record { world = w; far = record v { world = w1; outbox = [] } }
