-- ===== src/Services/Query/Served.antt =====
-- endpoint.rs and services/mod.rs together: what a querier learns of the queue pairs of a service.
use krcore_artifacts.Prelude.{ℕ, ◌≡◌, refl, Option, none, some, List, [], ◌∷◌}
use krcore_artifacts.Posting.{DatagramEndpoint}
use krcore_artifacts.Manager.{Attempt, ok, err, ◌>>=◌}
use krcore_artifacts.Services.{
  QueuePairInfo, SidrReply, success, no_qp, Serving, reply_to, cm_handler,
}
use krcore_artifacts.Services.Registry.{
  Registration, register_all, last_of, handle_sidr_req-last_of,
}
use krcore_artifacts.Services.Query.{
  DatagramMeta, Handles, QueryFault, no_endpoint, eagain, new_inner, create_address_handler,
  endpoint_with, new_endpoint, handle_sidr_rep, Asker, create_querier, take_endpoint, wait_endpoint,
  query,
}
use krcore_artifacts.Services.Query.Exchange.{receive_sidr, service_cm}

module _ (dev : Handles) {Q : Type 0} (info : QueuePairInfo Q DatagramMeta) where
  abbrev quiet : List (Registration Q) → Serving info
  quiet rs = record { registered_qps = register_all info [] rs; sent_replies = [] }

  abbrev pub Outcome : Type 0
  Outcome = Attempt QueryFault DatagramEndpoint × Asker dev (service_cm info)

  -- The specification. A reply that tells of a queue pair gives an end point with its number and key
  -- and with the data of the reply, if an address handle for these can be made.
  abbrev pub reached : (qpn qkey : ℕ) → DatagramMeta → Serving info → Option ℕ × dev.World → Outcome
  reached qpn qkey meta s (none, w) = (err (no_endpoint eagain), record { world = w; far = s })
  reached qpn qkey meta s (some ah, w) = (
    ok (record { qpn = qpn; qkey = qkey; address_handler = ah; lid = meta.lid; gid = meta.gid }),
    record { world = w; far = s },
  )

  abbrev pub learned : (port : ℕ) → SidrReply DatagramMeta → Serving info → dev.World → Outcome
  learned port no_qp s w = (err (no_endpoint eagain), record { world = w; far = s })
  learned port (success qpn qkey meta) s w =
      reached qpn qkey meta s
        (dev.create_ah (record { dlid = meta.lid; sl = 0; port_num = port; dgid = meta.gid }) w)

  -- The end of the wait, after one successful reply.
  abbrev wait_keeping : (port : ℕ) → Serving info → Option DatagramEndpoint × dev.World → Outcome
  wait_keeping port s (endpoint, w) =
      take_endpoint dev (service_cm info) endpoint
        (record { world = w; far = record s { sent_replies = [] } })

  -- The wait, where one reply arrives.
  wait-learned :
      (port : ℕ) (r : SidrReply DatagramMeta) (s : Serving info) (w : dev.World)
      → (wait_endpoint dev (service_cm info) (new_inner port) >>= λ i.
            take_endpoint dev (service_cm info) i.endpoint)
          (record { world = w; far = record s { sent_replies = r ∷ [] } })
        ≡ learned port r (record s { sent_replies = [] }) w
  unfolding cm_handler handle_sidr_rep new_endpoint create_address_handler
  wait-learned port no_qp s w = refl
  wait-learned port (success qpn qkey meta) s w =
      go (dev.create_ah (record { dlid = meta.lid; sl = 0; port_num = port; dgid = meta.gid }) w)
    where
      go :
          (x : Option ℕ × dev.World)
          → wait_keeping port s (endpoint_with dev meta.lid meta.gid qpn qkey x)
            ≡ reached qpn qkey meta (record s { sent_replies = [] }) x
      go (none, v) = refl
      go (some ah, v) = refl

  -- After any registrations and deregistrations from an empty service, a querier that asks that service
  -- for a hint gets the end point of the queue pair that was registered last under the hint: its
  -- number, its key and its data, with an address handle that was made for them. It gets the error
  -- EAGAIN if there is no such queue pair, if that cannot tell its data, or if no address handle can be
  -- made. In every case the service stays as it was.
  pub query-Served :
      (rs : List (Registration Q)) (port service_id hint path : ℕ) (w : dev.World)
      → (create_querier dev (service_cm info) port >>= λ i.
            query dev (service_cm info) i service_id hint path)
          (record { world = w; far = quiet rs })
        ≡ learned port (reply_to info (last_of info hint none rs)) (quiet rs) w
  unfolding create_querier query receive_sidr cm_handler
  query-Served rs port service_id hint path w =
      rw (handle_sidr_req-last_of info (λ r. 0) rs hint [])
        (wait-learned port (reply_to info (last_of info hint none rs)) (quiet rs) w)
