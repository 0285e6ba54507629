-- ===== src/Services/Query/Tests.antt =====
-- A service with two datagram queue pairs, a device that makes one address handle, and the theorems
-- applied there.
use krcore_artifacts.Prelude.{ℕ, ◌+◌, ◌≡◌, none, some, List, [], ◌∷◌, leb, if◌then◌else◌}
use krcore_artifacts.Bringup.Builder.{new_builder}
use krcore_artifacts.Bringup.Device.{ud, ib_reset, QueuePair}
use krcore_artifacts.Bringup.Build.{build_inner}
use krcore_artifacts.Manager.{ok, ◌>>=◌}
use krcore_artifacts.Services.{Serving}
use krcore_artifacts.Services.Registry.{Registration, registers, deregisters, register_all}
use krcore_artifacts.Services.Tests.{nic, host}
use krcore_artifacts.Services.Query.{
  datagram_info, get_datagram_meta, Handles, create_querier, query,
}
use krcore_artifacts.Services.Query.Exchange.{service_cm}
use krcore_artifacts.Services.Query.Served.{query-Served}

abbrev datagram : ℕ → QueuePair
datagram n = (build_inner nic new_builder 1 2 ud n).inner

abbrev steps : List (Registration QueuePair)
steps =
    registers 4 (datagram 50)
    ∷ registers 9 (datagram 60)
    ∷ registers 4 (datagram 51)
    ∷ deregisters 9
    ∷ []

-- The world is the number of the next handle; 640 is the last one.
abbrev handles : Handles
handles = record {
  World = ℕ;
  create_ah = λ attr w. if leb w 640 then (some w, w + 1) else (none, w);
}

abbrev service : Serving (datagram_info host ib_reset)
service = record {
  registered_qps = register_all (datagram_info host ib_reset) [] steps;
  sent_replies = [];
}

-- The queue pair that was registered last under 4, with the lid and the gid of its port.
query-Served_example :
    (create_querier handles (service_cm (datagram_info host ib_reset)) 2 >>= λ i.
    query handles (service_cm (datagram_info host ib_reset)) i 73 4 5)
      (record { world = 640; far = service })
    ≡ (
      ok (record { qpn = 51; qkey = (datagram 51).qkey; address_handler = 640; lid = 3; gid = 9 }),
      record { world = 641; far = service },
    )
unfolding get_datagram_meta
query-Served_example = query-Served handles (datagram_info host ib_reset) steps 2 73 4 5 640
