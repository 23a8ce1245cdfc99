-- ===== src/Connections/Tests.antt =====
-- The witness of the theorem on the clients of the connector.
use ckpool.Common.{◌+◌, ◌≡◌, refl, [], arith}
use ckpool.Connections.{
  Cdata, recruit_client, server_full, connected, recoverable, accept_ended, epoll_ref, drop_client,
}
use ckpool.Connections.Reach.{
  World, Reach, here, next, start, accepting, accepted, watched, dropped, awaiting,
}
use ckpool.Connections.Accounts.{listed, lost, reach-accounts}
use ckpool.Clients.Entries.{count, without}

abbrev empty : Cdata
empty = record {
  clients = [];
  dead_clients = [];
  recycled_clients = 0;
  clients_generated = 0;
  dead_generated = 0;
  client_ids = 5;
  nfds = 0;
}

abbrev entered_one : Cdata
entered_one = accept_ended connected (recruit_client empty)

-- A client is dropped before it has the reference of the epoll list, then accept fails.
abbrev lossy : World
lossy = record {
  cdata = accept_ended recoverable (recruit_client (epoll_ref 5 (drop_client 5 entered_one)));
  holders = [];
  recruited = 0;
  entering = [];
}

lossy-Reach : Reach (start empty) lossy
unfolding count server_full awaiting recruit_client without
lossy-Reach =
    next
      (next
        (next
          (next (next (next here (accepting 0 refl)) (accepted connected (omega arith)))
            (dropped 5))
          (watched 5 (omega arith)))
        (accepting 0 refl))
      (accepted recoverable (omega arith))

reach-accounts_example :
    lossy.cdata.clients_generated ≡ listed lossy.cdata + (lossy.recruited + lost lossy-Reach)
unfolding listed
reach-accounts_example = reach-accounts empty lossy refl refl lossy-Reach
