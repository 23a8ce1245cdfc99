-- ===== src/Sender.antt =====
-- The thread that writes to the clients: send_sender_send and sender of src/connector.c, with the
-- append of send_client, and set_sendbufsize of src/ckpool.c. A sender_send_t is known by its `address`;
-- `written` is what write took for a client. What write, time and getsockopt return is a parameter,
-- by the number of system calls so far.
pub mod Writes
pub mod Queue
pub mod Order
pub mod Appends
pub mod Reach
pub mod Rounds
mod Tests
use ckpool.Common.{
  ℕ, zero, suc, ◌+◌, ◌-◌, ◌/◌, Bool, true, false, not, ◌&&◌, ◌||◌, List, [], ◌∷◌, ◌++◌, Option,
  none, some, ltb, leb, ◌==◌, if◌then◌else◌, length, take, drop,
}

pub record SenderSend : Type 0 where
  pub address : ℕ
  pub client : ℕ
  pub buf : List ℕ
  pub ofs : ℕ
  pub len : ℕ

pub record Client : Type 0 where
  pub invalid : Bool
  pub sending : Option ℕ
  pub blocked_time : ℕ
  pub sendbufsize : ℕ
  pub written : List ℕ

-- What write returns: a number of bytes, -1 with EAGAIN or EWOULDBLOCK, or -1 with another error.
pub data Write : Type 0 where
  wrote : ℕ → Write
  again : Write
  failed : Write

pub record Os : Type 0 where
  pub write : ℕ → ℕ → ℕ → Write
  pub time : ℕ → ℕ
  pub sndbuf : ℕ → ℕ
  pub sndbufforce : ℕ → ℕ

-- The size that a send buffer gets, and whether wmem_warn is set.
pub set_sendbufsize : Os → ℕ → ℕ → ℕ × Bool
set_sendbufsize os calls len =
    let opt = os.sndbuf calls / 2 in
    let forced = os.sndbufforce (calls + 1) / 2 in
    if ltb opt len then (forced, ltb forced len) else (opt, false)

-- What send_sender_send leaves, and its result.
pub record Sent : Type 0 where
  pub client : Client
  pub sender_send : SenderSend
  pub calls : ℕ
  pub finished : Bool

pub invalidated : Client → Client
invalidated c = record c { invalid = true; sending = none }

-- A write that took nothing: `blocks` for EAGAIN, EWOULDBLOCK and 0 bytes.
pub not_written : ℕ → ℕ → Client → SenderSend → Bool → Sent
not_written calls now_t c s blocks =
    if not (c.blocked_time == 0) && leb (c.blocked_time + 60) now_t
    then record { client = invalidated c; sender_send = s; calls = calls; finished = true }
    else if blocks
    then record {
      client = record c { blocked_time = if c.blocked_time == 0 then now_t else c.blocked_time };
      sender_send = s;
      calls = calls;
      finished = false;
    }
    else record { client = invalidated c; sender_send = s; calls = calls; finished = true }

-- A write that took n bytes.
pub advance : ℕ → SenderSend → SenderSend
advance n s = record s { ofs = s.ofs + n; len = s.len - n }

pub took : ℕ → Client → SenderSend → Client
took n c s = record c { blocked_time = 0; written = c.written ++ take n (drop s.ofs s.buf) }

pub out_true : ℕ → Client → SenderSend → Sent
out_true calls c s = record {
  client = record c { sending = none };
  sender_send = s;
  calls = calls;
  finished = true;
}

-- while (sender_send->len), on as much fuel: each round writes a byte at least.
pub send_loop : Os → ℕ → ℕ → ℕ → Client → SenderSend → Sent
send_loop os zero now_t calls c s = out_true calls c s
send_loop os (suc fuel) now_t calls c s =
    if s.len == 0 then out_true calls c s else elim (os.write calls s.client s.len) [
      | wrote n ↦
          let rest = send_loop os fuel now_t (calls + 1) (took n c s) (advance n s) in
          if n == 0 then not_written (calls + 1) now_t c s true else rest
      | again ↦ not_written (calls + 1) now_t c s true
      | failed ↦ not_written (calls + 1) now_t c s false
    ]

-- ckp->wmem_warn goes in and comes out.
pub start_sending : Os → ℕ → Bool → Client → SenderSend → Client × Bool
start_sending os calls wmem_warn c s =
    let begun = record c { sending = some s.address } in
    let sized = set_sendbufsize os calls s.len in
    if not wmem_warn && ltb c.sendbufsize s.len
    then (record begun { sendbufsize = sized.0 }, sized.1)
    else (begun, wmem_warn)

-- client->sending && client->sending != sender_send
pub other_sending : Option ℕ → ℕ → Bool
other_sending none address = false
other_sending (some sending) address = not (sending == address)

-- send_sender_send, and ckp->wmem_warn.
pub send_sender_send : Os → ℕ → Bool → Client → SenderSend → Sent × Bool
send_sender_send os calls wmem_warn c s =
    if c.invalid
    then (out_true calls c s, wmem_warn)
    else if other_sending c.sending s.address
    then (record { client = c; sender_send = s; calls = calls; finished = false }, wmem_warn)
    else let begun = start_sending os (calls + 1) wmem_warn c s in
      (send_loop os s.len (os.time calls) (calls + 3) begun.0 s, begun.1)

-- The state of the thread: `kept` are the sends behind it in its pass, `sends` those before it.
pub record Cdata : Type 0 where
  pub clients : ℕ → Client
  pub kept : List SenderSend
  pub sends : List SenderSend
  pub sender_sends : List SenderSend
  pub sends_generated : ℕ
  pub sends_delayed : ℕ
  pub sends_queued : ℕ
  pub sends_size : ℕ
  pub calls : ℕ
  pub wmem_warn : Bool

pub set_client : (ℕ → Client) → ℕ → Client → ℕ → Client
set_client clients id c j = if j == id then c else clients j

-- The append of send_client.
pub queue_send : ℕ → ℕ → List ℕ → Cdata → Cdata
queue_send address client buf d = record d {
  sends_generated = d.sends_generated + 1;
  sender_sends =
      d.sender_sends
      ++ (record { address = address; client = client; buf = buf; ofs = 0; len = length buf } ∷ []);
}

-- One round of DL_FOREACH_SAFE.
pub visit_send : Os → SenderSend → List SenderSend → Cdata → Cdata
visit_send os s sends d =
    let r = send_sender_send os d.calls d.wmem_warn (d.clients s.client) s in
    record d {
      clients = set_client d.clients s.client r.0.client;
      kept = if r.0.finished then d.kept else d.kept ++ (r.0.sender_send ∷ []);
      sends = sends;
      calls = r.0.calls;
      wmem_warn = r.1;
    }

pub visit : Os → Cdata → Cdata
visit os d = elim d.sends [ [] ↦ d | s ∷ sends ↦ visit_send os s sends d ]

-- sizeof(sender_send_t) + sending->len + 1, over the sends that are kept.
pub size_of : ℕ → List SenderSend → ℕ
size_of size [] = 0
size_of size (s ∷ sends) = size + s.len + 1 + size_of size sends

-- The end of a pass: the new sends go behind the kept ones.
pub collect_sends : ℕ → Cdata → Cdata
collect_sends size d = record d {
  sends_delayed = d.sends_delayed + length d.kept;
  sends_queued = length d.kept;
  sends_size = size_of size d.kept;
  sends = d.kept ++ d.sender_sends;
  kept = [];
  sender_sends = [];
}

pub collect : ℕ → Cdata → Cdata
collect size d = elim d.sends [ s ∷ sends ↦ d | [] ↦ collect_sends size d ]

-- Another thread invalidates a client.
pub drop_client : ℕ → Cdata → Cdata
drop_client id d = record d {
  clients = set_client d.clients id (record (d.clients id) { invalid = true });
}
