-- ===== src/Sender/Tests.antt =====
-- Runs of the sender for two clients, and the witness.
use ckpool.Common.{
  ℕ, ◌+◌, ◌≤◌, ◌≡◌, refl, ap, List, [], ◌==◌, if◌then◌else◌, min, codes, arith, Bool-cases, inl,
  inr,
}
use ckpool.Sender.{
  Write, wrote, again, failed, Os, Cdata, queue_send, visit, collect, send_sender_send, send_loop,
  start_sending, other_sending, visit_send, collect_sends, set_client, not_written, took, advance,
  out_true, invalidated, set_sendbufsize,
}
use ckpool.Sender.Writes.{IsClipped}
use ckpool.Sender.Queue.{count_at}
use ckpool.Sender.Reach.{begun, asked_more, Reachable, start, queued, visited, collected}
use ckpool.Sender.Rounds.{InOrder, reachable-InOrder}

-- Three bytes a time; the fifth system call would block.
abbrev os : Os
os = record {
  write = λ k id len. if k == 4 then again else wrote (min 3 len);
  time = λ k. 1700000000 + k;
  sndbuf = λ k. 8192;
  sndbufforce = λ k. 8192;
}

taken : Write → ℕ
taken (wrote n) = n
taken again = 0
taken failed = 0

taken_less : (k len : ℕ) → taken (if k == 4 then again else wrote (min 3 len)) ≤ len
unfolding taken
taken_less k len = elim (Bool-cases (k == 4)) [
  | inl e ↦ rw e (omega arith)
  | inr e ↦ rw e (omega arith)
]

os-IsClipped : IsClipped os
unfolding taken
os-IsClipped k id len n e =
    let most = taken_less k len in let same = ap taken e in omega (arith, most, same)

abbrev asked : ℕ → List ℕ
asked =
    asked_more 1 (codes "bye")
      (asked_more 2 (codes "two") (asked_more 1 (codes "hello") (λ id. [])))

-- Two messages for client 1, the first of which is blocked, and one for client 2.
abbrev before_pass : Cdata
before_pass = collect 40 (
    queue_send 72 1 (codes "bye")
      (queue_send 48 2 (codes "two") (queue_send 24 1 (codes "hello") (begun (λ id. 4096)))))

abbrev after_pass : Cdata
after_pass = visit os (visit os (visit os before_pass))

-- Client 1 has the start of its first message only, client 2 its message.
blocked_pass :
    ((after_pass.clients 1).written ≡ codes "hel") × ((after_pass.clients 2).written ≡ codes "two")
unfolding queue_send visit visit_send collect collect_sends send_sender_send send_loop start_sending
    set_sendbufsize other_sending set_client not_written took advance out_true invalidated
blocked_pass = (refl, refl)

next_pass : ((visit os (visit os (collect 40 after_pass))).clients 1).written ≡ codes "hellobye"
unfolding queue_send visit visit_send collect collect_sends send_sender_send send_loop start_sending
    set_sendbufsize other_sending set_client not_written took advance out_true invalidated
next_pass = refl

after-Reachable : Reachable os 40 asked after_pass
unfolding count_at queue_send
after-Reachable = visited (
    visited (
      visited (
        collected (
          queued 72 1 (codes "bye")
            (queued 48 2 (codes "two") (queued 24 1 (codes "hello") (start (λ id. 4096)) refl) refl)
            refl))))

reachable-InOrder_example : InOrder 1 asked after_pass
reachable-InOrder_example = reachable-InOrder os os-IsClipped 40 after-Reachable 1
