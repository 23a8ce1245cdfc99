-- ===== src/Sender/Writes.antt =====
-- What send_sender_send writes.
use mathlib.Core.List.{append_assoc}
use ckpool.Common.{
  ℕ, zero, suc, ◌+◌, ◌-◌, ◌≤◌, ◌<◌, ◌≡◌, refl, sym, ap, ◌∙◌, Bool, true, false, not, ◌&&◌, inl, inr,
  List, [], ◌++◌, none, some, leb, ltb, ◌==◌, if◌then◌else◌, take, drop, take_add, take-all, length,
  drop_add, Bool-cases, arith,
}
use ckpool.Sender.{
  SenderSend, Client, Write, wrote, again, failed, Os, Sent, invalidated, not_written, advance,
  took, out_true, send_loop, start_sending, other_sending, send_sender_send,
}

-- The bytes of a message that are not written yet.
pub remaining : SenderSend → List ℕ
remaining s = take s.len (drop s.ofs s.buf)

-- write takes no more bytes than it is given.
abbrev pub IsClipped : Os → Type 0
IsClipped os = (k id len n : ℕ) → os.write k id len ≡ wrote n → n ≤ len

advance-remaining :
    (n : ℕ) (s : SenderSend)
    → n ≤ s.len
    → take n (drop s.ofs s.buf) ++ remaining (advance n s) ≡ remaining s
unfolding remaining advance
advance-remaining n s h =
    let e : n + (s.len - n) ≡ s.len = omega (arith, h) in
    ap (λ z. take n (drop s.ofs s.buf) ++ take (s.len - n) z) (drop_add s.ofs n s.buf)
    ∙ sym (take_add n (s.len - n) (drop s.ofs s.buf))
    ∙ ap (λ k. take k (drop s.ofs s.buf)) e

-- No byte is lost or written twice, and a send that ends for a valid client is written in full.
pub record Writes (c : Client) (s : SenderSend) (r : Sent) : Type 0 where
  pub bytes : r.client.written ++ remaining r.sender_send ≡ c.written ++ remaining s
  pub address : r.sender_send.address ≡ s.address
  pub owner : r.sender_send.client ≡ s.client
  pub ended : r.finished ≡ true → r.client.invalid ≡ false → remaining r.sender_send ≡ []
  pub idle : r.finished ≡ true → r.client.sending ≡ none
  pub busy : r.finished ≡ false → r.client.sending ≡ c.sending

pub true_false {ℓ} : {A : Type ℓ} → true ≡ false → A
true_false e = ground (arith, e)

dropped-Writes :
    (calls : ℕ) (c : Client) (s : SenderSend)
    → Writes c s
        (record { client = invalidated c; sender_send = s; calls = calls; finished = true })
unfolding invalidated
dropped-Writes calls c s = record {
  bytes = refl;
  address = refl;
  owner = refl;
  ended = λ f v. true_false v;
  idle = λ f. refl;
  busy = λ f. true_false f;
}

not_written-Writes :
    (calls now_t : ℕ) (c : Client) (s : SenderSend) (blocks : Bool)
    → Writes c s (not_written calls now_t c s blocks)
unfolding not_written
not_written-Writes calls now_t c s blocks =
    elim (Bool-cases (not (c.blocked_time == 0) && leb (c.blocked_time + 60) now_t)) [
      | inl late ↦ rw late (dropped-Writes calls c s)
      | inr soon ↦ rw soon (elim (Bool-cases blocks) [
        | inl b ↦ rw b record {
          bytes = refl;
          address = refl;
          owner = refl;
          ended = λ f v. true_false (sym f);
          idle = λ f. true_false (sym f);
          busy = λ f. refl;
        }
        | inr b ↦ rw b (dropped-Writes calls c s)
      ])
    ]

out_true-Writes :
    (calls : ℕ) (c : Client) (s : SenderSend) → remaining s ≡ [] → Writes c s (out_true calls c s)
unfolding out_true
out_true-Writes calls c s e = record {
  bytes = refl;
  address = refl;
  owner = refl;
  ended = λ f v. e;
  idle = λ f. refl;
  busy = λ f. true_false f;
}

-- A write of n bytes before the rest.
took-Writes :
    (n : ℕ) (c : Client) (s : SenderSend) (r : Sent)
    → n ≤ s.len
    → Writes (took n c s) (advance n s) r
    → Writes c s r
unfolding took advance
took-Writes n c s r h w = record {
  bytes = w.bytes ∙ append_assoc c.written _ _ ∙ ap (λ z. c.written ++ z) (advance-remaining n s h);
  address = w.address;
  owner = w.owner;
  ended = w.ended;
  idle = w.idle;
  busy = w.busy;
}

nothing_left : (s : SenderSend) → s.len ≡ 0 → remaining s ≡ []
unfolding remaining
nothing_left s e = ap (λ n. take n (drop s.ofs s.buf)) e

not_zero : (n : ℕ) → (n == 0) ≡ false → 0 < n
not_zero n e = ground (arith, e)

-- After a write, where the rest of the loop writes as it should.
after_write :
    (w : Write) (calls now_t : ℕ) (c : Client) (s : SenderSend) (rest : ℕ → Sent)
    → ((n : ℕ) → w ≡ wrote n → 0 < n → Writes c s (rest n))
    → Writes c s (elim w [
      | wrote n ↦ if n == 0 then not_written calls now_t c s true else rest n
      | again ↦ not_written calls now_t c s true
      | failed ↦ not_written calls now_t c s false
    ])
after_write (wrote n) calls now_t c s rest next = elim (Bool-cases (n == 0)) [
  | inl z ↦ rw z (not_written-Writes calls now_t c s true)
  | inr p ↦ rw p (next n refl (not_zero n p))
]
after_write again calls now_t c s rest next = not_written-Writes calls now_t c s true
after_write failed calls now_t c s rest next = not_written-Writes calls now_t c s false

shorter : (len n fuel : ℕ) → len ≤ suc fuel → 0 < n → len - n ≤ fuel
shorter len n fuel h p = omega (arith, h, p)

send_loop-Writes :
    (os : Os)
    → IsClipped os
    → (fuel now_t calls : ℕ) (c : Client) (s : SenderSend) → s.len ≤ fuel
    → Writes c s (send_loop os fuel now_t calls c s)
unfolding send_loop advance
send_loop-Writes os clip zero now_t calls c s h =
    out_true-Writes calls c s (nothing_left s (omega (arith, h)))
send_loop-Writes os clip (suc fuel) now_t calls c s h = elim (Bool-cases (s.len == 0)) [
  | inl z ↦ rw z (out_true-Writes calls c s (nothing_left s (ground (arith, z))))
  | inr p ↦ rw p (
      after_write (os.write calls s.client s.len) (calls + 1) now_t c s
        (λ n. send_loop os fuel now_t (calls + 1) (took n c s) (advance n s))
        (λ n w pos. took-Writes n c s _ (clip calls s.client s.len n w) (
          send_loop-Writes os clip fuel now_t (calls + 1) (took n c s) (advance n s)
            (shorter s.len n fuel h pos))))
]

resized-Writes :
    (size : ℕ) (c : Client) (s : SenderSend) (r : Sent)
    → Writes (record c { sendbufsize = size }) s r
    → Writes c s r
resized-Writes size c s r w = record {
  bytes = w.bytes;
  address = w.address;
  owner = w.owner;
  ended = w.ended;
  idle = w.idle;
  busy = w.busy;
}

-- A valid client whose sends do not wait for another one.
pub attempt-Writes :
    (os : Os)
    → IsClipped os
    → (calls : ℕ) (wmem_warn : Bool) (c : Client) (s : SenderSend) → c.invalid ≡ false
    → other_sending c.sending s.address ≡ false
    → Writes (record c { sending = some s.address }) s (send_sender_send os calls wmem_warn c s).0
unfolding send_sender_send start_sending
attempt-Writes os clip calls wmem_warn c s valid free = rw valid (
    rw free (elim (Bool-cases (not wmem_warn && ltb c.sendbufsize s.len)) [
      | inl big ↦ rw big (
          resized-Writes _ _ s _
            (send_loop-Writes os clip s.len (os.time calls) (calls + 3) _ s (omega arith)))
      | inr small ↦
          rw small (send_loop-Writes os clip s.len (os.time calls) (calls + 3) _ s (omega arith))
    ]))

pub dead_send :
    (os : Os) (calls : ℕ) (wmem_warn : Bool) (c : Client) (s : SenderSend)
    → c.invalid ≡ true
    → (send_sender_send os calls wmem_warn c s).0 ≡ out_true calls c s
unfolding send_sender_send
dead_send os calls wmem_warn c s e = rw e refl

pub waiting_send :
    (os : Os) (calls : ℕ) (wmem_warn : Bool) (c : Client) (s : SenderSend)
    → c.invalid ≡ false
    → other_sending c.sending s.address ≡ true
    → (send_sender_send os calls wmem_warn c s).0
      ≡ record { client = c; sender_send = s; calls = calls; finished = false }
unfolding send_sender_send
waiting_send os calls wmem_warn c s v e = rw v (rw e refl)

-- A send keeps its address and its client.
pub same_send :
    (os : Os)
    → IsClipped os
    → (calls : ℕ) (wmem_warn : Bool) (c : Client) (s : SenderSend)
    → let sent = (send_sender_send os calls wmem_warn c s).0.sender_send in
      (sent.address ≡ s.address) × (sent.client ≡ s.client)
unfolding out_true
same_send os clip calls wmem_warn c s = elim (Bool-cases c.invalid) [
  | inl dead ↦
      let e = ap (λ r. r.sender_send) (dead_send os calls wmem_warn c s dead) in
      (ap (λ z. z.address) e, ap (λ z. z.client) e)
  | inr valid ↦ elim (Bool-cases (other_sending c.sending s.address)) [
    | inl waits ↦
        let e = ap (λ r. r.sender_send) (waiting_send os calls wmem_warn c s valid waits) in
        (ap (λ z. z.address) e, ap (λ z. z.client) e)
    | inr free ↦
        let w = attempt-Writes os clip calls wmem_warn c s valid free in (w.address, w.owner)
  ]
]

pub whole_message :
    (address client : ℕ) (buf : List ℕ)
    → remaining
        (record { address = address; client = client; buf = buf; ofs = 0; len = length buf })
      ≡ buf
unfolding remaining
whole_message address client buf = take-all (length buf) buf refl
