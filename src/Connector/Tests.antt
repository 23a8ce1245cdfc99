-- ===== src/Connector/Tests.antt =====
-- The witnesses of the theorems on the reads of a client.
use ckpool.Common.{
  ℕ, ◌<◌, ◌≤◌, ◌≡◌, refl, true, false, List, [], ◌∷◌, ◌++◌, Option, none, some, All, length, take,
  if◌then◌else◌, arith, replicate, length-replicate,
}
use ckpool.Connector.{Client, stopped, receiving, disconnected, parse_client_msg}
use ckpool.Connector.Reads.{IsReady, Ends, parse_client_msg-Ends}
use ckpool.Connector.Frames.{frames, joined}
use ckpool.Connector.Lines.{IsServed, messages, parse_client_msg-frames}

-- A reader of messages of one byte.
loads : List ℕ → Option ℕ
loads [] = none
loads (b ∷ bs) = some b

value : List ℕ → ℕ
value [] = 0
value (b ∷ bs) = b

abbrev fresh : Client
fresh = record { buf = replicate 4096 0; bufofs = 0; remote = false; invalid = false }

-- Two messages and the start of a third, cut in the second.
abbrev reads : List (List ℕ)
reads = (65 ∷ 10 ∷ 66 ∷ []) ∷ (66 ∷ 10 ∷ 67 ∷ []) ∷ []

fresh-IsReady : IsReady 2048 fresh
fresh-IsReady = record {
  buffer = record { size = length-replicate {A = ℕ} 4096 0; rest = replicate 2047 0; ends = refl };
  small = omega arith;
  ours = refl;
}

parse_client_msg-Ends_example :
    Ends (parse_client_msg loads (λ v. v) (λ n. replicate n 0) true reads fresh [])
parse_client_msg-Ends_example =
    parse_client_msg-Ends loads (λ v. v) (λ n. replicate n 0) true reads fresh []
      (omega arith, (omega arith, tt)) fresh-IsReady

line-IsServed :
    (b : ℕ) (bs : List ℕ)
    → length (b ∷ bs) ≤ 1024
    → All (λ b. 0 < b) (b ∷ bs)
    → IsServed loads value (b ∷ bs)
unfolding loads value
line-IsServed b bs h a = record { short = h; no_end = a; parsed = λ x. refl }

parse_client_msg-frames_example :
    (d : Client) × (parse_client_msg loads (λ v. v) (λ n. replicate n 0) true reads fresh []
      ≡ stopped (if true then receiving else disconnected) d (
          []
          ++ messages loads value (λ v. v) (frames (take fresh.bufofs fresh.buf) (joined reads)).0))
    × (take d.bufofs d.buf ≡ (frames (take fresh.bufofs fresh.buf) (joined reads)).1)
unfolding frames joined
parse_client_msg-frames_example =
    parse_client_msg-frames loads value (λ v. v) (λ n. replicate n 0) true reads fresh [] refl
      (
        line-IsServed 65 (10 ∷ []) (omega arith) (omega arith, (omega arith, tt)),
        (
          line-IsServed 66 (66 ∷ 10 ∷ []) (omega arith)
              (omega arith, (omega arith, (omega arith, tt))),
          tt,
        ),
      )
      (omega arith) (omega arith, (omega arith, tt)) fresh-IsReady refl
