-- ===== src/Protocol/Frames.antt =====
-- src/server/pg_protocol.c: a message that is sent is received.
use Prim.Native.Nat.{bit_or}
use mathlib.Core.List.{append_assoc, append-nil}
use compute_ql.Shared.{
  ℕ, suc, ◌+◌, ◌-◌, ◌*◌, ◌/◌, ◌%◌, ◌^◌, ◌≤◌, ◌<◌, ◌≡◌, ◌≢◌, ◌⊎◌, refl, sym, ap, ◌∙◌, Bool, true,
  false, ◌||◌, List, [], ◌∷◌, ◌++◌, Option, none, some, if◌then◌else◌, ltb, length, take, drop,
  arith, length-append, lt→ltb, take_front, drop_front,
}
use compute_ql.Shared.Bits.{bit_or-apart}
use compute_ql.Text.{Text}
use compute_ql.Protocol.{
  Net, pg_be32, pg_read_be32, join, frame_limit, pg_recv_untyped, pg_recv_typed, header,
  pg_send_msg,
}

-- `bit_or-apart` for numbers that are equal to those in its form.
united : (k a x b : ℕ) → x ≡ a * 2 ^ k → b < 2 ^ k → bit_or x b ≡ x + b
united k a x b e h = rw e (bit_or-apart k a b h)

read_be32-bytes :
    (a b c d : ℕ) (s : Text)
    → a < 256
    → b < 256
    → c < 256
    → d < 256
    → pg_read_be32 (a ∷ (b ∷ (c ∷ (d ∷ s)))) ≡ ((a * 256 + b) * 256 + c) * 256 + d
unfolding pg_read_be32
read_be32-bytes a b c d s ha hb hc hd =
    let x = a * 2 ^ 24 % 2 ^ 32 in
    let y = b * 2 ^ 16 % 2 ^ 32 in
    let z = c * 2 ^ 8 % 2 ^ 32 in
    let first = united 24 a x y (omega arith) (omega arith) in
    let second = united 16 (a * 256 + b) (x + y) z (omega arith) (omega arith) in
    let third = united 8 ((a * 256 + b) * 256 + c) (x + y + z) d (omega arith) (omega arith) in
    rw (first, second, third) (omega arith)

pub read_be32-be32 : (v : ℕ) (s : Text) → v < 2 ^ 32 → pg_read_be32 (pg_be32 v ++ s) ≡ v
unfolding pg_be32
read_be32-be32 v s h =
    read_be32-bytes (v / 2 ^ 24 % 256) (v / 2 ^ 16 % 256) (v / 2 ^ 8 % 256) (v % 256) s
      (omega arith) (omega arith) (omega arith) (omega arith)
    ∙ omega arith

length-be32 : (v : ℕ) → 4 ≡ length (pg_be32 v)
unfolding pg_be32
length-be32 v = refl

read_be32-whole : (v : ℕ) → v < 2 ^ 32 → pg_read_be32 (pg_be32 v) ≡ v
unfolding pg_be32
read_be32-whole v h = read_be32-be32 v [] h

-- The bytes that wait at a connection, and what an exact receive does with them.
pub record Incoming (net : Net) : Type 0 where
  pub waiting : net.Conn → Text
  pub received :
      (c : net.Conn) (n : ℕ)
      → n ≤ length (waiting c)
      → (d : net.Conn) × (net.recv_exact c n ≡ some (take n (waiting c), d))
        × (waiting d ≡ drop n (waiting c))
  pub too_short : (c : net.Conn) (n : ℕ) → length (waiting c) < n → net.recv_exact c n ≡ none

-- The bytes that a connection has sent.
pub record Outgoing (net : Net) : Type 0 where
  pub sent : net.Conn → Text
  pub delivered :
      (c d : net.Conn) (s : Text) → net.send_exact c s ≡ (d, true) → sent d ≡ sent c ++ s

module _ (net : Net) (incoming : Incoming net) where
  recv_front :
      (c : net.Conn) (n : ℕ) (s rest : Text)
      → incoming.waiting c ≡ s ++ rest
      → n ≡ length s
      → (d : net.Conn) × (net.recv_exact c n ≡ some (s, d)) × (incoming.waiting d ≡ rest)
  recv_front c n s rest w l =
      let (d, e, f) = incoming.received c n (rw (w, l, length-append s rest) (omega arith)) in
      let front : take n (incoming.waiting c) ≡ s = rw (w, l) (take_front s rest) in
      let behind : drop n (incoming.waiting c) ≡ rest = rw (w, l) (drop_front s rest) in
      (d, e ∙ ap (λ t. some (t, d)) front, f ∙ behind)

  -- What follows the length of a frame.
  abbrev after_length : net.Conn → ℕ → Option (Text × net.Conn)
  after_length c len =
      if ltb len 4 || ltb frame_limit len
      then none
      else if ltb 0 (len - 4)
      then net.recv_exact c (len - 4)
      else some ([], c)

  recv_untyped-length :
      (c : net.Conn) (len : ℕ) (rest : Text)
      → incoming.waiting c ≡ pg_be32 len ++ rest
      → len < 2 ^ 32
      → (d : net.Conn) × (pg_recv_untyped net c ≡ after_length d len) × (incoming.waiting d ≡ rest)
  unfolding pg_recv_untyped
  recv_untyped-length c len rest w h =
      let (d, e, f) = recv_front c 4 (pg_be32 len) rest w (length-be32 len) in
      (d, rw (pg_recv_untyped, e, read_be32-whole len h) refl, f)

  after_length-body :
      (c : net.Conn) (body rest : Text)
      → incoming.waiting c ≡ body ++ rest
      → length body + 4 ≤ frame_limit
      → (d : net.Conn) × (after_length c (length body + 4) ≡ some (body, d))
        × (incoming.waiting d ≡ rest)
  after_length-body c [] rest w h = (c, refl, w)
  after_length-body c (x ∷ body) rest w h =
      let (d, e, f) = recv_front c (length (x ∷ body) + 4 - 4) (x ∷ body) rest w (omega arith) in
      (d, ground arith, f)

  recv_untyped-frame :
      (c : net.Conn) (body rest : Text)
      → incoming.waiting c ≡ pg_be32 (length body + 4) ++ (body ++ rest)
      → length body + 4 ≤ frame_limit
      → (d : net.Conn) × (pg_recv_untyped net c ≡ some (body, d)) × (incoming.waiting d ≡ rest)
  recv_untyped-frame c body rest w h =
      let (c1, e1, w1) = recv_untyped-length c (length body + 4) (body ++ rest) w (omega arith) in
      let (c2, e2, w2) = after_length-body c1 body rest w1 h in (c2, e1 ∙ e2, w2)

  recv_typed-frame :
      (c : net.Conn) (type : ℕ) (body rest : Text)
      → incoming.waiting c ≡ type ∷ (pg_be32 (length body + 4) ++ (body ++ rest))
      → length body + 4 ≤ frame_limit
      → (d : net.Conn) × (pg_recv_typed net c ≡ some (type, body, d)) × (incoming.waiting d ≡ rest)
  unfolding pg_recv_typed
  recv_typed-frame c type body rest w h =
      let (c1, e1, w1) =
        recv_front c 1 (type ∷ []) (pg_be32 (length body + 4) ++ (body ++ rest)) w refl in
      let (c2, e2, w2) = recv_untyped-frame c1 body rest w1 h in
      (c2, rw (pg_recv_typed, e1, e2) refl, w2)

  -- A frame is refused when its length is below 4 or above 1 MB, whatever follows, and when fewer
  -- bytes follow than its length says.
  pub recv_untyped-refused :
      (c : net.Conn) (len : ℕ) (rest : Text)
      → incoming.waiting c ≡ pg_be32 len ++ rest
      → len < 2 ^ 32
      → (len < 4) ⊎ ((frame_limit < len) ⊎ (length rest + 4 < len))
      → pg_recv_untyped net c ≡ none
  recv_untyped-refused c len rest w h bad =
      let (d, e, f) = recv_untyped-length c len rest w h in
      let short : (length rest + 4 < len → net.recv_exact d (len - 4) ≡ none) =
        λ l. incoming.too_short d (len - 4) (rw f (omega arith)) in
      e ∙ ground (arith, short)

module _ (net : Net) (outgoing : Outgoing net) where
  send_body :
      (c d : net.Conn) (body : Text)
      → (if ltb 0 (length body) then net.send_exact c body else (c, true)) ≡ (d, true)
      → outgoing.sent d ≡ outgoing.sent c ++ body
  send_body c d [] e = rw (append-nil (outgoing.sent c)) (ap outgoing.sent (sym (ap (λ p. p.0) e)))
  send_body c d (x ∷ body) e =
      outgoing.delivered c d (x ∷ body) (rw (lt→ltb 0 (suc (length body)) (omega arith)) at e)

  send_header :
      (p : net.Conn × Bool) (c d : net.Conn) (head body : Text)
      → net.send_exact c head ≡ p
      → (if p.1
          then (if ltb 0 (length body) then net.send_exact p.0 body else (p.0, true))
          else (p.0, false))
        ≡ (d, true)
      → outgoing.sent d ≡ outgoing.sent c ++ (head ++ body)
  send_header (after, true) c d head body e f =
      send_body after d body f
      ∙ rw (outgoing.delivered c after head e) (append_assoc (outgoing.sent c) head body)
  send_header (after, false) c d head body e f = absurd (false_true (ap (λ p. p.1) f))
    where
      false_true : false ≢ true
      false_true e = cc

  -- A message that was sent has put its type, its length and its parts behind what was sent before.
  send_msg-frame :
      (c d : net.Conn) (type : ℕ) (parts : List Text)
      → pg_send_msg net c type parts ≡ (d, true)
      → outgoing.sent d ≡ outgoing.sent c ++ (header net type (join parts) ++ join parts)
  unfolding pg_send_msg
  send_msg-frame c d type parts e =
      send_header (net.send_exact c (header net type (join parts))) c d _ (join parts) refl e

cancel_front : (s xs ys : Text) → s ++ xs ≡ s ++ ys → xs ≡ ys
cancel_front s xs ys e = sym (drop_front s xs) ∙ ap (drop (length s)) e ∙ drop_front s ys

header-small :
    (net : Net) (type : ℕ) (body : Text)
    → length body + 4 ≤ frame_limit
    → header net type body ≡ type ∷ pg_be32 (length body + 4)
header-small net type body h = ap (λ n. type ∷ pg_be32 n) (no_wrap (length body + 4) h)
  where
    no_wrap : (n : ℕ) → n ≤ frame_limit → n % 2 ^ 32 ≡ n
    no_wrap n h = omega arith

-- What one end sends as a message of at most 1 MB, the other end receives, with its type and body,
-- and nothing of what follows is lost: for connections that keep the order of the bytes.
pub recv_typed-send_msg :
    (near far : Net) (outgoing : Outgoing near) (incoming : Incoming far) (c d : near.Conn)
    (e : far.Conn) (type : ℕ) (parts : List Text) (rest : Text)
    → pg_send_msg near c type parts ≡ (d, true)
    → outgoing.sent d ++ rest ≡ outgoing.sent c ++ incoming.waiting e
    → length (join parts) + 4 ≤ frame_limit
    → (f : far.Conn) × (pg_recv_typed far e ≡ some (type, join parts, f))
      × (incoming.waiting f ≡ rest)
recv_typed-send_msg near far outgoing incoming c d e type parts rest s w h =
    recv_typed-frame far incoming e type (join parts) rest
      (cancel_front (outgoing.sent c) _ _ (
          sym w
          ∙ ap (λ t. t ++ rest) (send_msg-frame near outgoing c d type parts s)
          ∙ append_assoc (outgoing.sent c) (header near type (join parts) ++ join parts) rest)
        ∙ append_assoc (header near type (join parts)) (join parts) rest
        ∙ ap (λ t. t ++ (join parts ++ rest)) (header-small near type (join parts) h))
      h
