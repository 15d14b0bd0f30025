-- ===== src/Softap/Serve.antt =====
-- The task `dns_hijack` of main/provisioning.cpp. The sockets are given by what they come to: whether one
-- is opened and bound, and the datagrams that are received, `none` for an error.
use gplug_mini.Base.{
  ◌+◌, ◌≤◌, ◌≡◌, ◌⊎◌, inl, inr, refl, subst, arith, Bool, true, false, not, ◌&&◌, List, [], ◌∷◌,
  ◌++◌, Option, none, some, Bytes, if◌then◌else◌, length, take, drop, Option-cases,
}
use gplug_mini.Softap.{dns_size, answer, dns_reply}
use gplug_mini.Softap.Dns.{dns_reply-query}

pub record Datagram (Peer : Type 0) : Type 0 where
  pub from : Peer
  pub received : Option Bytes

-- One turn of the loop; `recvfrom` cuts a datagram to the buffer.
unfoldable pub dns_turn : {Peer : Type 0} → Bytes → Datagram Peer → List (Peer × Bytes)
dns_turn self d = elim d.received [
  | none ↦ []
  | some q ↦ elim (dns_reply self (take dns_size q)) [ none ↦ [] | some r ↦ (d.from, r) ∷ [] ]
]

unfoldable pub dns_serve : {Peer : Type 0} → Bytes → List (Datagram Peer) → List (Peer × Bytes)
dns_serve self [] = []
dns_serve self (d ∷ ds) = dns_turn self d ++ dns_serve self ds

-- What the task sends, and whether it has ended, for the answers of `socket` and `bind`.
unfoldable pub dns_hijack :
    {Peer : Type 0} → Bool → Bool → Bytes → List (Datagram Peer) → List (Peer × Bytes) × Bool
dns_hijack opened bound self ds =
    if not opened then ([], true) else if not bound then ([], true) else (dns_serve self ds, false)

-- What a reply has of the query, and what it puts there.
pub record Reply (self q r : Bytes) : Type 0 where
  pub id : take 2 r ≡ take 2 q
  pub flags : take 2 (drop 2 r) ≡ 0x84 ∷ 0 ∷ []
  pub questions : take 2 (drop 4 r) ≡ take 2 (drop 4 q)
  pub counts : take 6 (drop 6 r) ≡ 0 ∷ 1 ∷ 0 ∷ 0 ∷ 0 ∷ 0 ∷ []
  pub rest : drop 12 r ≡ drop 12 q ++ (answer ++ self)
  pub room : length r ≤ dns_size

-- A datagram that can be answered: a header, and room for the answer behind it.
abbrev pub IsAnswerable : Bytes → Type 0
IsAnswerable q = (12 ≤ length q) × (length q + 16 ≤ dns_size)

-- The datagrams and what is sent for them, in their order.
pub data Served {Peer : Type 0} (self : Bytes)
    : List (Datagram Peer) → List (Peer × Bytes) → Type 0 where
  finished : Served self [] []
  lost :
      {d : Datagram Peer} {ds : List (Datagram Peer)} {sent : List (Peer × Bytes)}
      → d.received ≡ none
      → Served self ds sent
      → Served self (d ∷ ds) sent
  passed :
      {d : Datagram Peer} {q : Bytes} {ds : List (Datagram Peer)} {sent : List (Peer × Bytes)}
      → d.received ≡ some q
      → (IsAnswerable (take dns_size q) → ⊥)
      → Served self ds sent
      → Served self (d ∷ ds) sent
  replied :
      {d : Datagram Peer} {q r : Bytes} {ds : List (Datagram Peer)} {sent : List (Peer × Bytes)}
      → d.received ≡ some q
      → IsAnswerable (take dns_size q)
      → Reply self (take dns_size q) r
      → Served self ds sent
      → Served self (d ∷ ds) ((d.from, r) ∷ sent)

dns_reply-Reply :
    (self q : Bytes)
    → length self ≡ 4
    → IsAnswerable q
    → (r : Bytes) × (dns_reply self q ≡ some r) × Reply self q r
dns_reply-Reply self (id1 ∷ id2 ∷ f1 ∷ f2 ∷ q1 ∷ q2 ∷ a1 ∷ a2 ∷ n1 ∷ n2 ∷ r1 ∷ r2 ∷ question) four
      h =
    let (r, e, same, room) =
      dns_reply-query self id1 id2 f1 f2 q1 q2 a1 a2 n1 n2 r1 r2 question four
        (omega (arith, h.1)) in
    let size = subst (λ (x : Bytes). length x ≤ dns_size) same room in
    (
      r,
      e,
      rw same record {
        id = refl;
        flags = refl;
        questions = refl;
        counts = refl;
        rest = refl;
        room = size;
      },
    )
dns_reply-Reply self _ four h = absurd (omega (arith, h.0))

answered : (self q : Bytes) {r : Bytes} → dns_reply self q ≡ some r → IsAnswerable q
unfolding dns_reply
answered self q e = ground (arith, e)

unanswered : (self q : Bytes) → dns_reply self q ≡ none → IsAnswerable q → ⊥
unfolding dns_reply
unanswered self q e h = ground (arith, e, h.0, h.1)

module _ {Peer : Type 0} (self : Bytes) (d : Datagram Peer) where
  turn_lost : d.received ≡ none → dns_turn self d ≡ []
  unfolding dns_turn
  turn_lost e = rw (e, dns_turn) refl

  turn_passed :
      (q : Bytes)
      → d.received ≡ some q
      → dns_reply self (take dns_size q) ≡ none
      → dns_turn self d ≡ []
  unfolding dns_turn
  turn_passed q e n = rw (e, dns_turn, n) refl

  turn_replied :
      (q r : Bytes)
      → d.received ≡ some q
      → dns_reply self (take dns_size q) ≡ some r
      → dns_turn self d ≡ (d.from, r) ∷ []
  unfolding dns_turn
  turn_replied q r e n = rw (e, dns_turn, n) refl

dns_serve-Served :
    {Peer : Type 0}
    → (self : Bytes) (ds : List (Datagram Peer)) → length self ≡ 4
    → Served self ds (dns_serve self ds)
unfolding dns_serve
dns_serve-Served self [] four = finished
dns_serve-Served self (d ∷ ds) four =
    let later = dns_serve-Served self ds four in
    elim (Option-cases d.received) [
      | inl e ↦ rw (turn_lost self d e) (lost e later)
      | inr (q, e) ↦ elim (Option-cases (dns_reply self (take dns_size q))) [
        | inl n ↦
            rw (turn_passed self d q e n) (passed e (unanswered self (take dns_size q) n) later)
        | inr (r, f) ↦
            let fits = answered self (take dns_size q) f in
            let (r', g, reply) = dns_reply-Reply self (take dns_size q) four fits in
            rw (turn_replied self d q r' e g) (replied e fits reply later)
      ]
    ]

-- Once its socket is open and bound the task serves on: of the datagrams, cut to its buffer, exactly
-- those of a header at least that leave room for the answer get one reply each, in their order and
-- to the peer that they came from, with the query's identifier and count of questions, the flags of
-- an authoritative reply, one answer and no other records, all that stood behind the query's header
-- as it came, and behind that the record of the device's four octets, within the buffer. Without a
-- socket, or where it cannot be bound, the task ends, and nothing is sent.
pub dns_hijack-Served :
    {Peer : Type 0} (opened bound : Bool) (self : Bytes) (ds : List (Datagram Peer))
    → length self ≡ 4
    → (((opened && bound) ≡ true)
        × ((dns_hijack opened bound self ds).1 ≡ false)
        × Served self ds (dns_hijack opened bound self ds).0)
      ⊎ (((opened && bound) ≡ false) × (dns_hijack opened bound self ds ≡ ([], true)))
unfolding dns_hijack
dns_hijack-Served true true self ds four = inl (refl, refl, dns_serve-Served self ds four)
dns_hijack-Served true false self ds four = inr (refl, refl)
dns_hijack-Served false bound self ds four = inr (refl, refl)
