-- ===== src/Softap/Dns.antt =====
-- What the DNS answer says.
use gplug_mini.Base.{ℕ, ◌+◌, ◌≤◌, ◌≡◌, refl, arith, ◌∷◌, ◌++◌, some, Bytes, length, length-append}
use gplug_mini.Softap.{dns_size, set_at, reply_header, answer, dns_reply}

-- Every datagram of a header and more that leaves room for the answer is answered, within the
-- buffer: with the query's own identifier and count of questions, the flags of an authoritative
-- reply, one answer and no other records, all that stood behind the query's header as it came, and
-- the record of the device's address behind that.
pub dns_reply-query :
    (self : Bytes) (id1 id2 f1 f2 q1 q2 a1 a2 n1 n2 r1 r2 : ℕ) (question : Bytes)
    → length self ≡ 4
    → length question + 28 ≤ dns_size
    → (r : Bytes) × (dns_reply self
          (id1 ∷ id2 ∷ f1 ∷ f2 ∷ q1 ∷ q2 ∷ a1 ∷ a2 ∷ n1 ∷ n2 ∷ r1 ∷ r2 ∷ question)
        ≡ some r)
      × (r
          ≡ id1 ∷ id2 ∷ 0x84 ∷ 0 ∷ q1 ∷ q2 ∷ 0 ∷ 1 ∷ 0 ∷ 0 ∷ 0 ∷ 0 ∷ (question ++ (answer ++ self)))
      × (length r ≤ dns_size)
unfolding dns_reply reply_header set_at
dns_reply-query self id1 id2 f1 f2 q1 q2 a1 a2 n1 n2 r1 r2 question four room =
    let r =
      id1 ∷ id2 ∷ 0x84 ∷ 0 ∷ q1 ∷ q2 ∷ 0 ∷ 1 ∷ 0 ∷ 0 ∷ 0 ∷ 0 ∷ (question ++ (answer ++ self)) in
    (r, ground arith, refl, omega (arith, length-append question (answer ++ self)))
