-- ===== src/Socket/Framing.antt =====
-- A line is read whole, however the connection cuts it.
use nagios_snmp.Base.{
  ℕ, ◌+◌, ◌<◌, ◌≤◌, Bool, true, false, ◌||◌, List, [], ◌∷◌, ◌++◌, map, some, Bytes, ok, fault,
  overflow, ltb, leb, ◌==◌, if◌then◌else◌, length, length-append, All, All-append, append_assoc,
  append-cons-ne-nil, ◌≡◌, ◌≢◌, refl, ap, sym, ◌∙◌, arith,
}
use nagios_snmp.Base.Stdio.{until_nul}
use nagios_snmp.Socket.{
  Received, bytes, mark, runs_out, scan, terminate, recv_loop, socket_read_pdu,
}

-- A byte that ends no line.
abbrev pub stops : ℕ → Bool
stops c = c == 0 || (c == b'\n' || c == b'\r')

abbrev pub IsPlain : Bytes → Type 0
IsPlain s = All (λ c. stops c ≡ false) s

-- The pieces put together.
unfoldable pub joined : List Bytes → Bytes
joined [] = []
joined (s ∷ ss) = s ++ joined ss

mark-plain : (s : Bytes) → IsPlain s → mark s ≡ (s, false)
unfolding mark
mark-plain [] h = refl
mark-plain (c ∷ s) h = ground (arith, mark-plain s h.1)

mark-line :
    (l : Bytes) (e : ℕ) (rest : Bytes)
    → IsPlain l
    → (e == b'\n' || e == b'\r') ≡ true
    → mark (l ++ e ∷ rest) ≡ (l ++ 0 ∷ rest, true)
unfolding mark
mark-line [] e rest h k = ground arith
mark-line (c ∷ l) e rest h k = ground (arith, mark-line l e rest h.1 k)

runs_out-line :
    (l : Bytes) (e : ℕ) (rest : Bytes)
    → (e == b'\n' || e == b'\r') ≡ true
    → runs_out (l ++ e ∷ rest) ≡ false
unfolding runs_out
runs_out-line [] e rest k = ground arith
runs_out-line (c ∷ l) e rest k = ground (arith, runs_out-line l e rest k)

until_nul_lem : (s rest : Bytes) → IsPlain s → until_nul (s ++ 0 ∷ rest) ≡ s
unfolding until_nul
until_nul_lem [] rest h = refl
until_nul_lem (c ∷ s) rest h = ground (arith, until_nul_lem s rest h.1)

-- A call that receives something.
recv_loop-bytes :
    (alloclen : ℕ) (b w : Bytes) (next : List Received) (marked : Bytes) (found : Bool)
    → w ≢ []
    → scan w ≡ ok (marked, found)
    → length b + length w ≤ alloclen
    → recv_loop alloclen b (bytes w ∷ next)
      ≡ (if found then terminate alloclen (b ++ marked) else recv_loop alloclen (b ++ marked) next)
unfolding recv_loop
recv_loop-bytes alloclen b [] next marked found ne e room = absurd (ne refl)
recv_loop-bytes alloclen b (c ∷ s) next marked found ne e room =
    let fits : ltb alloclen (length b + length (c ∷ s)) ≡ false = ground arith in
    rw (recv_loop, e) (rw fits)

scan-plain : (s : Bytes) → IsPlain s → length s < 1024 → scan s ≡ ok (s, false)
unfolding scan
scan-plain s h short =
    let small : leb 1024 (length s) ≡ false = ground arith in
    rw (scan, small, mark-plain s h) (ground arith)

scan-line :
    (l : Bytes) (e : ℕ) (rest : Bytes)
    → IsPlain l
    → (e == b'\n' || e == b'\r') ≡ true
    → scan (l ++ e ∷ rest) ≡ ok (l ++ 0 ∷ rest, true)
unfolding scan
scan-line l e rest h k = rw (scan, runs_out-line l e rest k, mark-line l e rest h k) refl

recv_loop-line :
    (chunks : List Bytes) (b l : Bytes) (e : ℕ) (rest : Bytes) (after : List Received)
    → All (λ s. IsPlain s × (s ≢ [])) chunks
    → IsPlain b
    → IsPlain l
    → (e == b'\n' || e == b'\r') ≡ true
    → length b + length (joined chunks) + length (l ++ e ∷ rest) < 1024
    → recv_loop 1024 b (map bytes chunks ++ bytes (l ++ e ∷ rest) ∷ after)
      ≡ ok (some (b ++ (joined chunks ++ l)))
unfolding joined terminate
recv_loop-line [] b l e rest after hs hb hl k room =
    let fits : leb (length (b ++ (l ++ 0 ∷ rest)) + 1) 1024 ≡ true = ground (
      arith,
      length-append b (l ++ 0 ∷ rest),
      length-append l (0 ∷ rest),
      length-append l (e ∷ rest),
    ) in
    recv_loop-bytes 1024 b (l ++ e ∷ rest) after (l ++ 0 ∷ rest) true (append-cons-ne-nil l e rest)
      (scan-line l e rest hl k) (omega arith)
    ∙ rw fits (
        ap (λ s. ok (some s))
          (ap until_nul (sym (append_assoc b l (0 ∷ rest)))
            ∙ until_nul_lem (b ++ l) rest (All-append _ b l hb hl)))
recv_loop-line (s ∷ chunks) b l e rest after hs hb hl k room =
    let long = length-append s (joined chunks) in
    let more = length-append b s in
    recv_loop-bytes 1024 b s (map bytes chunks ++ bytes (l ++ e ∷ rest) ∷ after) s false hs.0.1
      (scan-plain s hs.0.0 (omega (arith, long))) (omega (arith, long))
    ∙ recv_loop-line chunks (b ++ s) l e rest after hs.1 (All-append _ b s hb hs.0.0) hl k
        (omega (arith, long, more))
    ∙ ap (λ t. ok (some t))
        (append_assoc b s (joined chunks ++ l)
          ∙ ap (◌++◌ b) (sym (append_assoc s (joined chunks) l)))

-- A line that comes in any number of pieces, none of them empty and none with a NUL or a line end,
-- and then a piece with the line's end and whatever follows it, is read whole and without what
-- follows, if all of these have less than 1,024 bytes.
pub socket_read_pdu-joined :
    (chunks : List Bytes) (l : Bytes) (e : ℕ) (rest : Bytes) (after : List Received)
    → All (λ s. IsPlain s × (s ≢ [])) chunks
    → IsPlain l
    → (e == b'\n' || e == b'\r') ≡ true
    → length (joined chunks) + length (l ++ e ∷ rest) < 1024
    → socket_read_pdu (map bytes chunks ++ bytes (l ++ e ∷ rest) ∷ after)
      ≡ ok (some (joined chunks ++ l))
unfolding socket_read_pdu
socket_read_pdu-joined chunks l e rest after hs hl k room =
    recv_loop-line chunks [] l e rest after hs tt hl k (omega arith)

length-pos : (s : Bytes) → s ≢ [] → 0 < length s
length-pos [] h = absurd (h refl)
length-pos (c ∷ s) h = omega arith

-- Two pieces of a line, not empty, with no NUL and no line end, and of 1,024 bytes together, overrun
-- the buffer when the peer then closes: there is no room for the terminating NUL.
pub socket_read_pdu_full :
    (s t : Bytes)
    → IsPlain s
    → IsPlain t
    → s ≢ []
    → t ≢ []
    → length s + length t ≡ 1024
    → socket_read_pdu (bytes s ∷ bytes t ∷ []) ≡ fault overflow
unfolding socket_read_pdu recv_loop terminate
socket_read_pdu_full s t hs ht sn tn full =
    let one = length-pos s sn in
    let two = length-pos t tn in
    let over : leb (length (s ++ t) + 1) 1024 ≡ false = ground (arith, length-append s t) in
    recv_loop-bytes 1024 [] s (bytes t ∷ []) s false sn (scan-plain s hs (omega (arith, two)))
      (omega arith)
    ∙ recv_loop-bytes 1024 s t [] t false tn (scan-plain t ht (omega (arith, one))) (omega arith)
    ∙ rw over
