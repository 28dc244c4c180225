-- ===== src/Socket.antt =====
-- src/socket.c, `socket_read_pdu`: a line from a connection. What `recv` returns is an argument: the
-- bytes of a call, which may hold NUL, or an error; behind the last call the peer has closed.
pub mod Create
pub mod Framing
use nagios_snmp.Base.{
  ℕ, zero, suc, ◌+◌, ◌*◌, Bool, true, false, not, ◌&&◌, ◌||◌, List, [], ◌∷◌, ◌++◌, Option, none,
  some, Bytes, CString, Result, ok, fault, overflow, ◌>>=◌, ◌>>◌, ltb, leb, ◌==◌, if◌then◌else◌,
  length,
}
use nagios_snmp.Base.Stdio.{until_nul}

pub data Received : Type 0 where
  bytes : Bytes → Received
  failed : Received

abbrev pub sck_buf_size : ℕ
sck_buf_size = 1024

-- The loop over `in_buf`: the bytes with the first line end turned to NUL, and `cr_found`. It stops
-- at a NUL.
unfoldable pub mark : Bytes → Bytes × Bool
mark [] = ([], false)
mark (c ∷ s) =
    let rest = mark s in
    if c == 0
    then (c ∷ s, false)
    else if c == b'\n' || c == b'\r'
    then (0 ∷ s, true)
    else (c ∷ rest.0, rest.1)

-- Does the loop run to the end of what was received?
unfoldable pub runs_out : Bytes → Bool
runs_out [] = true
runs_out (c ∷ s) =
    let rest = runs_out s in if c == 0 || (c == b'\n' || c == b'\r') then false else rest

-- `in_buf[i]` is read in front of the test of `i`: past the array if it is full.
unfoldable pub scan : Bytes → Result (Bytes × Bool)
unfolding mark runs_out
scan received =
    if runs_out received && leb sck_buf_size (length received)
    then fault overflow
    else ok (mark received)

-- Behind the loop: the buffer is ended by a NUL.
unfoldable pub terminate : ℕ → Bytes → Result CString
unfolding until_nul
terminate alloclen buffer =
    if leb (length buffer + 1) alloclen then ok (some (until_nul buffer)) else fault overflow

-- The room behind a call that received `n` bytes.
abbrev pub room_for : ℕ → ℕ → ℕ → ℕ
room_for alloclen bufferlen n =
    if ltb alloclen (bufferlen + n) then bufferlen + n + 2 * alloclen else alloclen

unfoldable pub recv_loop : ℕ → Bytes → List Received → Result CString
unfolding scan terminate
recv_loop alloclen buffer [] = terminate alloclen buffer
recv_loop alloclen buffer (failed ∷ next) = ok none
recv_loop alloclen buffer (bytes [] ∷ next) = terminate alloclen buffer
recv_loop alloclen buffer (bytes (c ∷ s) ∷ next) = do
  marked ← scan (c ∷ s)
  let alloc = room_for alloclen (length buffer) (length (c ∷ s))
  let all = buffer ++ marked.0
  if marked.1 then terminate alloc all else recv_loop alloc all next

unfoldable pub socket_read_pdu : List Received → Result CString
unfolding recv_loop
socket_read_pdu calls = recv_loop sck_buf_size [] calls
