-- ===== src/Worker/Alive.antt =====
-- A worker answers however many connections it has served.
use nagios_snmp.Base.{
  ℕ, ◌+◌, ◌<◌, Bool, true, false, ◌||◌, List, [], ◌∷◌, ◌++◌, map, some, Bytes, codes, equal, Result,
  ok, fault, not, ◌>>=◌, ◌==◌, if◌then◌else◌, length, All, ◌≡◌, ◌≢◌, refl, ◌∙◌,
}
use nagios_snmp.Base.Int.{ℤ}
use nagios_snmp.Db.Tables.{HashTable}
use nagios_snmp.Db.{same_int, Db}
use nagios_snmp.Socket.{Received, bytes}
use nagios_snmp.Socket.Framing.{IsPlain, joined}
use nagios_snmp.Trap.Parse.Tokens.{IsWord, unwords}
use nagios_snmp.Trap.Parse.Wire.{Differs}
use nagios_snmp.Worker.{Settings}
use nagios_snmp.Worker.Answers.{child_thread_alive}
use nagios_snmp.Worker.Loop.{
  Wake, Event, wake, WorkerState, take_client, serve, hand_over, worker_start_main_loop,
}

then_once :
    {A B C : Type 0} (m : Result A) (f : A → Result C) (g : A → Result B) (k : B → Result C)
    → ((a : A) → f a ≡ (g a >>= k))
    → (m >>= f) ≡ ((m >>= g) >>= k)
then_once (ok a) f g k e = e a
then_once (fault x) f g k e = refl

then_twice :
    {A B C D : Type 0} (m : Result A) (h : A → Result B) (f : B → Result D) (g : B → Result C)
    (k : C → Result D)
    → ((b : B) → f b ≡ (g b >>= k))
    → (m >>= λ a. h a >>= f) ≡ ((m >>= λ a. h a >>= g) >>= k)
then_twice (ok a) h f g k e = then_once (h a) f g k e
then_twice (fault x) h f g k e = refl

-- A connection on the primary socket, or on the private one.
abbrev pub client_on : Bool → List Received → Wake
client_on is_private calls = record {
  select_failed = false;
  server_ready = not is_private;
  private_ready = is_private;
  accepted = some calls;
}

take_client-client_on :
    (is_private : Bool) (calls : List Received)
    → take_client (client_on is_private calls) ≡ ok (is_private, calls)
unfolding take_client
take_client-client_on true calls = refl
take_client-client_on false calls = refl

module _ (S : HashTable Bytes equal) (I : HashTable ℤ same_int) (db : Db S I) (settings : Settings)
    (plugin : ℕ → Bytes → List Bytes) (taken : ℕ → Bool) (set_permissions : Bytes → Bool)
    (clock : ℕ → ℕ × ℕ) (adds_task : ℕ → Bool) where
  abbrev pub serve_all : List Event → WorkerState → Result WorkerState
  serve_all events w =
      worker_start_main_loop S I db settings plugin taken set_permissions clock adds_task 0 events w

  -- The connections of a list, and then those of another.
  serve_all-append :
      (ws : List Wake) (rest : List Event) (w : WorkerState)
      → serve_all (map wake ws ++ rest) w ≡ (serve_all (map wake ws) w >>= serve_all rest)
  unfolding worker_start_main_loop
  serve_all-append [] rest w = refl
  serve_all-append (woken ∷ ws) rest w =
      then_twice (take_client woken)
        (λ c. hand_over S I db settings plugin taken set_permissions clock adds_task 0 c w)
        (serve_all (map wake ws ++ rest)) (serve_all (map wake ws)) (serve_all rest)
        (serve_all-append ws rest)

  -- Without a pool, behind any connections that a worker has served, one that asks whether the
  -- daemon is alive is answered as in `child_thread_alive`, on either socket, and its session is the
  -- last; the earlier sessions, the counter and the channel stay as they were.
  pub worker_loop_alive :
      (woken : List Wake) (before behind : WorkerState) (is_private : Bool) (ws : List Bytes)
      (chunks : List Bytes) (l : Bytes) (e : ℕ) (rest : Bytes) (after : List Received)
      → All IsWord (codes "ALIVE?" ∷ ws)
      → Differs settings.tokenizer (codes "ALIVE?")
      → joined chunks ++ l ≡ unwords (codes "ALIVE?" ∷ ws)
      → All (λ s. IsPlain s × (s ≢ [])) chunks
      → IsPlain l
      → (e == b'\n' || e == b'\r') ≡ true
      → length (joined chunks) + length (l ++ e ∷ rest) < 1024
      → serve_all (map wake woken) before ≡ ok behind
      → serve_all
          (map wake woken
            ++ wake (client_on is_private (map bytes chunks ++ bytes (l ++ e ∷ rest) ∷ after)) ∷ [])
          before
        ≡ ok (record behind {
          sessions =
              behind.sessions
              ++ record {
                sent = if settings.send_enabled then codes "YES" ∷ codes "\n" ∷ [] else [];
                trap_parsed = behind.trap_parsed;
                channel = behind.channel;
                logged = [];
                closed = true;
              }
                ∷ [];
        })
  unfolding worker_start_main_loop hand_over serve
  worker_loop_alive woken before behind is_private ws chunks l e rest after h d line hs hl k room
        run =
      let time = clock (length behind.sessions) in
      let alive =
        child_thread_alive S I db settings plugin taken set_permissions time.0 time.1
          behind.trap_parsed is_private behind.channel ws chunks l e rest after h d line hs hl k
          room in
      serve_all-append woken _ before
      ∙ rw run (
          rw (take_client-client_on is_private (map bytes chunks ++ bytes (l ++ e ∷ rest) ∷ after))
            (rw alive refl))
