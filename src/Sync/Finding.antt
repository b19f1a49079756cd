-- ===== src/Sync/Finding.antt =====
-- Which peers discoverAndConnect of internal/dnsengine/sync.go dials.
use mathlib.Core.List.{Memᴰ}
use next_path.Base.Map
use next_path.Base.{
  ℕ, Bool, true, false, List, [], ◌∷◌, Option, none, some, ◌≡◌, refl, sym, ap, ◌∙◌, All,
  if◌then◌else◌,
}
use next_path.Net.{Bytes, Bytes-discrete}
use next_path.Sync.Dialing.{try_connect, start_dial, drop_dial}
use next_path.Sync.Discovery.{Network, is_local, targets, connect_all, discover_and_connect}
use next_path.Sync.Peers.{Node, Conn}

-- A dial leaves the connections alone, and one that starts is allowed.
pub record Dials (b : Bool) (addr : Bytes) (n : Node) (r : Node × Bool) : Type 0 where
  pub conns : r.0.conns ≡ n.conns
  pub done : r.0.done ≡ n.done
  pub away : r.1 ≡ true → b ≡ false
  pub running : r.1 ≡ true → n.done ≡ false
  pub fresh : r.1 ≡ true → Map.get Bytes-discrete addr n.conns ≡ none

refused :
    (b : Bool) (addr : Bytes) (n next : Node)
    → next.conns ≡ n.conns
    → next.done ≡ n.done
    → Dials b addr n (next, false)
refused b addr n next e h = record {
  conns = e;
  done = h;
  away = λ x. absurd (cc);
  running = λ x. absurd (cc);
  fresh = λ x. absurd (cc);
}

module _ (addr : Bytes) (n noted : Node) where
  -- The last test, on the channel that is closed in the end.
  opened-Dials :
      (done : Bool)
      → noted.conns ≡ n.conns
      → noted.done ≡ n.done
      → noted.done ≡ done
      → Map.get Bytes-discrete addr n.conns ≡ none
      → Dials false addr n (if done then (drop_dial addr noted, false) else (noted, true))
  opened-Dials true e h is free = refused false addr n (drop_dial addr noted) e h
  opened-Dials false e h is free = record {
    conns = e;
    done = h;
    away = λ x. refl;
    running = λ x. sym h ∙ is;
    fresh = λ x. free;
  }

  start_dial-Dials :
      (b : Bool)
      → noted.conns ≡ n.conns
      → noted.done ≡ n.done
      → Map.get Bytes-discrete addr n.conns ≡ none
      → Dials b addr n (start_dial b addr noted)
  unfolding start_dial
  start_dial-Dials true e h free = refused true addr n (drop_dial addr noted) e h
  start_dial-Dials false e h free = opened-Dials noted.done e h refl free

  recent-Dials :
      (b recent : Bool)
      → noted.conns ≡ n.conns
      → noted.done ≡ n.done
      → Map.get Bytes-discrete addr n.conns ≡ none
      → Dials b addr n (if recent then (n, false) else start_dial b addr noted)
  recent-Dials b true e h free = refused b addr n n refl refl
  recent-Dials b false e h free = start_dial-Dials b e h free

connected-Dials :
    (b : Bool) (addr : Bytes) (n : Node) (old : Option Conn) (other : Node × Bool)
    → Map.get Bytes-discrete addr n.conns ≡ old
    → (Map.get Bytes-discrete addr n.conns ≡ none → Dials b addr n other)
    → Dials b addr n (elim old [ some c ↦ (n, false) | none ↦ other ])
connected-Dials b addr n none other e dial = dial e
connected-Dials b addr n (some c) other e dial = refused b addr n n refl refl

try_connect-Dials :
    (now : ℕ) (b : Bool) (addr : Bytes) (n : Node) → Dials b addr n (try_connect now b addr n)
unfolding try_connect
try_connect-Dials now b addr n =
    connected-Dials b addr n (Map.get Bytes-discrete addr n.conns) _ refl
      (recent-Dials addr n _ b _ refl refl)

module _ (w : Network) (n : Node) where
  -- The address is a target, of no interface of this node, and without a connection.
  abbrev pub Reached : List (Bytes × Bytes) → Bytes × Bytes → Type 0
  Reached goals dial =
      Memᴰ dial goals
      × (is_local w dial.0 ≡ false)
      × (n.done ≡ false)
      × (Map.get Bytes-discrete dial.0 n.conns ≡ none)

  more :
      (goal : Bytes × Bytes) (goals dials : List (Bytes × Bytes))
      → All (Reached goals) dials
      → All (Reached (goal ∷ goals)) dials
  more goal goals [] h = tt
  more goal goals (dial ∷ dials) ((m, away, running, fresh), later) =
      ((Memᴰ.tail m, away, running, fresh), more goal goals dials later)

  connect_all-Reached :
      (now : Bytes → ℕ) (goals : List (Bytes × Bytes)) (m : Node)
      → m.conns ≡ n.conns
      → m.done ≡ n.done
      → let r = connect_all w now goals m in (r.0.conns ≡ n.conns) × All (Reached goals) r.1
  unfolding connect_all
  connect_all-Reached now [] m e h = (e, tt)
  connect_all-Reached now ((addr, name) ∷ goals) m e h =
      let r = try_connect (now addr) (is_local w addr) addr m in
      let d = try_connect-Dials (now addr) (is_local w addr) addr m in
      let (kept, later) = connect_all-Reached now goals r.0 (d.conns ∙ e) (d.done ∙ h) in
      let dials = more (addr, name) goals (connect_all w now goals r.0).1 later in
      (
        kept,
        first r.1 (connect_all w now goals r.0).1 dials (λ s. (
          Memᴰ.head refl,
          d.away s,
          sym h ∙ d.running s,
          ap (λ conns. Map.get Bytes-discrete addr conns) (sym e) ∙ d.fresh s,
        )),
      )
    where
      first :
          (started : Bool) (dials : List (Bytes × Bytes))
          → All (Reached ((addr, name) ∷ goals)) dials
          → (started ≡ true → Reached ((addr, name) ∷ goals) (addr, name))
          → All (Reached ((addr, name) ∷ goals)) (if started then (addr, name) ∷ dials else dials)
      first true dials rest own = (own refl, rest)
      first false dials rest own = rest

  -- The dials that one round of discoverAndConnect starts, for any clock: each is to a target of the
  -- configured peers, whose host is none of the node's own addresses and to which it has no connection;
  -- there is none once the manager is closed. The connections stay as they are.
  pub discover_and_connect-Reached :
      (now : Bytes → ℕ) (sync_port : Bytes) (peers : List Bytes)
      → let r = discover_and_connect w now sync_port peers n in
        (r.0.conns ≡ n.conns) × All (Reached (targets w sync_port peers)) r.1
  unfolding discover_and_connect
  discover_and_connect-Reached now sync_port peers =
      connect_all-Reached now (targets w sync_port peers) n refl refl
