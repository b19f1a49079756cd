-- ===== src/Tests/Leases.antt =====
-- Calls on a pool of internal/dnsengine/ippool.go that is empty at first.
use next_path.Base.{false, List, [], ◌∷◌, inr, refl, arith}
use next_path.Leases.Refining.{run_all-Behaves}
use next_path.Alloc.Round.{IsReady}
use next_path.Leases.{Op, add, reserve, remove, prune, give, hear, run_all, leases, Behaves}
use next_path.Net.{IsIp}
use next_path.Tests.Data.{
  empty_pool, pool_of-IsReady, google, cloudflare, google-IsIp, cloudflare-IsIp, fake_seven,
  fake_nine,
}

fake_seven-IsIp : IsIp fake_seven
fake_seven-IsIp = record { width = inr refl; bytes = omega arith }

fake_nine-IsIp : IsIp fake_nine
fake_nine-IsIp = record { width = inr refl; bytes = omega arith }

-- An allocation, a mapping from a peer, a reservation, an end and a pruning.
abbrev calls : List Op
calls =
    give false 1000 (λ ip. 1000) (google ∷ [])
    ∷ hear 2000 1000
    ∷ add google fake_seven 2000 9000
    ∷ reserve cloudflare fake_nine 2001 9000 1000 1000
    ∷ remove google fake_seven
    ∷ prune 9001
    ∷ []

run_all-Behaves_example :
    IsReady (run_all calls empty_pool)
    × Behaves calls (leases empty_pool) (leases (run_all calls empty_pool))
run_all-Behaves_example = run_all-Behaves calls empty_pool (pool_of-IsReady 65536) (
  (google-IsIp, tt),
  (
    tt,
    ((google-IsIp, fake_seven-IsIp), ((cloudflare-IsIp, fake_nine-IsIp), (google-IsIp, (tt, tt)))),
  ),
)
