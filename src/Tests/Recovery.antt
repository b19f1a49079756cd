-- ===== src/Tests/Recovery.antt =====
-- The loop of main in cmd/nextpath-engine/main.go on a pool without a mapping and two mappings that
-- ReadExistingMappings of internal/netlink/nftables.go reads.
use next_path.Base.Map
use next_path.Base.Map.{Map}
use next_path.Base.{ℕ_discrete, ap, true, [], ◌∷◌, some, ◌≡◌, ◌≢◌, refl}
use next_path.Net.Keys.{to_ip_key-IsKey}
use next_path.Net.{Bytes-discrete, be_uint32, IpKey-discrete, IsIp, to4, to_ip_key}
use next_path.Alloc.{IpText}
use next_path.Base.{inr, arith}
use next_path.Netlink.Recovery.{
  MappingRecovery, listed, put_elements, read_set, read_existing_mappings, recover,
  recover-Restored, Restored,
}
use next_path.Tests.Data.{
  empty_pool, empty-fake_of, empty-real_of, pool_of-IsValid, google, cloudflare, google-IsIp,
  cloudflare-IsIp, fake_seven, fake_nine,
}

abbrev recovered : Map IpText MappingRecovery
recovered =
    (to_ip_key fake_nine, record { real_ip = cloudflare; expires = 60 })
    ∷ (to_ip_key fake_seven, record { real_ip = google; expires = 3600 })
    ∷ []

read_both :
    read_existing_mappings true true
      (listed (
        record { key = fake_seven; val = google; expires = 3600 }
        ∷ record { key = fake_nine; val = cloudflare; expires = 60 }
        ∷ []))
      (listed [])
    ≡ some recovered
unfolding read_existing_mappings read_set put_elements Map.put Map.delete to_ip_key IpKey-discrete
    to4 ℕ_discrete
read_both = refl

fake_seven-IsIp : IsIp fake_seven
fake_seven-IsIp = record { width = inr refl; bytes = omega arith }

fake_nine-IsIp : IsIp fake_nine
fake_nine-IsIp = record { width = inr refl; bytes = omega arith }

numbers :
    ((to_ip_key google).v4 ≡ 134744072)
    × ((to_ip_key cloudflare).v4 ≡ 16843009)
    × ((to_ip_key fake_seven).v4 ≡ 3323068423)
    × ((to_ip_key fake_nine).v4 ≡ 3323068425)
unfolding to_ip_key to4 be_uint32 Bytes-discrete ℕ_discrete
numbers = (refl, refl, refl, refl)

reals_differ : to_ip_key cloudflare ≢ to_ip_key google
reals_differ e =
    let same : (to_ip_key cloudflare).v4 ≡ (to_ip_key google).v4 = ap (λ k. k.v4) e in
    absurd (omega (arith, numbers))

fakes_differ : to_ip_key fake_nine ≢ to_ip_key fake_seven
fakes_differ e =
    let same : (to_ip_key fake_nine).v4 ≡ (to_ip_key fake_seven).v4 = ap (λ k. k.v4) e in
    absurd (omega (arith, numbers))

recover-Restored_example : Restored empty_pool recovered (recover (λ k. 1000) recovered empty_pool)
recover-Restored_example =
    recover-Restored (λ k. 1000) recovered empty_pool (pool_of-IsValid 65536)
      (
        (to_ip_key-IsKey fake_nine fake_nine-IsIp, cloudflare-IsIp),
        ((to_ip_key-IsKey fake_seven fake_seven-IsIp, google-IsIp), tt),
      )
      (((reals_differ, fakes_differ), tt), (tt, tt))
      (
        (empty-real_of 65536 (to_ip_key fake_nine), empty-fake_of 65536 (to_ip_key cloudflare)),
        ((empty-real_of 65536 (to_ip_key fake_seven), empty-fake_of 65536 (to_ip_key google)), tt),
      )
