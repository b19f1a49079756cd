-- ===== src/Tests/Sync.antt =====
-- Theorems of internal/dnsengine/sync.go at concrete messages.
use next_path.Base.{ℕ_discrete, List, [], ◌∷◌, none, some, ◌≡◌, arith}
use next_path.Net.{to4, to16, to_ip_key, normalize_ip, fnv1a_bytes, Bytes-discrete, to_ip, Bytes}
use next_path.Pool.Views.{key_index}
use next_path.Pool.{Mapping, get_shard_index}
use next_path.Sync.Connections.{dialled, accepted, should_keep_new_connection-agree}
use next_path.Sync.Receiving.{Received, receive_message-Received}
use next_path.Sync.{SyncManager, should_keep_new_connection, receive_message}
use next_path.Tests.Data.{
  empty_pool, google, cloudflare, fake_seven, google-IsIp, cloudflare-IsIp, pool_of-IsValid,
}

abbrev node_a : Bytes
node_a = 49 ∷ []

abbrev node_b : Bytes
node_b = 50 ∷ []

should_keep_new_connection-agree_example :
    should_keep_new_connection 7 node_a (accepted 9) (dialled 9) node_b
    ≡ should_keep_new_connection 9 node_b (dialled 7) (accepted 7) node_a
should_keep_new_connection-agree_example = should_keep_new_connection-agree 7 9 node_a node_b

abbrev manager : SyncManager
manager = record {
  pool = empty_pool;
  parsed_net_v4 = some (record { ip = 198 ∷ 18 ∷ 0 ∷ 0 ∷ []; mask = 255 ∷ 255 ∷ 0 ∷ 0 ∷ [] });
  parsed_net_v6 = none;
  applied = [];
  metrics_syncs = 0;
}

abbrev message : List Mapping
message =
    (record { fake_ip = fake_seven; real_ip = google; version = 5 })
    ∷ (record { fake_ip = google; real_ip = cloudflare; version = 6 })
    ∷ []

receive_message-Received_example :
    Received manager message (receive_message (λ _. (1, 2)) message manager)
receive_message-Received_example =
    receive_message-Received (λ _. (1, 2)) message manager (google-IsIp, (cloudflare-IsIp, tt))
      (pool_of-IsValid 65536)

-- A real address of three bytes is put in another shard than its key belongs to.
malformed : ¬ (get_shard_index (1 ∷ 2 ∷ 3 ∷ []) ≡ key_index (to_ip_key (1 ∷ 2 ∷ 3 ∷ [])))
unfolding key_index get_shard_index to_ip_key to_ip to4 to16 normalize_ip fnv1a_bytes Bytes-discrete
    ℕ_discrete
malformed e = omega (arith, e)
