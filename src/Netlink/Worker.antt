-- ===== src/Netlink/Worker.antt =====
-- batchWorker, AddMapping and Close of internal/netlink/nftables.go as steps. A step of the worker
-- is one choice of its `select`; which of several ready channels it takes is left open. The batch is
-- applied when it is full, or when no channel is ready (`default`); this choice and the flush after it
-- are one step.
use next_path.Base.{
  ℕ, ◌<◌, ◌≤◌, ◌⊎◌, Bool, true, false, not, ◌&&◌, ◌||◌, List, [], ◌∷◌, ◌++◌, map, Option, ◌≡◌, ltb,
  if◌then◌else◌, length,
}
use next_path.Net.{Bytes}
use next_path.Netlink.{Kernel, MappingOp, NftClient, NftError, flush_worker, is_ipv6}
use next_path.Text.{is_empty}

abbrev pub batch_max_size : ℕ
batch_max_size = 256

abbrev pub batch_chan_size : ℕ
batch_chan_size = 8192

-- The outer `select`, the inner loop, and after the return.
pub data Phase : Type 0 where
  waiting : Phase
  draining : Phase
  stopped : Phase

abbrev pub Answer : Type 0
Answer = MappingOp × Option NftError

module _ (k : Kernel) where
  -- `queue` is the channel `batchCh`; `sent` are all operations that went into it, and `answers`
  -- those that were told their outcome, both in order.
  pub record Worker : Type 0 where
    pub client : NftClient k
    pub queue : List MappingOp
    pub batch : List MappingOp
    pub phase : Phase
    pub cancelled : Bool
    pub sent : List MappingOp
    pub answers : List Answer

  abbrev answer_all : Option NftError → List MappingOp → List Answer
  answer_all err = map (λ op. (op, err))

  -- `flush()` of a batch: without an operation it does nothing.
  unfoldable pub flush_ops : Phase → List MappingOp → Worker → Worker
  flush_ops phase [] w = record w { phase = phase }
  flush_ops phase (op ∷ ops) w =
      let (c, err) = flush_worker k (op ∷ ops) w.client in
      record w {
        client = c;
        batch = [];
        phase = phase;
        answers = w.answers ++ answer_all err (op ∷ ops);
      }

  abbrev pub flush_all : Phase → Worker → Worker
  flush_all phase w = flush_ops phase w.batch w

  -- `batch = append(batch, op)`, where `rest` is what the channel holds after `op`.
  unfoldable pub take : MappingOp → List MappingOp → Worker → Worker
  take op rest w = record w { queue = rest; batch = w.batch ++ op ∷ []; phase = draining }

  -- What AddMapping returns at once, or the operation that waits for its answer.
  pub data Requested : Type 0 where
    invalid_address : Requested
    ignored : Requested
    queue_full : Requested
    queued : MappingOp → Requested

  unfoldable pub request : Bytes → Bytes → ℕ → Worker → Worker × Requested
  request fake_ip real_ip timeout w =
      let op : MappingOp = record { fake_ip = fake_ip; real_ip = real_ip; timeout = timeout } in
      if is_empty fake_ip || is_empty real_ip
      then (w, invalid_address)
      else if not w.client.enable_ipv6 && is_ipv6 fake_ip
      then (w, ignored)
      else if ltb (length w.queue) batch_chan_size
      then (record w { queue = w.queue ++ op ∷ []; sent = w.sent ++ op ∷ [] }, queued op)
      else (w, queue_full)

  pub data Step : Worker → Worker → Type 0 where
    add_mapping :
        {w : Worker} (fake_ip real_ip : Bytes) (timeout : ℕ)
        → Step w (request fake_ip real_ip timeout w).0
    close : {w : Worker} → Step w (record w { cancelled = true })
    receive :
        {w : Worker} (op : MappingOp) (rest : List MappingOp)
        → w.phase ≡ waiting
        → w.queue ≡ op ∷ rest
        → Step w (take op rest w)
    drain :
        {w : Worker} (op : MappingOp) (rest : List MappingOp)
        → w.phase ≡ draining
        → length w.batch < batch_max_size
        → w.queue ≡ op ∷ rest
        → Step w (take op rest w)
    apply :
        {w : Worker}
        → w.phase ≡ draining
        → (batch_max_size ≤ length w.batch) ⊎ ((w.queue ≡ []) × (w.cancelled ≡ false))
        → Step w (flush_all waiting w)
    cancel_waiting :
        {w : Worker} → w.phase ≡ waiting → w.cancelled ≡ true → Step w (flush_all stopped w)
    cancel_draining :
        {w : Worker}
        → w.phase ≡ draining
        → length w.batch < batch_max_size
        → w.cancelled ≡ true
        → Step w (flush_all stopped w)

  pub data Run : Worker → Worker → Type 0 where
    stay : {w : Worker} → Run w w
    next : {u v w : Worker} → Run u v → Step v w → Run u w

  -- The worker of NewNFTClient.
  unfoldable pub new_worker : NftClient k → Worker
  new_worker c = record {
    client = c;
    queue = [];
    batch = [];
    phase = waiting;
    cancelled = false;
    sent = [];
    answers = [];
  }
