-- ===== src/Netlink/Answers.antt =====
-- The worker of internal/netlink/nftables.go can always answer what waits, until it has returned.
use next_path.Base.{
  ℕ, ◌≤◌, ◌<◌, ◌⊎◌, inl, inr, leb, length, Bool-cases, arith, List, [], ◌∷◌, ◌++◌, append-nil, ◌≡◌,
  ◌≢◌, refl, sym, ap, ◌∙◌,
}
use next_path.Netlink.Order.{answered, IsSound, new_worker-IsSound, Step-IsSound}
use next_path.Netlink.Worker.{
  Phase, waiting, draining, stopped, Worker, Step, drain, cancel_draining, batch_max_size, receive,
  apply, Run, next, flush_all, flush_ops, take, new_worker,
}
use next_path.Netlink.{Kernel, MappingOp, NftClient}

module _ (k : Kernel) where
  -- What a flush leaves.
  record Flushed (phase : Phase) (w v : Worker k) : Type 0 where
    phase_set : v.phase ≡ phase
    queue_kept : v.queue ≡ w.queue
    sent_kept : v.sent ≡ w.sent
    cancelled_kept : v.cancelled ≡ w.cancelled
    batch_empty : v.batch ≡ []

  flush_ops-Flushed :
      (phase : Phase) (batch : List MappingOp) (w : Worker k)
      → w.batch ≡ batch
      → Flushed phase w (flush_ops k phase batch w)
  unfolding flush_ops
  flush_ops-Flushed phase [] w e = record {
    phase_set = refl;
    queue_kept = refl;
    sent_kept = refl;
    cancelled_kept = refl;
    batch_empty = e;
  }
  flush_ops-Flushed phase (op ∷ ops) w e = record {
    phase_set = refl;
    queue_kept = refl;
    sent_kept = refl;
    cancelled_kept = refl;
    batch_empty = refl;
  }

  -- A run from `u` that has answered all that was sent in `w`, with no call of Close.
  abbrev pub Settles : Worker k → Worker k → Type 0
  Settles u w =
      (v : Worker k) × Run k u v
      × (v.sent ≡ w.sent)
      × (v.cancelled ≡ w.cancelled)
      × (answered k v ≡ w.sent)

  waiting≢draining : (p : Phase) → p ≡ waiting → p ≢ draining
  waiting≢draining p e n = absurd (cc)

  -- Nothing waits.
  settled :
      (u w v : Worker k)
      → Run k u v
      → v.sent ≡ w.sent
      → v.cancelled ≡ w.cancelled
      → v.batch ≡ []
      → v.queue ≡ []
      → IsSound k v
      → Settles u w
  settled u w v run same closes batch queue h = (
    v,
    run,
    same,
    closes,
    sym (
        sym same
        ∙ h.order
        ∙ ap (λ b. answered k v ++ (b ++ v.queue)) batch
        ∙ ap (λ q. answered k v ++ q) queue
        ∙ append-nil (answered k v)),
  )

  -- The channel is empty: the last flush, before the worker waits or returns.
  finish :
      (u w : Worker k) (phase : Phase)
      → Run k u w
      → w.queue ≡ []
      → Step k w (flush_all k phase w)
      → IsSound k w
      → Settles u w
  finish u w phase run e step h =
      let f = flush_ops-Flushed phase w.batch w refl in
      settled u w (flush_all k phase w) (next run step) f.sent_kept f.cancelled_kept f.batch_empty
        (f.queue_kept ∙ e) (Step-IsSound k step h)

  full_or_room : (m : ℕ) → (batch_max_size ≤ m) ⊎ (m < batch_max_size)
  full_or_room m = elim (Bool-cases (leb batch_max_size m)) [
    | inl full ↦ inl (ground arith)
    | inr room ↦ inr (ground arith)
  ]

  -- The worker takes what the channel holds, one by one, and flushes each batch that is full.
  drain_all :
      (u w : Worker k) (queue : List MappingOp)
      → Run k u w
      → w.queue ≡ queue
      → w.phase ≡ draining
      → IsSound k w
      → Settles u w
  unfolding take
  drain_all u w [] run e p h = elim (full_or_room (length w.batch)) [
    | inl full ↦ finish u w waiting run e (apply p (inl full)) h
    | inr room ↦ elim (Bool-cases w.cancelled) [
      | inl cancelled ↦ finish u w stopped run e (cancel_draining p room cancelled) h
      | inr running ↦ finish u w waiting run e (apply p (inr (e, running))) h
    ]
  ]
  drain_all u w (op ∷ rest) run e p h = elim (full_or_room (length w.batch)) [
    | inr room ↦
        let step = drain op rest p room e in
        drain_all u (take k op rest w) rest (next run step) refl refl (Step-IsSound k step h)
    | inl full ↦
        let applied = apply p (inl full) in
        let f = flush_ops-Flushed waiting w.batch w refl in
        let received = receive op rest f.phase_set (f.queue_kept ∙ e) in
        let (v, more, same, closes, done) =
          drain_all u (take k op rest (flush_all k waiting w)) rest
            (next (next run applied) received) refl refl
            (Step-IsSound k received (Step-IsSound k applied h)) in
        (v, more, same ∙ f.sent_kept, closes ∙ f.cancelled_kept, done ∙ f.sent_kept)
  ]

  settle_phase :
      (w : Worker k) (phase : Phase) (queue : List MappingOp)
      → w.phase ≡ phase
      → w.queue ≡ queue
      → phase ≢ stopped
      → IsSound k w
      → Settles w w
  unfolding take
  settle_phase w waiting [] p e n h =
      settled w w w Run.stay refl refl (h.resting (waiting≢draining w.phase p)) e h
  settle_phase w waiting (op ∷ rest) p e n h =
      let step = receive op rest p e in
      drain_all w (take k op rest w) rest (next Run.stay step) refl refl (Step-IsSound k step h)
  settle_phase w draining queue p e n h = drain_all w w queue Run.stay e p h
  settle_phase w stopped queue p e n h = absurd (n refl)

  -- After any run from the start in which the worker has not returned, there is a run of it without a
  -- new request or a first call of Close after which every operation sent was answered, in the order of
  -- the requests.
  pub new_worker-Settles :
      (c : NftClient k) (w : Worker k) → Run k (new_worker k c) w → w.phase ≢ stopped → Settles w w
  new_worker-Settles c w run n =
      settle_phase w w.phase w.queue refl refl n (new_worker-IsSound k c w run)
