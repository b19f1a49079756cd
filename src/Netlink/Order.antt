-- ===== src/Netlink/Order.antt =====
-- The worker of internal/netlink/nftables.go answers operations in the order of their requests.
use next_path.Base.{
  ℕ, ◌<◌, ◌≤◌, List, [], ◌∷◌, ◌++◌, map, append_assoc, Option, ◌≡◌, ◌≢◌, inl, inr, refl, sym, ap,
  ◌∙◌, arith, ltb, length, length-append, not, ◌&&◌, ◌||◌, Bool-cases,
}
use next_path.Net.{Bytes}
use next_path.Netlink.Worker.{
  Phase, waiting, draining, stopped, Answer, Worker, Step, add_mapping, close, receive, drain,
  apply, cancel_waiting, cancel_draining, Run, stay, next, flush_ops, take, request, new_worker,
  batch_max_size, batch_chan_size,
}
use next_path.Netlink.{Kernel, MappingOp, NftClient, NftError, flush_worker, is_ipv6}
use next_path.Text.{is_empty}

module _ (k : Kernel) where
  abbrev pub answered : Worker k → List MappingOp
  answered w = map (λ (a : Answer). a.0) w.answers

  pub record IsSound (w : Worker k) : Type 0 where
    pub order : w.sent ≡ answered w ++ (w.batch ++ w.queue)
    pub narrow : length w.batch ≤ batch_max_size
    pub short : length w.queue ≤ batch_chan_size
    pub resting : w.phase ≢ draining → w.batch ≡ []

  map_answers :
      (done : List Answer) (err : Option NftError) (ops : List MappingOp)
      → map (λ (a : Answer). a.0) (done ++ map (λ op. (op, err)) ops)
        ≡ map (λ (a : Answer). a.0) done ++ ops
  map_answers [] err [] = refl
  map_answers [] err (op ∷ ops) = ap (◌∷◌ op) (map_answers [] err ops)
  map_answers (a ∷ done) err ops = ap (◌∷◌ a.0) (map_answers done err ops)

  flush_ops-IsSound :
      (phase : Phase) (batch : List MappingOp) (w : Worker k)
      → w.batch ≡ batch
      → IsSound w
      → IsSound (flush_ops k phase batch w)
  unfolding flush_ops
  flush_ops-IsSound phase [] w e h = record {
    order = h.order;
    narrow = h.narrow;
    short = h.short;
    resting = λ n. e;
  }
  flush_ops-IsSound phase (op ∷ ops) w e h =
      let err = (flush_worker k (op ∷ ops) w.client).1 in
      record {
        order =
            h.order
            ∙ ap (λ b. answered w ++ (b ++ w.queue)) e
            ∙ sym (append_assoc (answered w) (op ∷ ops) w.queue)
            ∙ ap (λ a. a ++ w.queue) (sym (map_answers w.answers err (op ∷ ops)));
        narrow = omega arith;
        short = h.short;
        resting = λ n. refl;
      }

  take-IsSound :
      (op : MappingOp) (rest : List MappingOp) (w : Worker k)
      → length w.batch < batch_max_size
      → w.queue ≡ op ∷ rest
      → IsSound w
      → IsSound (take k op rest w)
  unfolding take
  take-IsSound op rest w room e h = record {
    order =
        h.order
        ∙ ap (λ q. answered w ++ (w.batch ++ q)) e
        ∙ ap (λ q. answered w ++ q) (sym (append_assoc w.batch (op ∷ []) rest));
    narrow = omega (arith, length-append w.batch (op ∷ []));
    short = omega (arith, h.short, ap length e);
    resting = λ n. absurd (n refl);
  }

  request-IsSound :
      (fake_ip real_ip : Bytes) (timeout : ℕ) (w : Worker k)
      → IsSound w
      → IsSound (request k fake_ip real_ip timeout w).0
  unfolding request
  request-IsSound fake_ip real_ip timeout w h =
      elim (Bool-cases (is_empty fake_ip || is_empty real_ip)) [
        | inl bad ↦ rw bad h
        | inr good ↦ elim (Bool-cases (not w.client.enable_ipv6 && is_ipv6 fake_ip)) [
          | inl skipped ↦ rw (good, skipped) h
          | inr kept ↦ elim (Bool-cases (ltb (length w.queue) batch_chan_size)) [
            | inr full ↦ rw (good, kept, full) h
            | inl room ↦
                let op : MappingOp = record {
                  fake_ip = fake_ip;
                  real_ip = real_ip;
                  timeout = timeout;
                } in
                rw (good, kept, room)
                  (record {
                    order =
                        ap (λ q. q ++ op ∷ []) h.order
                        ∙ append_assoc (answered w) (w.batch ++ w.queue) (op ∷ [])
                        ∙ ap (λ q. answered w ++ q) (append_assoc w.batch w.queue (op ∷ []));
                    narrow = h.narrow;
                    short = ground (arith, length-append w.queue (op ∷ []));
                    resting = h.resting;
                  })
          ]
        ]
      ]

  empty_narrow : (b : List MappingOp) → b ≡ [] → length b < batch_max_size
  empty_narrow b e = omega (arith, ap length e)

  waiting≢draining : (p : Phase) → p ≡ waiting → p ≢ draining
  waiting≢draining p e n = absurd (cc)

  pub Step-IsSound : {v w : Worker k} → Step k v w → IsSound v → IsSound w
  Step-IsSound (add_mapping {w} fake_ip real_ip timeout) h =
      request-IsSound fake_ip real_ip timeout w h
  Step-IsSound (close {w}) h = record {
    order = h.order;
    narrow = h.narrow;
    short = h.short;
    resting = h.resting;
  }
  Step-IsSound (receive {w} op rest p e) h =
      take-IsSound op rest w (empty_narrow w.batch (h.resting (waiting≢draining w.phase p))) e h
  Step-IsSound (drain {w} op rest p room e) h = take-IsSound op rest w room e h
  Step-IsSound (apply {w} p ready) h = flush_ops-IsSound waiting w.batch w refl h
  Step-IsSound (cancel_waiting {w} p c) h = flush_ops-IsSound stopped w.batch w refl h
  Step-IsSound (cancel_draining {w} p room c) h = flush_ops-IsSound stopped w.batch w refl h

  stay-IsSound : (c : NftClient k) → IsSound (new_worker k c)
  unfolding new_worker
  stay-IsSound c = record {
    order = refl;
    narrow = omega arith;
    short = omega arith;
    resting = λ n. refl;
  }

  Run-IsSound : {v w : Worker k} → Run k v w → IsSound v → IsSound w
  Run-IsSound stay h = h
  Run-IsSound (next run step) h = Step-IsSound step (Run-IsSound run h)

  -- In every run of requests, steps of the worker and Close from the start, the operations that were
  -- answered, those of the batch and those of the channel are together the ones that were sent, in
  -- the order of the requests; the batch holds at most 256 and the channel at most 8192.
  pub new_worker-IsSound : (c : NftClient k) (w : Worker k) → Run k (new_worker k c) w → IsSound w
  new_worker-IsSound c w run = Run-IsSound run (stay-IsSound c)
