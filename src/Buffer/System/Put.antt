-- ===== src/Buffer/System/Put.antt =====
-- The steps of the producer.
use read_linuxthreads.Prelude.{
  ◌+◌, ◌-◌, ◌≡◌, refl, true, false, some, [], ◌∷◌, ◌++◌, arith, ◌||◌, sym, subst, ap, ◌∙◌,
  append_assoc,
}
use read_linuxthreads.Prelude.Int.{ℤ}
use read_linuxthreads.Memory.{Ptr}
use read_linuxthreads.Run.{done, suspends}
use read_linuxthreads.Semaphore.{State, wait_loop, post_loop}
use read_linuxthreads.Mutex.System.{sent}
use read_linuxthreads.Semaphore.System.{drain}
use read_linuxthreads.Buffer.{read_state, write_state, with_read, with_write, store}
use read_linuxthreads.Buffer.Contents.{store-Holds}
use read_linuxthreads.Buffer.System.{System, ready, sleeping, holding, moved, delivered}
use read_linuxthreads.Buffer.System.Waits
use read_linuxthreads.Buffer.System.Invariant.{Pair-kept, Inv}

module _ {p c : Ptr} {s : System} (inv : Inv p c s) where
  open inv use {n, r, w, xs, holds, fifo, reads, writes, kills, elements, places, pair}

  pub put_wait-Inv :
      (t : State)
      → s.producer ≡ ready
      → wait_loop [] p (write_state s.b) ≡ done true t
      → Inv p c (record s { b = with_write s.b t; producer = holding })
  put_wait-Inv t e h =
      let (pos, same) =
        Waits.wait-taken p (write_state s.b) w s.producer s.producer_woken pair.producer writes t e
          h in
      subst (λ v. Inv p c (record s { b = with_write s.b v; producer = holding })) (sym same)
        (record {
          n = n;
          r = r;
          xs = xs;
          kills = kills;
          pair = pair;
          w = w - 1;
          holds = holds;
          fifo = fifo;
          reads =
              Waits.Sem-frame c (read_state s.b) r s.consumer s.consumer_woken pair.consumer reads _
                refl refl;
          writes =
              Waits.Sem-taken p (write_state s.b) w s.producer s.producer_woken pair.producer writes
                e pos;
          elements = ground (arith, elements);
          places = ground (arith, places);
        })

  pub put_sleep-Inv :
      (t : State)
      → s.producer ≡ ready
      → wait_loop [] p (write_state s.b) ≡ suspends t
      → Inv p c (record s { b = with_write s.b t; producer = sleeping })
  put_sleep-Inv t e h =
      let (z, same) =
        Waits.wait-slept p (write_state s.b) w s.producer s.producer_woken pair.producer writes t e
          h in
      subst (λ v. Inv p c (record s { b = with_write s.b v; producer = sleeping })) (sym same)
        (record {
          n = n;
          r = r;
          xs = xs;
          holds = holds;
          fifo = fifo;
          kills = kills;
          w = 0;
          reads =
              Waits.Sem-frame c (read_state s.b) r s.consumer s.consumer_woken pair.consumer reads _
                refl (ground (arith, pair.apart));
          writes =
              Waits.Sem-slept p (write_state s.b) w s.producer s.producer_woken pair.producer writes
                e;
          elements = ground (arith, elements);
          places = ground (arith, places);
          pair = Pair-kept _ pair (λ a. ground arith);
        })

  pub put_wake-Inv :
      s.producer ≡ sleeping
      → s.producer_woken ≡ true
      → Inv p c (record s { producer = ready; producer_woken = false })
  put_wake-Inv e h = record {
    n = n;
    r = r;
    w = w;
    xs = xs;
    holds = holds;
    fifo = fifo;
    kills = kills;
    pair = pair;
    reads = reads;
    writes =
        Waits.Sem-woken p (write_state s.b) w s.producer s.producer_woken pair.producer writes e h;
    elements = ground (arith, elements);
    places = ground (arith, places);
  }

  pub put_store-Inv :
      (d : ℤ)
      → s.producer ≡ holding
      → Inv p c (record s { b = store d s.b; producer = moved; put_in = s.put_in ++ d ∷ [] })
  unfolding store
  put_store-Inv d e = record {
    r = r;
    w = w;
    kills = kills;
    pair = pair;
    n = n + 1;
    xs = xs ++ d ∷ [];
    holds = store-Holds d s.b n xs holds (ground (arith, places));
    fifo = sym (append_assoc s.taken_out xs (d ∷ [])) ∙ ap (λ ys. ys ++ d ∷ []) fifo;
    reads =
        Waits.Sem-frame c (read_state s.b) r s.consumer s.consumer_woken pair.consumer reads _ refl
          refl;
    writes =
        Waits.Sem-frame p _ w moved s.producer_woken pair.producer
          (Waits.Sem-moves p (write_state s.b) w s.producer s.producer_woken pair.producer writes
            moved (ground arith) (ground arith))
          _ refl refl;
    elements = ground (arith, elements);
    places = ground (arith, places);
  }

  pub put_post-Inv :
      (t : State)
      → s.producer ≡ moved
      → post_loop 1 [] p (read_state s.b) ≡ some (done true t)
      → Inv p c (delivered p c (record s { b = with_read s.b t; producer = ready }))
  put_post-Inv t e h =
      let raised =
        Waits.post-Raised c (read_state s.b) r s.consumer s.consumer_woken pair.consumer reads p t
          h in
      let nobody =
        Waits.sent-other c (read_state s.b) r s.consumer s.consumer_woken pair.consumer reads t p
          raised kills (ground (arith, pair.pids)) in
      let kept : s.producer_woken
          ≡ (s.producer_woken || sent (t.process.desc p).p_pid t.process.kills) =
        ground (arith, nobody) in
      record {
        n = n;
        w = w;
        xs = xs;
        holds = holds;
        fifo = fifo;
        r = r + 1;
        reads =
            Waits.Sem-Raised c (read_state s.b) r s.consumer s.consumer_woken pair.consumer reads t
              raised kills (ground (arith, elements, places));
        writes =
            subst
              (λ v.
                Waits.Sem p (record { sem_status = s.b.sem_write; process = drain t.process }) w
                  ready v)
              kept
              (Waits.Sem-frame p (write_state s.b) w ready s.producer_woken pair.producer
                (Waits.Sem-moves p (write_state s.b) w s.producer s.producer_woken pair.producer
                  writes ready (ground arith) (ground arith))
                _ refl (raised.links p pair.apart));
        kills = refl;
        elements = ground (arith, elements);
        places = ground (arith, places);
        pair = Pair-kept _ pair raised.pids;
      }
