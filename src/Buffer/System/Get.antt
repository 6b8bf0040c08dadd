-- ===== src/Buffer/System/Get.antt =====
-- The steps of the consumer.
use read_linuxthreads.Prelude.{
  ℕ, zero, suc, ◌+◌, ◌-◌, ◌≡◌, ◌≢◌, refl, true, false, some, List, [], ◌∷◌, ◌++◌, arith, ◌||◌, sym,
  subst, ap, ◌∙◌, append_assoc,
}
use read_linuxthreads.Prelude.Int.{ℤ}
use read_linuxthreads.Memory.{Ptr}
use read_linuxthreads.Run.{done, suspends}
use read_linuxthreads.Semaphore.{State, wait_loop, post_loop}
use read_linuxthreads.Mutex.System.{sent}
use read_linuxthreads.Semaphore.System.{drain}
use read_linuxthreads.Buffer.{Prodcons, read_state, write_state, with_read, with_write, fetch}
use read_linuxthreads.Buffer.Contents.{HoldsIn, fetch-Holds}
use read_linuxthreads.Buffer.System.{System, ready, sleeping, holding, moved, delivered}
use read_linuxthreads.Buffer.System.Waits
use read_linuxthreads.Buffer.System.Invariant.{Pair-kept, Inv}

head_of :
    (n : ℕ) (b : Prodcons) (xs : List ℤ)
    → HoldsIn b n xs
    → n ≢ 0
    → (k : ℕ) × (x : ℤ) × (ys : List ℤ) × (n ≡ suc k) × (xs ≡ x ∷ ys)
head_of zero b xs h ne = absurd (ne refl)
head_of (suc k) b xs h ne = (k, _, _, refl, sym h.content)

module _ {p c : Ptr} {s : System} (inv : Inv p c s) where
  open inv use {n, r, w, xs, holds, fifo, reads, writes, kills, elements, places, pair}

  pub get_wait-Inv :
      (t : State)
      → s.consumer ≡ ready
      → wait_loop [] c (read_state s.b) ≡ done true t
      → Inv p c (record s { b = with_read s.b t; consumer = holding })
  get_wait-Inv t e h =
      let (pos, same) =
        Waits.wait-taken c (read_state s.b) r s.consumer s.consumer_woken pair.consumer reads t e
          h in
      subst (λ v. Inv p c (record s { b = with_read s.b v; consumer = holding })) (sym same)
        (record {
          n = n;
          w = w;
          xs = xs;
          kills = kills;
          pair = pair;
          r = r - 1;
          holds = holds;
          fifo = fifo;
          writes =
              Waits.Sem-frame p (write_state s.b) w s.producer s.producer_woken pair.producer writes
                _ refl refl;
          reads =
              Waits.Sem-taken c (read_state s.b) r s.consumer s.consumer_woken pair.consumer reads e
                pos;
          elements = ground (arith, elements);
          places = ground (arith, places);
        })

  pub get_sleep-Inv :
      (t : State)
      → s.consumer ≡ ready
      → wait_loop [] c (read_state s.b) ≡ suspends t
      → Inv p c (record s { b = with_read s.b t; consumer = sleeping })
  get_sleep-Inv t e h =
      let (z, same) =
        Waits.wait-slept c (read_state s.b) r s.consumer s.consumer_woken pair.consumer reads t e
          h in
      subst (λ v. Inv p c (record s { b = with_read s.b v; consumer = sleeping })) (sym same)
        (record {
          n = n;
          w = w;
          xs = xs;
          holds = holds;
          fifo = fifo;
          kills = kills;
          r = 0;
          writes =
              Waits.Sem-frame p (write_state s.b) w s.producer s.producer_woken pair.producer writes
                _ refl (ground (arith, pair.apart));
          reads =
              Waits.Sem-slept c (read_state s.b) r s.consumer s.consumer_woken pair.consumer reads
                e;
          elements = ground (arith, elements);
          places = ground (arith, places);
          pair = Pair-kept _ pair (λ a. ground arith);
        })

  pub get_wake-Inv :
      s.consumer ≡ sleeping
      → s.consumer_woken ≡ true
      → Inv p c (record s { consumer = ready; consumer_woken = false })
  get_wake-Inv e h = record {
    n = n;
    r = r;
    w = w;
    xs = xs;
    holds = holds;
    fifo = fifo;
    kills = kills;
    pair = pair;
    writes = writes;
    reads =
        Waits.Sem-woken c (read_state s.b) r s.consumer s.consumer_woken pair.consumer reads e h;
    elements = ground (arith, elements);
    places = ground (arith, places);
  }

  pub get_fetch-Inv :
      s.consumer ≡ holding
      → Inv p c (record s {
        b = (fetch s.b).1;
        consumer = moved;
        taken_out = s.taken_out ++ (fetch s.b).0 ∷ [];
      })
  unfolding fetch
  get_fetch-Inv e =
      let (k, x, ys, size, front) = head_of n s.b xs holds (ground (arith, elements)) in
      let (first, left) =
        fetch-Holds s.b k x ys
          (subst (λ zs. HoldsIn s.b (suc k) zs) front (subst (λ m. HoldsIn s.b m xs) size holds)) in
      record {
        r = r;
        w = w;
        kills = kills;
        pair = pair;
        n = k;
        xs = ys;
        holds = left;
        fifo =
            append_assoc s.taken_out ((fetch s.b).0 ∷ []) ys
            ∙ ap (λ z. s.taken_out ++ z ∷ ys) first
            ∙ ap (λ zs. s.taken_out ++ zs) (sym front)
            ∙ fifo;
        reads =
            Waits.Sem-frame c _ r moved s.consumer_woken pair.consumer
              (Waits.Sem-moves c (read_state s.b) r s.consumer s.consumer_woken pair.consumer reads
                moved (ground arith) (ground arith))
              _ refl refl;
        writes =
            Waits.Sem-frame p (write_state s.b) w s.producer s.producer_woken pair.producer writes _
              refl refl;
        elements = ground (arith, elements);
        places = ground (arith, places);
      }

  pub get_post-Inv :
      (t : State)
      → s.consumer ≡ moved
      → post_loop 1 [] c (write_state s.b) ≡ some (done true t)
      → Inv p c (delivered p c (record s { b = with_write s.b t; consumer = ready }))
  get_post-Inv t e h =
      let raised =
        Waits.post-Raised p (write_state s.b) w s.producer s.producer_woken pair.producer writes c t
          h in
      let nobody =
        Waits.sent-other p (write_state s.b) w s.producer s.producer_woken pair.producer writes t c
          raised kills pair.pids in
      let kept : s.consumer_woken
          ≡ (s.consumer_woken || sent (t.process.desc c).p_pid t.process.kills) =
        ground (arith, nobody) in
      record {
        n = n;
        r = r;
        xs = xs;
        holds = holds;
        fifo = fifo;
        w = w + 1;
        reads =
            subst
              (λ v.
                Waits.Sem c (record { sem_status = s.b.sem_read; process = drain t.process }) r
                  ready v)
              kept
              (Waits.Sem-frame c (read_state s.b) r ready s.consumer_woken pair.consumer
                (Waits.Sem-moves c (read_state s.b) r s.consumer s.consumer_woken pair.consumer
                  reads ready (ground arith) (ground arith))
                _ refl (raised.links c (ground (arith, pair.apart))));
        writes =
            Waits.Sem-Raised p (write_state s.b) w s.producer s.producer_woken pair.producer writes
              t raised kills (ground (arith, elements, places));
        kills = refl;
        elements = ground (arith, elements);
        places = ground (arith, places);
        pair = Pair-kept _ pair raised.pids;
      }
