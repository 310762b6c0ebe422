-- ===== src/Threads/Progress/Moves.antt =====
-- impl/all/conc/conc.cc: a thread in the critical section, or before the free lock, can take its next
-- step.
use wineing.Prelude.{ℕ, ◌<◌, ◌≡◌, ◌≢◌, refl, sym, ap, subst, ◌∙◌, Option, none, some, arith, length}
use wineing.Prelude.Memory.{Bytes}
use wineing.Ctrl.{default_data_size}
use wineing.Ctrl.Copy.{IsValid}
use wineing.Threads.{
  Pc, idle, waiting, entered, versioned, cmd_copied, size_copied, data_copied, free, Memory, Local,
  World, WriterMove, ReaderMove, Step, update,
}
use wineing.Threads.Safety.{place}
use wineing.Threads.Progress.{
  left, Sound, Onward, copy_data-some, update-same, update-other, update-allocated,
}

module _ (s : World) (v : Sound s) where
  -- A move of the writer.
  writer_on :
      {m : Memory} {l : Local}
      → WriterMove s.memory s.writer m l
      → IsValid m.value
      → l.t_data ≡ s.writer.t_data
      → left l.pc < left s.writer.pc
      → (l.pc ≡ idle → m.lock ≡ free)
      → Onward none s
  writer_on {m} {l} mv k d h f = record {
    after = record s { memory = m; writer = l };
    step = Step.writes mv;
    sound = record {
      shared_valid = k;
      writer_valid = subst IsValid (sym d) v.writer_valid;
      allocated = v.allocated;
    };
    less = h;
    others = elim [ none ↦ λ n. absurd (n refl) | some j ↦ λ n. refl ];
    freed = f;
  }

  with_buffer :
      (b : Bytes) → length b ≡ default_data_size → IsValid (record s.memory.value { buffer = b })
  with_buffer b a = record { allocated = a; within = v.shared_valid.within }

  writer_stores : s.writer.pc ≡ size_copied → Onward none s
  writer_stores e =
      let (b, c, a) =
        copy_data-some s.memory.value s.writer.t_data v.shared_valid.allocated v.writer_valid in
      writer_on (WriterMove.store_data b e c) (with_buffer b a) refl (omega (arith, ap left e))
        (λ q. cc)

  pub writer-Onward :
      s.writer.pc ≢ idle → (s.writer.pc ≡ waiting → s.memory.lock ≡ free) → Onward none s
  writer-Onward n f = at s.writer.pc refl
    where
      at : (p : Pc) → s.writer.pc ≡ p → Onward none s
      at idle e = absurd (n e)
      at waiting e =
          writer_on (WriterMove.lock e (f e)) v.shared_valid refl (omega (arith, ap left e))
            (λ q. cc)
      at entered e = record {
        after = _;
        step = Step.store_version e;
        sound = record {
          shared_valid = v.shared_valid;
          writer_valid = v.writer_valid;
          allocated = v.allocated;
        };
        less = omega (arith, ap left e);
        others = elim [ none ↦ λ n. absurd (n refl) | some j ↦ λ n. refl ];
        freed = λ q. cc;
      }
      at versioned e =
          writer_on (WriterMove.store_cmd e)
            (record { allocated = v.shared_valid.allocated; within = v.shared_valid.within }) refl
            (omega (arith, ap left e)) (λ q. cc)
      at cmd_copied e =
          writer_on (WriterMove.store_size e)
            (record { allocated = v.shared_valid.allocated; within = v.writer_valid.within }) refl
            (omega (arith, ap left e)) (λ q. cc)
      at size_copied e = writer_stores e
      at data_copied e =
          writer_on (WriterMove.unlock e) v.shared_valid refl (omega (arith, ap left e)) (λ q. refl)

  -- A move of the reader `i`.
  reader_on :
      (i : ℕ) {m : Memory} {l : Local}
      → ReaderMove i s.memory (s.readers i) m l
      → m.value ≡ s.memory.value
      → length l.t_data.buffer ≡ default_data_size
      → left l.pc < left (s.readers i).pc
      → (l.pc ≡ idle → m.lock ≡ free)
      → Onward (some i) s
  reader_on i {m} {l} mv k a h f =
      let here : (update s.readers i l i).pc ≡ l.pc = ap (λ x. x.pc) (update-same s.readers i l) in
      record {
        after = record s { memory = m; readers = update s.readers i l };
        step = Step.reads i mv;
        sound = record {
          shared_valid = subst IsValid (sym k) v.shared_valid;
          writer_valid = v.writer_valid;
          allocated = update-allocated s.readers i l v.allocated a;
        };
        less = omega (arith, h, ap left here);
        others = λ b n. other b n;
        freed = λ q. f (sym here ∙ q);
      }
    where
      other :
          (b : Option ℕ)
          → b ≢ some i
          → place (record s { memory = m; readers = update s.readers i l }) b ≡ place s b
      other none n = refl
      other (some j) n = ap (λ x. x.pc) (update-other s.readers i l j (λ e. n (ap some (sym e))))

  pub reader-Onward :
      (i : ℕ)
      → (s.readers i).pc ≢ idle
      → ((s.readers i).pc ≡ waiting → s.memory.lock ≡ free)
      → Onward (some i) s
  reader-Onward i n f = at (s.readers i).pc refl
    where
      at : (p : Pc) → (s.readers i).pc ≡ p → Onward (some i) s
      at idle e = absurd (n e)
      at waiting e =
          reader_on i (ReaderMove.lock e (f e)) refl (v.allocated i) (omega (arith, ap left e))
            (λ q. cc)
      at entered e =
          reader_on i (ReaderMove.load_version e) refl (v.allocated i) (omega (arith, ap left e))
            (λ q. cc)
      at versioned e =
          reader_on i (ReaderMove.load_cmd e) refl (v.allocated i) (omega (arith, ap left e))
            (λ q. cc)
      at cmd_copied e =
          reader_on i (ReaderMove.load_size e) refl (v.allocated i) (omega (arith, ap left e))
            (λ q. cc)
      at size_copied e =
          (let (b, c, a) =
              copy_data-some (s.readers i).t_data s.memory.value (v.allocated i) v.shared_valid in
            reader_on i (ReaderMove.load_data b e c) refl a (omega (arith, ap left e)) (λ q. cc))
      at data_copied e =
          reader_on i (ReaderMove.unlock e) refl (v.allocated i) (omega (arith, ap left e))
            (λ q. refl)
