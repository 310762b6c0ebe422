-- ===== src/Program/Answers/Turns.antt =====
-- impl/all/core/wineing.cc: how a request, a response and a message change the account of the
-- responses.
use mathlib.Core.List.{Sublistᴰ, append-nil, append_assoc}
use wineing.Prelude.{
  ℤ, pos, suc, ◌≡◌, refl, sym, ap, ◌∙◌, subst, true, false, List, [], ◌∷◌, ◌++◌, map, some, arith,
  length, length-append, is_neg, Bool-cases, inl, inr, if◌then◌else◌, ltb,
}
use wineing.Prelude.Memory.{Bytes}
use wineing.Ctrl.{cmd_shutdown}
use wineing.Proto.{Request, Response}
use wineing.Control.{Env, InState, process}
use wineing.Control.Spec.{phase, waiting, answer, process-Answered}
use wineing.Control.Loop.{is_down, converse, reached, converse-snoc, reached-snoc}
use wineing.Reader.{Reader}
use wineing.Out.{OutTurn}
use wineing.Out.Forward.{passed}
use wineing.Program.{listening, answering, out_reading, World, enqueue}
use wineing.Program.Invariant.{Inv, answer_count, guard-down}
use wineing.Program.Answers.{Told, asked, expected, pending}
use wineing.Program.Answers.Sublists.{Sublist-snoc, Sublist-drop}

asked-snoc : (rs : List Request) (r : Request) → asked (rs ++ r ∷ []) ≡ asked rs ++ some r ∷ []
asked-snoc [] r = refl
asked-snoc (q ∷ rs) r = ap (λ l. some q ∷ l) (asked-snoc rs r)

map-snoc {ℓ κ} :
    {A : Type ℓ} {B : Type κ} (f : A → B) (xs : List A) (x : A)
    → map f (xs ++ x ∷ []) ≡ map f xs ++ f x ∷ []
map-snoc f [] x = refl
map-snoc f (y ∷ xs) x = ap (λ l. f y ∷ l) (map-snoc f xs x)

module _ {env : Env} (s : World) (v : Inv s) (w : Told env s) where
  pub hears-Told :
      (req : Request) (res : Response) (c : InState)
      → s.in_pc ≡ listening
      → ltb cmd_shutdown s.control.t_data.cmd ≡ true
      → process env req s.control ≡ some (res, c)
      → Told env (record s { control = c; in_pc = answering res; heard = s.heard ++ req ∷ [] })
  hears-Told req res c i g p =
      let (q, t, _, _) = process-Answered env req s.control c res v.owner p in
      let up : is_down (reached env waiting (asked s.heard)) ≡ false =
        ground (arith, guard-down s.control v.owner g, w.in_phase) in
      let e : expected env (s.heard ++ req ∷ [])
          ≡ expected env s.heard ++ env.codec.serialize_response res ∷ [] =
        ap (λ l. map env.codec.serialize_response (converse env waiting l)) (asked-snoc s.heard req)
        ∙ ap (map env.codec.serialize_response) (converse-snoc env waiting (asked s.heard) req up)
        ∙ map-snoc env.codec.serialize_response (converse env waiting (asked s.heard))
            (answer env (reached env waiting (asked s.heard)) req).0
        ∙ ap (λ p. expected env s.heard ++ env.codec.serialize_response p ∷ [])
            (ap (λ p. (answer env p req).0) (sym w.in_phase) ∙ sym q) in
      let k : Sublistᴰ (s.out.sent ++ s.queue) (expected env s.heard) =
        subst (λ l. Sublistᴰ l (expected env s.heard)) (append-nil (s.out.sent ++ s.queue))
          (subst (λ p. Sublistᴰ ((s.out.sent ++ s.queue) ++ pending env p) (expected env s.heard)) i
            w.kept) in
      record {
        in_phase =
            t
            ∙ ap (λ p. (answer env p req).1) w.in_phase
            ∙ sym (reached-snoc env waiting (asked s.heard) req up)
            ∙ ap (reached env waiting) (sym (asked-snoc s.heard req));
        kept = rw e (Sublist-snoc (s.out.sent ++ s.queue) (expected env s.heard) _ k);
        counted = omega (
          arith,
          w.counted,
          ap answer_count i,
          ap length e,
          length-append (expected env s.heard) (env.codec.serialize_response res ∷ []),
        );
      }

  pub answers-Told :
      (rc : ℤ) (res : Response) (c : InState)
      → s.in_pc ≡ answering res
      → c.shared ≡ s.control.shared
      → Told env (record s {
        control = c;
        in_pc = listening;
        queue = enqueue rc (env.codec.serialize_response res) s.queue;
        unsent = if is_neg rc then suc s.unsent else s.unsent;
      })
  answers-Told rc res c i h =
      let m = env.codec.serialize_response res in
      let k : Sublistᴰ ((s.out.sent ++ s.queue) ++ m ∷ []) (expected env s.heard) =
        subst (λ p. Sublistᴰ ((s.out.sent ++ s.queue) ++ pending env p) (expected env s.heard)) i
          w.kept in
      elim (Bool-cases (is_neg rc)) [
        | inl n ↦ record {
          in_phase = ap (λ g. phase g.value.cmd) h ∙ w.in_phase;
          kept = rw n (Sublist-drop (s.out.sent ++ s.queue) m [] (expected env s.heard) k);
          counted = rw n (omega (arith, w.counted, ap answer_count i));
        }
        | inr n ↦ record {
          in_phase = ap (λ g. phase g.value.cmd) h ∙ w.in_phase;
          kept =
              rw (n, append-nil (s.out.sent ++ (s.queue ++ m ∷ [])))
                (subst (λ l. Sublistᴰ l (expected env s.heard))
                  (append_assoc s.out.sent s.queue (m ∷ [])) k);
          counted =
              rw n (omega (arith, w.counted, ap answer_count i, length-append s.queue (m ∷ [])));
        }
      ]

  pub received-Told :
      (t : OutTurn) (m : Bytes) (rest : List Bytes) (r : Reader)
      → s.queue ≡ m ∷ rest
      → t.received ≡ record { rc = pos 0; message = m }
      → Told env (record s {
        queue = rest;
        out = record { reader = r; sent = s.out.sent ++ passed t };
        out_pc = out_reading;
        dropped = if is_neg t.send_rc then suc s.dropped else s.dropped;
      })
  received-Told t m rest r q z =
      let k : Sublistᴰ ((s.out.sent ++ m ∷ rest) ++ pending env s.in_pc) (expected env s.heard) =
        subst (λ l. Sublistᴰ ((s.out.sent ++ l) ++ pending env s.in_pc) (expected env s.heard)) q
          w.kept in
      let n = ap length q in
      elim (Bool-cases (is_neg t.send_rc)) [
        | inl b ↦
            (let p : passed t ≡ [] = rw (z, b) refl in
              record {
                in_phase = w.in_phase;
                kept =
                    rw
                      (p, append-nil s.out.sent, append_assoc s.out.sent rest (pending env s.in_pc))
                      (Sublist-drop s.out.sent m (rest ++ pending env s.in_pc)
                        (expected env s.heard)
                        (subst (λ l. Sublistᴰ l (expected env s.heard))
                          (append_assoc s.out.sent (m ∷ rest) (pending env s.in_pc)) k));
                counted = rw (p, append-nil s.out.sent, b) (omega (arith, w.counted, n));
              })
        | inr b ↦
            (let p : passed t ≡ m ∷ [] = rw (z, b) refl in
              record {
                in_phase = w.in_phase;
                kept = rw (p, append_assoc s.out.sent (m ∷ []) rest) k;
                counted =
                    rw (p, b) (omega (arith, w.counted, n, length-append s.out.sent (m ∷ [])));
              })
      ]
