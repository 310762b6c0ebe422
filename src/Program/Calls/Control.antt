-- ===== src/Program/Calls/Control.antt =====
-- impl/all/core/wineing.cc: what handling a request does to the shared block.
use wineing.Prelude.{
  ℕ, ◌≡◌, refl, ◌∙◌, sym, subst, ap, Option, none, some, ◌++◌, Bool-cases, inl, inr, ◌==◌, is_neg,
  if◌then◌else◌, length, ◌+◌,
}
use wineing.Prelude.Memory.{Bytes, c_str, memcpy, ◌>>=◌, >>=-eq-some}
use wineing.Ctrl.{copy_local_to_shared, cmd_market_run, cmd_market_stop, cmd_shutdown}
use wineing.Conc.{lazy_update_global_if_owner}
use wineing.Proto.{Request, Response, market_start, market_stop, shutdown, err, RequestType}
use wineing.Control.{
  Env, InState, publish, signal, set_tape, start_market, on_market_start, on_market_stop,
  on_shutdown, dispatch, process, respond_err, not_found,
}

-- The thread works on its `t_data`, and calls `lazy_update_global_if_owner` at most once, with what it
-- has then.
pub data Called (s t : InState) : Type 0 where
  no_call : t.t_version ≡ s.t_version → t.shared ≡ s.shared → Called s t
  one_call :
      lazy_update_global_if_owner copy_local_to_shared s.t_version t.t_data s.shared
        ≡ some (t.t_version, t.shared)
      → Called s t

state_of : {s t : InState} → ◌≡◌ {A = Option InState} (some s) (some t) → s ≡ t
state_of e = cc

answer_of :
    {a b : Response} {s t : InState}
    → ◌≡◌ {A = Option (Response × InState)} (some (a, s)) (some (b, t))
    → s ≡ t
answer_of e = cc

signal-Called : {s t : InState} → Called s t → Called s (signal t)
unfolding signal
signal-Called (no_call e f) = no_call e f
signal-Called (one_call e) = one_call e

publish-Called :
    (c : ℕ) (s u t : InState)
    → u.t_version ≡ s.t_version
    → u.shared ≡ s.shared
    → publish c u ≡ some t
    → Called s t
unfolding publish
publish-Called c s u t e f p =
    let (r, o, q) =
      >>=-eq-some
        (lazy_update_global_if_owner copy_local_to_shared u.t_version (record u.t_data { cmd = c })
          u.shared)
        _ p in
    let same : record u { t_version = r.0; t_data = record u.t_data { cmd = c }; shared = r.1 }
        ≡ t =
      state_of q in
    subst (Called s) same (
      one_call (
        ap
          (λ v.
            lazy_update_global_if_owner copy_local_to_shared v (record u.t_data { cmd = c })
              s.shared)
          (sym e)
        ∙ (ap
              (λ g.
                lazy_update_global_if_owner copy_local_to_shared u.t_version
                  (record u.t_data { cmd = c }) g)
              (sym f)
            ∙ o)))

set_tape-keeps :
    (tape : Bytes) (s t : InState)
    → set_tape tape s ≡ some t
    → (t.t_version ≡ s.t_version) × (t.shared ≡ s.shared)
unfolding set_tape
set_tape-keeps tape s t e =
    let (b, o, q) = >>=-eq-some (memcpy s.t_data.buffer (c_str tape) (length tape + 1)) _ e in
    let same = state_of q in (sym (ap (λ x. x.t_version) same), sym (ap (λ x. x.shared) same))

start_market-Called :
    (req : Request) (s u t : InState) (res : Response)
    → u.t_version ≡ s.t_version
    → u.shared ≡ s.shared
    → start_market req u ≡ some (res, t)
    → Called s t
unfolding start_market
start_market-Called req s u t res e f p =
    let (v, o, q) = >>=-eq-some (publish cmd_market_run u) _ p in
    subst (Called s) (answer_of q) (signal-Called (publish-Called cmd_market_run s u v e f o))

on_market_start-Called :
    (env : Env) (req : Request) (s t : InState) (res : Response)
    → on_market_start env req s ≡ some (res, t)
    → Called s t
unfolding on_market_start
on_market_start-Called env req s t res e = elim (Bool-cases (s.t_data.cmd == cmd_market_run)) [
  | inl b ↦
      (let q : ◌≡◌ {A = Option (Response × InState)} _ (some (res, t)) = rw b at e in
        subst (Called s) (answer_of q) (no_call refl refl))
  | inr b ↦ file req.tape_file (rw b at e)
]
  where
    cleared_size : InState
    cleared_size = record s { t_data = record s.t_data { size = 0 } }

    file :
        (f : Option Bytes)
        → elim f as (λ x. Option (Response × InState)) [
          | none ↦ start_market req cleared_size
          | some name ↦
              (let tape = env.tape_basedir ++ name in
                if is_neg (env.file_exists (c_str tape))
                then some (respond_err req err (not_found tape), cleared_size)
                else (set_tape tape cleared_size >>= start_market req))
        ]
          ≡ some (res, t)
        → Called s t
    file none p = start_market-Called req s cleared_size t res refl refl p
    file (some name) p =
        elim (Bool-cases (is_neg (env.file_exists (c_str (env.tape_basedir ++ name))))) [
          | inl b ↦
              (let q : ◌≡◌ {A = Option (Response × InState)}
                    (some
                      (respond_err req err (not_found (env.tape_basedir ++ name)), cleared_size))
                    (some (res, t)) =
                  rw b at p in
                subst (Called s) (answer_of q) (no_call refl refl))
          | inr b ↦
              (let (u, o, q) =
                  >>=-eq-some (set_tape (env.tape_basedir ++ name) cleared_size) _ (rw b at p) in
                let (x, y) = set_tape-keeps (env.tape_basedir ++ name) cleared_size u o in
                start_market-Called req s u t res x y q)
        ]

-- Handling a request comes to at most one call.
pub process-Called :
    (env : Env) (req : Request) (s t : InState) (res : Response)
    → process env req s ≡ some (res, t)
    → Called s t
unfolding process on_market_stop on_shutdown
process-Called env req s t res e = at req.type e
  where
    at : (k : RequestType) → dispatch k env req s ≡ some (res, t) → Called s t
    at market_start p = on_market_start-Called env req s t res p
    at market_stop p =
        let (v, o, q) = >>=-eq-some (publish cmd_market_stop s) _ p in
        subst (Called s) (answer_of q) (publish-Called cmd_market_stop s s v refl refl o)
    at shutdown p =
        let (v, o, q) = >>=-eq-some (publish cmd_shutdown s) _ p in
        subst (Called s) (answer_of q)
          (signal-Called (publish-Called cmd_shutdown s s v refl refl o))
