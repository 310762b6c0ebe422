-- ===== src/Control/Loop.antt =====
-- impl/all/core/wineing.cc, `cchan_in_thread`: the loop over incoming messages.
use wineing.Prelude.{
  ℕ, suc, ◌<◌, ◌^◌, ◌≡◌, refl, sym, ap, ◌∙◌, List, [], ◌∷◌, ◌++◌, map, Option, none, some, arith,
  length, Bool, true, false, not, if◌then◌else◌, ltb, inl, inr, Bool-cases,
}
use mathlib.Core.List.{append-nil, append_assoc}
use wineing.Ctrl.{cmd_shutdown}
use wineing.Proto.{Request, Response}
use wineing.Control.{Env, Turn, InState, in_loop}
use wineing.Control.Owner.{IsOwner}
use wineing.Control.Round.{Hears, in_turn-none, in_turn-answer}
use wineing.Control.Updates.{Advanced, Advanced-refl, Advanced-weaken, Advanced-trans}
use wineing.Control.Spec.{Phase, down, told, answer}

abbrev pub AllHear : Env → List Turn → List (Option Request) → Type 0
AllHear env [] [] = Unit {0}
AllHear env [] (q ∷ qs) = ⊥
AllHear env (t ∷ ts) [] = ⊥
AllHear env (t ∷ ts) (q ∷ qs) = Hears env t q × AllHear env ts qs

abbrev pub is_down : Phase → Bool
is_down down = true
is_down _ = false

-- The responses of the abstract machine to a sequence of rounds: none after a shutdown.
abbrev pub converse : Env → Phase → List (Option Request) → List Response
converse env p [] = []
converse env p (none ∷ qs) = if is_down p then [] else converse env p qs
converse env p (some r ∷ qs) =
    if is_down p then [] else (answer env p r).0 ∷ converse env (answer env p r).1 qs

-- The phase of the abstract machine after a sequence of rounds.
abbrev pub reached : Env → Phase → List (Option Request) → Phase
reached env p [] = p
reached env p (none ∷ qs) = if is_down p then p else reached env p qs
reached env p (some r ∷ qs) = if is_down p then p else reached env (answer env p r).1 qs

guard-is_down : (s : InState) → IsOwner s → ltb cmd_shutdown s.t_data.cmd ≡ not (is_down (told s))
guard-is_down s w = ground (arith, w.same_cmd)

-- What the loop leaves after the rounds `qs` from `s`.
abbrev pub Conversed : Env → List (Option Request) → InState → Option InState → Type 0
Conversed env qs s o =
    (s' : InState) × (o ≡ some s')
    × IsOwner s'
    × (s'.sent ≡ s.sent ++ map env.codec.serialize_response (converse env (told s) qs))
    × (told s' ≡ reached env (told s) qs)
    × Advanced (length qs) s.shared s'.shared

-- One round more.
pub converse-snoc :
    (env : Env) (p : Phase) (qs : List (Option Request)) (r : Request)
    → is_down (reached env p qs) ≡ false
    → converse env p (qs ++ some r ∷ [])
      ≡ converse env p qs ++ (answer env (reached env p qs) r).0 ∷ []
converse-snoc env p [] r h = rw h
converse-snoc env p (none ∷ qs) r h = elim (Bool-cases (is_down p)) [
  | inl d ↦ absurd (ground (arith, d, rw d at h))
  | inr d ↦ rw d (converse-snoc env p qs r (rw d at h))
]
converse-snoc env p (some q ∷ qs) r h = elim (Bool-cases (is_down p)) [
  | inl d ↦ absurd (ground (arith, d, rw d at h))
  | inr d ↦
      rw d
        (ap (λ l. (answer env p q).0 ∷ l) (converse-snoc env (answer env p q).1 qs r (rw d at h)))
]

pub reached-snoc :
    (env : Env) (p : Phase) (qs : List (Option Request)) (r : Request)
    → is_down (reached env p qs) ≡ false
    → reached env p (qs ++ some r ∷ []) ≡ (answer env (reached env p qs) r).1
reached-snoc env p [] r h = rw h
reached-snoc env p (none ∷ qs) r h = elim (Bool-cases (is_down p)) [
  | inl d ↦ absurd (ground (arith, d, rw d at h))
  | inr d ↦ rw d (reached-snoc env p qs r (rw d at h))
]
reached-snoc env p (some q ∷ qs) r h = elim (Bool-cases (is_down p)) [
  | inl d ↦ absurd (ground (arith, d, rw d at h))
  | inr d ↦ rw d (reached-snoc env (answer env p q).1 qs r (rw d at h))
]

unchanged :
    (n : ℕ) (s : InState)
    → IsOwner s
    → s.shared.version < 2 ^ 32
    → (s' : InState) × (some s ≡ some s')
      × IsOwner s'
      × (s'.sent ≡ s.sent ++ [])
      × (told s' ≡ told s)
      × Advanced n s.shared s'.shared
unchanged n s w b = (
  s,
  refl,
  w,
  sym (append-nil s.sent),
  refl,
  Advanced-weaken (omega arith) (Advanced-refl s.shared b),
)

pub in_loop-converse :
    (env : Env) (ts : List Turn) (qs : List (Option Request)) (s : InState)
    → IsOwner s
    → s.shared.version < 2 ^ 32
    → AllHear env ts qs
    → Conversed env qs s (in_loop env ts s)
unfolding in_loop
in_loop-converse env [] [] s w b h = unchanged 0 s w b
in_loop-converse env [] (q ∷ qs) s w b h = absurd h
in_loop-converse env (t ∷ ts) [] s w b h = absurd h
in_loop-converse env (t ∷ ts) (none ∷ qs) s w b h = elim (Bool-cases (is_down (told s))) [
  | inl d ↦ rw (guard-is_down s w, d) (unchanged (suc (length qs)) s w b)
  | inr d ↦
      (let (s₂, o, w₂, m, e, a) = in_loop-converse env ts qs s w b h.1 in
        rw (guard-is_down s w, d, in_turn-none env t s h.0)
          (s₂, o, w₂, m, e, Advanced-weaken (omega arith) a))
]
in_loop-converse env (t ∷ ts) (some r ∷ qs) s w b h = elim (Bool-cases (is_down (told s))) [
  | inl d ↦ rw (guard-is_down s w, d) (unchanged (suc (length qs)) s w b)
  | inr d ↦
      (let (s₁, o, w₁, e, m, a) = in_turn-answer env t r s w b h.0 in
        let (s₂, o₂, w₂, m₂, e₂, a₂) = in_loop-converse env ts qs s₁ w₁ a.word h.1 in
        rw (guard-is_down s w, d, o)
          (
            s₂,
            o₂,
            w₂,
            m₂ ∙ rw (m, e) (append_assoc s.sent _ _),
            e₂ ∙ ap (λ p. reached env p qs) e,
            Advanced-weaken (omega arith) (Advanced-trans a a₂),
          ))
]
