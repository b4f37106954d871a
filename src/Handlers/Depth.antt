-- ===== src/Handlers/Depth.antt =====
-- How deep the calls of `depth_handler` stand in each other, by the flags of the signal.
use operating_systems_agh.Prelude.{
  ℕ, zero, suc, ◌+◌, ◌-◌, ◌*◌, ◌≤◌, ◌<◌, ◌≡◌, refl, ap, ◌∙◌, Bool, true, false, Option, none, some,
  List, [], ◌∷◌, ◌++◌, ltb, arith, append_assoc,
}
use operating_systems_agh.Handlers.{
  max_calls, Flags, sa_nodefer, sa_restart, depth_handler, Line, started, ended, Process, raise,
  deliver, call_again, unmask, leave,
}

-- The lines of `n` calls, each within the one before it.
abbrev pub nested : ℕ → ℕ → ℕ → List Line
nested zero id d = []
nested (suc n) id d = started id d ∷ (nested n (id + 1) (d + 1) ++ ended id d ∷ [])

-- The lines of `n` calls, each after the one before it.
abbrev pub chained : ℕ → ℕ → ℕ → List Line
chained zero id d = []
chained (suc n) id d = started id d ∷ ended id d ∷ chained n (id + 1) d

-- A process outside the handler.
abbrev pub idle : Flags → ℕ → ℕ → List Line → Process
idle f id d out = record {
  call_id = id;
  call_depth = d;
  flags = f;
  handler = depth_handler;
  blocked = false;
  pending = false;
  output = out;
}

-- A process inside the handler, with the flag SA_RESTART.
abbrev busy : Bool → ℕ → ℕ → List Line → Process
busy b id d out = record {
  call_id = id;
  call_depth = d;
  flags = sa_restart;
  handler = depth_handler;
  blocked = true;
  pending = b;
  output = out;
}

abbrev resumed : ℕ → ℕ → Option Process → Option Process
unfolding unmask
resumed f id none = none
resumed f id (some q) = unmask f (leave id q)

nodefer_step :
    (f id d : ℕ) (out : List Line)
    → raise (suc (suc (suc f))) (idle sa_nodefer id d out)
      ≡ resumed (suc f) id (elim (ltb (id + 1) max_calls) [
        | true ↦ raise f (idle sa_nodefer (id + 1) (d + 1) (out ++ started id d ∷ []))
        | false ↦ some (idle sa_nodefer (id + 1) (d + 1) (out ++ started id d ∷ []))
      ])
unfolding raise deliver call_again unmask
nodefer_step f id d out = ground arith

restart_step :
    (f id d : ℕ) (out : List Line)
    → raise (suc (suc (suc (suc f)))) (idle sa_restart id d out)
      ≡ resumed (suc (suc f)) id (elim (ltb (id + 1) max_calls) [
        | true ↦ some (busy true (id + 1) (d + 1) (out ++ started id d ∷ []))
        | false ↦ some (busy false (id + 1) (d + 1) (out ++ started id d ∷ []))
      ])
unfolding raise deliver call_again unmask
restart_step f id d out = ground arith

-- The process when a call has left.
left_eq :
    (f : Flags) (id id' d d' : ℕ) (out out' : List Line)
    → id ≡ id'
    → d ≡ d'
    → out ≡ out'
    → some (idle f id d out) ≡ some (idle f id' d' out')
left_eq f id id' d d' out out' e h k = cc

nested_lem :
    (n f id d : ℕ) (out : List Line)
    → max_calls - (id + 1) ≡ n
    → 3 * (n + 1) ≤ f
    → raise f (idle sa_nodefer id d out)
      ≡ some (idle sa_nodefer (id + 1 + n) d (out ++ nested (suc n) id d))
unfolding unmask
nested_lem n zero id d out e h = absurd (omega arith)
nested_lem n (suc zero) id d out e h = absurd (omega arith)
nested_lem n (suc (suc zero)) id d out e h = absurd (omega arith)
nested_lem zero (suc (suc (suc f))) id d out e h =
    let t : ltb (id + 1) max_calls ≡ false = ground arith in
    let z : d + 1 - 1 ≡ d = omega arith in
    nodefer_step f id d out
    ∙ (rw (t, z)
        (left_eq sa_nodefer _ _ _ _ _ _ (omega arith) refl
          (append_assoc out (started id d ∷ []) (ended id d ∷ []))))
nested_lem (suc n) (suc (suc (suc f))) id d out e h =
    let t : ltb (id + 1) max_calls ≡ true = ground arith in
    let z : d + 1 - 1 ≡ d = omega arith in
    let ih =
      nested_lem n f (id + 1) (d + 1) (out ++ started id d ∷ []) (omega arith) (omega arith) in
    nodefer_step f id d out
    ∙ (rw (t, ih, z)
        (left_eq sa_nodefer _ _ _ _ _ _ (omega arith) refl (
          append_assoc (out ++ started id d ∷ []) (nested (suc n) (id + 1) (d + 1))
            (ended id d ∷ [])
          ∙ append_assoc out (started id d ∷ [])
              (nested (suc n) (id + 1) (d + 1) ++ ended id d ∷ []))))

chained_lem :
    (n f id d : ℕ) (out : List Line)
    → max_calls - (id + 1) ≡ n
    → 3 * (n + 1) < f
    → raise f (idle sa_restart id d out)
      ≡ some (idle sa_restart (id + 1 + n) d (out ++ chained (suc n) id d))
unfolding unmask
chained_lem n zero id d out e h = absurd (omega arith)
chained_lem n (suc zero) id d out e h = absurd (omega arith)
chained_lem n (suc (suc zero)) id d out e h = absurd (omega arith)
chained_lem n (suc (suc (suc zero))) id d out e h = absurd (omega arith)
chained_lem zero (suc (suc (suc (suc f)))) id d out e h =
    let t : ltb (id + 1) max_calls ≡ false = ground arith in
    let z : d + 1 - 1 ≡ d = omega arith in
    restart_step f id d out
    ∙ (rw (t, z)
        (left_eq sa_restart _ _ _ _ _ _ (omega arith) refl
          (append_assoc out (started id d ∷ []) (ended id d ∷ []))))
chained_lem (suc n) (suc (suc (suc (suc f)))) id d out e h =
    let t : ltb (id + 1) max_calls ≡ true = ground arith in
    let z : d + 1 - 1 ≡ d = omega arith in
    let ih =
      chained_lem n (suc f) (id + 1) d ((out ++ started id d ∷ []) ++ ended id d ∷ []) (omega arith)
        (omega arith) in
    restart_step f id d out
    ∙ (rw (t, z)
        (ih
          ∙ left_eq sa_restart _ _ _ _ _ _ (omega arith) refl (
              append_assoc (out ++ started id d ∷ []) (ended id d ∷ []) (chained (suc n) (id + 1) d)
              ∙ append_assoc out (started id d ∷ []) (ended id d ∷ chained (suc n) (id + 1) d))))

-- What the two flags make of a process outside the handler.
abbrev pub with_flags : Flags → Process → Process
with_flags f p = record p { flags = f; handler = depth_handler }

idle_eq :
    (f : Flags) (p : Process)
    → p.blocked ≡ false
    → p.pending ≡ false
    → with_flags f p ≡ idle f p.call_id p.call_depth p.output
idle_eq f p b w = cc

-- The calls that a signal starts: those that MAX_CALLS leaves, and one at least.
abbrev pub calls : Process → ℕ
calls p = max_calls - (p.call_id + 1) + 1

-- With enough fuel a signal to a process outside the handler comes back. With SA_NODEFER each call of
-- the handler stands in the one before it, and their depths grow; with SA_RESTART each stands after
-- the one before it, at one depth. Either way there are as many calls, and the depth is as it was.
pub raise_lem :
    (f : ℕ) (p : Process)
    → p.blocked ≡ false
    → p.pending ≡ false
    → 3 * calls p < f
    → (raise f (with_flags sa_nodefer p)
        ≡ some (
            idle sa_nodefer
              (p.call_id + calls p)
              p.call_depth
              (p.output ++ nested (calls p) p.call_id p.call_depth)))
      × (raise f (with_flags sa_restart p)
          ≡ some (
              idle sa_restart
                (p.call_id + calls p)
                p.call_depth
                (p.output ++ chained (calls p) p.call_id p.call_depth)))
raise_lem f p b w h =
    let n = max_calls - (p.call_id + 1) in
    let c : suc n ≡ n + 1 = omega arith in
    let k : p.call_id + 1 + n ≡ p.call_id + (n + 1) = omega arith in
    (
      ap (raise f) (idle_eq sa_nodefer p b w)
          ∙ nested_lem n f p.call_id p.call_depth p.output refl (omega arith)
          ∙ left_eq sa_nodefer _ _ _ _ _ _ k refl
              (ap (λ m. p.output ++ nested m p.call_id p.call_depth) c),
      ap (raise f) (idle_eq sa_restart p b w)
          ∙ chained_lem n f p.call_id p.call_depth p.output refl (omega arith)
          ∙ left_eq sa_restart _ _ _ _ _ _ k refl
              (ap (λ m. p.output ++ chained m p.call_id p.call_depth) c),
    )
