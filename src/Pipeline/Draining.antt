-- ===== src/Pipeline/Draining.antt =====
-- The loops of `drainPending`.
use cs4730_collaborative_tex.Base.{
  ℕ, zero, suc, ◌+◌, ◌≤◌, ◌<◌, ◌≡◌, refl, sym, ap, subst, inl, inr, Bool, true, false, List, [],
  ◌∷◌, ◌++◌, map, some, arith, length, All, Bool-cases,
}
use cs4730_collaborative_tex.Sort.Laws.{count_if}
use cs4730_collaborative_tex.Rga.{Engine, Operation, apply_remote, can_apply}
use cs4730_collaborative_tex.Rga.Remote.{apply_remote-can_apply}
use cs4730_collaborative_tex.Rga.Invariant.{IsValid}
use cs4730_collaborative_tex.Rga.Steps.{Run, Run-IsValid, idle, then_run, received, Run-append}
use cs4730_collaborative_tex.Pipeline.{
  Notice, Pass, applied, skipped, scan, Drained, drain, drain_pending,
}

-- The operations of which the user interface is told, in order.
abbrev pub told : List Notice → List Operation
told ns = map (λ n. n.0) ns

-- No operation can be applied.
abbrev pub Blocked : Engine → List Operation → Type 0
Blocked e = All (λ op. can_apply op e ≡ false)

pub count_if-append :
    (t : Operation → Bool) (a b : List Operation)
    → count_if t (a ++ b) ≡ count_if t a + count_if t b
count_if-append t [] b = omega arith
count_if-append t (x ∷ a) b = omega (arith, count_if-append t a b)

pub told-append : (a b : List Notice) → told (a ++ b) ≡ told a ++ told b
told-append [] b = refl
told-append (n ∷ a) b = ap (λ r. n.0 ∷ r) (told-append a b)

-- The engine applied what the notices tell, in order; these and what is left are what there was, each
-- operation as often.
pub record IsShare (e : Engine) (ops : List Operation) (e' : Engine) (ns : List Notice)
    (left : List Operation) : Type 0 where
  pub ran : Run e (told ns) e'
  pub shared : (t : Operation → Bool) → count_if t (told ns) + count_if t left ≡ count_if t ops

record IsPass (e : Engine) (ops : List Operation) (p : Pass) : Type 0 where
  share : IsShare e ops p.engine p.notified p.kept
  moved : p.progress ≡ true → length p.kept < length ops
  stuck : p.progress ≡ false → Blocked p.engine p.kept
  still : p.progress ≡ false → p.engine ≡ e
  shorter : length p.kept ≤ length ops

scan_able :
    (op : Operation) (ops : List Operation) (e e' : Engine) (p : Pass)
    → can_apply op e ≡ true
    → apply_remote op e ≡ some e'
    → scan e' ops ≡ some p
    → scan e (op ∷ ops) ≡ some (applied op e' p)
unfolding scan
scan_able op ops e e' p able ran rest = rw (scan, able, ran, rest) refl

scan_unable :
    (op : Operation) (ops : List Operation) (e : Engine) (p : Pass)
    → can_apply op e ≡ false
    → scan e ops ≡ some p
    → scan e (op ∷ ops) ≡ some (skipped op p)
unfolding scan
scan_unable op ops e p unable rest = rw (scan, unable, rest) refl

-- A pass never throws.
scan_passes :
    (e : Engine) (ops : List Operation) → (p : Pass) × (scan e ops ≡ some p) × IsPass e ops p
unfolding scan
scan_passes e [] = (
  record { engine = e; notified = []; kept = []; progress = false },
  refl,
  record {
    share = record { ran = idle e; shared = λ t. omega arith };
    moved = λ h. absurd (cc);
    stuck = λ _. tt;
    still = λ _. refl;
    shorter = omega arith;
  },
)
scan_passes e (op ∷ ops) = elim (Bool-cases (can_apply op e)) [
  | inl able ↦
      let (e', ran) = apply_remote-can_apply op e able in
      let (p, scanned, is) = scan_passes e' ops in
      (
        applied op e' p,
        scan_able op ops e e' p able ran scanned,
        record {
          share = record {
            ran = then_run (received op e e' ran) is.share.ran;
            shared = λ t. omega (arith, is.share.shared t);
          };
          moved = λ _. omega (arith, is.shorter);
          stuck = λ h. absurd (cc);
          still = λ h. absurd (cc);
          shorter = omega (arith, is.shorter);
        },
      )
  | inr unable ↦
      let (p, scanned, is) = scan_passes e ops in
      (
        skipped op p,
        scan_unable op ops e p unable scanned,
        record {
          share = record { ran = is.share.ran; shared = λ t. omega (arith, is.share.shared t) };
          moved = λ h. omega (arith, is.moved h);
          stuck = λ h. (subst (λ x. can_apply op x ≡ false) (sym (is.still h)) unable, is.stuck h);
          still = is.still;
          shorter = omega (arith, is.shorter);
        },
      )
]

pub IsShare-then :
    {e e' e'' : Engine} {ops left left' : List Operation} {ns ns' : List Notice}
    → IsShare e ops e' ns left
    → IsShare e' left e'' ns' left'
    → IsShare e ops e'' (ns ++ ns') left'
IsShare-then {e} {e'} {e''} {ops} {left} {left'} {ns} {ns'} a b = record {
  ran = subst (λ l. Run e l e'') (sym (told-append ns ns')) (Run-append a.ran b.ran);
  shared = λ t. omega (
    arith,
    ap (count_if t) (told-append ns ns'),
    count_if-append t (told ns) (told ns'),
    a.shared t,
    b.shared t,
  );
}

pub record IsDrained (e : Engine) (ops : List Operation) (d : Drained) : Type 0 where
  pub share : IsShare e ops d.engine d.notified d.pending
  pub blocked : Blocked d.engine d.pending

drain_moved :
    (f : ℕ) (op : Operation) (ops : List Operation) (e : Engine) (p : Pass) (d : Drained)
    → scan e (op ∷ ops) ≡ some p
    → p.progress ≡ true
    → drain f p.engine p.kept ≡ some d
    → drain (suc f) e (op ∷ ops) ≡ some (record d { notified = p.notified ++ d.notified })
unfolding drain
drain_moved f op ops e p d scanned moved rest = rw (drain, scanned, moved, rest) refl

drain_still :
    (f : ℕ) (op : Operation) (ops : List Operation) (e : Engine) (p : Pass)
    → scan e (op ∷ ops) ≡ some p
    → p.progress ≡ false
    → drain (suc f) e (op ∷ ops)
      ≡ some (record { engine = p.engine; notified = p.notified; pending = p.kept })
unfolding drain
drain_still f op ops e p scanned still = rw (drain, scanned, still) refl

drain_ends :
    (f : ℕ) (e : Engine) (ops : List Operation)
    → length ops ≤ f
    → (d : Drained) × (drain f e ops ≡ some d) × IsDrained e ops d
unfolding drain
drain_ends zero e [] h = (
  record { engine = e; notified = []; pending = [] },
  refl,
  record { share = record { ran = idle e; shared = λ t. omega arith }; blocked = tt },
)
drain_ends zero e (op ∷ ops) h = absurd (omega arith)
drain_ends (suc f) e [] h = (
  record { engine = e; notified = []; pending = [] },
  refl,
  record { share = record { ran = idle e; shared = λ t. omega arith }; blocked = tt },
)
drain_ends (suc f) e (op ∷ ops) h =
    let (p, scanned, is) = scan_passes e (op ∷ ops) in
    elim (Bool-cases p.progress) [
      | inl moved ↦
          let (d, drained, is') = drain_ends f p.engine p.kept (omega (arith, is.moved moved)) in
          (
            record d { notified = p.notified ++ d.notified },
            drain_moved f op ops e p d scanned moved drained,
            record { share = IsShare-then is.share is'.share; blocked = is'.blocked },
          )
      | inr still ↦ (
        record { engine = p.engine; notified = p.notified; pending = p.kept },
        drain_still f op ops e p scanned still,
        record { share = is.share; blocked = is.stuck still },
      )
    ]

pub drain_pending_drains :
    (e : Engine) (ops : List Operation)
    → (d : Drained) × (drain_pending e ops ≡ some d) × IsDrained e ops d
unfolding drain_pending
drain_pending_drains e ops = drain_ends (length ops) e ops (omega arith)

-- In a valid engine, `drainPending` ends without an exception, at most as many passes as operations
-- pending, and leaves a valid engine. It has applied the operations that it tells of, in that order;
-- these and those it left pending are the ones that were pending, each as often; and none of those
-- left can be applied.
pub drain_pending_ends :
    (e : Engine) (ops : List Operation)
    → IsValid e
    → (d : Drained) × (drain_pending e ops ≡ some d) × IsDrained e ops d × IsValid d.engine
drain_pending_ends e ops v =
    let (d, ran, is) = drain_pending_drains e ops in (d, ran, is, Run-IsValid v is.share.ran)
