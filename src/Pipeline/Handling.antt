-- ===== src/Pipeline/Handling.antt =====
-- `crdtLoop`: each operation that is popped is applied, or it waits.
use cs4730_collaborative_tex.Base.{
  ◌≡◌, refl, sym, ap, subst, ◌∙◌, inl, inr, Bool, true, false, List, [], ◌∷◌, ◌++◌, some, arith,
  All-append, Bool-cases, if◌then◌else◌, ◌>>=◌,
}
use cs4730_collaborative_tex.Sort.Laws.{count_if}
use cs4730_collaborative_tex.Rga.{Engine, Operation, can_apply}
use cs4730_collaborative_tex.Rga.Remote.{apply_remote-can_apply}
use cs4730_collaborative_tex.Rga.Queries.{visible_offset_of}
use cs4730_collaborative_tex.Rga.Invariant.{IsValid}
use cs4730_collaborative_tex.Rga.Steps.{Run, Run-IsValid, idle, then_run, received, Run-append}
use cs4730_collaborative_tex.Pipeline.{
  Notice, Drained, take_in, Pipeline, Handled, knows, meet, handle, crdt_loop,
}
use cs4730_collaborative_tex.Pipeline.Draining.{
  told, told-append, Blocked, count_if-append, IsShare, IsDrained, drain_pending_drains,
}

-- An operation that can be applied is taken in without an exception, and what waited behind it.
pub take_in_ends :
    (op : Operation) (e : Engine) (pending : List Operation)
    → can_apply op e ≡ true
    → (d : Drained) × (take_in op e pending ≡ some d) × IsDrained e (op ∷ pending) d
unfolding take_in
take_in_ends op e pending able =
    let (e', ran) = apply_remote-can_apply op e able in
    let (d, drained, is) = drain_pending_drains e' pending in
    (
      record d { notified = (op, visible_offset_of op.id e'.seq) ∷ d.notified },
      rw (take_in, ran, drained) refl,
      record {
        share = record {
          ran = then_run (received op e e' ran) is.share.ran;
          shared = λ t. omega (arith, is.share.shared t);
        };
        blocked = is.blocked;
      },
    )

-- What stays of a pipeline after operations: it still does not sync, it applied or kept each of
-- them and each that waited, and if none that waited could be applied before, none can now.
pub record Fair (p : Pipeline) (ops : List Operation) (e : Engine) (left : List Operation)
    (syncing : Bool) (ns : List Notice) : Type 0 where
  pub live : syncing ≡ false
  pub share : IsShare p.engine (p.pending ++ ops) e ns left
  pub blocked : Blocked p.engine p.pending → Blocked e left

abbrev pub IsFair : Pipeline → List Operation → Handled → Type 0
IsFair p ops h = Fair p ops h.pipeline.engine h.pipeline.pending h.pipeline.syncing h.notified

-- The operation that is taken in first stands last in the list.
first_in :
    (op : Operation) (e : Engine) (pending : List Operation) (d : Drained)
    → IsDrained e (op ∷ pending) d
    → IsShare e (pending ++ op ∷ []) d.engine d.notified d.pending
first_in op e pending d is = record {
  ran = is.share.ran;
  shared = λ t. omega (arith, is.share.shared t, count_if-append t pending (op ∷ []));
}

if_true {ℓ} : {A : Type ℓ} (x y : A) (b : Bool) → b ≡ true → (if b then x else y) ≡ x
if_true x y b h = rw h refl

if_false {ℓ} : {A : Type ℓ} (x y : A) (b : Bool) → b ≡ false → (if b then x else y) ≡ y
if_false x y b h = rw h refl

abbrev waits : Operation → Pipeline → Handled
waits op p = record {
  pipeline = record p { pending = p.pending ++ op ∷ [] };
  notified = [];
  unknown = [];
}

handle_unable :
    (op : Operation) (p : Pipeline)
    → p.syncing ≡ false
    → can_apply op p.engine ≡ false
    → handle op p ≡ some (waits op p)
unfolding handle
handle_unable op p live unable =
    if_false _ _ p.syncing live ∙ if_false _ _ (can_apply op p.engine) unable

abbrev pub took_in : Operation → Pipeline → Drained → Handled
took_in op p d = meet op (record p { engine = d.engine; pending = d.pending }) d.notified

pub handle_able :
    (op : Operation) (p : Pipeline) (d : Drained)
    → p.syncing ≡ false
    → can_apply op p.engine ≡ true
    → take_in op p.engine p.pending ≡ some d
    → handle op p ≡ some (took_in op p d)
unfolding handle
handle_able op p d live able ran =
    if_false _ _ p.syncing live
    ∙ if_true _ _ (can_apply op p.engine) able
    ∙ ap (λ o. ◌>>=◌ {B = Handled} o (λ d'. some (took_in op p d'))) ran

-- The detection of unknown peers leaves the rest alone.
meet-rest :
    (P : Engine → List Operation → Bool → List Notice → Type 0) (op : Operation) (p : Pipeline)
    (ns : List Notice)
    → P p.engine p.pending p.syncing ns
    → let h = meet op p ns in P h.pipeline.engine h.pipeline.pending h.pipeline.syncing h.notified
meet-rest P op p ns x = elim (Bool-cases (knows op.id.site p.known)) [
  | inl e ↦ rw e x
  | inr e ↦ rw e x
]

handle-IsFair :
    (op : Operation) (p : Pipeline)
    → p.syncing ≡ false
    → (h : Handled) × (handle op p ≡ some h) × IsFair p (op ∷ []) h
handle-IsFair op p live = elim (Bool-cases (can_apply op p.engine)) [
  | inr unable ↦ (
    waits op p,
    handle_unable op p live unable,
    record {
      live = live;
      share = record { ran = idle p.engine; shared = λ t. omega arith };
      blocked =
          λ b. All-append (λ o. can_apply o p.engine ≡ false) p.pending (op ∷ []) b (unable, tt);
    },
  )
  | inl able ↦
      let (d, ran, is) = take_in_ends op p.engine p.pending able in
      (
        took_in op p d,
        handle_able op p d live able ran,
        meet-rest (Fair p (op ∷ [])) op (record p { engine = d.engine; pending = d.pending })
            d.notified
            (record {
              live = live;
              share = first_in op p.engine p.pending d is;
              blocked = λ _. is.blocked;
            }),
      )
]

pub crdt_loop_more :
    (op : Operation) (ops : List Operation) (p : Pipeline) (h r : Handled)
    → handle op p ≡ some h
    → crdt_loop ops h.pipeline ≡ some r
    → crdt_loop (op ∷ ops) p
      ≡ some (record {
        pipeline = r.pipeline;
        notified = h.notified ++ r.notified;
        unknown = h.unknown ++ r.unknown;
      })
unfolding crdt_loop
crdt_loop_more op ops p h r one rest = rw (crdt_loop, one, rest) refl

Fair-then :
    (p : Pipeline) (op : Operation) (ops : List Operation) (h r : Handled)
    → IsFair p (op ∷ []) h
    → IsFair h.pipeline ops r
    → Fair p
        (op ∷ ops)
        r.pipeline.engine
        r.pipeline.pending
        r.pipeline.syncing
        (h.notified ++ r.notified)
Fair-then p op ops h r a b = record {
  live = b.live;
  share = record {
    ran =
        subst (λ l. Run p.engine l r.pipeline.engine) (sym (told-append h.notified r.notified))
          (Run-append a.share.ran b.share.ran);
    shared = λ t. omega (
      arith,
      ap (count_if t) (told-append h.notified r.notified),
      count_if-append t (told h.notified) (told r.notified),
      a.share.shared t,
      b.share.shared t,
      count_if-append t p.pending (op ∷ []),
      count_if-append t p.pending (op ∷ ops),
      count_if-append t h.pipeline.pending ops,
    );
  };
  blocked = λ w. b.blocked (a.blocked w);
}

pub crdt_loop_takes :
    (ops : List Operation) (p : Pipeline)
    → p.syncing ≡ false
    → (h : Handled) × (crdt_loop ops p ≡ some h) × IsFair p ops h
unfolding crdt_loop
crdt_loop_takes [] p live = (
  record { pipeline = p; notified = []; unknown = [] },
  refl,
  record {
    live = live;
    share = record {
      ran = idle p.engine;
      shared = λ t. omega (arith, count_if-append t p.pending []);
    };
    blocked = λ b. b;
  },
)
crdt_loop_takes (op ∷ ops) p live =
    let (h, one, a) = handle-IsFair op p live in
    let (r, rest, b) = crdt_loop_takes ops h.pipeline a.live in
    (
      record {
        pipeline = r.pipeline;
        notified = h.notified ++ r.notified;
        unknown = h.unknown ++ r.unknown;
      },
      crdt_loop_more op ops p h r one rest,
      Fair-then p op ops h r a b,
    )

-- Outside a sync and with a valid engine, `crdtLoop` takes any operations without an exception, and
-- leaves a valid engine. It has applied the operations that it tells of, in that order; these and
-- those that wait are the ones that waited before and those that came, each as often; and if no
-- operation waited that could be applied, none does afterwards.
pub crdt_loop-IsFair :
    (ops : List Operation) (p : Pipeline)
    → p.syncing ≡ false
    → IsValid p.engine
    → (h : Handled) × (crdt_loop ops p ≡ some h) × IsFair p ops h × IsValid h.pipeline.engine
crdt_loop-IsFair ops p live v =
    let (h, ran, is) = crdt_loop_takes ops p live in (h, ran, is, Run-IsValid v is.share.ran)
