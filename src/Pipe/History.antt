-- ===== src/Pipe/History.antt =====
-- A writer and readers of one pipe, interleaved in any order at the points where they sleep or
-- return. A step is a run of pipewrite, of piperead or of pipeclose.
use cmpt.Prelude.{
  ℕ, suc, ◌≡◌, refl, sym, ap, ap₂, subst, ◌∙◌, Bool, false, List, [], ◌∷◌, ◌++◌, arith, take, drop,
  take-append-drop, take-nil,
}
use mathlib.Core.List.{append-nil, append_assoc}
use cmpt.Pipe.{
  Pipe, init_pipe, pipewrite, WriteEnd, wrote, refused, sleeping, ReadEnd, got, piperead, pipeclose,
}
use cmpt.Pipe.Ring.{
  IsValid, contents, contents-init, init-IsValid, pipeclose-IsValid, contents-pipeclose,
}
use cmpt.Pipe.Transfer.{write_end, room, pipewrite-take, read_end, piperead-take}

-- `handed` are the bytes that the writer has passed to pipewrite so far, `pending` those of them
-- that its sleeping call still holds, `lost` those that its calls gave up with -1, and `received`
-- what the readers got.
pub record Traffic : Type 0 where
  pub pipe : Pipe
  pub handed : List ℕ
  pub pending : List ℕ
  pub lost : List ℕ
  pub received : List ℕ

pub data Step (s : Traffic) : Traffic → Type 0 where
  -- a new call of write, which returns or falls asleep
  hand :
      (bs : List ℕ) → s.pending ≡ [] → Step s (record s { handed = s.handed ++ bs; pending = bs })
  finish :
      {p : Pipe} (killed : Bool)
      → pipewrite killed s.pending s.pipe ≡ (p, wrote)
      → Step s (record s { pipe = p; pending = [] })
  doze :
      {p : Pipe} {rest : List ℕ} (killed : Bool)
      → pipewrite killed s.pending s.pipe ≡ (p, sleeping rest)
      → Step s (record s { pipe = p; pending = rest })
  -- The call returns -1 and leaves in the ring what fitted.
  refuse :
      {p : Pipe} (killed : Bool)
      → pipewrite killed s.pending s.pipe ≡ (p, refused)
      → Step s (record s { pipe = p; pending = []; lost = s.lost ++ drop (room s.pipe) s.pending })
  receive :
      {p : Pipe} {bs : List ℕ} (killed : Bool) (n : ℕ)
      → piperead killed n s.pipe ≡ (p, got bs)
      → Step s (record s { pipe = p; received = s.received ++ bs })
  close : (writable : Bool) → Step s (record s { pipe = (pipeclose writable s.pipe).0 })

pub data Reach (page : ℕ → ℕ) : Traffic → Type 0 where
  start :
      Reach page
        (record { pipe = init_pipe page; handed = []; pending = []; lost = []; received = [] })
  later : {s t : Traffic} → Reach page s → Step s t → Reach page t

-- zs has the elements of xs and those of ys, each in their order.
pub data Merge : List ℕ → List ℕ → List ℕ → Type 0 where
  neither : Merge [] [] []
  left : (x : ℕ) {xs ys zs : List ℕ} → Merge xs ys zs → Merge (x ∷ xs) ys (x ∷ zs)
  right : (y : ℕ) {xs ys zs : List ℕ} → Merge xs ys zs → Merge xs (y ∷ ys) (y ∷ zs)

Merge-lefts : (bs : List ℕ) → Merge bs [] bs
Merge-lefts [] = neither
Merge-lefts (b ∷ bs) = left b (Merge-lefts bs)

Merge-rights : (bs : List ℕ) → Merge [] bs bs
Merge-rights [] = neither
Merge-rights (b ∷ bs) = right b (Merge-rights bs)

Merge-++ :
    {xs ys zs xs' ys' zs' : List ℕ}
    → Merge xs ys zs
    → Merge xs' ys' zs'
    → Merge (xs ++ xs') (ys ++ ys') (zs ++ zs')
Merge-++ neither n = n
Merge-++ (left x m) n = left x (Merge-++ m n)
Merge-++ (right y m) n = right y (Merge-++ m n)

add_left : {xs ys zs : List ℕ} (bs : List ℕ) → Merge xs ys zs → Merge (xs ++ bs) ys (zs ++ bs)
add_left {xs} {ys} {zs} bs m =
    subst (λ l. Merge (xs ++ bs) l (zs ++ bs)) (append-nil ys) (Merge-++ m (Merge-lefts bs))

add_right : {xs ys zs : List ℕ} (bs : List ℕ) → Merge xs ys zs → Merge xs (ys ++ bs) (zs ++ bs)
add_right {xs} {ys} {zs} bs m =
    subst (λ l. Merge l (ys ++ bs) (zs ++ bs)) (append-nil xs) (Merge-++ m (Merge-rights bs))

-- Nothing lost: the same list.
Merge-nil : {xs ys zs : List ℕ} → Merge xs ys zs → ys ≡ [] → zs ≡ xs
Merge-nil neither e = refl
Merge-nil (left x m) e = ap (λ l. x ∷ l) (Merge-nil m e)
Merge-nil (right y m) e = absurd (ground (arith, e))

-- `passed` is what was handed before the bytes that a sleeping write still holds.
pub record Balanced (s : Traffic) : Type 0 where
  pub valid : IsValid s.pipe
  pub passed : List ℕ
  pub split : s.handed ≡ passed ++ s.pending
  pub order : Merge (s.received ++ contents s.pipe) s.lost passed

write_end-wrote : (killed o : Bool) (r : List ℕ) → write_end killed o r ≡ wrote → r ≡ []
write_end-wrote killed o [] e = refl
write_end-wrote killed o (b ∷ r) e = ground arith

write_end-sleeping :
    (killed o : Bool) (r : List ℕ) {rest : List ℕ} → write_end killed o r ≡ sleeping rest → r ≡ rest
write_end-sleeping killed o [] e = ground arith
write_end-sleeping killed o (b ∷ r) e = ground arith

read_end-got :
    (killed o : Bool) (n : ℕ) (q : List ℕ) {bs : List ℕ}
    → read_end killed o n q ≡ got bs
    → bs ≡ take n q
read_end-got killed o n [] e = rw (take-nil n) (ground arith)
read_end-got killed o n (b ∷ q) e = ground arith

module _ {s : Traffic} (b : Balanced s) where
  -- The bytes that fit have passed, after a run of pipewrite.
  fitted :
      {p : Pipe} {e : WriteEnd} (killed : Bool)
      → pipewrite killed s.pending s.pipe ≡ (p, e)
      → Merge (s.received ++ contents p) s.lost (b.passed ++ take (room s.pipe) s.pending)
  fitted {p} killed run =
      let w = pipewrite-take killed s.pending s.pipe b.valid in
      let q : s.received ++ contents p
          ≡ (s.received ++ contents s.pipe) ++ take (room s.pipe) s.pending =
        ap (λ (o : Pipe × WriteEnd). s.received ++ contents o.0) (sym run)
        ∙ ap (λ l. s.received ++ l) w.queue
        ∙ sym (append_assoc s.received _ _) in
      subst (λ l. Merge l s.lost (b.passed ++ take (room s.pipe) s.pending)) (sym q)
        (add_left (take (room s.pipe) s.pending) b.order)

  handed_cut : s.handed ≡ (b.passed ++ take (room s.pipe) s.pending) ++ drop (room s.pipe) s.pending
  handed_cut =
      b.split
      ∙ ap (λ l. b.passed ++ l) (sym (take-append-drop (room s.pipe) s.pending))
      ∙ sym (append_assoc b.passed _ _)

  pipewrite-IsValid :
      {p : Pipe} {e : WriteEnd} (killed : Bool)
      → pipewrite killed s.pending s.pipe ≡ (p, e)
      → IsValid p
  pipewrite-IsValid killed run =
      subst (λ (o : Pipe × WriteEnd). IsValid o.0) run
        (pipewrite-take killed s.pending s.pipe b.valid).valid

  written :
      {p : Pipe} {e : WriteEnd} (killed : Bool) (rest : List ℕ)
      → pipewrite killed s.pending s.pipe ≡ (p, e)
      → drop (room s.pipe) s.pending ≡ rest
      → Balanced (record s { pipe = p; pending = rest })
  written killed rest run over = record {
    valid = pipewrite-IsValid killed run;
    passed = b.passed ++ take (room s.pipe) s.pending;
    split = handed_cut ∙ ap (λ l. (b.passed ++ take (room s.pipe) s.pending) ++ l) over;
    order = fitted killed run;
  }

  gave_up :
      {p : Pipe} (killed : Bool)
      → pipewrite killed s.pending s.pipe ≡ (p, refused)
      → Balanced
          (record s { pipe = p; pending = []; lost = s.lost ++ drop (room s.pipe) s.pending })
  gave_up {p} killed run = record {
    valid = pipewrite-IsValid killed run;
    passed = s.handed;
    split = sym (append-nil s.handed);
    order =
        subst (λ l. Merge (s.received ++ contents p) (s.lost ++ drop (room s.pipe) s.pending) l)
          (sym handed_cut) (add_right (drop (room s.pipe) s.pending) (fitted killed run));
  }

  taken :
      {p : Pipe} {bs : List ℕ} (killed : Bool) (n : ℕ)
      → piperead killed n s.pipe ≡ (p, got bs)
      → Balanced (record s { pipe = p; received = s.received ++ bs })
  taken {p} {bs} killed n run =
      let t = piperead-take killed n s.pipe b.valid in
      let got_bs : bs ≡ take n (contents s.pipe) =
        read_end-got killed s.pipe.writeopen n (contents s.pipe)
          (sym t.ending ∙ ap (λ (o : Pipe × ReadEnd). o.1) run) in
      let left : contents p ≡ drop n (contents s.pipe) =
        ap (λ (o : Pipe × ReadEnd). contents o.0) (sym run) ∙ t.queue in
      let cut : contents s.pipe ≡ bs ++ contents p =
        sym (take-append-drop n (contents s.pipe)) ∙ ap₂ ◌++◌ (sym got_bs) (sym left) in
      record {
        valid = subst (λ (o : Pipe × ReadEnd). IsValid o.0) run t.valid;
        passed = b.passed;
        split = b.split;
        order =
            subst (λ l. Merge l s.lost b.passed)
              (ap (λ l. s.received ++ l) cut ∙ sym (append_assoc s.received bs (contents p)))
              b.order;
      }

Step-Balanced : {s t : Traffic} → Step s t → Balanced s → Balanced t
Step-Balanced (hand bs idle) b = record {
  valid = b.valid;
  passed = b.passed;
  split = ap (λ l. l ++ bs) (b.split ∙ ap (λ l. b.passed ++ l) idle ∙ append-nil b.passed);
  order = b.order;
}
Step-Balanced {s} (finish killed e) b =
    let w = pipewrite-take killed s.pending s.pipe b.valid in
    written b killed [] e (
      write_end-wrote killed s.pipe.readopen _ (sym w.ending ∙ ap (λ (o : Pipe × WriteEnd). o.1) e))
Step-Balanced {s} (doze killed e) b =
    let w = pipewrite-take killed s.pending s.pipe b.valid in
    written b killed _ e (
      write_end-sleeping killed s.pipe.readopen _
        (sym w.ending ∙ ap (λ (o : Pipe × WriteEnd). o.1) e))
Step-Balanced (refuse killed e) b = gave_up b killed e
Step-Balanced (receive killed n e) b = taken b killed n e
Step-Balanced {s} (close writable) b = record {
  valid = pipeclose-IsValid writable s.pipe b.valid;
  passed = b.passed;
  split = b.split;
  order = rw (contents-pipeclose writable s.pipe) b.order;
}

Reach-Balanced : {page : ℕ → ℕ} {s : Traffic} → Reach page s → Balanced s
Reach-Balanced {page} start = record {
  valid = init-IsValid page;
  passed = [];
  split = refl;
  order = rw (contents-init page) neither;
}
Reach-Balanced (later r st) = Step-Balanced st (Reach-Balanced r)

-- However the runs of one writer and the readers interleave, and whichever ends close or calls
-- are interrupted, the bytes handed to pipewrite before those that a sleeping write still holds are
-- those that were read, then those in the ring, with those among them that were lost to a call
-- that returned -1: none is doubled or reordered, and where no call returned -1 none is lost. The
-- ring keeps its bounds.
pub pipe_fifo :
    {page : ℕ → ℕ} {s : Traffic}
    → Reach page s
    → ((passed : List ℕ) × (s.handed ≡ passed ++ s.pending)
        × Merge (s.received ++ contents s.pipe) s.lost passed)
      × (s.lost ≡ [] → s.handed ≡ s.received ++ (contents s.pipe ++ s.pending))
      × IsValid s.pipe
pipe_fifo {page} {s} r =
    let b = Reach-Balanced r in
    (
      (b.passed, b.split, b.order),
      λ e.
          b.split
          ∙ ap (λ l. l ++ s.pending) (Merge-nil b.order e)
          ∙ append_assoc s.received (contents s.pipe) s.pending,
      b.valid,
    )

got-nil :
    (killed o : Bool) (n : ℕ) (q : List ℕ)
    → read_end killed o (suc n) q ≡ got []
    → (q ≡ []) × (o ≡ false)
got-nil killed o n [] e = (refl, ground arith)
got-nil killed o n (b ∷ q) e = ground arith

-- When piperead, asked for at least one byte, returns 0 and no write sleeps, the write end is
-- closed and the readers have received, in order, every byte that was handed to pipewrite but those
-- lost to calls that returned -1; all of them where there was no such call.
pub pipe_eof :
    {page : ℕ → ℕ} {s : Traffic} {p : Pipe} (killed : Bool) (n : ℕ)
    → Reach page s
    → s.pending ≡ []
    → piperead killed (suc n) s.pipe ≡ (p, got [])
    → (s.pipe.writeopen ≡ false)
      × Merge s.received s.lost s.handed
      × (s.lost ≡ [] → s.received ≡ s.handed)
pipe_eof {s = s} killed n r idle run =
    let b = Reach-Balanced r in
    let t = piperead-take killed (suc n) s.pipe b.valid in
    let (drained, closed) =
      got-nil killed s.pipe.writeopen n (contents s.pipe)
        (sym t.ending ∙ ap (λ (o : Pipe × ReadEnd). o.1) run) in
    let all : s.handed ≡ b.passed = b.split ∙ ap (λ l. b.passed ++ l) idle ∙ append-nil b.passed in
    let none : s.received ++ contents s.pipe ≡ s.received =
      ap (λ l. s.received ++ l) drained ∙ append-nil s.received in
    let order : Merge s.received s.lost s.handed =
      subst (λ l. Merge s.received s.lost l) (sym all)
        (subst (λ l. Merge l s.lost b.passed) none b.order) in
    (closed, order, λ e. sym (Merge-nil order e))
