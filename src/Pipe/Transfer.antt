-- ===== src/Pipe/Transfer.antt =====
-- pipewrite and piperead against a queue of bytes bounded by PIPESIZE.
use cmpt.Prelude.{
  ℕ, zero, suc, ◌-◌, ◌%◌, ◌≡◌, refl, sym, ap, ◌∙◌, inl, inr, Bool, true, false, not, ◌&&◌, ◌||◌,
  List, [], ◌∷◌, ◌++◌, arith, if◌then◌else◌, take, drop, Bool-cases, take-nil, drop-nil,
}
use mathlib.Core.List.{append-nil, append_assoc}
use cmpt.Pipe.{
  Pipe, pipe_size, put_byte, skip_byte, is_full, is_empty, pipewrite, WriteEnd, wrote, refused,
  sleeping, ReadEnd, got, interrupted, waiting, read_bytes, piperead,
}
use cmpt.Pipe.Ring.{
  IsValid, contents, used, contents-put_byte, put_byte-IsValid, used-put_byte, contents-skip_byte,
  skip_byte-IsValid, contents-empty,
}

-- How a write ends when the queue has taken what it could and `rest` is left.
abbrev pub write_end : Bool → Bool → List ℕ → WriteEnd
write_end killed readopen [] = wrote
write_end killed readopen (b ∷ bs) = if not readopen || killed then refused else sleeping (b ∷ bs)

-- How a read of up to `n` bytes ends at the queue `q`.
abbrev pub read_end : Bool → Bool → ℕ → List ℕ → ReadEnd
read_end killed writeopen n [] =
    if writeopen then (if killed then interrupted else waiting) else got []
read_end killed writeopen n (b ∷ q) = got (take n (b ∷ q))

abbrev pub room : Pipe → ℕ
room p = pipe_size - used p

-- What a run leaves alone.
abbrev SameEnds : Pipe → Pipe → Type 0
SameEnds p q = (q.readopen ≡ p.readopen) × (q.writeopen ≡ p.writeopen)

pub record Written (killed : Bool) (bs : List ℕ) (p : Pipe) (out : Pipe × WriteEnd) : Type 0 where
  pub queue : contents out.0 ≡ contents p ++ take (room p) bs
  pub ending : out.1 ≡ write_end killed p.readopen (drop (room p) bs)
  pub valid : IsValid out.0
  pub ends : SameEnds p out.0
  pub reader : out.0.nread ≡ p.nread

full_room : {p : Pipe} → IsValid p → is_full p ≡ true → room p ≡ 0
unfolding is_full
full_room v full = ground (arith, v.read_range, v.write_range)

next_room : {p : Pipe} (b : ℕ) → IsValid p → is_full p ≡ false → room p ≡ suc (room (put_byte b p))
next_room b v space = omega (arith, used-put_byte v b space, (put_byte-IsValid v b space).fits)

-- A run of pipewrite appends to the queue as many of its bytes as fit below PIPESIZE, in order. It
-- returns n if all fit; otherwise it returns -1 if the reader is gone or the process is killed,
-- and sleeps with exactly the bytes that did not fit if not.
pub pipewrite-take :
    (killed : Bool) (bs : List ℕ) (p : Pipe)
    → IsValid p
    → Written killed bs p (pipewrite killed bs p)
unfolding pipewrite
pipewrite-take killed [] p v = record {
  queue = sym (ap (λ l. contents p ++ l) (take-nil (room p)) ∙ append-nil _);
  ending = rw (drop-nil (room p));
  valid = v;
  ends = (refl, refl);
  reader = refl;
}
pipewrite-take killed (b ∷ bs) p v = elim (Bool-cases (is_full p)) [
  | inl full ↦ rw full (record {
    queue = rw (full_room v full) (sym (append-nil _));
    ending = rw (full_room v full);
    valid = v;
    ends = (refl, refl);
    reader = refl;
  })
  | inr space ↦
      let ih = pipewrite-take killed bs (put_byte b p) (put_byte-IsValid v b space) in
      rw space (record {
        queue =
            rw (next_room b v space)
              (ih.queue ∙ (rw (contents-put_byte v b space) (append_assoc _ (b ∷ []) _)));
        ending = rw (next_room b v space) ih.ending;
        valid = ih.valid;
        ends = ih.ends;
        reader = ih.reader;
      })
]

record Taken (n : ℕ) (p : Pipe) (out : Pipe × List ℕ) : Type 0 where
  bytes : out.1 ≡ take n (contents p)
  queue : contents out.0 ≡ drop n (contents p)
  valid : IsValid out.0
  ends : SameEnds p out.0
  writer : out.0.nwrite ≡ p.nwrite

read_bytes-take : (n : ℕ) (p : Pipe) → IsValid p → Taken n p (read_bytes n p)
unfolding read_bytes skip_byte
read_bytes-take zero p v = record {
  bytes = refl;
  queue = refl;
  valid = v;
  ends = (refl, refl);
  writer = refl;
}
read_bytes-take (suc n) p v = elim (Bool-cases (is_empty p)) [
  | inl none ↦ rw none (record {
    bytes = rw (contents-empty v none);
    queue = rw (contents-empty v none);
    valid = v;
    ends = (refl, refl);
    writer = refl;
  })
  | inr more ↦
      let ih = read_bytes-take n (skip_byte p) (skip_byte-IsValid v more) in
      rw more (record {
        bytes =
            rw (contents-skip_byte v more) (ap (λ l. p.bytes (p.nread % pipe_size) ∷ l) ih.bytes);
        queue = rw (contents-skip_byte v more) ih.queue;
        valid = ih.valid;
        ends = ih.ends;
        writer = ih.writer;
      })
]

pub record Read (killed : Bool) (n : ℕ) (p : Pipe) (out : Pipe × ReadEnd) : Type 0 where
  pub ending : out.1 ≡ read_end killed p.writeopen n (contents p)
  pub queue : contents out.0 ≡ drop n (contents p)
  pub valid : IsValid out.0
  pub ends : SameEnds p out.0
  pub writer : out.0.nwrite ≡ p.nwrite

-- A run of piperead takes the first n bytes of the queue, or all if it holds fewer, and leaves the
-- others. At an empty queue with the writer open it takes nothing: it returns -1 if the process
-- is killed, and sleeps if not. At an empty queue without a writer it returns 0 bytes.
pub piperead-take :
    (killed : Bool) (n : ℕ) (p : Pipe) → IsValid p → Read killed n p (piperead killed n p)
unfolding piperead
piperead-take killed n p v = elim (Bool-cases (is_empty p && p.writeopen)) [
  | inl none ↦
      let q : contents p ≡ [] = contents-empty v (ground arith) in
      let o : p.writeopen ≡ true = ground arith in
      rw none (record {
        ending = rw q (ground arith);
        queue = rw q (sym (drop-nil n));
        valid = v;
        ends = (refl, refl);
        writer = refl;
      })
  | inr more ↦
      let t = read_bytes-take n p v in
      rw more (record {
        ending = rw t.bytes (got_end more);
        queue = t.queue;
        valid = t.valid;
        ends = t.ends;
        writer = t.writer;
      })
]
  where
    got_end :
        (is_empty p && p.writeopen) ≡ false
        → got (take n (contents p)) ≡ read_end killed p.writeopen n (contents p)
    got_end more = elim (Bool-cases (is_empty p)) [
      | inl none ↦
          let o : p.writeopen ≡ false = ground arith in
          rw (contents-empty v none) (rw (take-nil n) (ground arith))
      | inr some ↦ rw (contents-skip_byte v some)
    ]
