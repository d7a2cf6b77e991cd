-- ===== src/Pipe/Examples.antt =====
-- A pipe at work on a few bytes.
use cmpt.Prelude.{ap, zero, suc, drop, ℕ, ◌≡◌, refl, true, false, List, [], ◌∷◌, ◌++◌}
use cmpt.Pipe.{refused, Pipe, init_pipe, pipewrite, piperead, got, pipeclose}
use cmpt.Pipe.Ring.{IsValid, contents, init-IsValid}
use cmpt.Pipe.Transfer.{room, Written, pipewrite-take, Read, piperead-take}
use cmpt.Pipe.History.{
  Traffic, Merge, Reach, start, later, hand, finish, refuse, receive, close, pipe_fifo, pipe_eof,
}

abbrev page : ℕ → ℕ
page = λ _. 9

abbrev fresh : Pipe
fresh = init_pipe page

abbrev loaded : Pipe
loaded = (pipewrite false (1 ∷ 2 ∷ 3 ∷ []) fresh).0

pipewrite-take_example :
    Written false (1 ∷ 2 ∷ 3 ∷ []) fresh (pipewrite false (1 ∷ 2 ∷ 3 ∷ []) fresh)
pipewrite-take_example = pipewrite-take false (1 ∷ 2 ∷ 3 ∷ []) fresh (init-IsValid page)

loaded-IsValid : IsValid loaded
loaded-IsValid = pipewrite-take_example.valid

piperead-take_example : Read false 2 loaded (piperead false 2 loaded)
piperead-take_example = piperead-take false 2 loaded loaded-IsValid

reads_two : (piperead false 2 loaded).1 ≡ got (1 ∷ 2 ∷ [])
unfolding piperead pipewrite init_pipe
reads_two = refl

-- Three bytes are written and read back, and the writer closes its end.
abbrev drained : Pipe
drained = (pipeclose true (piperead false 5 loaded).0).0

abbrev traffic : Traffic
traffic = record {
  pipe = drained;
  handed = 1 ∷ 2 ∷ 3 ∷ [];
  pending = [];
  lost = [];
  received = 1 ∷ 2 ∷ 3 ∷ [];
}

traffic-Reach : Reach page traffic
unfolding piperead pipewrite init_pipe pipeclose
traffic-Reach =
    later
      (later (later (later start (hand (1 ∷ 2 ∷ 3 ∷ []) refl)) (finish false refl))
        (receive false 5 refl))
      (close true)

pipe_eof_example :
    (drained.writeopen ≡ false)
    × Merge traffic.received [] traffic.handed
    × (traffic.lost ≡ [] → traffic.received ≡ traffic.handed)
unfolding piperead pipewrite init_pipe pipeclose
pipe_eof_example = pipe_eof false 0 traffic-Reach refl refl

-- 513 bytes, one more than the ring takes, from a process that is killed.
sevens : ℕ → List ℕ
sevens zero = []
sevens (suc n) = 7 ∷ sevens n

abbrev cut_short : Traffic
cut_short = record {
  pipe = (pipewrite true (sevens 513) fresh).0;
  handed = sevens 513;
  pending = [];
  lost = drop (room fresh) (sevens 513);
  received = [];
}

refused_run : (pipewrite true (sevens 513) fresh).1 ≡ refused
unfolding pipewrite init_pipe sevens
refused_run = refl

cut_short-Reach : Reach page cut_short
cut_short-Reach =
    later (later start (hand (sevens 513) refl))
      (refuse true (ap (λ e. ((pipewrite true (sevens 513) fresh).0, e)) refused_run))

pipe_fifo_example :
    ((passed : List ℕ) × (sevens 513 ≡ passed ++ [])
      × Merge ([] ++ contents cut_short.pipe) cut_short.lost passed)
    × (cut_short.lost ≡ [] → sevens 513 ≡ [] ++ (contents cut_short.pipe ++ []))
    × IsValid cut_short.pipe
pipe_fifo_example = pipe_fifo cut_short-Reach

one_lost : cut_short.lost ≡ 7 ∷ []
unfolding sevens init_pipe
one_lost = refl
