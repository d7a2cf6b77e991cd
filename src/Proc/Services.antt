-- ===== src/Proc/Services.antt =====
-- What proc.c calls in the files below it, as operations on the rest of the kernel's state R.
use cmpt.Prelude.{ℕ}
use cmpt.Proc.{Table}

pub record Services (R : Type 0) : Type 0 where
  pub kalloc : R → ℕ × R  -- kalloc.c; 0 if there is no page
  pub kfree : ℕ → R → R
  pub copyuvm : ℕ → ℕ → R → ℕ × R  -- vm.c; 0 if there is no memory
  pub freevm : ℕ → R → R
  pub filedup : ℕ → R → R  -- file.c
  pub fileclose : ℕ → R → R
  pub idup : ℕ → R → R  -- fs.c
  pub put_cwd : ℕ → R → R  -- begin_op(); iput(); end_op();
  pub slot_addr : ℕ → ℕ  -- &ptable.proc[i]

-- The table with what the runs on it use besides.
pub record Kernel (R : Type 0) : Type 0 where
  pub table : Table
  pub nextpid : ℕ
  pub rest : R
