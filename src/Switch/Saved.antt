-- ===== src/Switch/Saved.antt =====
-- What the first half of `bSwap` (src/b_swap.S) leaves.
use b_routine.Base.{ℕ, ◌+◌, ◌≤◌, ◌≡◌, ◌≢◌, ◌⊎◌, arith}
use b_routine.Switch.{
  rax, rcx, rdx, rbx, rsp, rbp, rsi, rdi, r8, r9, r12, r13, r14, r15, regs_bytes, Cpu, run,
  save_code,
}

-- A word that does not touch the context at `p`.
abbrev pub Outside : (p a : ℕ) → Type 0
Outside p a = (a + 8 ≤ p) ⊎ (p + regs_bytes ≤ a)

-- The context at `p` holds the registers of `c`, with `ret` as the return address.
pub record Holds (mem : ℕ → ℕ) (p : ℕ) (reg : ℕ → ℕ) (ret : ℕ) : Type 0 where
  pub at_r15 : mem p ≡ reg r15
  pub at_r14 : mem (p + 8) ≡ reg r14
  pub at_r13 : mem (p + 16) ≡ reg r13
  pub at_r12 : mem (p + 24) ≡ reg r12
  pub at_r9 : mem (p + 32) ≡ reg r9
  pub at_r8 : mem (p + 40) ≡ reg r8
  pub at_rbp : mem (p + 48) ≡ reg rbp
  pub at_rdi : mem (p + 56) ≡ reg rdi
  pub at_rsi : mem (p + 64) ≡ reg rsi
  pub at_ret : mem (p + 72) ≡ ret
  pub at_rdx : mem (p + 80) ≡ reg rdx
  pub at_rcx : mem (p + 88) ≡ reg rcx
  pub at_rbx : mem (p + 96) ≡ reg rbx
  pub at_rsp : mem (p + 104) ≡ reg rsp

pub record Saved (c d : Cpu) : Type 0 where
  pub context : Holds d.mem (c.reg rdi) c.reg (c.mem (c.reg rsp))
  pub others : (a : ℕ) → Outside (c.reg rdi) a → d.mem a ≡ c.mem a
  pub regs : (r : ℕ) → r ≢ rax → d.reg r ≡ c.reg r

pub save_code-Saved : (c : Cpu) → Outside (c.reg rdi) (c.reg rsp) → Saved c (run save_code c)
unfolding run
save_code-Saved c out = record {
  context = record {
    at_r15 = ground arith;
    at_r14 = ground arith;
    at_r13 = ground arith;
    at_r12 = ground arith;
    at_r9 = ground arith;
    at_r8 = ground arith;
    at_rbp = ground arith;
    at_rdi = ground arith;
    at_rsi = ground arith;
    at_ret = ground arith;
    at_rdx = ground arith;
    at_rcx = ground arith;
    at_rbx = ground arith;
    at_rsp = ground arith;
  };
  others = λ a o. ground arith;
  regs = λ r n. ground arith;
}
