-- ===== src/Switch/First.antt =====
-- The first switch to a routine, whose context `bContext::init` (src/b_context.cc) has written.
use b_routine.Base.{ℕ, ◌+◌, ◌%◌, ◌≤◌, ◌≡◌, refl, sym, subst, ◌∙◌, arith, ◌==◌, if◌then◌else◌}
use b_routine.Stacks.{Stack, init_sp}
use b_routine.Stacks.Layout.{init_sp_bounds}
use b_routine.Switch.{
  rcx, rdx, rbx, rsp, rbp, rsi, rdi, r8, r9, r12, r13, r14, r15, Cpu, init_context, b_swap,
}
use b_routine.Switch.Saved.{Holds}
use b_routine.Switch.Restored.{b_swap-Swapped}
use b_routine.Switch.Resumed.{CanSwap}

-- The registers that the context at `p` gives, whatever they are.
context_regs : (ℕ → ℕ) → ℕ → ℕ → ℕ
context_regs mem p r =
    if r == r15
    then mem p
    else if r == r14
    then mem (p + 8)
    else if r == r13
    then mem (p + 16)
    else if r == r12
    then mem (p + 24)
    else if r == r9
    then mem (p + 32)
    else if r == r8
    then mem (p + 40)
    else if r == rbp
    then mem (p + 48)
    else if r == rdi
    then mem (p + 56)
    else if r == rsi
    then mem (p + 64)
    else if r == rdx
    then mem (p + 80)
    else if r == rcx
    then mem (p + 88)
    else if r == rbx
    then mem (p + 96)
    else mem (p + 104)

context_regs-Holds : (mem : ℕ → ℕ) (p : ℕ) → Holds mem p (context_regs mem p) (mem (p + 72))
unfolding context_regs
context_regs-Holds mem p = record {
  at_r15 = refl;
  at_r14 = refl;
  at_r13 = refl;
  at_r12 = refl;
  at_r9 = refl;
  at_r8 = refl;
  at_rbp = refl;
  at_rdi = refl;
  at_rsi = refl;
  at_ret = refl;
  at_rdx = refl;
  at_rcx = refl;
  at_rbx = refl;
  at_rsp = refl;
}

record Written (p sp self start : ℕ) (mem : ℕ → ℕ) : Type 0 where
  stack : mem (p + 104) ≡ sp
  argument : mem (p + 56) ≡ self
  second : mem (p + 64) ≡ 0
  entry : mem (p + 72) ≡ start

init_context-Written :
    (p sp self start : ℕ) (mem : ℕ → ℕ) → Written p sp self start (init_context p sp self start mem)
unfolding init_context
init_context-Written p sp self start mem = record {
  stack = ground arith;
  argument = ground arith;
  second = ground arith;
  entry = ground arith;
}

-- The first switch to a routine with the stack `s` and the context that `bContext::init` has written
-- starts `RoutineBegin` with the routine as its argument. The stack pointer is 8 below a multiple of
-- 16, as at the entry of every function, and lies between the guard pages of the routine's stack, with
-- one word left above it. The stack ends on a multiple of 16, the contexts do not overlap, and neither
-- holds the two stack tops.
pub b_swap-init_context :
    (c : Cpu) (mem : ℕ → ℕ) (page : ℕ) (s : Stack) (self start : ℕ)
    → 16 ≤ s.stack_size
    → (s.stack_ptr + page + s.stack_size) % 16 ≡ 0
    → c.mem ≡ init_context (c.reg rsi) (init_sp page s) self start mem
    → CanSwap c (init_sp page s)
    → ((b_swap c).rip ≡ start)
      × ((b_swap c).reg rdi ≡ self)
      × (((b_swap c).reg rsp + 8) % 16 ≡ 0)
      × (s.stack_ptr + page ≤ (b_swap c).reg rsp)
      × ((b_swap c).reg rsp + 8 ≡ s.stack_ptr + page + s.stack_size)
unfolding context_regs
b_swap-init_context c mem page s self start big end written can =
    let p = c.reg rsi in
    let sp = init_sp page s in
    let w =
      subst (λ m. Written p sp self start m) (sym written)
        (init_context-Written p sp self start mem) in
    let reg = context_regs c.mem p in
    let top : reg rsp ≡ sp = w.stack in
    let r =
      (b_swap-Swapped c reg (c.mem (p + 72)) (context_regs-Holds c.mem p) can.apart can.own
        (rw top can.from) (rw top can.to)).resumes in
    let b = init_sp_bounds page s big end in
    let there = r.stack in
    (
      r.at ∙ w.entry,
      r.rdi_back ∙ w.argument,
      omega (arith, there, top, b),
      omega (arith, there, top, b),
      omega (arith, there, top, b),
    )
