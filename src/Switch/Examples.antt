-- ===== src/Switch/Examples.antt =====
-- Tests of `bSwap` (src/b_swap.S) between a routine with the context at 1000 and one that has not run
-- yet, with the context at 2000 and the stack at 8192.
use b_routine.Base.{ℕ, ◌+◌, ◌%◌, ◌≤◌, ◌≡◌, refl, inr, arith, ◌==◌, if◌then◌else◌}
use b_routine.Stacks.{Stack, init_sp}
use b_routine.Switch.{rsp, rbx, rsi, rdi, Cpu, init_context, run, exec, b_swap}
use b_routine.Switch.Restored.{Resumes}
use b_routine.Switch.Resumed.{b_swap-Resumes}
use b_routine.Switch.First.{b_swap-init_context}

abbrev stack : Stack
stack = record { stack_ptr = 8192; stack_size = 131072 }

-- The routine calls `bSwap` with 7 in `rbx`; its return address 555 is at 500.
abbrev leaving : Cpu
leaving = record {
  reg = λ r.
      if r == rdi
      then 1000
      else if r == rsi
      then 2000
      else if r == rsp
      then 500
      else if r == rbx
      then 7
      else 0;
  mem = init_context 2000 (init_sp 4096 stack) 42 900 (λ a. if a == 500 then 555 else 0);
  rip = 0;
}

sp_value : init_sp 4096 stack ≡ 143344
unfolding init_sp
sp_value = refl

b_swap-init_context_example :
    ((b_swap leaving).rip ≡ 900)
    × ((b_swap leaving).reg rdi ≡ 42)
    × (((b_swap leaving).reg rsp + 8) % 16 ≡ 0)
    × (12288 ≤ (b_swap leaving).reg rsp)
    × ((b_swap leaving).reg rsp + 8 ≡ 143360)
b_swap-init_context_example =
    b_swap-init_context leaving (λ a. if a == 500 then 555 else 0) 4096 stack 42 900 (omega arith)
      (omega arith) refl
      (record {
        apart = omega arith;
        own = omega arith;
        from = inr (omega (arith, sp_value));
        to = inr (omega (arith, sp_value));
      })

abbrev held : ℕ → ℕ
held a = if a == 2072 then 900 else if a == 2104 then 5000 else if a == 500 then 555 else 0

abbrev here : Cpu
here = record leaving { mem = held }

-- The other routine has run, and calls `bSwap` to go back.
abbrev coming : Cpu
coming = record {
  reg = λ r. if r == rdi then 2000 else if r == rsi then 1000 else if r == rsp then 4900 else 1;
  mem = (b_swap here).mem;
  rip = 0;
}

there_and_back :
    ((b_swap coming).rip ≡ 555) × ((b_swap coming).reg rbx ≡ 7) × ((b_swap coming).reg rsp ≡ 508)
unfolding b_swap run exec
there_and_back = (refl, refl, refl)

b_swap-Resumes_example : Resumes (b_swap coming) here.reg 555
b_swap-Resumes_example =
    (b_swap-Resumes here coming (λ r. if r == rsp then 5000 else 0) 900
      (record {
        at_r15 = refl;
        at_r14 = refl;
        at_r13 = refl;
        at_r12 = refl;
        at_r9 = refl;
        at_r8 = refl;
        at_rbp = refl;
        at_rdi = refl;
        at_rsi = refl;
        at_ret = refl;
        at_rdx = refl;
        at_rcx = refl;
        at_rbx = refl;
        at_rsp = refl;
      })
      (record { apart = omega arith; own = omega arith; from = omega arith; to = omega arith }) refl
      (λ k h. refl)
      (record { apart = omega arith; own = omega arith; from = omega arith; to = omega arith })).0
