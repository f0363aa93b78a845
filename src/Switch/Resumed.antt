-- ===== src/Switch/Resumed.antt =====
-- A routine that `bSwap` (src/b_swap.S) switches away from and later back to.
use b_routine.Base.{ℕ, ◌+◌, ◌≤◌, ◌≡◌, ◌≢◌, sym, subst}
use b_routine.Switch.{rsp, rsi, rdi, regs_bytes, Cpu, b_swap}
use b_routine.Switch.Saved.{Outside, Holds}
use b_routine.Switch.Restored.{Resumes, Apart, Holds-kept, b_swap-Swapped}

-- The two contexts of a call do not overlap, and neither holds the two stack tops.
pub record CanSwap (c : Cpu) (top : ℕ) : Type 0 where
  pub apart : Apart (c.reg rdi) (c.reg rsi)
  pub own : Outside (c.reg rdi) (c.reg rsp)
  pub from : Outside (c.reg rdi) top
  pub to : Outside (c.reg rsi) top

-- A routine calls `bSwap` to leave, and another call of `bSwap`, made in any later state, switches
-- back to its context. To the routine its own call has returned: it goes on at the return address,
-- with the stack pointer behind that address and all the other registers that `bSwap` keeps as they
-- were, and its return address stands in the memory as before. Nothing has written to its context in
-- between, and the contexts and the tops of the stacks do not overlap.
pub b_swap-Resumes :
    (c d : Cpu) (reg : ℕ → ℕ) (ret : ℕ)
    → Holds c.mem (c.reg rsi) reg ret
    → CanSwap c (reg rsp)
    → d.reg rsi ≡ c.reg rdi
    → ((k : ℕ) → k + 8 ≤ regs_bytes → d.mem (c.reg rdi + k) ≡ (b_swap c).mem (c.reg rdi + k))
    → CanSwap d (c.reg rsp)
    → Resumes (b_swap d) c.reg (c.mem (c.reg rsp))
      × ((b_swap d).mem (c.reg rsp) ≡ c.mem (c.reg rsp))
      × Holds (b_swap d).mem (d.reg rdi) d.reg (d.mem (d.reg rsp))
      × ((x : ℕ) → x ≢ c.reg rsp → Outside (d.reg rdi) x → (b_swap d).mem x ≡ d.mem x)
b_swap-Resumes c d reg ret other can back kept can' =
    let left = b_swap-Swapped c reg ret other can.apart can.own can.from can.to in
    let held =
      Holds-kept (b_swap c).mem d.mem (c.reg rdi) c.reg (c.mem (c.reg rsp)) kept left.saved in
    let here = subst (λ p. Holds d.mem p c.reg (c.mem (c.reg rsp))) (sym back) held in
    let r = b_swap-Swapped d c.reg (c.mem (c.reg rsp)) here can'.apart can'.own can'.from can'.to in
    (r.resumes, r.ret_word, r.saved, r.others)
